-- ===== src/PathNodeFs/Steps.antt =====
-- Each request of `PathNodeFs` step by step, as what it does to the names
-- (typed-fuse-core/src/path_fs.rs).
use typed_fuse.Base.{
  ℕ, refl, Bool, not, Option, none, some, List, eqb, if◌then◌else◌, Bool-cases, inl, inr,
}
use typed_fuse.Base.Outcome.{Exec, pure, ◌>>=◌}
use typed_fuse.Base.Order.{Bytes}
use typed_fuse.Namespace.{Dentry, PathNode, Namespace, new_namespace}
use typed_fuse.Namespace
use typed_fuse.Listing.Replay.{PathEntry}
use typed_fuse.NodeFs.{Caller}
use typed_fuse.PathFilesystem.{PathFilesystem, PathNodeRef}
use typed_fuse.PathNodeFs.{entries_changed, path, call, at_path, on_world, with_ref}
use typed_fuse.PathNodeFs.Names.{
  State, on_names, change_names, on_node, add_node, add_found, in_directory, remove_entry,
}
use typed_fuse.PathNodeFs.Names
use typed_fuse.PathNodeFs.Post.{
  Post, mapped-Post, with_ref-Post, called-Post, path-Post, changed-Post, in_directory-Post,
}
use typed_fuse.PathNodeFs.Requests.{View, bind, bind_found, unbind, move}
use typed_fuse.PathNodeFs.Honours.{
  Honours, Always, Honours-Stays, Honours-map, add_node-Honours, rollback-Honours, move-Honours,
  IsFree, link-Honours,
}

module _ {S T A B : Type 0} where
  -- A request that answers what is made of its result.
  pub answering-Post :
      (Safe : Namespace → Type 0) (g : A → B) (change : B → View → View) (m : Exec (State S T) A)
      → Post (Honours Safe (λ a. change (g a))) m
      → Post (Honours Safe change) (m >>= λ a. pure (g a))
  answering-Post Safe g change m h =
      mapped-Post (Honours Safe change) g m
        λ s. Honours-map Safe g change s.1.namespace (m s).0 (m s).1.1.namespace (h s)

  -- A call of the filesystem in a directory whose names it changes.
  pub calling-Post :
      (change : B → View → View) (parent : ℕ) (ask : PathNodeRef S → Exec T A)
      (k : A → Exec (State S T) B)
      → ((a : A) → Post (Honours Always change) (k a))
      → Post (Honours Always change) (in_directory parent λ r. on_world (call (ask r)) >>= k)
  calling-Post change parent ask k h =
      let stays = Honours-Stays Always change in
      in_directory-Post (Honours Always change) parent (λ r. on_world (call (ask r)) >>= k) stays
        λ r. called-Post (Honours Always change) (ask r) k stays h

module _ {S H D T : Type 0} (fs : PathFilesystem S H D T) where
  found-Post :
      (parent : ℕ) (name : Bytes) (o : Option (PathEntry S))
      → Post
          (Honours Always (bind_found (record { parent = parent; name = name })))
          (add_found fs parent name o)
  found-Post parent name none = λ s. ((λ e. refl), λ _ v. v)
  found-Post parent name (some entry) =
      answering-Post Always (λ id. some id) (bind_found (record { parent = parent; name = name }))
        (add_node parent name entry) (add_node-Honours parent name entry)

  pub lookup-Post :
      (parent : ℕ) (name : Bytes) (caller : Caller)
      → Post
          (Honours Always (bind_found (record { parent = parent; name = name })))
          (Names.lookup fs parent name caller)
  unfolding Names.lookup
  lookup-Post parent name caller =
      let change = bind_found (record { parent = parent; name = name }) in
      let stays = Honours-Stays Always change in
      let ask = λ (node : PathNode S) (above : List Bytes).
        on_world (call (fs.lookup (at_path above node) name caller)) >>= add_found fs parent name in
      with_ref-Post (Honours Always change) parent (λ node. on_world (path parent) >>= ask node)
        stays
        λ node. path-Post (Honours Always change) parent (ask node) stays λ above.
          called-Post (Honours Always change) (fs.lookup (at_path above node) name caller)
            (add_found fs parent name) stays (found-Post parent name)

  pub remove-Post :
      (parent : ℕ) (name : Bytes) (caller : Caller) (is_directory : Bool)
      → Post
          (Honours Always (λ _. unbind (record { parent = parent; name = name })))
          (remove_entry fs parent name caller is_directory)
  unfolding remove_entry
  remove-Post parent name caller is_directory =
      let d : Dentry = record { parent = parent; name = name } in
      calling-Post (λ _. unbind d) parent
        (λ r. if is_directory then fs.rmdir r name caller else fs.unlink r name caller)
        (λ _. change_names (Namespace.rollback_dentry d)) (λ _. rollback-Honours d)

  renaming-Post :
      (old new : Dentry) (caller : Caller)
      → Post (Honours Always (λ _. move old new)) (Names.renaming fs old new caller)
  unfolding Names.renaming
  renaming-Post old new caller =
      let change : Unit {0} → View → View = λ _. move old new in
      let Q = Honours Always change in
      let stays = Honours-Stays Always change in
      let moved = λ (_ : Unit {0}). change_names (Namespace.move_name old new) in
      let ask = λ (a b : PathNode S) (above below : List Bytes).
        fs.rename (at_path above a) old.name (at_path below b) new.name caller in
      let rest = λ (a b : PathNode S) (above below : List Bytes).
        on_world (call (ask a b above below)) >>= moved in
      let to =
        λ (a b : PathNode S) (above : List Bytes). on_world (path new.parent) >>= rest a b above in
      let from = λ (a b : PathNode S). on_world (path old.parent) >>= to a b in
      let second = λ (a b : PathNode S). on_node (entries_changed b) >>= λ _. from a b in
      let first = λ (a b : PathNode S). on_node (entries_changed a) >>= λ _. second a b in
      with_ref-Post Q old.parent (λ a. with_ref new.parent (first a)) stays
        λ a. with_ref-Post Q new.parent (first a) stays λ b. changed-Post Q a (second a b) stays (
          changed-Post Q b (from a b) stays (
            path-Post Q old.parent (to a b) stays λ above.
              path-Post Q new.parent (rest a b above) stays λ below.
                called-Post Q (ask a b above below) moved stays (λ _. move-Honours old new)))

  pub rename-Post :
      (parent : ℕ) (name : Bytes) (newparent : ℕ) (newname : Bytes) (flags : ℕ) (caller : Caller)
      → Post
          (Honours Always (λ _.
            move
              (record { parent = parent; name = name })
              (record { parent = newparent; name = newname })))
          (Names.rename fs parent name newparent newname flags caller)
  unfolding Names.rename
  rename-Post parent name newparent newname flags caller = elim (Bool-cases (not (eqb flags 0))) [
    | inl refused ↦ λ s. rw refused ((λ e. refl), λ _ v. v)
    | inr plain ↦ λ s. rw plain (
        renaming-Post (record { parent = parent; name = name })
          (record { parent = newparent; name = newname }) caller s)
  ]

  pub link-Post :
      (id newparent : ℕ) (newname : Bytes) (caller : Caller)
      → Post
          (Honours
            (IsFree id (record { parent = newparent; name = newname }))
            (bind (record { parent = newparent; name = newname })))
          (Names.link fs id newparent newname caller)
  unfolding Names.link
  link-Post id newparent newname caller =
      let d : Dentry = record { parent = newparent; name = newname } in
      let Q = Honours (IsFree id d) (bind d) in
      let stays = Honours-Stays (IsFree id d) (bind d) in
      let linked = λ (_ : _). on_names (Namespace.link_name id d) in
      let ask = λ (source_node node : PathNode S) (source above : List Bytes).
        fs.link (at_path source source_node) (at_path above node) newname caller in
      let rest = λ (source_node node : PathNode S) (source above : List Bytes).
        on_world (call (ask source_node node source above)) >>= linked in
      let paths = λ (source_node node : PathNode S). on_world (path id) >>= λ source.
      on_world (path newparent) >>= rest source_node node source in
      with_ref-Post Q id
        (λ source_node.
          with_ref newparent λ node. on_node (entries_changed node) >>= λ _. paths source_node node)
        stays
        λ source_node.
          with_ref-Post Q newparent
            (λ node. on_node (entries_changed node) >>= λ _. paths source_node node) stays
            λ node. changed-Post Q node (paths source_node node) stays (
              path-Post Q id (λ source. on_world (path newparent) >>= rest source_node node source)
                stays
                λ source. path-Post Q newparent (rest source_node node source) stays λ above.
                  called-Post Q (ask source_node node source above) linked stays
                    (λ _. link-Honours id d))
