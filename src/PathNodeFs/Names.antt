-- ===== src/PathNodeFs/Names.antt =====
-- typed-fuse-core/src/path_fs.rs: the methods of `PathNodeFs` that find, make, move and remove names.
use typed_fuse.Base.{ℕ, Bool, true, false, not, Option, none, some, eqb, if◌then◌else◌}
use typed_fuse.Base.Int.{ℤ}
use typed_fuse.Base.Outcome.{ok, eopnotsupp, Exec, pure, fail, ◌>>=◌}
use typed_fuse.Base.Order.{nat_key, Bytes}
use typed_fuse.NodeTable.{NodeTable}
use typed_fuse.NodeFs.{Caller, Opened}
use typed_fuse.Namespace.{Dentry, PathNode, Namespace}
use typed_fuse.Namespace
use typed_fuse.Listing.Replay.{PathEntry}
use typed_fuse.PathFilesystem.{PathFilesystem, PathNodeRef}
use typed_fuse.PathNodeFs.{
  World, entries_changed, set_entry_attr, path, call, at_path, on_world, with_ref,
}

abbrev pub State : Type 0 → Type 0 → Type 0
State S T = NodeTable (PathNode S) × World S T

module _ {S T : Type 0} where
  -- A critical section of the namespace's mutex.
  abbrev pub on_names {ℓ} :
      {A : Type ℓ} → Exec (Namespace × NodeTable (PathNode S)) A → Exec (State S T) A
  on_names f (t, w) =
      let (r, (ns, t')) = f (w.namespace, t) in (r, (t', record w { namespace = ns }))

  abbrev pub change_names :
      (Namespace × NodeTable (PathNode S) → Namespace × NodeTable (PathNode S))
      → Exec (State S T) (Unit {0})
  change_names f = on_names λ s. (ok tt, f s)

  abbrev pub on_node : (World S T → World S T) → Exec (State S T) (Unit {0})
  on_node f = on_world λ w. (ok tt, f w)

  unfoldable pub add_node : ℕ → Bytes → PathEntry S → Exec (State S T) ℕ
  unfolding Namespace.insert with_ref set_entry_attr
  add_node parent name entry = on_names (Namespace.insert parent name entry.state) >>= λ inserted.
      with_ref inserted.0 (λ node. on_node (set_entry_attr node entry.attr)) >>= λ _.
      pure inserted.0

  -- What the methods that change a directory's names begin with: the directory's lease, the change
  -- of its epoch and its path.
  unfoldable pub in_directory {ℓ} :
      {A : Type ℓ} → ℕ → (PathNodeRef S → Exec (State S T) A) → Exec (State S T) A
  unfolding with_ref entries_changed path
  in_directory parent f = with_ref parent λ node. on_node (entries_changed node) >>= λ _.
      on_world (path parent) >>= λ above. f (at_path above node)

module _ {S H D T : Type 0} (fs : PathFilesystem S H D T) where
  abbrev pub add_found : ℕ → Bytes → Option (PathEntry S) → Exec (State S T) (Option ℕ)
  add_found parent name none = pure none
  add_found parent name (some entry) = add_node parent name entry >>= λ id. pure (some id)

  unfoldable pub lookup : ℕ → Bytes → Caller → Exec (State S T) (Option ℕ)
  unfolding with_ref path add_node
  lookup parent name caller = with_ref parent λ node. on_world (path parent) >>= λ above.
      on_world (call (fs.lookup (at_path above node) name caller)) >>= add_found parent name

  unfoldable pub mknod : ℕ → Bytes → ℕ → ℕ → ℕ → Caller → Exec (State S T) ℕ
  unfolding in_directory add_node
  mknod parent name mode rdev umask caller =
      in_directory parent
        λ r. on_world (call (fs.mknod r name mode rdev umask caller)) >>= add_node parent name

  unfoldable pub mkdir : ℕ → Bytes → ℕ → ℕ → Caller → Exec (State S T) ℕ
  unfolding in_directory add_node
  mkdir parent name mode umask caller =
      in_directory parent
        λ r. on_world (call (fs.mkdir r name mode umask caller)) >>= add_node parent name

  unfoldable pub symlink : ℕ → Bytes → Bytes → Caller → Exec (State S T) ℕ
  unfolding in_directory add_node
  symlink parent name target caller =
      in_directory parent
        λ r. on_world (call (fs.symlink r name target caller)) >>= add_node parent name

  unfoldable pub create : ℕ → Bytes → ℕ → ℕ → ℤ → Caller → Exec (State S T) (ℕ × Opened H)
  unfolding in_directory add_node
  create parent name mode umask flags caller = in_directory parent λ r.
      on_world (call (fs.create r name mode umask flags caller)) >>= λ made.
      add_node parent name made.0 >>= λ id. pure (id, made.1)

  unfoldable pub remove_entry : ℕ → Bytes → Caller → Bool → Exec (State S T) (Unit {0})
  unfolding in_directory Namespace.rollback_dentry
  remove_entry parent name caller is_directory = in_directory parent λ r.
      on_world (call (if is_directory then fs.rmdir r name caller else fs.unlink r name caller))
      >>= λ _. change_names (Namespace.rollback_dentry (record { parent = parent; name = name }))

  unfoldable pub unlink : ℕ → Bytes → Caller → Exec (State S T) (Unit {0})
  unfolding remove_entry
  unlink parent name caller = remove_entry parent name caller false

  unfoldable pub rmdir : ℕ → Bytes → Caller → Exec (State S T) (Unit {0})
  unfolding remove_entry
  rmdir parent name caller = remove_entry parent name caller true

  -- `rename` without flags.
  unfoldable pub renaming : Dentry → Dentry → Caller → Exec (State S T) (Unit {0})
  unfolding with_ref entries_changed path Namespace.move_name
  renaming old new caller = with_ref old.parent λ old_node. with_ref new.parent λ new_node.
      on_node (entries_changed old_node) >>= λ _. on_node (entries_changed new_node) >>= λ _.
      on_world (path old.parent) >>= λ old_path. on_world (path new.parent) >>= λ new_path.
      on_world (
        call (
          fs.rename (at_path old_path old_node) old.name (at_path new_path new_node) new.name
            caller))
      >>= λ _. change_names (Namespace.move_name old new)

  unfoldable pub rename : ℕ → Bytes → ℕ → Bytes → ℕ → Caller → Exec (State S T) (Unit {0})
  unfolding renaming
  rename parent name newparent newname flags caller =
      if not (eqb flags 0)
      then fail eopnotsupp
      else renaming (record { parent = parent; name = name })
          (record { parent = newparent; name = newname }) caller

  unfoldable pub link : ℕ → ℕ → Bytes → Caller → Exec (State S T) ℕ
  unfolding with_ref entries_changed path Namespace.link_name
  link id newparent newname caller = with_ref id λ source_node. with_ref newparent λ parent_node.
      on_node (entries_changed parent_node) >>= λ _. on_world (path id) >>= λ source.
      on_world (path newparent) >>= λ above.
      on_world
        (call (fs.link (at_path source source_node) (at_path above parent_node) newname caller))
      >>= λ _. on_names (Namespace.link_name id (record { parent = newparent; name = newname }))
