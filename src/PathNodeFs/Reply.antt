-- ===== src/PathNodeFs/Reply.antt =====
-- `mknod`, `mkdir` and `symlink` of `Runtime` over `PathNodeFs` (typed-fuse-core/src/runtime.rs and
-- typed-fuse-core/src/path_fs.rs): the whole way from the request to the reply.
use typed_fuse.Base.{
  ℕ, ◌≡◌, ◌≢◌, ◌<◌, refl, ap, sym, subst, ◌∙◌, none, some, List, arith, u32_max, u64_max,
}
use typed_fuse.Base.Outcome.{ok, Exec, continue, ◌>>=◌}
use typed_fuse.Base.Order.{nat_key, Bytes}
use typed_fuse.Base.BTreeMap.{get-insert}
use typed_fuse.Attr.{NodeAttr}
use typed_fuse.NodeTable.{NodeTable, Slot, slot_at, put, ref_to, alloc, droppable}
use typed_fuse.NodeTable.Cx
use typed_fuse.NodeTable.Effects.{slot_at-put}
use typed_fuse.NodeFs.{Caller}
use typed_fuse.Namespace.{Dentry, dentry_key, PathNode, Namespace, path_for}
use typed_fuse.Namespace
use typed_fuse.Listing.Replay.{PathEntry}
use typed_fuse.PathFilesystem.{PathFilesystem, PathNodeRef}
use typed_fuse.PathNodeFs.{
  World, cell_of, set_entry_attr, take_entry_attr, entries_changed, call, at_path, depth_bound,
  on_world, then_drop, PathDirHandle,
}
use typed_fuse.PathNodeFs.Nodes.{entry_attr}
use typed_fuse.PathNodeFs.Names
use typed_fuse.PathNodeFs.Names.{add_node, in_directory}
use typed_fuse.PathNodeFs.Adapter.{adapt}
use typed_fuse.PathNodeFs.Requests.{view, bind}
use typed_fuse.PathNodeFs.Creation.{
  leased, drop_ref_other, in_directory-at, new_node, new_id, new_table, made_slot, new_names,
  add_node-new,
}
use typed_fuse.Runtime.{State, call_cx}
use typed_fuse.Runtime.Balance.{drop_ref_back}
use typed_fuse.Runtime.Entries
use typed_fuse.Runtime.Entries.{EntryReply, entry_for}
use typed_fuse.Runtime.Lookups.{entry_for-at, entered_table, entered_slot, with_lookup}

-- The requests that make a name and answer its entry.
pub data Making : Type 0 where
  node : ℕ → ℕ → ℕ → Making
  dir : ℕ → ℕ → Making
  symbolic_link : Bytes → Making

module _ {S H D T : Type 0} (fs : PathFilesystem S H D T) where
  -- What the filesystem is asked, and the request of `Runtime`.
  abbrev pub make : Making → PathNodeRef S → Bytes → Caller → Exec T (PathEntry S)
  make (node mode rdev umask) r name caller = fs.mknod r name mode rdev umask caller
  make (dir mode umask) r name caller = fs.mkdir r name mode umask caller
  make (symbolic_link target) r name caller = fs.symlink r name target caller

  abbrev pub serve_making :
      Making
      → ℕ
      → Bytes
      → Caller
      → Exec (State (PathNode S) H (PathDirHandle D) (World S T)) EntryReply
  serve_making (node mode rdev umask) parent name caller =
      Entries.mknod (adapt fs) parent name mode rdev umask caller
  serve_making (dir mode umask) parent name caller =
      Entries.mkdir (adapt fs) parent name mode umask caller
  serve_making (symbolic_link target) parent name caller =
      Entries.symlink (adapt fs) parent name target caller

  abbrev making : Making → ℕ → Bytes → Caller → Exec (NodeTable (PathNode S) × World S T) ℕ
  making m parent name caller =
      in_directory parent λ r. on_world (call (make m r name caller)) >>= add_node parent name

  serve_making_lem :
      (m : Making) (parent : ℕ) (name : Bytes) (caller : Caller)
      (s : State (PathNode S) H (PathDirHandle D) (World S T))
      → serve_making m parent name caller s
        ≡ (call_cx (making m parent name caller) >>= λ id. entry_for (adapt fs) id caller) s
  unfolding Entries.mknod Entries.mkdir Entries.symlink Names.mknod Names.mkdir Names.symlink
  serve_making_lem (node mode rdev umask) parent name caller s = refl
  serve_making_lem (dir mode umask) parent name caller s = refl
  serve_making_lem (symbolic_link target) parent name caller s = refl

  -- The attributes that were kept are given once, with no call of the filesystem.
  entry_attr-kept :
      (n : PathNode S) (attr : NodeAttr) (caller : Caller) (w : World S T)
      → (w' : World S T) × (entry_attr fs n caller (set_entry_attr n attr w) ≡ (ok attr, w'))
        × (w'.inner ≡ w.inner)
        × (w'.namespace ≡ w.namespace)
  unfolding entry_attr set_entry_attr take_entry_attr cell_of
  entry_attr-kept n attr caller w =
      let there =
        get-insert n.key n.key (record (cell_of n w) { entry_attr = some attr }) w.cells in
      ((take_entry_attr n (set_entry_attr n attr w)).1, ground (arith, there), refl, refl)

  making-made :
      (m : Making) (parent : ℕ) (name : Bytes) (caller : Caller) (t : NodeTable (PathNode S))
      (w : World S T) (p : Slot (PathNode S)) (above : List Bytes) (entry : PathEntry S) (inner : T)
      → slot_at t parent ≡ some p
      → p.leases < u32_max
      → path_for (depth_bound w.namespace) w.namespace parent ≡ some above
      → make m (at_path above p.payload) name caller w.inner ≡ (ok entry, inner)
      → making m parent name caller (t, w)
        ≡ then_drop (ref_to parent p) (
            add_node parent name entry
              (put parent (leased p) t, record (entries_changed p.payload w) { inner = inner }))
  unfolding entries_changed
  making-made m parent name caller t w p above entry inner here room found made =
      let w1 = entries_changed p.payload w in
      in_directory-at parent _ t w p above here room found
      ∙ ap
          (λ r. then_drop (ref_to parent p) (
            continue r.0 (add_node parent name)
              (put parent (leased p) t, record w1 { inner = r.1 })))
          made

module _ {S : Type 0} where
  -- The number of a new node does not depend on the slots that are there.
  alloc-put :
      (i : ℕ) (s : Slot (PathNode S)) (t : NodeTable (PathNode S))
      → (alloc (put i s t)).0 ≡ (alloc t).0
  unfolding alloc
  alloc-put i s t = ground arith

  new_slot-live :
      {T : Type 0} (parent : ℕ) (name : Bytes) (entry : PathEntry S) (t : NodeTable (PathNode S))
      (w : World S T) (p : Slot (PathNode S))
      → (alloc t).0.0 ≢ parent
      → let id = new_id parent name entry t w in
        let slot = made_slot parent name entry t w in
        slot_at
          (Cx.drop_ref
            (ref_to parent p)
            (Cx.drop_ref (ref_to id slot) (put id (leased slot) (new_table parent name entry t w))))
          id
        ≡ some slot
  unfolding droppable Cx.insert
  new_slot-live parent name entry t w p fresh =
      let id = new_id parent name entry t w in
      let slot = made_slot parent name entry t w in
      let u = new_table parent name entry t w in
      drop_ref_other (ref_to parent p) _ id (λ e. fresh (sym e))
      ∙ drop_ref_back id id slot (put id (leased slot) u) (ground arith)
          (slot_at-put id id (leased slot) u ∙ ground arith)
      ∙ ground arith

module _ {S H D T : Type 0} (fs : PathFilesystem S H D T) (m : Making) (parent : ℕ) (name : Bytes)
    (caller : Caller) (s : State (PathNode S) H (PathDirHandle D) (World S T)) where
  -- The filesystem makes a name that is not known yet, in a directory that is there and has a path.
  -- Then the reply carries the number and the generation that the inode table hands out next and
  -- the attributes that the filesystem returned, with no further call of it; the name refers to the
  -- new node and no other name changes, and the kernel's lookup is counted.
  pub making_replies :
      (p : Slot (PathNode S)) (above : List Bytes) (entry : PathEntry S) (inner : T)
      → slot_at s.table parent ≡ some p
      → p.leases < u32_max
      → path_for (depth_bound s.world.namespace) s.world.namespace parent ≡ some above
      → make fs m (at_path above p.payload) name caller s.world.inner ≡ (ok entry, inner)
      → view s.world.namespace (record { parent = parent; name = name }) ≡ none
      → s.world.namespace.next_key < u64_max
      → (alloc s.table).0.0 ≢ parent
      → let (id, generation) = (alloc s.table).0 in
        let (r, s') = serve_making fs m parent name caller s in
        (r ≡ ok (record { ino = id; generation = generation; attr = entry.attr }))
        × (s'.world.inner ≡ inner)
        × ((e : Dentry)
            → view s'.world.namespace e
              ≡ bind (record { parent = parent; name = name }) id (view s.world.namespace) e)
        × ((slot : Slot (PathNode S)) × (slot_at s'.table id ≡ some slot)
            × (slot.lookups ≡ 1)
            × (slot.parent ≡ parent)
            × (slot.payload.state ≡ entry.state))
  unfolding Cx.insert Namespace.add_alias entries_changed
  making_replies p above entry inner here room found made unknown keys fresh =
      let d : Dentry = record { parent = parent; name = name } in
      let answer : ℕ × ℕ → EntryReply =
        λ x. record { ino = x.0; generation = x.1; attr = entry.attr } in
      let t1 = put parent (leased p) s.table in
      let w1 = record (entries_changed p.payload s.world) { inner = inner } in
      let same = alloc-put parent (leased p) s.table in
      let fresh1 : (alloc t1).0.0 ≢ parent = subst (λ (x : ℕ × ℕ). x.0 ≢ parent) (sym same) fresh in
      let id = new_id parent name entry t1 w1 in
      let slot = made_slot parent name entry t1 w1 in
      let u = put id (leased slot) (new_table parent name entry t1 w1) in
      let t3 = Cx.drop_ref (ref_to parent p) (Cx.drop_ref (ref_to id slot) u) in
      let w2 = record w1 { namespace = new_names parent name entry t1 w1 } in
      let w3 = set_entry_attr (new_node parent name entry t1 w1) entry.attr w2 in
      let s3 : State (PathNode S) H (PathDirHandle D) (World S T) = record {
        table = t3;
        handles = s.handles;
        world = w3;
      } in
      let (w4, kept, inner_same, names_same) =
        entry_attr-kept fs (new_node parent name entry t1 w1) entry.attr caller w2 in
      let there = new_slot-live parent name entry t1 w1 p fresh1 in
      let whole =
        serve_making_lem fs m parent name caller s
        ∙ ap
            (λ r.
              continue r.0 (λ id. entry_for (adapt fs) id caller)
                (record s { table = r.1.0; world = r.1.1 }))
            (making-made fs m parent name caller s.table s.world p above entry inner here room found
                made
              ∙ ap (then_drop (ref_to parent p))
                  (add_node-new parent name entry t1 w1 unknown keys))
        ∙ entry_for-at (adapt fs) id caller s3 slot entry.attr w4 there (omega arith) (omega arith)
            kept in
      (
        ap (λ x. x.0) whole ∙ ap (λ x. ok (answer x)) same,
        ap (λ x. x.1.world.inner) whole ∙ inner_same,
        (λ e.
            ap (λ x. view x.1.world.namespace e) whole
            ∙ ap (λ n. view n e) names_same
            ∙ get-insert d e id s.world.namespace.by_name
            ∙ ap (λ (x : ℕ × ℕ). bind d x.0 (view s.world.namespace) e) same),
        (
          with_lookup slot,
          ap (λ x. slot_at x.1.table (alloc s.table).0.0) whole
              ∙ subst
                  (λ (x : ℕ × ℕ). slot_at (entered_table id slot t3) x.0 ≡ some (with_lookup slot))
                  same (entered_slot id slot t3 there id ∙ ground arith),
          refl,
          refl,
          refl,
        ),
      )
