-- ===== src/PathNodeFs/Creation.antt =====
-- `mknod`, `mkdir` and `symlink` of `PathNodeFs` when the filesystem succeeds
-- (typed-fuse-core/src/path_fs.rs).
use typed_fuse.Base.{
  ℕ, ◌+◌, ◌-◌, ◌≡◌, ◌≢◌, ◌<◌, refl, ap, ◌∙◌, none, some, List, eqb, if◌then◌else◌, arith, u32_max,
  u64_max, checked_succ,
}
use typed_fuse.Base.Outcome.{ok, Exec, pure, continue}
use typed_fuse.Base.Order.{nat_key, Bytes}
use typed_fuse.Base.BTreeMap.{get, insert, get-insert}
use typed_fuse.NodeTable.{NodeTable, NodeRef, Slot, slot_at, put, ref_to, touch, alloc, new_slot}
use typed_fuse.NodeTable.Cx
use typed_fuse.NodeTable.Effects.{slot_at-maybe_drop, slot_at-touch}
use typed_fuse.Namespace.{Dentry, dentry_key, PathNode, Namespace, add_alias, path_for}
use typed_fuse.Namespace
use typed_fuse.Listing.Replay.{PathEntry}
use typed_fuse.PathFilesystem.{PathNodeRef}
use typed_fuse.PathNodeFs.{
  World, set_entry_attr, entries_changed, at_path, path, depth_bound, then_drop,
}
use typed_fuse.PathNodeFs.Names.{State, on_node, add_node, in_directory}
use typed_fuse.PathNodeFs.Made.{with_ref-at}

module _ {N : Type 0} where
  abbrev pub leased : Slot N → Slot N
  leased s = record s { leases = s.leases + 1 }

  pub drop_ref_other :
      (r : NodeRef N) (t : NodeTable N) (i : ℕ)
      → r.id ≢ i
      → slot_at (Cx.drop_ref r t) i ≡ slot_at t i
  unfolding Cx.drop_ref
  drop_ref_other r t i differ =
      let f = λ (s : Slot N).
        if eqb s.record_id r.record_id then record s { leases = s.leases - 1 } else s in
      slot_at-maybe_drop r.id i (touch r.id f t) ∙ ground (arith, slot_at-touch r.id i f t)

module _ {S T : Type 0} (parent : ℕ) where
  -- The directory is there and has a path.
  pub in_directory-at :
      {A : Type 0} (f : PathNodeRef S → Exec (State S T) A) (t : NodeTable (PathNode S))
      (w : World S T) (p : Slot (PathNode S)) (above : List Bytes)
      → slot_at t parent ≡ some p
      → p.leases < u32_max
      → path_for (depth_bound w.namespace) w.namespace parent ≡ some above
      → in_directory parent f (t, w)
        ≡ then_drop
            (ref_to parent p)
            (f (at_path above p.payload) (put parent (leased p) t, entries_changed p.payload w))
  unfolding in_directory entries_changed path
  in_directory-at f t w p above here room found =
      with_ref-at parent _ t w p here room ∙ rw found refl

  -- A new name gets a new node, which keeps the attributes.
  module _ (name : Bytes) (entry : PathEntry S) (t : NodeTable (PathNode S)) (w : World S T) where
    abbrev pub new_node : PathNode S
    new_node = record { key = w.namespace.next_key; state = entry.state }

    abbrev pub new_id : ℕ
    new_id = (Cx.insert new_node parent t).0

    abbrev pub new_table : NodeTable (PathNode S)
    new_table = (Cx.insert new_node parent t).1

    abbrev pub made_slot : Slot (PathNode S)
    made_slot = new_slot (alloc t).1.next_record new_node (alloc t).0.1 parent

    abbrev pub new_names : Namespace
    new_names =
        add_alias new_id (record { parent = parent; name = name })
          (record w.namespace {
            keys = insert w.namespace.next_key new_id w.namespace.keys;
            next_key = w.namespace.next_key + 1;
          })

    pub made_slot-there : slot_at new_table new_id ≡ some made_slot
    unfolding Cx.insert alloc
    made_slot-there = get-insert (alloc t).0.0 (alloc t).0.0 _ (alloc t).1.map ∙ ground arith

    pub add_node-new :
        get (record { parent = parent; name = name }) w.namespace.by_name ≡ none
        → w.namespace.next_key < u64_max
        → add_node parent name entry (t, w) ≡ (
          ok new_id,
          (
            Cx.drop_ref (ref_to new_id made_slot) (put new_id (leased made_slot) new_table),
            set_entry_attr new_node entry.attr (record w { namespace = new_names }),
          ),
        )
    unfolding add_node Namespace.insert
    add_node-new unknown room =
        let next : checked_succ u64_max w.namespace.next_key ≡ some (w.namespace.next_key + 1) =
          ground arith in
        rw (unknown, next, add_node, Namespace.insert)
          (ap (λ r. continue r.0 (λ _. pure new_id) r.1)
            (with_ref-at new_id (λ node. on_node (set_entry_attr node entry.attr)) new_table
              (record w { namespace = new_names }) made_slot made_slot-there (omega arith)))
