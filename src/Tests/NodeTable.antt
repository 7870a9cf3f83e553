-- ===== src/Tests/NodeTable.antt =====
-- typed-fuse-core/src/runtime.rs: the inode table.
use typed_fuse.Base.{ℕ, ◌+◌, ◌≤◌, ◌<◌, ◌≡◌, refl, none, some, List, [], ◌∷◌, arith}
use typed_fuse.Base.Outcome.{ok}
use typed_fuse.Base.BTreeMap.{get, insert, remove}
use typed_fuse.Base.Order.{nat_key}
use typed_fuse.NodeTable.{
  maybe_drop, droppable, Slot, NodeTable, NodeRef, slot_at, root_table, new_slot, ref_to,
}
use typed_fuse.NodeTable.Cx
use typed_fuse.NodeTable.Counts
use typed_fuse.NodeTable.Effects.{free_at}
use typed_fuse.NodeTable.System.{Call, gets, inserts, removes_link, drops, run, start, step}
use typed_fuse.NodeTable.Identity.{IsUnique}
use typed_fuse.NodeTable.Reuse.{
  issued-IsUnique, lease-IsLive, no_leak, insert_takes_unused, forget_notifies,
}

-- A node is inserted, leased, unlinked and dropped, and its number is used again.
abbrev unlinked_while_leased : List (Call ℕ)
unlinked_while_leased = inserts 7 1 ∷ gets 2 ∷ removes_link 2 ∷ []

abbrev reuse : List (Call ℕ)
reuse = inserts 7 1 ∷ gets 2 ∷ removes_link 2 ∷ drops 0 ∷ inserts 8 1 ∷ []

abbrev busy_ref : NodeRef ℕ
busy_ref = record { id = 2; record_id = 1; payload = 7 }

reuse_history : (run reuse (start 0)).issued ≡ (2, 1) ∷ (2, 0) ∷ (1, 0) ∷ []
unfolding run step start root_table Cx.get Cx.insert Cx.remove_link Cx.drop_ref get insert remove
reuse_history = refl

issued-IsUnique_example : IsUnique (run reuse (start 0)).issued
issued-IsUnique_example = issued-IsUnique 0 reuse (omega arith)

lease-IsLive_example :
    (s : Slot ℕ) × (slot_at (run unlinked_while_leased (start 0)).table 2 ≡ some s)
    × (s.record_id ≡ 1)
    × (s.payload ≡ 7)
    × (1 ≤ s.leases)
unfolding run step start root_table Cx.get Cx.insert Cx.remove_link get insert remove
lease-IsLive_example = lease-IsLive 0 unlinked_while_leased 0 busy_ref (omega arith) refl

no_leak_example :
    ((i : ℕ) (s : Slot ℕ)
      → slot_at (run reuse (start 0)).table i ≡ some s
      → 0 < s.links + s.lookups + s.opens + s.leases)
    × ((i : ℕ)
        → 1 ≤ i
        → i < (run reuse (start 0)).table.next_ino
        → slot_at (run reuse (start 0)).table i ≡ none
        → (g : ℕ) × (free_at (run reuse (start 0)).table i ≡ some g))
no_leak_example = no_leak 0 reuse (omega arith)

insert_takes_unused_example :
    let t = (run unlinked_while_leased (start 0)).table in
    let (ino, u) = Cx.insert 9 1 t in
    (slot_at t ino ≡ none)
    × ((j : ℕ) → (j ≡ ino → ⊥) → slot_at u j ≡ slot_at t j)
    × ((g : ℕ) × (slot_at u ino ≡ some (new_slot t.next_record 9 g 1)))
insert_takes_unused_example = insert_takes_unused 0 unlinked_while_leased 9 1 (omega arith)

abbrev looked_up : Slot ℕ
looked_up = record (new_slot 1 7 0 1) { links = 0; lookups = 2 }

abbrev one_node : NodeTable ℕ
one_node = record { map = (2, looked_up) ∷ []; next_ino = 3; free = []; next_record = 2 }

forget_notifies_example :
    ((Counts.forget_lookups 2 2 one_node).0 ≡ ok (some (ref_to 2 looked_up)))
    × (slot_at (Counts.forget_lookups 2 2 one_node).1 2
        ≡ some (record looked_up { lookups = 0; leases = 1 }))
    × (slot_at (maybe_drop 2 (Counts.forget_lookups 2 2 one_node).1) 2
        ≡ some (record looked_up { lookups = 0; leases = 1 }))
unfolding get droppable
forget_notifies_example = forget_notifies 2 2 looked_up one_node refl (omega arith)
