-- ===== src/NodeTable/Effects.antt =====
-- What the table's steps do to the slot and to the free entry of each inode number.
use typed_fuse.Base.{
  ℕ, ◌+◌, ◌%◌, ◌≡◌, Bool, false, Option, none, some, Option-cases, inl, inr, arith, eqb,
  if◌then◌else◌, u64_mod,
}
use typed_fuse.Base.Order.{nat_key}
use typed_fuse.Base.BTreeMap.{get, get-insert, get-remove}
use typed_fuse.NodeTable.{Slot, NodeTable, slot_at, droppable, maybe_drop, touch, put}

-- The generation that waits on the free stack for this number.
abbrev pub free_at : {N : Type 0} → NodeTable N → ℕ → Option ℕ
free_at t ino = get ino t.free

-- Whether `maybe_drop` would reclaim the slot.
abbrev pub is_dead : {N : Type 0} → Option (Slot N) → Bool
is_dead none = false
is_dead (some s) = droppable s

abbrev pub next_generation : {N : Type 0} → Option (Slot N) → Option ℕ
next_generation none = none
next_generation (some s) = some ((s.generation + 1) % u64_mod)

abbrev pub mapped : {N : Type 0} → (Slot N → Slot N) → Option (Slot N) → Option (Slot N)
mapped f none = none
mapped f (some s) = some (f s)

module _ {N : Type 0} where
  pub slot_at-put :
      (i j : ℕ) (s : Slot N) (t : NodeTable N)
      → slot_at (put i s t) j ≡ (if eqb i j then some s else slot_at t j)
  slot_at-put i j s t = get-insert i j s t.map

  pub slot_at-touch :
      (i j : ℕ) (f : Slot N → Slot N) (t : NodeTable N)
      → slot_at (touch i f t) j ≡ (if eqb i j then mapped f (slot_at t i) else slot_at t j)
  unfolding touch
  slot_at-touch i j f t = elim (Option-cases (slot_at t i)) [
    | inl e ↦ rw (e, touch) (ground arith)
    | inr (s, e) ↦ rw (e, touch) (get-insert i j (f s) t.map)
  ]

  pub slot_at-maybe_drop :
      (i j : ℕ) (t : NodeTable N)
      → slot_at (maybe_drop i t) j
        ≡ (if eqb i j then if is_dead (slot_at t i) then none else slot_at t i else slot_at t j)
  unfolding maybe_drop
  slot_at-maybe_drop i j t = ground (arith, get-remove i j t.map)

  pub free_at-maybe_drop :
      (i j : ℕ) (t : NodeTable N)
      → free_at (maybe_drop i t) j ≡ (
          if eqb i j
          then if is_dead (slot_at t i) then next_generation (slot_at t i) else free_at t j
          else free_at t j)
  unfolding maybe_drop get
  free_at-maybe_drop i j t = ground arith
