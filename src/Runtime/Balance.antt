-- ===== src/Runtime/Balance.antt =====
-- Leases come back (typed-fuse-core/src/runtime.rs): what the scopes of `node`, `file`, `dir` and
-- `optional_file` leave of the tables.
pub mod Kept
pub mod Newest
pub mod Served
use typed_fuse.Base.{
  ℕ, zero, suc, ◌+◌, ◌-◌, ◌≡◌, refl, ap, sym, ◌∙◌, Bool, true, false, Option, none, some,
  Option-cases, Bool-cases, inl, inr, ◌⊎◌, subst, eqb, if◌then◌else◌, arith, checked_succ, u32_max,
  List, [], ◌∷◌,
}
use typed_fuse.Base.Outcome.{Outcome, ok, err, panic, Exec}
use typed_fuse.Base.Order.{nat_key}
use typed_fuse.Base.BTreeMap.{BTreeMap, get, insert, get-insert}
use typed_fuse.NodeTable.{
  NodeTable, NodeRef, Slot, slot_at, droppable, put, maybe_drop, touch, ref_to,
}
use typed_fuse.NodeTable.Cx
use typed_fuse.NodeTable.Effects.{slot_at-put, slot_at-touch, slot_at-maybe_drop}
use typed_fuse.Handles.{HandleRecord, HandleState, acquire, drop_lease}
use typed_fuse.NodeFs.{NodeFs}
use typed_fuse.Runtime.{State, call, with_node, holding, then_drop}
use typed_fuse.Runtime.Files.{
  with_state, drop_at, record_at, newest, lease_file, with_file, lease_dir, with_dir, with_newest,
  with_optional_file, has_opens,
}

-- No slot waits to be dropped, which is so between critical sections.
abbrev pub IsLive : {N : Type 0} → NodeTable N → Type 0
IsLive t = (i : ℕ) (s : Slot _) → slot_at t i ≡ some s → droppable s ≡ false

-- The same slots and the same open handles with the same counts.
abbrev pub Keeps : {N H D T : Type 0} → State N H D T → State N H D T → Type 0
Keeps s s' =
    ((j : ℕ) → slot_at s'.table j ≡ slot_at s.table j)
    × ((fh : ℕ) → get fh s'.handles.files ≡ get fh s.handles.files)
    × ((fh : ℕ) → get fh s'.handles.dirs ≡ get fh s.handles.dirs)

pub succ_value : (limit n m : ℕ) → checked_succ limit n ≡ some m → m ≡ n + 1
succ_value limit n m e = ground arith

module _ {N : Type 0} where
  unlease : ℕ → Slot N → Slot N
  unlease id s = if eqb s.record_id id then record s { leases = s.leases - 1 } else s

  unlease-back : (s : Slot N) → unlease s.record_id (record s { leases = s.leases + 1 }) ≡ s
  unfolding unlease
  unlease-back s =
      let same : eqb s.record_id s.record_id ≡ true = ground arith in
      let back : s.leases + 1 - 1 ≡ s.leases = omega arith in simp (same, back) refl

  touched :
      (id k : ℕ) (s : Slot N) (u : NodeTable N)
      → slot_at u id ≡ some (record s { leases = s.leases + 1 })
      → slot_at (touch id (unlease s.record_id) u) k ≡ (if eqb id k then some s else slot_at u k)
  touched id k s u here =
      slot_at-touch id k (unlease s.record_id) u ∙ ground (arith, here, unlease-back s)

  -- A lease that was added to a live slot is taken away.
  pub drop_ref_back :
      (id j : ℕ) (s : Slot N) (u : NodeTable N)
      → droppable s ≡ false
      → slot_at u id ≡ some (record s { leases = s.leases + 1 })
      → slot_at (Cx.drop_ref (ref_to id s) u) j ≡ (if eqb id j then some s else slot_at u j)
  unfolding Cx.drop_ref unlease
  drop_ref_back id j s u live here =
      slot_at-maybe_drop id j (touch id (unlease s.record_id) u)
      ∙ ground (arith, touched id id s u here, touched id j s u here)

  get_cases :
      (id : ℕ) (t : NodeTable N)
      → (Cx.get id t ≡ (ok none, t))
        ⊎ (Cx.get id t ≡ (panic, t))
        ⊎ ((s : Slot N) × (slot_at t id ≡ some s)
            × (Cx.get id t
                ≡ (ok (some (ref_to id s)), put id (record s { leases = s.leases + 1 }) t)))
  unfolding Cx.get
  get_cases id t = elim (Option-cases (slot_at t id)) [
    | inl gone ↦ inl (rw (gone, Cx.get) refl)
    | inr (s, here) ↦ elim (Option-cases (checked_succ u32_max s.leases)) [
      | inl full ↦ inr (inl (rw (here, full, Cx.get) refl))
      | inr (n, room) ↦ inr (
          inr (
            s,
            here,
            rw (here, room, Cx.get)
                (ap (λ (m : ℕ). (ok (some (ref_to id s)), put id (record s { leases = m }) t))
                  (succ_value u32_max s.leases n room)),
          ))
    ]
  ]

module _ {N H D T : Type 0} where
  pub Keeps-refl : (s : State N H D T) → Keeps s s
  Keeps-refl s = (λ j. refl, λ fh. refl, λ fh. refl)

  -- A request that resolves its node keeps every slot and handle if what it does with the
  -- node does.
  pub with_node-Keeps {ℓ} :
      {A : Type ℓ}
      → (ino : ℕ) (f : N → Exec (State N H D T) A) (s : State N H D T) → IsLive s.table
      → ((n : N) (u : State N H D T) → u.handles ≡ s.handles → Keeps u (f n u).1)
      → Keeps s (with_node ino f s).1
  unfolding with_node
  with_node-Keeps ino f s live h = elim (get_cases ino s.table) [
    | inl gone ↦ at (ok none, s.table) gone (Keeps-refl s)
    | inr (inl full) ↦ at (panic, s.table) full (Keeps-refl s)
    | inr (inr (slot, here, leased)) ↦ at _ leased (held slot here)
  ]
    where
      at :
          (r : Outcome (Option (NodeRef N)) × NodeTable N)
          → Cx.get ino s.table ≡ r
          → Keeps s (holding f r.0 (record s { table = r.1 })).1
          → Keeps s (with_node ino f s).1
      at r e k = subst (λ r. Keeps s (holding f r.0 (record s { table = r.1 })).1) (sym e) k

      held :
          (slot : Slot N)
          → slot_at s.table ino ≡ some slot
          → Keeps s
              (holding f
                (ok (some (ref_to ino slot)))
                (record s { table = put ino (record slot { leases = slot.leases + 1 }) s.table })).1
      held slot here =
          let u : State N H D T = record s {
            table = put ino (record slot { leases = slot.leases + 1 }) s.table;
          } in
          let (slots, files, dirs) = h slot.payload u refl in
          (
            λ j.
                drop_ref_back ino j slot (f slot.payload u).1.table (live ino slot here) (
                  slots ino
                  ∙ ground (
                    arith,
                    slot_at-put ino ino (record slot { leases = slot.leases + 1 }) s.table,
                  ))
                ∙ ground (
                  arith,
                  slots j,
                  slot_at-put ino j (record slot { leases = slot.leases + 1 }) s.table,
                  here,
                ),
            files,
            dirs,
          )
