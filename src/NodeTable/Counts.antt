-- ===== src/NodeTable/Counts.antt =====
-- typed-fuse-core/src/runtime.rs: what the request methods of `Runtime` do to the table's counters:
-- the last section of `entry_for`, `retain_lookup`, `plus_entry`, the first section of `forget`,
-- `add_open` and `remove_open`.
use typed_fuse.Base.{
  ℕ, ◌-◌, not, ◌&&◌, Option, none, some, eqb, if◌then◌else◌, checked_succ, u32_max, u64_max,
}
use typed_fuse.Base.Outcome.{ok, err, panic, enoent, Exec}
use typed_fuse.NodeTable.{NodeTable, NodeRef, slot_at, maybe_drop, touch, ref_to, put}

module _ {N : Type 0} where
  -- `entry_for` after the attributes are known; the result is the generation for the reply.
  unfoldable pub retain_entry : ℕ → Exec (NodeTable N) ℕ
  retain_entry id t = elim (slot_at t id) [
    | none ↦ (err enoent, t)
    | some s ↦ elim (checked_succ u64_max s.lookups) [
      | none ↦ (panic, t)
      | some n ↦ (ok s.generation, put id (record s { lookups = n }) t)
    ]
  ]

  unfoldable pub retain_lookup : ℕ → Exec (NodeTable N) (Unit {0})
  retain_lookup id t = elim (slot_at t id) [
    | none ↦ (err enoent, t)
    | some s ↦ elim (checked_succ u64_max s.lookups) [
      | none ↦ (panic, t)
      | some n ↦ (ok tt, put id (record s { lookups = n }) t)
    ]
  ]

  -- The generation for the reply.
  unfoldable pub plus_entry : ℕ → Exec (NodeTable N) ℕ
  plus_entry id t = elim (slot_at t id) [ none ↦ (err enoent, t) | some s ↦ (ok s.generation, t) ]

  -- The lookups are returned. On a transition to zero the slot is leased for the filesystem's
  -- `forget`; otherwise the caller looks next, in a section of its own, whether the slot can go.
  unfoldable pub forget_lookups : ℕ → ℕ → Exec (NodeTable N) (Option (NodeRef N))
  forget_lookups ino nlookup t = elim (slot_at t ino) [
    | none ↦ (ok none, t)
    | some s ↦
        let left = s.lookups - nlookup in
        if not (eqb s.lookups 0) && eqb left 0
        then elim (checked_succ u32_max s.leases) [
          | none ↦ (panic, put ino (record s { lookups = left }) t)
          | some n ↦ (ok (some (ref_to ino s)), put ino (record s { lookups = left; leases = n }) t)
        ]
        else (ok none, put ino (record s { lookups = left }) t)
  ]

  unfoldable pub add_open : ℕ → Exec (NodeTable N) (Unit {0})
  add_open ino t = elim (slot_at t ino) [
    | none ↦ (err enoent, t)
    | some s ↦ elim (checked_succ u32_max s.opens) [
      | none ↦ (panic, t)
      | some n ↦ (ok tt, put ino (record s { opens = n }) t)
    ]
  ]

  unfoldable pub remove_open : ℕ → NodeTable N → NodeTable N
  unfolding touch maybe_drop
  remove_open ino t = maybe_drop ino (touch ino (λ s. record s { opens = s.opens - 1 }) t)
