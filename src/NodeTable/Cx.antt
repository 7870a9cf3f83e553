-- ===== src/NodeTable/Cx.antt =====
-- typed-fuse-core/src/runtime.rs: the methods of `Cx`, and the drop of a `NodeRef`.
use typed_fuse.Base.{
  ℕ, ◌+◌, ◌-◌, Bool, true, false, Option, none, some, eqb, if◌then◌else◌, checked_succ, u32_max,
}
use typed_fuse.Base.Outcome.{ok, panic, Exec}
use typed_fuse.Base.Order.{nat_key}
use typed_fuse.Base.BTreeMap
use typed_fuse.NodeTable.{
  NodeTable, NodeRef, slot_at, alloc, maybe_drop, touch, ref_to, new_slot, put,
}

module _ {N : Type 0} where
  unfoldable pub get : ℕ → Exec (NodeTable N) (Option (NodeRef N))
  get id t = elim (slot_at t id) [
    | none ↦ (ok none, t)
    | some s ↦ elim (checked_succ u32_max s.leases) [
      | none ↦ (panic, t)
      | some n ↦ (ok (some (ref_to id s)), put id (record s { leases = n }) t)
    ]
  ]

  pub contains : ℕ → NodeTable N → Bool
  contains id t = elim (slot_at t id) [ none ↦ false | some s ↦ true ]

  unfoldable pub insert : N → ℕ → NodeTable N → ℕ × NodeTable N
  unfolding alloc
  insert payload parent t =
      let ((ino, generation), t') = alloc t in
      (
        ino,
        record t' {
          map = BTreeMap.insert ino (new_slot t'.next_record payload generation parent) t'.map;
          next_record = t'.next_record + 1;
        },
      )

  unfoldable pub reparent : ℕ → ℕ → NodeTable N → NodeTable N
  unfolding touch
  reparent id new_parent = touch id (λ s. record s { parent = new_parent })

  unfoldable pub add_link : ℕ → Exec (NodeTable N) (Unit {0})
  add_link id t = elim (slot_at t id) [
    | none ↦ (ok tt, t)
    | some s ↦ elim (checked_succ u32_max s.links) [
      | none ↦ (panic, t)
      | some n ↦ (ok tt, put id (record s { links = n }) t)
    ]
  ]

  unfoldable pub remove_link : ℕ → NodeTable N → NodeTable N
  unfolding touch maybe_drop
  remove_link id t = maybe_drop id (touch id (λ s. record s { links = s.links - 1 }) t)

  -- `Drop for NodeRef`
  unfoldable pub drop_ref : NodeRef N → NodeTable N → NodeTable N
  unfolding touch maybe_drop
  drop_ref r t = maybe_drop r.id (
      touch r.id
        (λ s. if eqb s.record_id r.record_id then record s { leases = s.leases - 1 } else s) t)
