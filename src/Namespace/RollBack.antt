-- ===== src/Namespace/RollBack.antt =====
-- typed-fuse-core/src/path_fs.rs: `Namespace::insert`, taken back by `rollback_dentry`.
use typed_fuse.Base.{
  subst, ℕ, ◌+◌, ◌-◌, ◌<◌, ◌≡◌, refl, ◌∙◌, Bool, true, false, none, some, eqb, if◌then◌else◌, arith,
  checked_succ, u64_max,
}
use typed_fuse.Base.Outcome.{Outcome, ok}
use typed_fuse.Base.Order.{nat_key, Bytes, ◌==◌}
use typed_fuse.Base.BTreeMap.{get, insert, get-insert}
use typed_fuse.NodeTable.{NodeTable, Slot, slot_at, alloc, touch, droppable, new_slot}
use typed_fuse.NodeTable.Cx
use typed_fuse.NodeTable.Effects.{slot_at-maybe_drop, slot_at-touch}
use typed_fuse.Namespace.{Dentry, dentry_key, PathNode, Namespace, add_alias}
use typed_fuse.Namespace
use typed_fuse.Namespace.Consistent.{
  named, IsConsistent, insert-IsConsistent, remove-IsConsistent, by_name-remove,
}

-- The second is as the first: every name with its node, every node with its names, and every slot.
pub record IsRestored {S : Type 0} (s s' : Namespace × NodeTable (PathNode S)) : Type 0 where
  pub by_name : (d : Dentry) → get d s'.0.by_name ≡ get d s.0.by_name
  pub aliases : (id : ℕ) (d : Dentry) → named s'.0 id d ≡ named s.0 id d
  pub slots : (ino : ℕ) → slot_at s'.1 ino ≡ slot_at s.1 ino

-- Names that agree and are consistent with the nodes' names determine these.
same_names :
    (ns ns' : Namespace)
    → IsConsistent ns
    → IsConsistent ns'
    → ((d : Dentry) → get d ns'.by_name ≡ get d ns.by_name)
    → (id : ℕ) (d : Dentry) → named ns' id d ≡ named ns id d
same_names ns ns' v v' same id d = ground (arith, v d id, v' d id, same d)

module _ {N : Type 0} where
  slot_at-alloc : (t : NodeTable N) (i : ℕ) → slot_at (alloc t).1 i ≡ slot_at t i
  unfolding alloc
  slot_at-alloc t i = ground arith

  slot_at-insert :
      (node : N) (above : ℕ) (t : NodeTable N)
      → let ((id, generation), t') = alloc t in
        (i : ℕ)
        → slot_at (Cx.insert node above t).1 i
          ≡ (if eqb id i then some (new_slot t'.next_record node generation above) else slot_at t i)
  unfolding Cx.insert
  slot_at-insert node above t i =
      let ((id, generation), t') = alloc t in
      get-insert id i (new_slot t'.next_record node generation above) t'.map
      ∙ ground (arith, slot_at-alloc t i)

  -- A node that has just been inserted goes with its only link.
  remove_link-insert :
      (node : N) (above i : ℕ) (t : NodeTable N)
      → slot_at t (alloc t).0.0 ≡ none
      → slot_at (Cx.remove_link (alloc t).0.0 (Cx.insert node above t).1) i ≡ slot_at t i
  unfolding Cx.remove_link droppable
  remove_link-insert node above i t unused =
      let id = (alloc t).0.0 in
      let t' = (Cx.insert node above t).1 in
      let f = λ (s : Slot N). record s { links = s.links - 1 } in
      slot_at-maybe_drop id i (touch id f t')
      ∙ ground (
        arith,
        slot_at-touch id i f t',
        slot_at-touch id id f t',
        slot_at-insert node above t i,
        slot_at-insert node above t id,
        unused,
      )

module _ {S : Type 0} (above : ℕ) (name : Bytes) (state : S) (ns : Namespace)
    (t : NodeTable (PathNode S)) where
  abbrev pub dentry : Dentry
  dentry = record { parent = above; name = name }

  abbrev pub node : PathNode S
  node = record { key = ns.next_key; state = state }

  -- The namespace and the table with the new name.
  abbrev pub with_new : Namespace × NodeTable (PathNode S)
  with_new = (
    add_alias (alloc t).0.0 dentry
        (record ns { keys = insert ns.next_key (alloc t).0.0 ns.keys; next_key = ns.next_key + 1 }),
    (Cx.insert node above t).1,
  )

  pub insert-new :
      get dentry ns.by_name ≡ none
      → ns.next_key < u64_max
      → Namespace.insert above name state (ns, t) ≡ (ok ((alloc t).0.0, true), with_new)
  unfolding Namespace.insert Cx.insert
  insert-new unknown room =
      let next : checked_succ u64_max ns.next_key ≡ some (ns.next_key + 1) = ground arith in
      rw (unknown, next, Namespace.insert) refl

  by_name-new :
      (e : Dentry)
      → get e with_new.0.by_name ≡ (if dentry == e then some (alloc t).0.0 else get e ns.by_name)
  unfolding add_alias
  by_name-new e = get-insert dentry e (alloc t).0.0 ns.by_name

  pub insert-known :
      (id : ℕ)
      → get dentry ns.by_name ≡ some id
      → Namespace.insert above name state (ns, t) ≡ (ok (id, false), (ns, t))
  unfolding Namespace.insert
  insert-known id known = rw (known, Namespace.insert) refl

  removed-new : (Namespace.remove dentry with_new.0).0 ≡ some (alloc t).0.0
  unfolding Namespace.remove
  removed-new =
      let here : get dentry with_new.0.by_name ≡ some (alloc t).0.0 =
        by_name-new dentry ∙ ground (arith, dentry_key.beq_iff dentry dentry) in
      rw (here, Namespace.remove) refl

  rollback-new :
      Namespace.rollback_dentry dentry with_new
      ≡ ((Namespace.remove dentry with_new.0).1, Cx.remove_link (alloc t).0.0 with_new.1)
  unfolding Namespace.rollback_dentry
  rollback-new = rw (removed-new, Namespace.rollback_dentry) refl

  -- A new name and its node that are taken back leave the names and the slots as they were.
  pub rolled_back :
      IsConsistent ns
      → get dentry ns.by_name ≡ none
      → ns.next_key < u64_max
      → slot_at t (alloc t).0.0 ≡ none
      → IsRestored (ns, t) (Namespace.rollback_dentry dentry with_new)
  rolled_back v unknown room unused =
      let left = (Namespace.remove dentry with_new.0).1 in
      let same : (e : Dentry) → get e left.by_name ≡ get e ns.by_name = λ e.
        by_name-remove dentry e with_new.0
        ∙ ground (arith, by_name-new e, dentry_key.beq_iff dentry e, unknown) in
      let consistent : IsConsistent with_new.0 =
        subst
          (λ (x : Outcome (ℕ × Bool) × (Namespace × NodeTable (PathNode S))). IsConsistent x.1.0)
          (insert-new unknown room) (insert-IsConsistent above name state ns t v) in
      rw rollback-new (record {
        by_name = same;
        aliases = same_names ns left v (remove-IsConsistent dentry with_new.0 consistent) same;
        slots = λ i. remove_link-insert node above i t unused;
      })
