-- ===== src/NodeTable/Steps.antt =====
-- Every section of the table's mutex keeps the invariant: the calls one by one.
use typed_fuse.Base.{
  ℕ, suc, ◌+◌, ◌-◌, ◌<◌, ◌≡◌, refl, true, false, not, ◌&&◌, some, List, ◌∷◌, Option-cases,
  Bool-cases, inl, inr, arith, eqb, ltb, if◌then◌else◌, u32_max, u64_max, u64_mod, eqb_iff,
}
use typed_fuse.NodeTable.{Slot, NodeTable, NodeRef, slot_at, droppable, maybe_drop, ref_to, put}
use typed_fuse.NodeTable.Cx
use typed_fuse.NodeTable.Counts
use typed_fuse.NodeTable.System.{taken, ref_at, without}
use typed_fuse.NodeTable.Held.{IsLive-at}
use typed_fuse.NodeTable.Kept.{
  IsKept, IsAlive, SameNode, IsKept-mono, put-IsKept, lease-IsKept, unlease-IsKept, settle-IsKept,
  settle-IsAlive, put-IsAliveBut, put-IsAlive, touch_cases,
}

module _ {N : Type 0} where
  abbrev pub IsFine : ℕ → List (NodeRef N) → List (ℕ × ℕ) → NodeTable N → Type 0
  IsFine k refs issued t = IsKept k refs issued t × IsAlive t

  -- The counters and the parent are not part of a node's identity.
  counts :
      (s : Slot N) (links lookups opens leases parent : ℕ)
      → SameNode s (record s {
        links = links;
        lookups = lookups;
        opens = opens;
        leases = leases;
        parent = parent;
      })
  counts s links lookups opens leases parent = record {
    generation = refl;
    record_id = refl;
    payload = refl;
  }

module _ {N : Type 0} (k : ℕ) (refs : List (NodeRef N)) (issued : List (ℕ × ℕ)) (t : NodeTable N)
    (small : k + 1 < u64_mod) (fine : IsFine k refs issued t) where
  pub stay : IsFine (suc k) refs issued t
  stay = (IsKept-mono k refs issued t fine.0, fine.1)

  -- A write with no change of the lease count, after which something still holds the slot.
  write :
      (i : ℕ) (s s' : Slot N)
      → slot_at t i ≡ some s
      → SameNode s s'
      → s'.leases ≡ s.leases
      → droppable s' ≡ false
      → IsFine (suc k) refs issued (put i s' t)
  write i s s' e node count busy = (
    IsKept-mono k refs issued _ (put-IsKept k refs issued i s s' t e node count fine.0),
    put-IsAlive i s' t busy fine.1,
  )

  -- A write with no change of the lease count, and a look whether the slot can go.
  write_settle :
      (i : ℕ) (s s' : Slot N)
      → slot_at t i ≡ some s
      → SameNode s s'
      → s'.leases ≡ s.leases
      → IsFine (suc k) refs issued (maybe_drop i (put i s' t))
  write_settle i s s' e node count = (
    settle-IsKept k refs issued i _ small (put-IsKept k refs issued i s s' t e node count fine.0),
    settle-IsAlive i _ (put-IsAliveBut i s' t fine.1),
  )

  lease :
      (i : ℕ) (s s' : Slot N)
      → slot_at t i ≡ some s
      → SameNode s s'
      → s'.leases ≡ s.leases + 1
      → IsFine (suc k) (ref_to i s ∷ refs) issued (put i s' t)
  unfolding droppable
  lease i s s' e node count = (
    IsKept-mono k _ issued _ (lease-IsKept k refs issued i s s' t e node count fine.0),
    put-IsAlive i s' t (ground arith) fine.1,
  )

  pub settle : (i : ℕ) → IsFine (suc k) refs issued (maybe_drop i t)
  settle i =
      (settle-IsKept k refs issued i t small fine.0, settle-IsAlive i t (λ j s h _. fine.1 j s h))

  pub get-IsFine : (i : ℕ) → IsFine (suc k) (taken (Cx.get i t).0 refs) issued (Cx.get i t).1
  unfolding Cx.get
  get-IsFine i = elim (Option-cases (slot_at t i)) [
    | inl e ↦ rw (e, Cx.get) stay
    | inr (s, e) ↦ elim (Bool-cases (ltb s.leases u32_max)) [
      | inl room ↦
          rw (e, Cx.get)
            (rw room (lease i s (record s { leases = s.leases + 1 }) e (counts s _ _ _ _ _) refl))
      | inr full ↦ rw (e, Cx.get) (rw full stay)
    ]
  ]

  pub add_link-IsFine : (i : ℕ) → IsFine (suc k) refs issued (Cx.add_link i t).1
  unfolding Cx.add_link droppable
  add_link-IsFine i = elim (Option-cases (slot_at t i)) [
    | inl e ↦ rw (e, Cx.add_link) stay
    | inr (s, e) ↦ elim (Bool-cases (ltb s.links u32_max)) [
      | inl room ↦
          rw (e, Cx.add_link)
            (rw room (
              write i s (record s { links = s.links + 1 }) e (counts s _ _ _ _ _) refl
                (ground arith)))
      | inr full ↦ rw (e, Cx.add_link) (rw full stay)
    ]
  ]

  pub retain_entry-IsFine : (i : ℕ) → IsFine (suc k) refs issued (Counts.retain_entry i t).1
  unfolding Counts.retain_entry droppable
  retain_entry-IsFine i = elim (Option-cases (slot_at t i)) [
    | inl e ↦ rw (e, Counts.retain_entry) stay
    | inr (s, e) ↦ elim (Bool-cases (ltb s.lookups u64_max)) [
      | inl room ↦
          rw (e, Counts.retain_entry)
            (rw room (
              write i s (record s { lookups = s.lookups + 1 }) e (counts s _ _ _ _ _) refl
                (ground arith)))
      | inr full ↦ rw (e, Counts.retain_entry) (rw full stay)
    ]
  ]

  pub add_open-IsFine : (i : ℕ) → IsFine (suc k) refs issued (Counts.add_open i t).1
  unfolding Counts.add_open droppable
  add_open-IsFine i = elim (Option-cases (slot_at t i)) [
    | inl e ↦ rw (e, Counts.add_open) stay
    | inr (s, e) ↦ elim (Bool-cases (ltb s.opens u32_max)) [
      | inl room ↦
          rw (e, Counts.add_open)
            (rw room (
              write i s (record s { opens = s.opens + 1 }) e (counts s _ _ _ _ _) refl
                (ground arith)))
      | inr full ↦ rw (e, Counts.add_open) (rw full stay)
    ]
  ]

  pub reparent-IsFine : (i parent : ℕ) → IsFine (suc k) refs issued (Cx.reparent i parent t)
  unfolding Cx.reparent droppable
  reparent-IsFine i parent =
      touch_cases (IsFine (suc k) refs issued) i (λ s. record s { parent = parent }) t (λ _. stay)
        λ s e. write i s _ e (counts s _ _ _ _ _) refl (fine.1 i s e)

  pub remove_link-IsFine : (i : ℕ) → IsFine (suc k) refs issued (Cx.remove_link i t)
  unfolding Cx.remove_link
  remove_link-IsFine i =
      touch_cases (λ u. IsFine (suc k) refs issued (maybe_drop i u)) i
        (λ s. record s { links = s.links - 1 }) t (λ _. settle i)
        λ s e. write_settle i s (record s { links = s.links - 1 }) e (counts s _ _ _ _ _) refl

  pub remove_open-IsFine : (i : ℕ) → IsFine (suc k) refs issued (Counts.remove_open i t)
  unfolding Counts.remove_open
  remove_open-IsFine i =
      touch_cases (λ u. IsFine (suc k) refs issued (maybe_drop i u)) i
        (λ s. record s { opens = s.opens - 1 }) t (λ _. settle i)
        λ s e. write_settle i s (record s { opens = s.opens - 1 }) e (counts s _ _ _ _ _) refl

  -- The transition to zero leases the slot for the filesystem's `forget`; a panic there comes after
  -- the lookups are gone, and the slot's leases hold it.
  pub forget_lookups-IsFine :
      (i n : ℕ)
      → IsFine
          (suc k)
          (taken (Counts.forget_lookups i n t).0 refs)
          issued
          (Counts.forget_lookups i n t).1
  unfolding Counts.forget_lookups droppable
  forget_lookups-IsFine i n = elim (Option-cases (slot_at t i)) [
    | inl e ↦ rw (e, Counts.forget_lookups) stay
    | inr (s, e) ↦ elim (Bool-cases (not (eqb s.lookups 0) && eqb (s.lookups - n) 0)) [
      | inl zero_now ↦ elim (Bool-cases (ltb s.leases u32_max)) [
        | inl room ↦
            rw (e, Counts.forget_lookups)
              (rw zero_now (
                rw room (
                  lease i s (record s { lookups = s.lookups - n; leases = s.leases + 1 }) e
                    (counts s _ _ _ _ _) refl)))
        | inr full ↦
            rw (e, Counts.forget_lookups)
              (rw zero_now (
                rw full (
                  write i s (record s { lookups = s.lookups - n }) e (counts s _ _ _ _ _) refl
                    (ground arith))))
      ]
      | inr other ↦
          rw (e, Counts.forget_lookups)
            (rw other (
              write i s (record s { lookups = s.lookups - n }) e (counts s _ _ _ _ _) refl
                (ground (arith, other, fine.1 i s e))))
    ]
  ]

  -- The pointers are equal, so the drop takes the lease off the slot that it was put on.
  pub drop_ref-IsFine :
      (n : ℕ) (r : NodeRef N)
      → ref_at refs n ≡ some r
      → IsFine (suc k) (without n refs) issued (Cx.drop_ref r t)
  unfolding Cx.drop_ref
  drop_ref-IsFine n r on =
      let (s, e, id, load) = IsLive-at t n r refs on fine.0.held.live in
      touch_cases (λ u. IsFine (suc k) (without n refs) issued (maybe_drop r.id u)) r.id unlease t
        (λ out. absurd (ground (arith, out)))
        λ s' e'.
          let id' : eqb s'.record_id r.record_id ≡ true =
            ground (arith, eqb_iff s'.record_id r.record_id) in
          rw id' (
            settle-IsKept k (without n refs) issued r.id _ small (
                unlease-IsKept k refs issued n r s' (record s' { leases = s'.leases - 1 }) t on e'
                  (counts s' _ _ _ _ _) refl fine.0),
            settle-IsAlive r.id _ (put-IsAliveBut r.id _ t fine.1),
          )
    where
      unlease : Slot N → Slot N
      unlease s = if eqb s.record_id r.record_id then record s { leases = s.leases - 1 } else s
