-- ===== src/NodeTable/Kept.antt =====
-- The invariant of the table without its liveness part, kept by each elementary change, and the
-- liveness part, which a write can break at one number until `maybe_drop` has looked at it.
use typed_fuse.Base.{
  ℕ, suc, ◌+◌, ◌-◌, ◌<◌, ◌≡◌, true, false, none, some, List, ◌∷◌, Option-cases, Bool-cases, inl,
  inr, arith, eqb, u64_mod, All,
}
use typed_fuse.NodeTable.{
  Slot, NodeTable, NodeRef, slot_at, droppable, maybe_drop, touch, ref_to, put, reclaim,
}
use typed_fuse.NodeTable.Effects.{slot_at-put, slot_at-maybe_drop}
use typed_fuse.NodeTable.System.{ref_at, without}
use typed_fuse.NodeTable.Sound.{IsSound, IsSound-mono, put-IsSound, reclaim-IsSound}
use typed_fuse.NodeTable.Held.{IsHeld, put-IsHeld, lease-IsHeld, unlease-IsHeld, reclaim-IsHeld}
use typed_fuse.NodeTable.Identity.{IsBehind, All-mono, put-IsBehind, reclaim-IsBehind}

pub record IsKept {N : Type 0} (k : ℕ) (refs : List (NodeRef N)) (issued : List (ℕ × ℕ))
    (t : NodeTable N) : Type 0 where
  pub sound : IsSound k t
  pub held : IsHeld refs t
  pub behind : All (IsBehind t) issued

module _ {N : Type 0} where
  -- No slot that could be reclaimed has been left in the table.
  abbrev pub IsAlive : NodeTable N → Type 0
  IsAlive t = (i : ℕ) (s : Slot N) → slot_at t i ≡ some s → droppable s ≡ false

  abbrev pub IsAliveBut : ℕ → NodeTable N → Type 0
  IsAliveBut i t =
      (j : ℕ) (s : Slot N) → slot_at t j ≡ some s → eqb i j ≡ false → droppable s ≡ false

  -- A write that keeps the node's identity.
  pub record SameNode (s s' : Slot N) : Type 0 where
    pub generation : s'.generation ≡ s.generation
    pub record_id : s'.record_id ≡ s.record_id
    pub payload : s'.payload ≡ s.payload

module _ {N : Type 0} where
  pub IsKept-mono :
      (k : ℕ) (refs : List (NodeRef N)) (issued : List (ℕ × ℕ)) (t : NodeTable N)
      → IsKept k refs issued t
      → IsKept (suc k) refs issued t
  IsKept-mono k refs issued t v = record {
    sound = IsSound-mono k t v.sound;
    held = v.held;
    behind = v.behind;
  }

  pub put-IsKept :
      (k : ℕ) (refs : List (NodeRef N)) (issued : List (ℕ × ℕ)) (i : ℕ) (s s' : Slot N)
      (t : NodeTable N)
      → slot_at t i ≡ some s
      → SameNode s s'
      → s'.leases ≡ s.leases
      → IsKept k refs issued t
      → IsKept k refs issued (put i s' t)
  put-IsKept k refs issued i s s' t e same count v = record {
    sound = put-IsSound k i s s' t e same.generation v.sound;
    held = put-IsHeld refs i s s' t e same.record_id same.payload count v.held;
    behind = All-mono _ _ (put-IsBehind i s s' t e same.generation) issued v.behind;
  }

  pub lease-IsKept :
      (k : ℕ) (refs : List (NodeRef N)) (issued : List (ℕ × ℕ)) (i : ℕ) (s s' : Slot N)
      (t : NodeTable N)
      → slot_at t i ≡ some s
      → SameNode s s'
      → s'.leases ≡ s.leases + 1
      → IsKept k refs issued t
      → IsKept k (ref_to i s ∷ refs) issued (put i s' t)
  lease-IsKept k refs issued i s s' t e same count v = record {
    sound = put-IsSound k i s s' t e same.generation v.sound;
    held = lease-IsHeld refs i s s' t e same.record_id same.payload count v.held;
    behind = All-mono _ _ (put-IsBehind i s s' t e same.generation) issued v.behind;
  }

  pub unlease-IsKept :
      (k : ℕ) (refs : List (NodeRef N)) (issued : List (ℕ × ℕ)) (n : ℕ) (r : NodeRef N)
      (s s' : Slot N) (t : NodeTable N)
      → ref_at refs n ≡ some r
      → slot_at t r.id ≡ some s
      → SameNode s s'
      → s'.leases ≡ s.leases - 1
      → IsKept k refs issued t
      → IsKept k (without n refs) issued (put r.id s' t)
  unlease-IsKept k refs issued n r s s' t on e same count v = record {
    sound = put-IsSound k r.id s s' t e same.generation v.sound;
    held = unlease-IsHeld refs n r s s' t on e same.record_id same.payload count v.held;
    behind = All-mono _ _ (put-IsBehind r.id s s' t e same.generation) issued v.behind;
  }

  maybe_drop_cases {ℓ} :
      (P : NodeTable N → Type ℓ) (i : ℕ) (t : NodeTable N)
      → P t
      → ((s : Slot N) → slot_at t i ≡ some s → droppable s ≡ true → P (reclaim i s t))
      → P (maybe_drop i t)
  unfolding maybe_drop
  maybe_drop_cases P i t stay go = elim (Option-cases (slot_at t i)) [
    | inl e ↦ rw (e, maybe_drop) stay
    | inr (s, e) ↦ elim (Bool-cases (droppable s)) [
      | inl dead ↦ rw (e, maybe_drop) (rw dead (go s e dead))
      | inr alive ↦ rw (e, maybe_drop) (rw alive stay)
    ]
  ]

  pub settle-IsKept :
      (k : ℕ) (refs : List (NodeRef N)) (issued : List (ℕ × ℕ)) (i : ℕ) (t : NodeTable N)
      → k + 1 < u64_mod
      → IsKept k refs issued t
      → IsKept (suc k) refs issued (maybe_drop i t)
  settle-IsKept k refs issued i t small v =
      maybe_drop_cases (IsKept (suc k) refs issued) i t (IsKept-mono k refs issued t v) λ s e dead.
        record {
          sound = reclaim-IsSound k i s t e small v.sound;
          held = reclaim-IsHeld refs i s t e dead v.held;
          behind = All-mono _ _ (reclaim-IsBehind k i s t e small v.sound) issued v.behind;
        }

  pub settle-IsAlive : (i : ℕ) (t : NodeTable N) → IsAliveBut i t → IsAlive (maybe_drop i t)
  settle-IsAlive i t v j s h = ground (arith, slot_at-maybe_drop i j t, v j s)

  pub put-IsAliveBut :
      (i : ℕ) (s' : Slot N) (t : NodeTable N) → IsAlive t → IsAliveBut i (put i s' t)
  put-IsAliveBut i s' t v j s h away = ground (arith, slot_at-put i j s' t, v j s)

  pub put-IsAlive :
      (i : ℕ) (s' : Slot N) (t : NodeTable N)
      → droppable s' ≡ false
      → IsAlive t
      → IsAlive (put i s' t)
  put-IsAlive i s' t busy v j s h = ground (arith, slot_at-put i j s' t, v j s)

  pub touch_cases {ℓ} :
      (P : NodeTable N → Type ℓ) (i : ℕ) (f : Slot N → Slot N) (t : NodeTable N)
      → (slot_at t i ≡ none → P t)
      → ((s : Slot N) → slot_at t i ≡ some s → P (put i (f s) t))
      → P (touch i f t)
  unfolding touch
  touch_cases P i f t out on = elim (Option-cases (slot_at t i)) [
    | inl e ↦ rw (e, touch) (out e)
    | inr (s, e) ↦ rw (e, touch) (on s e)
  ]
