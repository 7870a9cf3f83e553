-- ===== src/NodeTable/Held.antt =====
-- The leases: a slot's `leases` counts the `NodeRef` values alive on it, and each of those finds its
-- own slot, with its record and payload, whatever other requests do to the table.
use typed_fuse.Base.{
  ℕ, zero, suc, ◌+◌, ◌-◌, ◌≡◌, refl, true, none, some, List, [], ◌∷◌, some-eq, Bool-cases, inl, inr,
  arith, eqb, if◌then◌else◌, All, subst, ◌<◌, ap, ◌∙◌,
}
use typed_fuse.Base.Order.{nat_key}
use typed_fuse.Base.BTreeMap.{get, insert, get-insert, get-remove}
use typed_fuse.NodeTable.{
  Slot, NodeTable, NodeRef, slot_at, droppable, new_slot, ref_to, put, reclaim,
}
use typed_fuse.NodeTable.Effects.{slot_at-put}
use typed_fuse.NodeTable.System.{ref_at, without}
use typed_fuse.NodeTable.Sound.{IsSound, unused, grown, reused, insert_cases}
use typed_fuse.NodeTable.Cx

module _ {N : Type 0} where
  -- How many of the leases are on this number.
  abbrev pub refs_on : ℕ → List (NodeRef N) → ℕ
  refs_on i [] = 0
  refs_on i (r ∷ refs) = (if eqb r.id i then 1 else 0) + refs_on i refs

  -- The slot that a lease dereferences to.
  abbrev pub IsLive : NodeTable N → NodeRef N → Type 0
  IsLive t r =
      (s : Slot N) × (slot_at t r.id ≡ some s)
      × (s.record_id ≡ r.record_id)
      × (s.payload ≡ r.payload)

pub record IsHeld {N : Type 0} (refs : List (NodeRef N)) (t : NodeTable N) : Type 0 where
  pub counted : (i : ℕ) (s : Slot N) → slot_at t i ≡ some s → s.leases ≡ refs_on i refs
  pub live : All (IsLive t) refs

module _ {N : Type 0} where
  IsLive-mono :
      (t u : NodeTable N) (refs : List (NodeRef N))
      → ((r : NodeRef N) → 0 < refs_on r.id refs → IsLive t r → IsLive u r)
      → All (IsLive t) refs
      → All (IsLive u) refs
  IsLive-mono t u [] f a = tt
  IsLive-mono t u (r ∷ refs) f a =
      (f r (ground arith) a.0, IsLive-mono t u refs (λ q h. f q (ground arith)) a.1)

  put-IsLive :
      (i : ℕ) (s s' : Slot N) (t : NodeTable N)
      → slot_at t i ≡ some s
      → s'.record_id ≡ s.record_id
      → s'.payload ≡ s.payload
      → (r : NodeRef N) → IsLive t r
      → IsLive (put i s' t) r
  put-IsLive i s s' t e same same' r (q, at, id, load) = elim (Bool-cases (eqb i r.id)) [
    | inl here ↦ (s', ground (arith, slot_at-put i r.id s' t), ground arith, ground arith)
    | inr away ↦ (q, ground (arith, slot_at-put i r.id s' t), id, load)
  ]

  -- A write that leaves the lease count alone.
  pub put-IsHeld :
      (refs : List (NodeRef N)) (i : ℕ) (s s' : Slot N) (t : NodeTable N)
      → slot_at t i ≡ some s
      → s'.record_id ≡ s.record_id
      → s'.payload ≡ s.payload
      → s'.leases ≡ s.leases
      → IsHeld refs t
      → IsHeld refs (put i s' t)
  put-IsHeld refs i s s' t e same same' count v = record {
    counted = λ j q h. ground (arith, slot_at-put i j s' t, v.counted j q, v.counted i s);
    live = IsLive-mono t (put i s' t) refs (λ r _. put-IsLive i s s' t e same same' r) v.live;
  }

  -- A write that counts one more lease, which the request now holds.
  pub lease-IsHeld :
      (refs : List (NodeRef N)) (i : ℕ) (s s' : Slot N) (t : NodeTable N)
      → slot_at t i ≡ some s
      → s'.record_id ≡ s.record_id
      → s'.payload ≡ s.payload
      → s'.leases ≡ s.leases + 1
      → IsHeld refs t
      → IsHeld (ref_to i s ∷ refs) (put i s' t)
  lease-IsHeld refs i s s' t e same same' count v = record {
    counted = λ j q h. ground (arith, slot_at-put i j s' t, v.counted j q, v.counted i s);
    live = (
      (s', ground (arith, slot_at-put i i s' t), same, same'),
      IsLive-mono t (put i s' t) refs (λ r _. put-IsLive i s s' t e same same' r) v.live,
    );
  }

  -- A slot with no lease can go.
  pub reclaim-IsHeld :
      (refs : List (NodeRef N)) (i : ℕ) (s : Slot N) (t : NodeTable N)
      → slot_at t i ≡ some s
      → droppable s ≡ true
      → IsHeld refs t
      → IsHeld refs (reclaim i s t)
  unfolding droppable
  reclaim-IsHeld refs i s t e dead v = record {
    counted = λ j q h. ground (arith, get-remove i j t.map, v.counted j q);
    live =
        IsLive-mono t (reclaim i s t) refs
          (λ r held (q, at, id, load).
            (q, ground (arith, get-remove i r.id t.map, v.counted i s), id, load))
          v.live;
  }

  no_refs :
      (i : ℕ) (t : NodeTable N) (refs : List (NodeRef N))
      → slot_at t i ≡ none
      → All (IsLive t) refs
      → refs_on i refs ≡ 0
  no_refs i t [] e a = refl
  no_refs i t (r ∷ refs) e ((s, at, _, _), a) = ground (arith, no_refs i t refs e a)

  -- A slot under a number that was not in use, as `Cx::insert` makes it.
  placed-IsHeld :
      (refs : List (NodeRef N)) (i g parent next : ℕ) (payload : N) (t u : NodeTable N)
      → slot_at t i ≡ none
      → u.map ≡ insert i (new_slot next payload g parent) t.map
      → IsHeld refs t
      → IsHeld refs u
  placed-IsHeld refs i g parent next payload t u out e v = record {
    counted = λ j q h. ground (arith, law j, v.counted j q, no_refs i t refs out v.live);
    live =
        IsLive-mono t u refs
          (λ r held (q, at, id, load).
            (q, ground (arith, law r.id, no_refs i t refs out v.live), id, load))
          v.live;
  }
    where
      law :
          (j : ℕ)
          → slot_at u j ≡ (if eqb i j then some (new_slot next payload g parent) else slot_at t j)
      law j = ap (get j) e ∙ get-insert i j _ t.map

  pub insert-IsHeld :
      (k : ℕ) (refs : List (NodeRef N)) (payload : N) (parent : ℕ) (t : NodeTable N)
      → IsSound k t
      → IsHeld refs t
      → IsHeld refs (Cx.insert payload parent t).1
  unfolding get
  insert-IsHeld k refs payload parent t ok v =
      insert_cases (λ r. IsHeld refs r.1) payload parent t
        (λ e.
          placed-IsHeld refs t.next_ino 0 parent t.next_record payload t (grown payload parent t)
            (unused k t ok) refl v)
        (λ i g rest e.
          placed-IsHeld refs i g parent t.next_record payload t (reused payload parent t i g rest)
            (ground (arith, ok.free_numbered i g)) refl v)

  pub refs_on-without :
      (k i : ℕ) (r : NodeRef N) (refs : List (NodeRef N))
      → ref_at refs k ≡ some r
      → refs_on i refs ≡ (if eqb r.id i then 1 else 0) + refs_on i (without k refs)
  refs_on-without k i r [] e = cc
  refs_on-without zero i r (q ∷ refs) e = ground arith
  refs_on-without (suc k) i r (q ∷ refs) e = ground (arith, refs_on-without k i r refs e)

  All-without {κ} :
      (P : NodeRef N → Type κ) (k : ℕ) (refs : List (NodeRef N))
      → All P refs
      → All P (without k refs)
  All-without P k [] a = tt
  All-without P zero (r ∷ refs) a = a.1
  All-without P (suc k) (r ∷ refs) a = (a.0, All-without P k refs a.1)

  pub IsLive-at :
      (t : NodeTable N) (k : ℕ) (r : NodeRef N) (refs : List (NodeRef N))
      → ref_at refs k ≡ some r
      → All (IsLive t) refs
      → IsLive t r
  IsLive-at t k r [] e a = cc
  IsLive-at t zero r (q ∷ refs) e a = subst (IsLive t) (some-eq e) a.0
  IsLive-at t (suc k) r (q ∷ refs) e a = IsLive-at t k r refs e a.1

  -- A write that counts one lease less, when the request drops it.
  pub unlease-IsHeld :
      (refs : List (NodeRef N)) (k : ℕ) (r : NodeRef N) (s s' : Slot N) (t : NodeTable N)
      → ref_at refs k ≡ some r
      → slot_at t r.id ≡ some s
      → s'.record_id ≡ s.record_id
      → s'.payload ≡ s.payload
      → s'.leases ≡ s.leases - 1
      → IsHeld refs t
      → IsHeld (without k refs) (put r.id s' t)
  unlease-IsHeld refs k r s s' t on e same same' count v = record {
    counted = λ j q h. ground (
      arith,
      slot_at-put r.id j s' t,
      v.counted j q,
      v.counted r.id s,
      refs_on-without k j r refs on,
      refs_on-without k r.id r refs on,
    );
    live =
        IsLive-mono t (put r.id s' t) (without k refs)
          (λ q _. put-IsLive r.id s s' t e same same' q) (All-without (IsLive t) k refs v.live);
  }
