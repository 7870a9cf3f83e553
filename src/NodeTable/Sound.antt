-- ===== src/NodeTable/Sound.antt =====
-- The numbers below `next_ino` are each in use or on the free stack, once, and no generation has
-- passed `k`. Every change of the table keeps this: a write to a slot, a reclaim and an insertion.
use typed_fuse.Base.{
  ℕ, subst, sym, ap, suc, ◌+◌, ◌%◌, ◌≤◌, ◌<◌, ◌≡◌, ◌≢◌, refl, none, some, List, [], ◌∷◌,
  Option-cases, inl, inr, arith, eqb, if◌then◌else◌, u64_mod,
}
use typed_fuse.Base.Order.{nat_key}
use typed_fuse.Base.BTreeMap.{get, insert, get-insert, get-remove}
use typed_fuse.NodeTable.{Slot, NodeTable, slot_at, new_slot, put, reclaim}
use typed_fuse.NodeTable.Effects.{free_at, slot_at-put}
use typed_fuse.NodeTable.Cx

-- No number is on the stack twice.
abbrev pub IsDistinct : List (ℕ × ℕ) → Type 0
IsDistinct [] = Unit
IsDistinct ((i, g) ∷ rest) = (get i rest ≡ none) × IsDistinct rest

pub record IsSound {N : Type 0} (k : ℕ) (t : NodeTable N) : Type 0 where
  pub numbered : (i : ℕ) (s : Slot N) → slot_at t i ≡ some s → (1 ≤ i) × (i < t.next_ino)
  pub free_numbered :
      (i g : ℕ) → free_at t i ≡ some g → (1 ≤ i) × (i < t.next_ino) × (slot_at t i ≡ none)
  pub distinct : IsDistinct t.free
  pub covered : (i : ℕ) → 1 ≤ i → i < t.next_ino → slot_at t i ≡ none → free_at t i ≢ none
  pub young : (i : ℕ) (s : Slot N) → slot_at t i ≡ some s → s.generation ≤ k
  pub free_young : (i g : ℕ) → free_at t i ≡ some g → g ≤ k
  pub room : (2 ≤ t.next_ino) × (t.next_ino ≤ k + 2)

module _ {N : Type 0} where
  pub IsSound-mono : (k : ℕ) (t : NodeTable N) → IsSound k t → IsSound (suc k) t
  IsSound-mono k t v = record {
    numbered = v.numbered;
    free_numbered = v.free_numbered;
    distinct = v.distinct;
    covered = v.covered;
    young = λ i s h. omega (arith, v.young i s h);
    free_young = λ i g h. omega (arith, v.free_young i g h);
    room = omega (arith, v.room);
  }

  pub put-IsSound :
      (k i : ℕ) (s s' : Slot N) (t : NodeTable N)
      → slot_at t i ≡ some s
      → s'.generation ≡ s.generation
      → IsSound k t
      → IsSound k (put i s' t)
  put-IsSound k i s s' t e same v = record {
    numbered = λ j r h. ground (arith, slot_at-put i j s' t, v.numbered j r, v.numbered i s);
    free_numbered = λ j g h. ground (arith, slot_at-put i j s' t, v.free_numbered j g);
    distinct = v.distinct;
    covered = λ j lo hi h. ground (arith, slot_at-put i j s' t, v.covered j lo hi);
    young = λ j r h. ground (arith, slot_at-put i j s' t, v.young j r, v.young i s);
    free_young = v.free_young;
    room = v.room;
  }

  used_not_free :
      (k i : ℕ) (s : Slot N) (t : NodeTable N)
      → slot_at t i ≡ some s
      → IsSound k t
      → free_at t i ≡ none
  used_not_free k i s t e v = elim (Option-cases (free_at t i)) [
    | inl out ↦ out
    | inr (g, on) ↦ ground (arith, v.free_numbered i g)
  ]

  pub reclaim-IsSound :
      (k i : ℕ) (s : Slot N) (t : NodeTable N)
      → slot_at t i ≡ some s
      → k + 1 < u64_mod
      → IsSound k t
      → IsSound (suc k) (reclaim i s t)
  unfolding get
  reclaim-IsSound k i s t e small v = record {
    numbered = λ j r h. ground (arith, get-remove i j t.map, v.numbered j r);
    free_numbered =
        λ j g h. ground (arith, get-remove i j t.map, v.free_numbered j g, v.numbered i s);
    distinct = (used_not_free k i s t e v, v.distinct);
    covered = λ j lo hi h. ground (arith, get-remove i j t.map, v.covered j lo hi);
    young = λ j r h. ground (arith, get-remove i j t.map, v.young j r);
    free_young = λ j g h. ground (arith, v.free_young j g, v.young i s);
    room = omega (arith, v.room);
  }

  pub unused : (k : ℕ) (t : NodeTable N) → IsSound k t → slot_at t t.next_ino ≡ none
  unused k t v = elim (Option-cases (slot_at t t.next_ino)) [
    | inl out ↦ out
    | inr (s, on) ↦ ground (arith, v.numbered t.next_ino s)
  ]

  -- The two tables that an insertion can leave: with a new number, or with the top of the stack.
  abbrev pub grown : N → ℕ → NodeTable N → NodeTable N
  grown payload parent t = record t {
    map = insert t.next_ino (new_slot t.next_record payload 0 parent) t.map;
    next_ino = (t.next_ino + 1) % u64_mod;
    next_record = t.next_record + 1;
  }

  abbrev pub reused : N → ℕ → NodeTable N → ℕ → ℕ → List (ℕ × ℕ) → NodeTable N
  reused payload parent t i g rest = record t {
    map = insert i (new_slot t.next_record payload g parent) t.map;
    free = rest;
    next_record = t.next_record + 1;
  }

  insert_new :
      (payload : N) (parent : ℕ) (t : NodeTable N)
      → t.free ≡ []
      → Cx.insert payload parent t ≡ (t.next_ino, grown payload parent t)
  unfolding Cx.insert
  insert_new payload parent t e = ground arith

  insert-reused :
      (payload : N) (parent : ℕ) (t : NodeTable N) (i g : ℕ) (rest : List (ℕ × ℕ))
      → t.free ≡ (i, g) ∷ rest
      → Cx.insert payload parent t ≡ (i, reused payload parent t i g rest)
  unfolding Cx.insert
  insert-reused payload parent t i g rest e = ground arith

  pub insert_cases {ℓ} :
      (P : ℕ × NodeTable N → Type ℓ) (payload : N) (parent : ℕ) (t : NodeTable N)
      → (t.free ≡ [] → P (t.next_ino, grown payload parent t))
      → ((i g : ℕ) (rest : List (ℕ × ℕ))
          → t.free ≡ (i, g) ∷ rest
          → P (i, reused payload parent t i g rest))
      → P (Cx.insert payload parent t)
  insert_cases P payload parent t new old = go t.free refl
    where
      go : (free : List (ℕ × ℕ)) → t.free ≡ free → P (Cx.insert payload parent t)
      go [] e = subst P (sym (insert_new payload parent t e)) (new e)
      go ((i, g) ∷ rest) e =
          subst P (sym (insert-reused payload parent t i g rest e)) (old i g rest e)

  grown-IsSound :
      (k : ℕ) (payload : N) (parent : ℕ) (t : NodeTable N)
      → k + 3 < u64_mod
      → t.free ≡ []
      → IsSound k t
      → IsSound (suc k) (grown payload parent t)
  unfolding get
  grown-IsSound k payload parent t small e v = record {
    numbered = λ j r h. ground (arith, law j, up, v.numbered j r);
    free_numbered = λ j g h. ground (arith, law j, up, v.free_numbered j g);
    distinct = v.distinct;
    covered = λ j lo hi h. ground (arith, law j, up, v.covered j lo);
    young = λ j r h. ground (arith, law j, v.young j r);
    free_young = λ j g h. ground (arith, v.free_young j g);
    room = omega (arith, v.room);
  }
    where
      up : (t.next_ino + 1) % u64_mod ≡ t.next_ino + 1
      up = omega (arith, v.room)

      law :
          (j : ℕ)
          → slot_at (grown payload parent t) j ≡ (
              if eqb t.next_ino j
              then some (new_slot t.next_record payload 0 parent)
              else slot_at t j)
      law j = get-insert t.next_ino j _ t.map

  reused-IsSound :
      (k : ℕ) (payload : N) (parent : ℕ) (t : NodeTable N) (i g : ℕ) (rest : List (ℕ × ℕ))
      → t.free ≡ (i, g) ∷ rest
      → IsSound k t
      → IsSound (suc k) (reused payload parent t i g rest)
  unfolding get
  reused-IsSound k payload parent t i g rest e v = record {
    numbered = λ j r h. ground (arith, law j, stack j, v.numbered j r, v.free_numbered i g);
    free_numbered = λ j g' h. ground (arith, law j, stack j, d, v.free_numbered j g');
    distinct = d.1;
    covered = λ j lo hi h. ground (arith, law j, stack j, v.covered j lo hi);
    young = λ j r h. ground (arith, law j, stack j, v.young j r, v.free_young i g);
    free_young = λ j g' h. ground (arith, stack j, d, v.free_young j g');
    room = omega (arith, v.room);
  }
    where
      d : (get i rest ≡ none) × IsDistinct rest
      d = subst IsDistinct e v.distinct

      stack : (j : ℕ) → free_at t j ≡ (if eqb i j then some g else get j rest)
      stack j = ap (get j) e

      law :
          (j : ℕ)
          → slot_at (reused payload parent t i g rest) j
            ≡ (if eqb i j then some (new_slot t.next_record payload g parent) else slot_at t j)
      law j = get-insert i j _ t.map

  pub insert-IsSound :
      (k : ℕ) (payload : N) (parent : ℕ) (t : NodeTable N)
      → k + 3 < u64_mod
      → IsSound k t
      → IsSound (suc k) (Cx.insert payload parent t).1
  insert-IsSound k payload parent t small v =
      insert_cases (λ r. IsSound (suc k) r.1) payload parent t
        (λ e. grown-IsSound k payload parent t small e v)
        (λ i g rest e. reused-IsSound k payload parent t i g rest e v)
