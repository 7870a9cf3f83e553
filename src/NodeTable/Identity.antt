-- ===== src/NodeTable/Identity.antt =====
-- The pairs of inode number and generation: what was handed out earlier stays behind what the table
-- can hand out next.
use typed_fuse.Base.{
  ℕ, ◌+◌, ◌≤◌, ◌<◌, ◌≡◌, ◌≢◌, none, some, List, [], ◌∷◌, arith, eqb, if◌then◌else◌, u64_mod, All,
  ap, subst,
}
use typed_fuse.Base.Order.{nat_key}
use typed_fuse.Base.BTreeMap.{get, get-insert, get-remove}
use typed_fuse.NodeTable.{Slot, NodeTable, slot_at, new_slot, put, reclaim}
use typed_fuse.NodeTable.Effects.{free_at, slot_at-put}
use typed_fuse.NodeTable.Sound.{IsSound, IsDistinct, grown, reused, insert_cases}
use typed_fuse.NodeTable.System.{generation_of}
use typed_fuse.NodeTable.Cx

abbrev pub IsUnique {ℓ} : {A : Type ℓ} → List A → Type ℓ
IsUnique [] = Unit
IsUnique (x ∷ xs) = All (λ y. y ≢ x) xs × IsUnique xs

pub All-mono {ℓ κ} :
    {A : Type ℓ} (P Q : A → Type κ) → ((a : A) → P a → Q a) → (xs : List A) → All P xs → All Q xs
All-mono P Q f [] a = tt
All-mono P Q f (x ∷ xs) a = (f x a.0, All-mono P Q f xs a.1)

pub record IsBehind {N : Type 0} (t : NodeTable N) (p : ℕ × ℕ) : Type 0 where
  pub known : p.0 < t.next_ino
  pub used : (s : Slot N) → slot_at t p.0 ≡ some s → p.1 ≤ s.generation
  pub freed : (g : ℕ) → free_at t p.0 ≡ some g → p.1 < g

module _ {N : Type 0} where
  pub put-IsBehind :
      (i : ℕ) (s s' : Slot N) (t : NodeTable N)
      → slot_at t i ≡ some s
      → s'.generation ≡ s.generation
      → (p : ℕ × ℕ) → IsBehind t p
      → IsBehind (put i s' t) p
  put-IsBehind i s s' t e same p v = record {
    known = v.known;
    used = λ q h. ground (arith, slot_at-put i p.0 s' t, v.used q, v.used s);
    freed = v.freed;
  }

  pub reclaim-IsBehind :
      (k i : ℕ) (s : Slot N) (t : NodeTable N)
      → slot_at t i ≡ some s
      → k + 1 < u64_mod
      → IsSound k t
      → (p : ℕ × ℕ) → IsBehind t p
      → IsBehind (reclaim i s t) p
  unfolding get
  reclaim-IsBehind k i s t e small ok p v = record {
    known = v.known;
    used = λ q h. ground (arith, get-remove i p.0 t.map, v.used q);
    freed = λ g h. ground (arith, v.used s, v.freed g, ok.young i s);
  }

  grown-IsBehind :
      (k : ℕ) (payload : N) (parent : ℕ) (t : NodeTable N)
      → k + 3 < u64_mod
      → IsSound k t
      → (p : ℕ × ℕ) → IsBehind t p
      → IsBehind (grown payload parent t) p
  grown-IsBehind k payload parent t small ok p v = record {
    known = omega (arith, v.known, ok.room);
    used = λ q h. ground (
      arith,
      get-insert t.next_ino p.0 (new_slot t.next_record payload 0 parent) t.map,
      v.known,
      v.used q,
    );
    freed = v.freed;
  }

  reused-IsBehind :
      (k : ℕ) (payload : N) (parent : ℕ) (t : NodeTable N) (i g : ℕ) (rest : List (ℕ × ℕ))
      → t.free ≡ (i, g) ∷ rest
      → IsSound k t
      → (p : ℕ × ℕ) → IsBehind t p
      → IsBehind (reused payload parent t i g rest) p
  unfolding get
  reused-IsBehind k payload parent t i g rest e ok p v = record {
    known = v.known;
    used = λ q h. ground (
      arith,
      get-insert i p.0 (new_slot t.next_record payload g parent) t.map,
      stack,
      v.used q,
      v.freed g,
    );
    freed = λ g' h. ground (arith, stack, d, v.freed g');
  }
    where
      d : (get i rest ≡ none) × IsDistinct rest
      d = subst IsDistinct e ok.distinct

      stack : free_at t p.0 ≡ (if eqb i p.0 then some g else get p.0 rest)
      stack = ap (get p.0) e

module _ {N : Type 0} where
  -- What an insertion hands out: its number with the generation of its slot.
  abbrev pub handed_out : ℕ × NodeTable N → ℕ × ℕ
  handed_out (ino, t) = (ino, generation_of (slot_at t ino))

  -- The pair is behind the new table, and no pair that was behind the old one is equal to it.
  abbrev pub IsNew : NodeTable N → ℕ × NodeTable N → Type 0
  IsNew t r =
      IsBehind r.1 (handed_out r)
      × ((p : ℕ × ℕ) → IsBehind t p → IsBehind r.1 p × (p ≢ handed_out r))

  grown-IsNew :
      (k : ℕ) (payload : N) (parent : ℕ) (t : NodeTable N)
      → k + 3 < u64_mod
      → IsSound k t
      → IsNew t (t.next_ino, grown payload parent t)
  grown-IsNew k payload parent t small ok =
      let at = get-insert t.next_ino t.next_ino (new_slot t.next_record payload 0 parent) t.map in
      let zero_gen : generation_of (slot_at (grown payload parent t) t.next_ino) ≡ 0 =
        ground (arith, at) in
      rw zero_gen (
        record {
          known = omega (arith, ok.room);
          used = λ q h. omega arith;
          freed = λ g h. ground (arith, ok.free_numbered t.next_ino g);
        },
        λ p v. (
          grown-IsBehind k payload parent t small ok p v,
          λ e. omega (arith, v.known, ap (λ (q : ℕ × ℕ). q.0) e),
        ),
      )

  reused-IsNew :
      (k : ℕ) (payload : N) (parent : ℕ) (t : NodeTable N) (i g : ℕ) (rest : List (ℕ × ℕ))
      → t.free ≡ (i, g) ∷ rest
      → IsSound k t
      → IsNew t (i, reused payload parent t i g rest)
  unfolding get
  reused-IsNew k payload parent t i g rest e ok =
      let at = get-insert i i (new_slot t.next_record payload g parent) t.map in
      let same_gen : generation_of (slot_at (reused payload parent t i g rest) i) ≡ g =
        ground (arith, at) in
      let top : free_at t i ≡ some g = ground arith in
      let off : get i rest ≡ none = (subst IsDistinct e ok.distinct).0 in
      rw same_gen (
        record {
          known = (ok.free_numbered i g top).1;
          used = λ q h. ground (arith, at);
          freed = λ g' h. ground (arith, off);
        },
        λ p v. (
          reused-IsBehind k payload parent t i g rest e ok p v,
          λ same. absurd (ne p v top same),
        ),
      )
    where
      ne : (p : ℕ × ℕ) → IsBehind t p → free_at t i ≡ some g → p ≡ (i, g) → ⊥
      ne p v top same = omega (arith, v.freed g (rw same top), ap (λ (q : ℕ × ℕ). q.1) same)

  pub insert-IsNew :
      (k : ℕ) (payload : N) (parent : ℕ) (t : NodeTable N)
      → k + 3 < u64_mod
      → IsSound k t
      → IsNew t (Cx.insert payload parent t)
  insert-IsNew k payload parent t small ok =
      insert_cases (IsNew t) payload parent t (λ e. grown-IsNew k payload parent t small ok)
        (λ i g rest e. reused-IsNew k payload parent t i g rest e ok)
