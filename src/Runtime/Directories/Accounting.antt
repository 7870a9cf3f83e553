-- ===== src/Runtime/Directories/Accounting.antt =====
-- What `readdirplus` has counted while its callback runs (typed-fuse-core/src/runtime.rs:
-- `Accounting`).
use typed_fuse.Base.{
  ℕ, ◌+◌, ◌≡◌, ◌≢◌, refl, ap, sym, ◌∙◌, Bool, true, false, Option, none, some, List, [], ◌∷◌, ◌++◌,
  eqb, if◌then◌else◌, arith, Bool-cases, Option-cases, inl, inr, subst, u64_max, checked_succ,
}
use typed_fuse.Base.Outcome.{Outcome, ok, err, panic, continue}
use typed_fuse.Base.Order.{nat_key, Bytes}
use typed_fuse.Attr.{NodeAttr}
use typed_fuse.NodeTable.{NodeTable, Slot, slot_at, put}
use typed_fuse.NodeTable.Counts
use typed_fuse.NodeTable.Effects.{slot_at-put}
use typed_fuse.NodeFs.{Listing, ends, acts, offers}
use typed_fuse.Runtime.{State}
use typed_fuse.Runtime.Entries.{EntryReply}
use typed_fuse.Runtime.Directories.{serve, account, note_retained, taken_entry, known_entry, is_dot}

abbrev pub count : ℕ → List ℕ → ℕ
count j [] = 0
count j (id ∷ ids) = if eqb id j then count j ids + 1 else count j ids

-- A directory callback that only offers entries.
abbrev pub OnlyOffers : {S E : Type 0} → Listing S E → Type 0
OnlyOffers (ends r) = Unit
OnlyOffers (acts f next) = ⊥
OnlyOffers (offers name id e next_offset next) = (more : Bool) → OnlyOffers (next more)

count-append : (j id : ℕ) (ids : List ℕ) → count j (ids ++ id ∷ []) ≡ count j (id ∷ ids)
count-append j id [] = refl
count-append j id (i ∷ ids) = ground (arith, count-append j id ids)

module _ {N : Type 0} where
  abbrev pub raised : ℕ → Option (Slot N) → Option (Slot N)
  raised k none = none
  raised k (some s) = some (record s { lookups = s.lookups + k })

  -- Each slot as in the base table, with a lookup more for each time it stands in the list.
  abbrev pub HasRetained : (ℕ → Option (Slot N)) → List ℕ → NodeTable N → Type 0
  HasRetained base ids t = (j : ℕ) → slot_at t j ≡ raised (count j ids) (base j)

  pub raised-zero : (o : Option (Slot N)) → raised 0 o ≡ o
  raised-zero none = refl
  raised-zero (some s) = let same : s.lookups + 0 ≡ s.lookups = omega arith in simp same refl

  retained_slot :
      (id : ℕ) (t u : NodeTable N)
      → Counts.retain_lookup id t ≡ (ok tt, u)
      → (j : ℕ) → slot_at u j ≡ (if eqb id j then raised 1 (slot_at t id) else slot_at t j)
  unfolding Counts.retain_lookup
  retained_slot id t u e j = elim (Option-cases (slot_at t id)) [
    | inl gone ↦ absurd (ground arith)
    | inr (s, here) ↦ elim (Option-cases (checked_succ u64_max s.lookups)) [
      | inl full ↦ absurd (ground arith)
      | inr (n, room) ↦
          let stored : u ≡ put id (record s { lookups = s.lookups + 1 }) t =
            ground (arith, here, room) in
          ap (λ v. slot_at v j) stored
          ∙ slot_at-put id j (record s { lookups = s.lookups + 1 }) t
          ∙ ground (arith, here)
    ]
  ]

  retain_fails :
      (id : ℕ) (t u : NodeTable N) (r : Outcome (Unit {0}))
      → Counts.retain_lookup id t ≡ (r, u)
      → r ≢ ok tt
      → u ≡ t
  unfolding Counts.retain_lookup
  retain_fails id t u r e failed = elim (Option-cases (slot_at t id)) [
    | inl gone ↦ ground arith
    | inr (s, here) ↦ elim (Option-cases (checked_succ u64_max s.lookups)) [
      | inl full ↦ ground arith
      | inr (n, room) ↦ absurd (ground (arith, here, room))
    ]
  ]

  raised-again : (k : ℕ) (o : Option (Slot N)) → raised 1 (raised k o) ≡ raised (k + 1) o
  raised-again k none = refl
  raised-again k (some s) =
      let same : s.lookups + k + 1 ≡ s.lookups + (k + 1) = omega arith in simp same refl

  HasRetained-more :
      (base : ℕ → Option (Slot N)) (ids : List ℕ) (id : ℕ) (t u : NodeTable N)
      → Counts.retain_lookup id t ≡ (ok tt, u)
      → HasRetained base ids t
      → HasRetained base (ids ++ id ∷ []) u
  HasRetained-more base ids id t u e h j =
      retained_slot id t u e j
      ∙ ground (arith, h j, h id, count-append j id ids, raised-again (count j ids) (base j))

module _ {N H D T K : Type 0} where
  taken-HasRetained :
      (base : ℕ → Option (Slot N)) (taken : Bool) (name : Bytes) (id : ℕ)
      (s : State N H D (T × (K × List ℕ)))
      → HasRetained base s.world.1.1 s.table
      → let s' = (taken_entry taken name id s).1 in HasRetained base s'.world.1.1 s'.table
  taken-HasRetained base false name id s h = h
  taken-HasRetained base true name id s h = elim (Bool-cases (is_dot name)) [
    | inl dot ↦ rw dot h
    | inr child ↦ rw child (noted (Counts.retain_lookup id s.table) refl)
  ]
    where
      noted :
          (r : Outcome (Unit {0}) × NodeTable N)
          → Counts.retain_lookup id s.table ≡ r
          → let s' = (note_retained id (r.0, record s { table = r.1 })).1 in
            HasRetained base s'.world.1.1 s'.table
      noted (ok _, u) e = HasRetained-more base s.world.1.1 id s.table u e h
      noted (err x, u) e =
          subst (HasRetained base s.world.1.1) (sym (retain_fails id s.table u (err x) e λ f. cc)) h
      noted (panic, u) e =
          subst (HasRetained base s.world.1.1) (sym (retain_fails id s.table u panic e λ f. cc)) h

  account-HasRetained :
      (sink : Bytes → EntryReply → ℕ → K → Bool × K) (base : ℕ → Option (Slot N)) (name : Bytes)
      (id : ℕ) (attr : NodeAttr) (next_offset : ℕ) (s : State N H D (T × (K × List ℕ)))
      → HasRetained base s.world.1.1 s.table
      → let s' = (account sink name id attr next_offset s).1 in
        HasRetained base s'.world.1.1 s'.table
  unfolding account
  account-HasRetained sink base name id attr next_offset s h = go (Counts.plus_entry id s.table).0
    where
      go :
          (o : Outcome ℕ)
          → let s' = (known_entry sink name id attr next_offset o s).1 in
            HasRetained base s'.world.1.1 s'.table
      go (err e) = h
      go panic = h
      go (ok generation) = taken-HasRetained base _ name id _ h

module _ {N H D T K : Type 0} where
  pub serve-HasRetained :
      (sink : Bytes → EntryReply → ℕ → K → Bool × K) (base : ℕ → Option (Slot N))
      (listing : Listing (NodeTable N × T) NodeAttr) (s : State N H D (T × (K × List ℕ)))
      → OnlyOffers listing
      → HasRetained base s.world.1.1 s.table
      → let s' = (serve listing (account sink) s).1 in HasRetained base s'.world.1.1 s'.table
  unfolding serve
  serve-HasRetained sink base (ends r) s only h = h
  serve-HasRetained sink base (acts f next) s only h = elim only [ ]
  serve-HasRetained sink base (offers name id e next_offset next) s only h =
      go
        (λ more.
          serve-HasRetained sink base (next more) (account sink name id e next_offset s).1
            (only more))
        (account sink name id e next_offset s).0
        (account-HasRetained sink base name id e next_offset s h)
    where
      go :
          ((more : Bool)
            → let u = (account sink name id e next_offset s).1 in
              HasRetained base u.world.1.1 u.table
              → let s' = (serve (next more) (account sink) u).1 in
                HasRetained base s'.world.1.1 s'.table)
          → (o : Outcome Bool)
          → let u = (account sink name id e next_offset s).1 in
            HasRetained base u.world.1.1 u.table
            → let s' = (continue o (λ more. serve (next more) (account sink)) u).1 in
              HasRetained base s'.world.1.1 s'.table
      go step (ok more) k = step more k
      go step (err x) k = k
      go step panic k = k
