-- ===== src/Listing/Retained/Laws.antt =====
-- What a directory handle remembers of its listings (typed-fuse-core/src/path_fs.rs).
use typed_fuse.Base.{
  ℕ, zero, suc, ◌+◌, ◌≤◌, ◌<◌, ◌≡◌, refl, false, not, none, some, List, [], ◌∷◌, ◌++◌, length,
  length-append, length-set, length-keep-le, get_elem?, set, eqb, leb, if◌then◌else◌, arith, All,
  Bool-cases, inl, inr,
}
use typed_fuse.Listing.{DirBuffer}
use typed_fuse.Listing.Cookie.{cookie_generations, retained_listings}
use typed_fuse.Listing.Retained.{
  DirListing, DirListings, new_listings, has_ended, find, get, finish, evict, push, others, current,
  back,
}

get_elem?-set :
    {A : Type 0} (xs : List A) (i j : ℕ) (v : A)
    → i < length xs
    → get_elem? (set xs i v) j ≡ (if eqb i j then some v else get_elem? xs j)
get_elem?-set [] i j v h = elim h [ ]
get_elem?-set (x ∷ xs) zero zero v h = refl
get_elem?-set (x ∷ xs) zero (suc j) v h = ground arith
get_elem?-set (x ∷ xs) (suc i) zero v h = ground arith
get_elem?-set (x ∷ xs) (suc i) (suc j) v h = ground (arith, get_elem?-set xs i j v)

-- At most four listings are kept, their generations are in range, and allocations are older than
-- the next one.
pub record IsTidy {S : Type 0} (l : DirListings S) : Type 0 where
  pub few : length l.retained ≤ retained_listings
  pub slots : length l.ended ≡ cookie_generations
  pub next : l.next_generation < cookie_generations
  pub known :
      All
        (λ (d : DirListing S).
          (d.generation < cookie_generations) × (d.allocation < l.next_allocation))
        l.retained

module _ {S : Type 0} where
  find-append :
      (g : ℕ) (xs : List (DirListing S)) (new : DirListing S)
      → find g (xs ++ new ∷ []) ≡ elim (find g xs) [
        | some old ↦ some old
        | none ↦ if eqb new.generation g then some new else none
      ]
  find-append g [] new = ground arith
  find-append g (x ∷ xs) new = ground (arith, find-append g xs new)

  pub back-append :
      (xs : List (DirListing S)) (new : DirListing S) → back (xs ++ new ∷ []) ≡ some new
  back-append [] new = refl
  back-append (x ∷ []) new = refl
  back-append (x ∷ y ∷ xs) new = back-append (y ∷ xs) new

  -- After a new listing: a generation finds the oldest listing of that generation which was retained
  -- and not evicted, and if there is none, the new listing under its own generation and nothing under
  -- any other.
  pub get-push :
      (epoch : ℕ) (buffer : DirBuffer S) (l : DirListings S) (g : ℕ)
      → let (new, l') = push epoch buffer l in
        get l' g ≡ elim (find g (evict l.retained)) [
          | some old ↦ some old
          | none ↦ if eqb l.next_generation g then some new else none
        ]
  unfolding get push
  get-push epoch buffer l g = find-append g (evict l.retained) (push epoch buffer l).0

  -- If no retained listing has the generation that comes next, then a new listing is the current one,
  -- it is found by its generation, and no index of it counts as ended.
  pub push_resumes :
      (epoch : ℕ) (buffer : DirBuffer S) (l : DirListings S) (index : ℕ)
      → IsTidy l
      → find l.next_generation (evict l.retained) ≡ none
      → let (new, l') = push epoch buffer l in
        (get l' new.generation ≡ some new)
        × (current l' ≡ some new)
        × (has_ended l' new.generation index ≡ false)
  unfolding current has_ended push
  push_resumes epoch buffer l index tidy free = (
    ground (arith, get-push epoch buffer l l.next_generation),
    back-append (evict l.retained) (push epoch buffer l).0,
    ground (
      arith,
      get_elem?-set l.ended l.next_generation l.next_generation none,
      tidy.next,
      tidy.slots,
    ),
  )

  -- Dropping a listing after an empty read at `end`: if it was retained, its generation has ended from
  -- `end` on, and the other generations are as before; if it was not, nothing is recorded.
  pub has_ended-finish :
      (d : DirListing S) (end : ℕ) (l : DirListings S) (g index : ℕ)
      → IsTidy l
      → d.generation < cookie_generations
      → has_ended (finish d end l) g index ≡ (
          if eqb (length (others d l.retained)) (length l.retained)
          then has_ended l g index
          else if eqb d.generation g
          then leb end index
          else has_ended l g index)
  unfolding has_ended finish
  has_ended-finish d end l g index tidy small =
      let room : d.generation < length l.ended = omega (arith, tidy.slots) in
      ground (arith, get_elem?-set l.ended d.generation g (some end) room)

  known_mono :
      (m n : ℕ) (xs : List (DirListing S))
      → m ≤ n
      → All (λ (d : DirListing S). (d.generation < cookie_generations) × (d.allocation < m)) xs
      → All (λ (d : DirListing S). (d.generation < cookie_generations) × (d.allocation < n)) xs
  known_mono m n [] h a = tt
  known_mono m n (x ∷ xs) h a = ((a.0.0, omega (arith, a.0.1)), known_mono m n xs h a.1)

  All-append {κ} :
      (P : DirListing S → Type κ) (xs : List (DirListing S)) (new : DirListing S)
      → All P xs
      → P new
      → All P (xs ++ new ∷ [])
  All-append P [] new a p = (p, tt)
  All-append P (x ∷ xs) new a p = (a.0, All-append P xs new a.1 p)

  All-evict {κ} :
      (P : DirListing S → Type κ) (xs : List (DirListing S)) → All P xs → All P (evict xs)
  All-evict P [] a = tt
  All-evict P (x ∷ xs) a = elim (Bool-cases (eqb (length (x ∷ xs)) retained_listings)) [
    | inl full ↦ rw full a.1
    | inr room ↦ rw room a
  ]

  All-others {κ} :
      (P : DirListing S → Type κ) (d : DirListing S) (xs : List (DirListing S))
      → All P xs
      → All P (others d xs)
  All-others P d [] a = tt
  All-others P d (x ∷ xs) a = elim (Bool-cases (eqb x.allocation d.allocation)) [
    | inl it ↦ rw it (All-others P d xs a.1)
    | inr another ↦ rw another (a.0, All-others P d xs a.1)
  ]

  length-evict : (xs : List (DirListing S)) → length xs ≤ 4 → length (evict xs) ≤ 3
  length-evict [] h = omega arith
  length-evict (x ∷ xs) h = ground arith

  push-IsTidy :
      (epoch : ℕ) (buffer : DirBuffer S) (l : DirListings S)
      → IsTidy l
      → IsTidy (push epoch buffer l).1
  unfolding push
  push-IsTidy epoch buffer l v = record {
    few = omega (
      arith,
      length-append (evict l.retained) ((push epoch buffer l).0 ∷ []),
      length-evict l.retained v.few,
    );
    slots = omega (arith, length-set l.ended l.next_generation none, v.slots);
    next = omega arith;
    known =
        All-append _ (evict l.retained) (push epoch buffer l).0
          (known_mono l.next_allocation (l.next_allocation + 1) (evict l.retained) (omega arith)
            (All-evict _ l.retained v.known))
          (v.next, omega arith);
  }

  finish-IsTidy :
      (d : DirListing S) (end : ℕ) (l : DirListings S) → IsTidy l → IsTidy (finish d end l)
  unfolding finish
  finish-IsTidy d end l v = record {
    few = omega (
      arith,
      length-keep-le (λ (other : DirListing S). not (eqb other.allocation d.allocation)) l.retained,
      v.few,
    );
    slots = ground (arith, length-set l.ended d.generation (some end), v.slots);
    next = v.next;
    known = All-others _ d l.retained v.known;
  }

  new-IsTidy : IsTidy (new_listings {S = S})
  new-IsTidy = record { few = omega arith; slots = refl; next = omega arith; known = tt }

-- What reads do to a handle: take a new listing, or drop one that an empty read has ended.
pub data Event (S : Type 0) : Type 0 where
  pushes : ℕ → DirBuffer S → Event S
  finishes : DirListing S → ℕ → Event S

module _ {S : Type 0} where
  abbrev pub after : Event S → DirListings S → DirListings S
  after (pushes epoch buffer) l = (push epoch buffer l).1
  after (finishes d end) l = finish d end l

  abbrev pub run : List (Event S) → DirListings S → DirListings S
  run [] l = l
  run (e ∷ es) l = run es (after e l)

  run-IsTidy_from : (es : List (Event S)) (l : DirListings S) → IsTidy l → IsTidy (run es l)
  run-IsTidy_from [] l v = v
  run-IsTidy_from (pushes epoch buffer ∷ es) l v =
      run-IsTidy_from es (push epoch buffer l).1 (push-IsTidy epoch buffer l v)
  run-IsTidy_from (finishes d end ∷ es) l v =
      run-IsTidy_from es (finish d end l) (finish-IsTidy d end l v)

  -- Whatever the order of new listings and dropped ones on a new handle: at most four listings are
  -- retained, every generation is below 16, so that it fits its cookie bits and the array of ended
  -- listings, and that array keeps its 16 places.
  pub run-IsTidy : (es : List (Event S)) → IsTidy (run es new_listings)
  run-IsTidy es = run-IsTidy_from es new_listings new-IsTidy
