-- ===== src/Listing/Retained.antt =====
-- typed-fuse-core/src/path_fs.rs: the listings that a directory handle keeps for resumed reads. An
-- `Arc<DirListing>` has the number of its allocation, which `Arc::ptr_eq` compares.
pub mod Laws
pub mod Wrap
use typed_fuse.Base.{
  ℕ, zero, suc, ◌+◌, ◌%◌, Bool, true, false, not, Option, none, some, List, [], ◌∷◌, ◌++◌, length,
  get_elem?, set, keep, replicate, eqb, leb, if◌then◌else◌,
}
use typed_fuse.Listing.{DirBuffer}
use typed_fuse.Listing.Cookie.{cookie_generations, retained_listings}

pub record DirListing (S : Type 0) : Type 0 where
  pub allocation : ℕ
  pub generation : ℕ
  pub epoch : ℕ
  pub buffer : DirBuffer S

pub record DirListings (S : Type 0) : Type 0 where
  pub next_generation : ℕ
  -- Oldest first; the last is the current one.
  pub retained : List (DirListing S)
  -- For each generation, the index at which its dropped listing ended.
  pub ended : List (Option ℕ)
  pub next_allocation : ℕ

abbrev pub at_or_after : ℕ → Option (Option ℕ) → Bool
at_or_after index (some (some end)) = leb end index
at_or_after index (some none) = false
at_or_after index none = false

module _ {S : Type 0} where
  abbrev pub new_listings : DirListings S
  new_listings = record {
    next_generation = 0;
    retained = [];
    ended = replicate cookie_generations none;
    next_allocation = 0;
  }

  -- A generation is below 16, so the array access is in range.
  unfoldable pub has_ended : DirListings S → ℕ → ℕ → Bool
  has_ended l generation index = at_or_after index (get_elem? l.ended generation)

  abbrev pub find : ℕ → List (DirListing S) → Option (DirListing S)
  find generation [] = none
  find generation (listing ∷ rest) =
      if eqb listing.generation generation then some listing else find generation rest

  unfoldable pub get : DirListings S → ℕ → Option (DirListing S)
  get l generation = find generation l.retained

  abbrev pub back : List (DirListing S) → Option (DirListing S)
  back [] = none
  back (listing ∷ []) = some listing
  back (_ ∷ next ∷ rest) = back (next ∷ rest)

  unfoldable pub current : DirListings S → Option (DirListing S)
  current l = back l.retained

  -- What `finish` leaves of the retained listings.
  abbrev pub others : DirListing S → List (DirListing S) → List (DirListing S)
  others listing = keep (λ other. not (eqb other.allocation listing.allocation))

  unfoldable pub finish : DirListing S → ℕ → DirListings S → DirListings S
  finish listing end l =
      let rest = others listing l.retained in
      record l {
        retained = rest;
        ended =
            if eqb (length rest) (length l.retained)
            then l.ended
            else set l.ended listing.generation (some end);
      }

  abbrev pub evict : List (DirListing S) → List (DirListing S)
  evict [] = []
  evict (oldest ∷ rest) =
      if eqb (length (oldest ∷ rest)) retained_listings then rest else oldest ∷ rest

  unfoldable pub push : ℕ → DirBuffer S → DirListings S → DirListing S × DirListings S
  push epoch buffer l =
      let listing : DirListing S = record {
        allocation = l.next_allocation;
        generation = l.next_generation;
        epoch = epoch;
        buffer = buffer;
      } in
      (
        listing,
        record l {
          ended = set l.ended l.next_generation none;
          next_generation = (l.next_generation + 1) % cookie_generations;
          retained = evict l.retained ++ listing ∷ [];
          next_allocation = l.next_allocation + 1;
        },
      )
