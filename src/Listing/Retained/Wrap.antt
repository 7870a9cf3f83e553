-- ===== src/Listing/Retained/Wrap.antt =====
-- A directory handle on which sixteen listings are taken (typed-fuse-core/src/path_fs.rs).
use typed_fuse.Base.{ℕ, ◌+◌, ◌%◌, ◌<◌, ◌≡◌, refl, some, List, [], ◌∷◌, length, arith}
use typed_fuse.Listing.{DirBuffer}
use typed_fuse.Listing.Cookie.{cookie_generations}
use typed_fuse.Listing.Retained.{
  DirListing, DirListings, new_listings, get, finish, evict, push, current,
}
use typed_fuse.Listing.Retained.Laws.{get-push, back-append}

module _ {S : Type 0} where
  -- Reads from offset 0 that each go on to the end: each takes a new listing and drops it again.
  abbrev pub full_reads : List (ℕ × DirBuffer S × ℕ) → DirListings S → DirListings S
  full_reads [] l = l
  full_reads ((epoch, buffer, end) ∷ rounds) l =
      let (new, l') = push epoch buffer l in full_reads rounds (finish new end l')

  full_read_keeps :
      (old : DirListing S) (epoch end : ℕ) (buffer : DirBuffer S) (l : DirListings S)
      → l.retained ≡ old ∷ []
      → old.allocation < l.next_allocation
      → let l' = finish (push epoch buffer l).0 end (push epoch buffer l).1 in
        (l'.retained ≡ old ∷ [])
        × (old.allocation < l'.next_allocation)
        × (l'.next_generation ≡ (l.next_generation + 1) % cookie_generations)
  unfolding push finish
  full_read_keeps old epoch end buffer l e older = (ground arith, omega arith, refl)

  full_reads_keep :
      (old : DirListing S) (rounds : List (ℕ × DirBuffer S × ℕ)) (l : DirListings S)
      → l.retained ≡ old ∷ []
      → old.allocation < l.next_allocation
      → l.next_generation < cookie_generations
      → ((full_reads rounds l).retained ≡ old ∷ [])
        × ((full_reads rounds l).next_generation
            ≡ (l.next_generation + length rounds) % cookie_generations)
  full_reads_keep old [] l e older small = (e, omega arith)
  full_reads_keep old ((epoch, buffer, end) ∷ rounds) l e older small =
      let (e', older', next) = full_read_keeps old epoch end buffer l e older in
      let l' = finish (push epoch buffer l).0 end (push epoch buffer l).1 in
      let (kept, generation) = full_reads_keep old rounds l' e' older' (omega (arith, next)) in
      (kept, omega (arith, generation, next))

  -- A listing whose stream is never read to its end keeps its place while newer ones are dropped. After
  -- fifteen such full reads the next listing gets its generation: the cookies of the new listing find
  -- the old one, which is not the current one, whatever the two contain.
  pub stale_after_wrap :
      (epoch' epoch : ℕ) (first buffer : DirBuffer S) (rounds : List (ℕ × DirBuffer S × ℕ))
      → length rounds ≡ 15
      → let (old, l') = push epoch' first new_listings in
        let (new, l'') = push epoch buffer (full_reads rounds l') in
        (new.generation ≡ old.generation)
        × (get l'' new.generation ≡ some old)
        × (current l'' ≡ some new)
        × (old.buffer ≡ first)
        × (new.buffer ≡ buffer)
  unfolding push current
  stale_after_wrap epoch' epoch first buffer rounds h =
      let l' = (push epoch' first new_listings).1 in
      let old = (push epoch' first new_listings).0 in
      let (kept, generation) = full_reads_keep old rounds l' refl (omega arith) (omega arith) in
      (
        omega (arith, generation),
        ground (
          arith,
          generation,
          kept,
          get-push epoch buffer (full_reads rounds l') (full_reads rounds l').next_generation,
        ),
        back-append (evict (full_reads rounds l').retained)
            (push epoch buffer (full_reads rounds l')).0,
        refl,
        refl,
      )
