-- ===== src/Listing/Resume.antt =====
-- typed-fuse-core/src/path_fs.rs: `directory_listing`, what a directory read at an offset continues.
-- The state is the handle's listings beside the world `T` that `list_dir` acts on.
use typed_fuse.Base.{
  ℕ, ◌+◌, ◌<◌, ◌≤◌, ◌≡◌, ◌≢◌, refl, Bool, true, false, none, some, List, [], ◌∷◌, eqb, ltb,
  if◌then◌else◌, arith,
}
use typed_fuse.Base.Outcome.{Outcome, ok, err, panic, Errno, eoverflow, Exec}
use typed_fuse.Listing.{DirBuffer, len}
use typed_fuse.Listing.Cookie.{
  split_cookie, listing_cookie, max_listing_len, cookie_generations, split_cookie-listing_cookie,
  listing_cookie_bounds,
}
use typed_fuse.Listing.Retained.{DirListing, DirListings, get, has_ended, current, push, back}

pub data DirRead (S : Type 0) : Type 0 where
  -- The listing, the index to start from, and whether it is the cookie's own.
  listing : DirListing S → ℕ → Bool → DirRead S
  ended_read : DirRead S

back-none : {S : Type 0} (xs : List (DirListing S)) → back xs ≡ none → xs ≡ []
back-none [] e = refl
back-none (x ∷ []) e = cc
back-none (x ∷ y ∷ xs) e = absurd (ne (back-none (y ∷ xs) e))
  where
    ne : y ∷ xs ≡ [] → ⊥
    ne h = cc

module _ {S T : Type 0} where
  unfoldable pub listed : ℕ → ℕ → Outcome (DirBuffer S) → Exec (DirListings S × T) (DirRead S)
  listed epoch start (ok buffer) (l, w) =
      if ltb max_listing_len (len buffer)
      then (err eoverflow, (l, w))
      else let (new, l') = push epoch buffer l in (ok (listing new start true), (l', w))
  listed epoch start (err e) s = (err e, s)
  listed epoch start panic s = (panic, s)

  unfoldable pub directory_listing :
      ℕ → Exec T (DirBuffer S) → ℕ → Exec (DirListings S × T) (DirRead S)
  unfolding listed get has_ended current
  directory_listing epoch list_dir offset (l, w) =
      let (generation, start) = split_cookie offset in
      let refresh = let (r, w') = list_dir w in listed epoch start r (l, w') in
      if eqb offset 0 then refresh else elim (get l generation) [
        | some own ↦ (ok (listing own start true), (l, w))
        | none ↦
            if has_ended l generation start then (ok ended_read, (l, w)) else elim (current l) [
              | some newest ↦ (ok (listing newest start false), (l, w))
              | none ↦ refresh
            ]
      ]

  -- A read at the cookie of an entry of a listing that is found under its own generation continues
  -- that listing at the next entry, and changes nothing.
  pub resume_own :
      (epoch : ℕ) (list_dir : Exec T (DirBuffer S)) (l : DirListings S) (w : T) (d : DirListing S)
      (index : ℕ)
      → get l d.generation ≡ some d
      → d.generation < cookie_generations
      → index < max_listing_len
      → directory_listing epoch list_dir (listing_cookie d.generation index) (l, w)
        ≡ (ok (listing d (index + 1) true), (l, w))
  unfolding directory_listing
  resume_own epoch list_dir l w d index found g i = ground (
    arith,
    split_cookie-listing_cookie d.generation index g i,
    listing_cookie_bounds d.generation index g i,
  )

  -- A read from offset 0 always lists the directory again. If that succeeds with a buffer that fits
  -- its cookies, the read starts it at its beginning, as a listing of its own.
  pub offset_zero_refreshes :
      (epoch : ℕ) (list_dir : Exec T (DirBuffer S)) (l : DirListings S) (w w' : T)
      (buffer : DirBuffer S)
      → list_dir w ≡ (ok buffer, w')
      → len buffer ≤ max_listing_len
      → let (new, l') = push epoch buffer l in
        directory_listing epoch list_dir 0 (l, w) ≡ (ok (listing new 0 true), (l', w'))
  unfolding directory_listing split_cookie
  offset_zero_refreshes epoch list_dir l w w' buffer e fits = ground arith

  -- A read that fails, because the filesystem could not list or listed too much, leaves the handle's
  -- listings as they were.
  pub failed_refresh_keeps :
      (epoch : ℕ) (list_dir : Exec T (DirBuffer S)) (offset : ℕ) (l : DirListings S) (w : T)
      (e : Errno)
      → (directory_listing epoch list_dir offset (l, w)).0 ≡ err e
      → (directory_listing epoch list_dir offset (l, w)).1.0 ≡ l
  unfolding directory_listing
  failed_refresh_keeps epoch list_dir offset l w e h = ground arith

  -- A resumed read does not list the directory again while the handle retains any
  -- listing, and changes nothing.
  pub resume_does_not_list :
      (epoch : ℕ) (list_dir : Exec T (DirBuffer S)) (offset : ℕ) (l : DirListings S) (w : T)
      → offset ≢ 0
      → l.retained ≢ []
      → (directory_listing epoch list_dir offset (l, w)).1 ≡ (l, w)
  unfolding directory_listing
  resume_does_not_list epoch list_dir offset l w h kept = ground (arith, back-none l.retained)
