-- ===== src/Listing/Replay/Whole.antt =====
-- A whole directory, read by one `readdir` after another (typed-fuse-core/src/path_fs.rs: the
-- cookies, `split_cookie` and `replay_listing` together).
use typed_fuse.Base.{
  ℕ, zero, suc, ◌+◌, ◌-◌, ◌≤◌, ◌<◌, ◌≡◌, refl, ap, sym, subst, ◌∙◌, Bool, Option, none, some, List,
  [], ◌∷◌, ◌++◌, length, length-drop, drop, take, arith, All,
}
use typed_fuse.Base.Outcome.{Exec}
use typed_fuse.Base.Order.{Bytes}
use typed_fuse.Listing.{DirEntry}
use typed_fuse.Listing.Cookie.{
  listing_cookie, split_cookie, split_cookie-listing_cookie, cookie_generations, max_listing_len,
}
use typed_fuse.Listing.Replay.{PathEntry, replay_listing}
use typed_fuse.Listing.Replay.Pages.{Page, into_page, with_cookies, IsSettled, replay-fills}

module _ {S : Type 0} where
  -- The offset that the kernel resumes from.
  abbrev pub last_cookie : Page S → Option ℕ
  last_cookie [] = none
  last_cookie ((e, cookie) ∷ []) = some cookie
  last_cookie (x ∷ y ∷ page) = last_cookie (y ∷ page)

  last_cookie_lem :
      (generation index : ℕ) (e : DirEntry S) (es : List (DirEntry S))
      → last_cookie (with_cookies generation index (e ∷ es))
        ≡ some (listing_cookie generation (index + length es))
  last_cookie_lem generation index e [] = ground arith
  last_cookie_lem generation index e (x ∷ es) =
      last_cookie_lem generation (index + 1) x es ∙ ground arith

  take-drop_cookies :
      (generation index n : ℕ) (es : List (DirEntry S))
      → with_cookies generation index (take n es)
          ++ with_cookies generation (index + length (take n es)) (drop n es)
        ≡ with_cookies generation index es
  take-drop_cookies generation index zero es = ground arith
  take-drop_cookies generation index (suc n) [] = refl
  take-drop_cookies generation index (suc n) (e ∷ es) =
      let next : index + suc (length (take n es)) ≡ index + 1 + length (take n es) = omega arith in
      rw next (
        ap (λ more. (e, listing_cookie generation index) ∷ more)
          (take-drop_cookies generation (index + 1) n es))

  drop-drop : (i n : ℕ) (es : List (DirEntry S)) → drop (i + n) es ≡ drop n (drop i es)
  drop-drop zero n es = ground arith
  drop-drop (suc i) n [] = drop_none (suc i + n) ∙ sym (drop_none n)
    where
      drop_none : (n : ℕ) → drop {A = DirEntry S} n [] ≡ []
      drop_none zero = refl
      drop_none (suc n) = refl
  drop-drop (suc i) n (e ∷ es) =
      let next : suc i + n ≡ suc (i + n) = omega arith in rw next (drop-drop i n es)

  drop-taken : (n : ℕ) (es : List (DirEntry S)) → drop (length (take n es)) es ≡ drop n es
  drop-taken zero es = refl
  drop-taken (suc n) [] = refl
  drop-taken (suc n) (e ∷ es) = drop-taken n es

  take_none : (n : ℕ) → take {A = DirEntry S} n [] ≡ []
  take_none zero = refl
  take_none (suc n) = refl

  length-take : (n : ℕ) (es : List (DirEntry S)) → length (take n es) ≤ length es
  length-take zero es = omega arith
  length-take (suc n) [] = omega arith
  length-take (suc n) (e ∷ es) = omega (arith, length-take n es)

  -- The cookie of the last entry of a page leads to the entry after the page.
  resumes_after :
      (generation index n : ℕ) (e : DirEntry S) (es : List (DirEntry S))
      → 0 < n
      → generation < cookie_generations
      → index + suc (length es) ≤ max_listing_len
      → (cookie : ℕ) × (last_cookie (with_cookies generation index (take n (e ∷ es))) ≡ some cookie)
        × ((split_cookie cookie).1 ≡ index + length (take n (e ∷ es)))
  resumes_after generation index zero e es some_room g small = absurd (omega arith)
  resumes_after generation index (suc n) e es some_room g small = (
    listing_cookie generation (index + length (take n es)),
    last_cookie_lem generation index e (take n es),
    (let short : length (take n es) ≤ length es = length-take n es in
        ground (
          arith,
          split_cookie-listing_cookie generation (index + length (take n es)) g (omega arith),
        )),
  )

  All-drop :
      (P : DirEntry S → Type 0) (n : ℕ) (es : List (DirEntry S)) → All P es → All P (drop n es)
  All-drop P zero es h = h
  All-drop P (suc n) [] h = _
  All-drop P (suc n) (e ∷ es) h = All-drop P n es h.1

  abbrev pub follow : (ℕ → Page S) → Page S → Option ℕ → Page S
  follow read page none = []
  follow read page (some cookie) = page ++ read (split_cookie cookie).1

module _ {S : Type 0} (lookup : Bytes → Exec (Page S) (Option (PathEntry S))) (stale plus : Bool)
    (generation capacity : ℕ) (entries : List (DirEntry S)) where
  abbrev pub page_at : ℕ → Page S
  page_at start =
      (replay_listing lookup (into_page capacity) stale plus generation entries start []).1

  -- Read from an index, then from the last cookie of each reply, until a reply is empty.
  unfoldable pub read_pages : ℕ → ℕ → Page S
  read_pages zero start = []
  read_pages (suc fuel) start =
      let page = page_at start in follow (λ next. read_pages fuel next) page (last_cookie page)

  filled :
      (start : ℕ) (rest : List (DirEntry S))
      → start ≤ length entries
      → drop start entries ≡ rest
      → All (IsSettled stale plus) entries
      → page_at start ≡ with_cookies generation start (take capacity rest)
  filled start rest here at settled =
      subst (λ r. page_at start ≡ with_cookies generation start (take capacity r)) at
        (ap (λ x. x.1)
          (replay-fills lookup stale plus generation capacity entries start here
            (All-drop (IsSettled stale plus) start entries settled)))

  read_pages_lem :
      0 < capacity
      → generation < cookie_generations
      → length entries ≤ max_listing_len
      → All (IsSettled stale plus) entries
      → (fuel start : ℕ) (rest : List (DirEntry S)) → start ≤ length entries
      → drop start entries ≡ rest
      → length rest < fuel
      → read_pages fuel start ≡ with_cookies generation start rest
  unfolding read_pages
  read_pages_lem room g small settled zero start rest here at enough = absurd (omega arith)
  read_pages_lem room g small settled (suc fuel) start [] here at enough =
      ap (λ page. follow (read_pages fuel) page (last_cookie page))
        (filled start [] here at settled
          ∙ ap (with_cookies generation start) (take_none {S = S} capacity))
  read_pages_lem room g small settled (suc fuel) start (e ∷ rest) here at enough =
      let left : length entries - start ≡ suc (length rest) =
        sym (length-drop start entries) ∙ ap length at in
      let (cookie, last, next) =
        resumes_after generation start capacity e rest room g (omega arith) in
      ap (λ page. follow (read_pages fuel) page (last_cookie page))
        (filled start (e ∷ rest) here at settled)
      ∙ ap (follow (read_pages fuel) (with_cookies generation start (take capacity (e ∷ rest))))
          last
      ∙ ap
          (λ index.
            with_cookies generation start (take capacity (e ∷ rest)) ++ read_pages fuel index)
          next
      ∙ ap (λ more. with_cookies generation start (take capacity (e ∷ rest)) ++ more)
          (read_pages_lem room g small settled fuel (start + length (take capacity (e ∷ rest)))
            (drop capacity (e ∷ rest)) (omega (arith, length-take capacity (e ∷ rest)))
            (drop-drop start (length (take capacity (e ∷ rest))) entries
              ∙ ap (drop (length (take capacity (e ∷ rest)))) at
              ∙ drop-taken capacity (e ∷ rest))
            (omega (arith, length-drop capacity (e ∷ rest))))
      ∙ take-drop_cookies generation start capacity (e ∷ rest)

module _ {S : Type 0} where
  -- A directory whose listing fits its cookies and needs no lookups is read whole: successive
  -- reads, each resumed from the last cookie of the one before, deliver every entry once and in
  -- order with the cookie of its place, for any reply buffer with room for an entry.
  pub read_pages-whole :
      (lookup : Bytes → Exec (Page S) (Option (PathEntry S)))
      → (stale plus : Bool) → (generation capacity : ℕ) → (entries : List (DirEntry S))
      → 0 < capacity
      → generation < cookie_generations
      → length entries ≤ max_listing_len
      → All (IsSettled stale plus) entries
      → read_pages lookup stale plus generation capacity entries (length entries + 1) 0
        ≡ with_cookies generation 0 entries
  read_pages-whole lookup stale plus generation capacity entries room g small settled =
      read_pages_lem lookup stale plus generation capacity entries room g small settled
        (length entries + 1) 0 entries (omega arith) refl (omega arith)
