-- ===== src/Listing/Replay/Pages.antt =====
-- Reading a listing page by page (typed-fuse-core/src/path_fs.rs: `replay`, `replay_listing` and the
-- cookies together).
use typed_fuse.Base.{
  ℕ, zero, suc, ◌+◌, ◌-◌, ◌≤◌, ◌≡◌, refl, ap, sym, subst, ◌∙◌, Bool, true, false, Option, none,
  some, List, [], ◌∷◌, ◌++◌, length, length-append, length-drop, drop, take, get_elem?, ltb,
  if◌then◌else◌, arith, All, min,
}
use mathlib.Core.List.{append-nil, append_assoc}
use typed_fuse.Base.Outcome.{ok, panic, Exec}
use typed_fuse.Base.Order.{Bytes}
use typed_fuse.Listing.{DirEntry, replay, replay_from}
use typed_fuse.Listing.Cookie.{listing_cookie}
use typed_fuse.Listing.Replay.{PathEntry, Progress, needs_lookup, visit, replay_listing, conclude}

-- The reply buffer, as the entries that it holds and the number of them that fit.
abbrev pub Page : Type 0 → Type 0
Page S = List (DirEntry S × ℕ)

module _ {S : Type 0} where
  abbrev pub into_page : ℕ → DirEntry S → ℕ → Exec (Page S) Bool
  into_page capacity entry next_offset page =
      if ltb (length page) capacity
      then (ok true, page ++ (entry, next_offset) ∷ [])
      else (ok false, page)

  -- The entries with their resume cookies, the first at this index.
  abbrev pub with_cookies : ℕ → ℕ → List (DirEntry S) → Page S
  with_cookies generation index [] = []
  with_cookies generation index (e ∷ es) =
      (e, listing_cookie generation index) ∷ with_cookies generation (index + 1) es

  abbrev pub IsSettled : Bool → Bool → DirEntry S → Type 0
  IsSettled stale plus e = needs_lookup stale plus e ≡ false

  pub uncons_drop :
      (i : ℕ) (entries : List (DirEntry S)) (e : DirEntry S) (rest : List (DirEntry S))
      → drop i entries ≡ e ∷ rest
      → (get_elem? entries i ≡ some e) × (drop (suc i) entries ≡ rest)
  uncons_drop zero [] e rest h = cc
  uncons_drop (suc i) [] e rest h = cc
  uncons_drop zero (x ∷ xs) e rest h = (ground arith, ground arith)
  uncons_drop (suc i) (x ∷ []) e rest h = absurd (nothing i h)
    where
      none_left : List (DirEntry S)
      none_left = []

      nothing : (i : ℕ) → drop i none_left ≡ e ∷ rest → ⊥
      nothing zero h = cc
      nothing (suc i) h = cc
  uncons_drop (suc i) (x ∷ y ∷ xs) e rest h = uncons_drop i (y ∷ xs) e rest h

module _ {S : Type 0} (lookup : Bytes → Exec (Page S) (Option (PathEntry S))) (stale plus : Bool)
    (generation capacity : ℕ) (entries : List (DirEntry S)) where
  body : ℕ → ℕ → Exec (Progress × Page S) Bool
  body index _ s = elim (get_elem? entries index) [
    | none ↦ (panic, s)
    | some listed ↦
        visit lookup (into_page capacity) stale plus listed (listing_cookie generation index) s
  ]

  visit_lem :
      (index n : ℕ) (e : DirEntry S) (p : Progress) (page : Page S)
      → get_elem? entries index ≡ some e
      → needs_lookup stale plus e ≡ false
      → length page + n ≡ capacity
      → body index (index + 1) (p, page) ≡ (
          if ltb 0 n
          then (
            ok true,
            (
              record p { accepted = p.accepted + 1 },
              page ++ (e, listing_cookie generation index) ∷ [],
            ),
          )
          else (ok false, (p, page)))
  unfolding body visit
  visit_lem index n e p page at settled room = ground arith

  visit_room :
      (index n : ℕ) (e : DirEntry S) (p : Progress) (page : Page S)
      → get_elem? entries index ≡ some e
      → needs_lookup stale plus e ≡ false
      → length page + suc n ≡ capacity
      → body index (index + 1) (p, page) ≡ (
        ok true,
        (record p { accepted = p.accepted + 1 }, page ++ (e, listing_cookie generation index) ∷ []),
      )
  unfolding body visit
  visit_room index n e p page at settled room = ground arith

  after_next :
      (rest : List (DirEntry S)) (index : ℕ)
      → drop (suc index) entries ≡ rest
      → drop (index + 1) entries ≡ rest
  after_next rest index h =
      let next : suc index ≡ index + 1 = omega arith in subst (λ i. drop i entries ≡ rest) next h

  -- The loop from this index on, with room for `n` more entries.
  loop_lem :
      (n : ℕ) (rest : List (DirEntry S)) (index : ℕ) (p : Progress) (page : Page S)
      → drop index entries ≡ rest
      → All (IsSettled stale plus) rest
      → length page + n ≡ capacity
      → let added = with_cookies generation index (take n rest) in
        replay_from body (length rest) index (p, page)
        ≡ (ok tt, (record p { accepted = p.accepted + length added }, page ++ added))
  unfolding replay_from
  loop_lem zero [] index p page at settled room = ground (arith, append-nil page)
  loop_lem (suc n) [] index p page at settled room = ground (arith, append-nil page)
  loop_lem zero (e ∷ rest) index p page at settled room =
      rw (visit_lem index 0 e p page (uncons_drop index entries e rest at).0 settled.0 room)
        (ground (arith, append-nil page))
  loop_lem (suc n) (e ∷ rest) index p page at settled room =
      rw (visit_room index n e p page (uncons_drop index entries e rest at).0 settled.0 room) (
        loop_lem n rest (index + 1) _ (page ++ (e, listing_cookie generation index) ∷ [])
          (after_next rest index (uncons_drop index entries e rest at).1) settled.1
          (omega (arith, length-append page ((e, listing_cookie generation index) ∷ [])))
        ∙ ground (
          arith,
          append_assoc page ((e, listing_cookie generation index) ∷ [])
              (with_cookies generation (index + 1) (take n rest)),
        ))

module _ {S : Type 0} where
  -- A listing whose entries from an index on need no lookup is read from there by filling the reply
  -- with its next entries, as many as fit, each with the cookie of its place, and answering how
  -- many they are.
  pub replay-fills :
      (lookup : Bytes → Exec (Page S) (Option (PathEntry S)))
      → (stale plus : Bool) → (generation capacity : ℕ) → (entries : List (DirEntry S))
      → (start : ℕ) → start ≤ length entries
      → All (IsSettled stale plus) (drop start entries)
      → let page = with_cookies generation start (take capacity (drop start entries)) in
        replay_listing lookup (into_page capacity) stale plus generation entries start []
        ≡ (ok (length page), page)
  unfolding replay_listing replay conclude body
  replay-fills lookup stale plus generation capacity entries start h settled =
      let here : min start (length entries) ≡ start = omega arith in
      let left : length entries - start ≡ length (drop start entries) =
        sym (length-drop start entries) in
      rw (here, left)
        (ap conclude (
            loop_lem lookup stale plus generation capacity entries capacity (drop start entries)
              start (record { accepted = 0; failure = none }) [] refl settled (omega arith))
          ∙ ground arith)
