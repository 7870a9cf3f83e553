-- ===== src/Listing/Replay/Attributes.antt =====
-- The `expect` of `readdirplus` (typed-fuse-core/src/path_fs.rs): which entries `replay_listing`
-- hands to `emit`.
use typed_fuse.Base.{
  ℕ, zero, suc, ◌≡◌, refl, ap, sym, some-eq, Bool, true, ◌||◌, Option, none, some, List, [], ◌∷◌,
  length, get_elem?, arith, if◌then◌else◌, All, Option-cases, inl, inr,
}
use std.Path.{fun_ext}
use typed_fuse.Base.Outcome.{Outcome, ok, err, panic, Exec}
use typed_fuse.Base.Order.{Bytes}
use typed_fuse.Listing.{DirEntry, replay}
use typed_fuse.Listing.Cookie.{listing_cookie}
use typed_fuse.Listing.Replay.{
  PathEntry, Progress, visit, replay_listing, conclude, is_child, has_attr, choose, act,
}

module _ {S T : Type 0} where
  -- The `emit` of `readdirplus`, which expects attributes.
  abbrev pub expecting : (DirEntry S → ℕ → Exec T Bool) → DirEntry S → ℕ → Exec T Bool
  expecting emit entry next_offset w =
      if has_attr entry then emit entry next_offset w else (panic, w)

module _ {S : Type 0} where
  -- An entry with attributes, or a child, which is looked up for them.
  abbrev pub IsReadable : DirEntry S → Type 0
  IsReadable entry = (is_child entry.identity || has_attr entry) ≡ true

  All-at :
      (entries : List (DirEntry S)) (index : ℕ) (e : DirEntry S)
      → All IsReadable entries
      → get_elem? entries index ≡ some e
      → IsReadable e
  All-at [] index e h here = cc
  All-at (x ∷ entries) zero e h here = rw (sym (some-eq here)) h.0
  All-at (x ∷ entries) (suc index) e h here = All-at entries index e h.1 here

module _ {S T : Type 0} where
  step :
      (Bytes → Exec T (Option (PathEntry S)))
      → (DirEntry S → ℕ → Exec T Bool)
      → Bool
      → ℕ
      → List (DirEntry S)
      → ℕ
      → ℕ
      → Exec (Progress × T) Bool
  step lookup emit stale generation entries index _ s = elim (get_elem? entries index) [
    | none ↦ (panic, s)
    | some listed ↦ visit lookup emit stale true listed (listing_cookie generation index) s
  ]

module _ {S T : Type 0} (lookup : Bytes → Exec T (Option (PathEntry S)))
    (emit : DirEntry S → ℕ → Exec T Bool) where
  act-expecting :
      (e : DirEntry S) (next_offset : ℕ) (r : Outcome (Option (PathEntry S))) (s : Progress × T)
      → act (expecting emit) next_offset (choose true e r) s
        ≡ act emit next_offset (choose true e r) s
  unfolding act choose
  act-expecting e next_offset (ok none) s = refl
  act-expecting e next_offset (ok (some found)) s = refl
  act-expecting e next_offset (err x) s = ground arith
  act-expecting e next_offset panic s = refl

  visit-expecting :
      (stale : Bool) (e : DirEntry S) (next_offset : ℕ) (s : Progress × T)
      → IsReadable e
      → visit lookup (expecting emit) stale true e next_offset s
        ≡ visit lookup emit stale true e next_offset s
  unfolding visit
  visit-expecting stale e next_offset (p, w) h =
      ground (arith, act-expecting e next_offset (lookup e.name w).0 (p, (lookup e.name w).1))

  body-expecting :
      (stale : Bool) (generation : ℕ) (entries : List (DirEntry S))
      → All IsReadable entries
      → (index offset : ℕ) (s : Progress × T)
      → step lookup (expecting emit) stale generation entries index offset s
        ≡ step lookup emit stale generation entries index offset s
  unfolding step
  body-expecting stale generation entries h index offset s =
      elim (Option-cases (get_elem? entries index)) [
        | inl none_here ↦ rw (none_here, step) refl
        | inr (e, here) ↦
            rw (here, step)
              (visit-expecting stale e (listing_cookie generation index) s
                (All-at entries index e h here))
      ]

  -- A readdirplus never hands `emit` an entry without attributes, so its `expect` never panics:
  -- in a listing whose dot entries have attributes, `emit` may expect them at every entry,
  -- whatever the lookups answer and whether or not the listing is stale.
  pub replay_listing-expecting :
      (stale : Bool) (generation : ℕ) (entries : List (DirEntry S)) (start : ℕ) (w : T)
      → All IsReadable entries
      → replay_listing lookup (expecting emit) stale true generation entries start w
        ≡ replay_listing lookup emit stale true generation entries start w
  unfolding replay_listing step
  replay_listing-expecting stale generation entries start w h =
      ap
        (λ body.
          conclude
            (replay start (length entries) body (record { accepted = 0; failure = none }, w)))
        (fun_ext λ index.
          fun_ext λ offset. fun_ext λ s. body-expecting stale generation entries h index offset s)
