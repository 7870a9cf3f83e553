-- ===== src/Listing/Replay.antt =====
-- typed-fuse-core/src/path_fs.rs: `replay_listing`, which offers the entries of a listing from an
-- index on, looking up again those that may have changed. `T` is the world that the filesystem's
-- `lookup` and the reply buffer behind `emit` act on.
pub mod Pages
pub mod Whole
pub mod Attributes
use typed_fuse.Base.{
  ℕ, ◌+◌, Bool, true, false, not, ◌&&◌, ◌||◌, Option, none, some, List, length, eqb, if◌then◌else◌,
  get_elem?,
}
use typed_fuse.Base.Outcome.{
  Outcome, ok, err, panic, Errno, enoent, Exec, pure, fail, continue, ◌>>=◌,
}
use typed_fuse.Base.Order.{Bytes}
use typed_fuse.Attr.{NodeAttr}
use typed_fuse.Listing.{DirEntry, PathDirIdentity, current, parent, child, replay}
use typed_fuse.Listing.Cookie.{listing_cookie}

pub record PathEntry (S : Type 0) : Type 0 where
  pub attr : NodeAttr
  pub state : S

-- The two variables that the loop's closure captures.
pub record Progress : Type 0 where
  pub accepted : ℕ
  pub failure : Option Errno

-- What becomes of an entry after its lookup.
pub data Choice (S : Type 0) : Type 0 where
  skips : Choice S
  sends : DirEntry S → Choice S
  stops : Errno → Choice S
  panics : Choice S

abbrev pub is_enoent : Errno → Bool
is_enoent enoent = true
is_enoent _ = false

module _ {S : Type 0} where
  abbrev pub is_child : PathDirIdentity S → Bool
  is_child current = false
  is_child parent = false
  is_child (child state) = true

  abbrev pub has_attr : DirEntry S → Bool
  has_attr entry = elim entry.attr [ none ↦ false | some attr ↦ true ]

  abbrev pub needs_lookup : Bool → Bool → DirEntry S → Bool
  needs_lookup stale plus listed =
      is_child listed.identity && (stale || plus && not (has_attr listed))

  abbrev pub found_entry : DirEntry S → PathEntry S → DirEntry S
  found_entry listed found = record {
    name = listed.name;
    kind = found.attr.kind;
    attr = some found.attr;
    identity = child found.state;
  }

  unfoldable pub choose : Bool → DirEntry S → Outcome (Option (PathEntry S)) → Choice S
  choose plus listed (ok none) = skips
  choose plus listed (ok (some found)) = sends (found_entry listed found)
  choose plus listed (err e) =
      if is_enoent e then skips else if not plus || has_attr listed then sends listed else stops e
  choose plus listed panic = panics

module _ {T : Type 0} where
  -- `if !emit(entry, next_offset) { return false; } accepted += 1; true`
  abbrev pub accept : Outcome Bool → Exec (Progress × T) Bool
  accept (ok true) (p, w) = (ok true, (record p { accepted = p.accepted + 1 }, w))
  accept (ok false) s = (ok false, s)
  accept (err e) s = (err e, s)
  accept panic s = (panic, s)

  unfoldable pub conclude : Outcome (Unit {0}) × (Progress × T) → Outcome ℕ × T
  conclude (ok _, (p, w)) = elim p.failure [
    | some e ↦ if eqb p.accepted 0 then (err e, w) else (ok p.accepted, w)
    | none ↦ (ok p.accepted, w)
  ]
  conclude (err e, (p, w)) = (err e, w)
  conclude (panic, (p, w)) = (panic, w)

module _ {S T : Type 0} where
  abbrev pub offer : (DirEntry S → ℕ → Exec T Bool) → DirEntry S → ℕ → Exec (Progress × T) Bool
  offer emit entry next_offset (p, w) = let (r, w') = emit entry next_offset w in accept r (p, w')

  unfoldable pub act : (DirEntry S → ℕ → Exec T Bool) → ℕ → Choice S → Exec (Progress × T) Bool
  act emit next_offset skips s = (ok true, s)
  act emit next_offset (sends entry) s = offer emit entry next_offset s
  act emit next_offset (stops e) (p, w) = (ok false, (record p { failure = some e }, w))
  act emit next_offset panics s = (panic, s)

  -- The body of the loop at one entry.
  unfoldable pub visit :
      (Bytes → Exec T (Option (PathEntry S)))
      → (DirEntry S → ℕ → Exec T Bool)
      → Bool
      → Bool
      → DirEntry S
      → ℕ
      → Exec (Progress × T) Bool
  unfolding choose act
  visit lookup emit stale plus listed next_offset (p, w) =
      if needs_lookup stale plus listed
      then (let (r, w') = lookup listed.name w in
          act emit next_offset (choose plus listed r) (p, w'))
      else offer emit listed next_offset (p, w)

  -- `stale` is whether the directory's epoch has moved since the listing was taken.
  unfoldable pub replay_listing :
      (Bytes → Exec T (Option (PathEntry S)))
      → (DirEntry S → ℕ → Exec T Bool)
      → Bool
      → Bool
      → ℕ
      → List (DirEntry S)
      → ℕ
      → Exec T ℕ
  unfolding replay visit conclude
  replay_listing lookup emit stale plus generation entries start w =
      let body : ℕ → ℕ → Exec (Progress × T) Bool = λ index _ s. elim (get_elem? entries index) [
        | none ↦ (panic, s)
        | some listed ↦ visit lookup emit stale plus listed (listing_cookie generation index) s
      ] in
      conclude (replay start (length entries) body (record { accepted = 0; failure = none }, w))
