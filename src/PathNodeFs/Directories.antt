-- ===== src/PathNodeFs/Directories.antt =====
-- typed-fuse-core/src/path_fs.rs: `readdir` and `readdirplus` of `PathNodeFs`, as what they offer
-- to the sink step by step; `add_listed_entry` stands in `offer_entry`. What is done between two
-- offers is one act.
use typed_fuse.Base.{
  ℕ, ◌+◌, Bool, true, false, not, ◌&&◌, Option, none, some, List, [], ◌∷◌, eqb, if◌then◌else◌, drop,
  min, length,
}
use typed_fuse.Base.Outcome.{Outcome, ok, err, panic, Exec, pure, ◌>>=◌}
use typed_fuse.Base.Order.{nat_key, Bytes}
use typed_fuse.Base.BTreeMap.{get, insert}
use typed_fuse.Attr.{NodeAttr, FileKind}
use typed_fuse.NodeFs.{Caller, Listing, ends, acts, offers}
use typed_fuse.Namespace.{Dentry, PathNode}
use typed_fuse.Namespace
use typed_fuse.Listing.{DirEntry, PathDirIdentity, current, parent, child}
use typed_fuse.Listing.Cookie.{listing_cookie}
use typed_fuse.Listing.Retained.{DirListing, DirListings, new_listings, finish}
use typed_fuse.Listing.Resume.{DirRead, listing, ended_read, directory_listing}
use typed_fuse.Listing.Replay.{
  Progress, Choice, skips, sends, stops, panics, needs_lookup, choose, conclude,
}
use typed_fuse.PathFilesystem.{PathFilesystem, PathNodeRef}
use typed_fuse.PathNodeFs.{
  World, PathDirHandle, cell_of, node_path, or_enoent, call, at_path, on_world,
}
use typed_fuse.PathNodeFs.Names.{State, on_names}

module _ {S E : Type 0} where
  abbrev pub going : {A : Type 0} → (A → Listing S E) → Outcome A → Listing S E
  going k (ok a) = k a
  going k (err e) = ends (err e)
  going k panic = ends panic

  -- What runs between two offers; an error ends the callback.
  abbrev pub performs : {A : Type 0} → Exec S A → (A → Listing S E) → Listing S E
  performs f k = acts (λ s. (f s).1) (λ s. going k (f s).0)

abbrev pub dentry_if : Bool → Dentry → Option Dentry
dentry_if true d = some d
dentry_if false d = none

module _ {S T : Type 0} where
  abbrev pub identify_as : ℕ → ℕ → Bytes → PathDirIdentity S → Exec (State S T) (ℕ × Option Dentry)
  identify_as this above name current = pure (this, none)
  identify_as this above name parent = pure (above, none)
  identify_as this above name (child state) = on_names (Namespace.insert this name state) >>= λ r.
      pure (r.0, dentry_if r.1 (record { parent = this; name = name }))

  -- The node of a listed entry, and its name if this call inserted it.
  unfoldable pub identify : ℕ → ℕ → DirEntry S → Exec (State S T) (ℕ × Option Dentry)
  unfolding Namespace.insert
  identify this above entry = identify_as this above entry.name entry.identity

  unfoldable pub take_back : Option Dentry → State S T → State S T
  unfolding Namespace.rollback_dentry
  take_back none s = s
  take_back (some dentry) (t, w) =
      let (ns, t') = Namespace.rollback_dentry dentry (w.namespace, t) in
      (t', record w { namespace = ns })

  -- `add_listed_entry`, where the sink takes `e` besides the name and the node; without it the
  -- closure panics.
  abbrev pub offer_entry :
      {E : Type 0}
      → ℕ
      → ℕ
      → Option E
      → DirEntry S
      → ℕ
      → (Bool → Listing (State S T) E)
      → Listing (State S T) E
  offer_entry this above none entry next_offset k =
      performs (identify this above entry) λ r. ends panic
  offer_entry this above (some e) entry next_offset k = performs (identify this above entry) λ r.
      offers entry.name r.0 e next_offset
        λ accepted. if accepted then k true else acts (take_back r.1) (λ _. k false)

  -- The listings of an open directory, which `opendir` puts there.
  abbrev pub listings_of : {D : Type 0} → PathDirHandle D → World S T → DirListings S
  listings_of handle w = elim (get handle.listings w.listings) [ none ↦ new_listings | some l ↦ l ]

  abbrev pub put_listings : {D : Type 0} → PathDirHandle D → DirListings S → World S T → World S T
  put_listings handle l w = record w { listings = insert handle.listings l w.listings }

  abbrev pub on_listings :
      {A D : Type 0} → PathDirHandle D → Exec (DirListings S × T) A → Exec (World S T) A
  on_listings handle f w =
      let (r, (l, inner)) = f (listings_of handle w, w.inner) in
      (r, put_listings handle l (record w { inner = inner }))

module _ {S H D T : Type 0} (fs : PathFilesystem S H D T) where
  -- The path of the directory, and what the read continues.
  unfoldable pub open_listing :
      PathNode S → PathDirHandle D → ℕ → Caller → Exec (World S T) (List Bytes × DirRead S)
  unfolding node_path cell_of directory_listing
  open_listing node handle offset caller w =
      (or_enoent (node_path node w) >>= λ path.
      on_listings handle (
        directory_listing (cell_of node w).entries_epoch
          (fs.list_dir (at_path path node) handle.inner caller) offset)
      >>= λ read. pure (path, read))
        w

  -- Whether a listed entry is sent, after the lookup that it may need.
  unfoldable pub examine :
      PathNodeRef S → Caller → Bool → Bool → DirEntry S → Exec (World S T) (Choice S)
  unfolding choose
  examine r caller stale plus listed w =
      if needs_lookup stale plus listed
      then (let (found, w') = call (fs.lookup r listed.name caller) w in
          (ok (choose plus listed found), w'))
      else (ok (sends listed), w)

module _ {S T E : Type 0} where
  abbrev pub act_on :
      (DirEntry S → (Bool → Listing (State S T) E) → Listing (State S T) E)
      → (Progress → Listing (State S T) E)
      → (Progress → Listing (State S T) E)
      → Progress
      → Choice S
      → Listing (State S T) E
  act_on offer more done p skips = more p
  act_on offer more done p (sends entry) =
      offer entry λ taken. if taken then more (record p { accepted = p.accepted + 1 }) else done p
  act_on offer more done p (stops e) = done (record p { failure = some e })
  act_on offer more done p panics = ends panic

  -- The loop over the entries that are left.
  unfoldable pub replay_entries :
      (DirEntry S → Exec (World S T) (Choice S))
      → (DirEntry S → ℕ → (Bool → Listing (State S T) E) → Listing (State S T) E)
      → (Progress → Listing (State S T) E)
      → ℕ
      → List (DirEntry S)
      → ℕ
      → Progress
      → Listing (State S T) E
  replay_entries choice offer done generation [] index p = done p
  replay_entries choice offer done generation (listed ∷ rest) index p =
      performs (on_world (choice listed)) (
        act_on (λ entry. offer entry (listing_cookie generation index))
          (replay_entries choice offer done generation rest (index + 1)) done p)

  -- An empty reply ends the stream, so its own listing will not be resumed.
  abbrev pub finish_with :
      {D : Type 0} → PathDirHandle D → DirListing S → ℕ → Bool → Outcome ℕ → Listing (State S T) E
  finish_with handle l start owned (ok accepted) =
      if eqb accepted 0 && owned
      then acts (λ s. (s.0, put_listings handle (finish l start (listings_of handle s.1)) s.1))
          (λ _. ends (ok tt))
      else ends (ok tt)
  finish_with handle l start owned (err e) = ends (err e)
  finish_with handle l start owned panic = ends panic

module _ {S H D T E : Type 0} (fs : PathFilesystem S H D T) (sent : DirEntry S → Option E) where
  abbrev pub replay_read :
      Bool
      → PathNode S
      → ℕ
      → ℕ
      → PathDirHandle D
      → Caller
      → List Bytes × DirRead S
      → Listing (State S T) E
  replay_read plus node this above handle caller (path, ended_read) = ends (ok tt)
  replay_read plus node this above handle caller (path, listing l start owned) =
      let entries = l.buffer.entries in
      let from = min start (length entries) in
      performs (on_world λ w. (ok (not (eqb (cell_of node w).entries_epoch l.epoch)), w)) λ stale.
        replay_entries (examine fs (at_path path node) caller stale plus)
          (λ entry. offer_entry this above (sent entry) entry)
          (λ p. finish_with handle l start owned (conclude {T = Unit {0}} (ok tt, (p, tt))).0)
          l.generation (drop from entries) from (record { accepted = 0; failure = none })

  unfoldable pub read_directory :
      Bool → PathNode S → ℕ → ℕ → PathDirHandle D → ℕ → Caller → Listing (State S T) E
  unfolding open_listing cell_of examine replay_entries identify take_back
  read_directory plus node this above handle offset caller =
      performs (on_world (open_listing fs node handle offset caller))
        (replay_read plus node this above handle caller)

module _ {S H D T : Type 0} (fs : PathFilesystem S H D T) where
  unfoldable pub readdir :
      PathNode S → ℕ → ℕ → PathDirHandle D → ℕ → Caller → Listing (State S T) FileKind
  unfolding read_directory
  readdir node this above handle offset caller =
      read_directory fs (λ entry. some entry.kind) false node this above handle offset caller

  unfoldable pub readdirplus :
      PathNode S → ℕ → ℕ → PathDirHandle D → ℕ → Caller → Listing (State S T) NodeAttr
  unfolding read_directory
  readdirplus node this above handle offset caller =
      read_directory fs (λ entry. entry.attr) true node this above handle offset caller
