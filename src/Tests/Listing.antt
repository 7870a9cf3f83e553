-- ===== src/Tests/Listing.antt =====
-- typed-fuse-core/src/path_fs.rs: directory listings.
use typed_fuse.Base.{
  ℕ, ◌+◌, ◌≡◌, refl, true, false, Option, none, some, List, [], ◌∷◌, arith, if◌then◌else◌,
  replicate,
}
use typed_fuse.Base.Outcome.{ok, err, eio, Exec}
use typed_fuse.Base.Order.{Bytes, bytes_eq}
use typed_fuse.Attr.{regular_file, directory, default_attr}
use typed_fuse.Listing.{DirEntry, DirBuffer, new_buffer, push, push_plus, push_dots, child}
use typed_fuse.Listing.Cookie.{listing_cookie, split_cookie, split_cookie-listing_cookie}
use typed_fuse.Listing.Retained.{DirListing, DirListings, new_listings, get, current, has_ended}
use typed_fuse.Listing.Retained
use typed_fuse.Listing.Retained.Laws.{
  IsTidy, Event, pushes, finishes, run, run-IsTidy, push_resumes,
}
use typed_fuse.Listing.Retained.Wrap.{full_reads, stale_after_wrap}
use typed_fuse.Listing.Resume.{listing, directory_listing, resume_own}
use typed_fuse.Listing.Replay.{PathEntry, replay_listing}
use typed_fuse.Listing.Replay.Pages.{Page, into_page, with_cookies, replay-fills}
use typed_fuse.Listing.Replay.Whole.{read_pages, read_pages-whole}
use typed_fuse.Listing.Replay.Attributes.{expecting, replay_listing-expecting}

-- A directory of two dots, a file with attributes and a file without.
abbrev buffer : DirBuffer ℕ
buffer = record {
  entries =
      record {
        name = b'.' ∷ [];
        kind = directory;
        attr = some default_attr;
        identity = typed_fuse.Listing.current;
      }
      ∷ record {
        name = b'a' ∷ [];
        kind = regular_file;
        attr = some default_attr;
        identity = child 5;
      }
      ∷ record { name = b'b' ∷ []; kind = regular_file; attr = none; identity = child 6 }
      ∷ [];
}

abbrev finding : Bytes → Exec (Page ℕ) (Option (PathEntry ℕ))
finding name w =
    if bytes_eq name (b'b' ∷ [])
    then (ok (some (record { attr = default_attr; state = 9 })), w)
    else (ok none, w)

abbrev first_listing : DirListing ℕ
first_listing = record { allocation = 0; generation = 0; epoch = 3; buffer = buffer }

abbrev one_listing : DirListings ℕ
one_listing = (Retained.push 3 buffer new_listings).1

-- A stale listing: the dot is sent as it was, `a` is gone, and `b` has its new state.
stale_read : replay_listing finding (into_page 5) true true 2 buffer.entries 0 [] ≡ (
  ok 2,
  (
    record {
      name = b'.' ∷ [];
      kind = directory;
      attr = some default_attr;
      identity = typed_fuse.Listing.current;
    },
    listing_cookie 2 0,
  )
      ∷ (
        record {
          name = b'b' ∷ [];
          kind = regular_file;
          attr = some default_attr;
          identity = child 9;
        },
        listing_cookie 2 2,
      )
      ∷ [],
)
unfolding replay_listing
stale_read = refl

listing_cookie_example : split_cookie (listing_cookie 15 134217726) ≡ (15, 134217727)
listing_cookie_example = split_cookie-listing_cookie 15 134217726 (omega arith) (omega arith)

replay-fills_example : replay_listing finding (into_page 1) false false 2 buffer.entries 1 [] ≡ (
  ok 1,
  with_cookies 2 1 (
      (record {
        name = b'a' ∷ [];
        kind = regular_file;
        attr = some default_attr;
        identity = child 5;
      })
      ∷ []),
)
replay-fills_example =
    replay-fills finding false false 2 1 buffer.entries 1 (omega arith) (refl, (refl, tt))

read_pages-whole_example :
    read_pages finding false false 2 2 buffer.entries 4 0 ≡ with_cookies 2 0 buffer.entries
read_pages-whole_example =
    read_pages-whole finding false false 2 2 buffer.entries (omega arith) (omega arith)
      (omega arith) (refl, (refl, (refl, tt)))

replay_listing-expecting_example :
    replay_listing finding (expecting (into_page 5)) true true 2 buffer.entries 0 []
    ≡ replay_listing finding (into_page 5) true true 2 buffer.entries 0 []
replay_listing-expecting_example =
    replay_listing-expecting finding (into_page 5) true 2 buffer.entries 0 []
      (refl, (refl, (refl, tt)))

abbrev history : List (Event ℕ)
history = pushes 3 buffer ∷ pushes 4 buffer ∷ finishes first_listing 3 ∷ []

run-IsTidy_example : IsTidy (run history new_listings)
run-IsTidy_example = run-IsTidy history

push_resumes_example :
    let (new, l') = Retained.push 4 buffer one_listing in
    (get l' new.generation ≡ some new)
    × (current l' ≡ some new)
    × (has_ended l' new.generation 3 ≡ false)
unfolding Retained.push
push_resumes_example = push_resumes 4 buffer one_listing 3 (run-IsTidy (pushes 3 buffer ∷ [])) refl

abbrev fifteen : List (ℕ × DirBuffer ℕ × ℕ)
fifteen = replicate 15 (4, buffer, 3)

stale_after_wrap_example :
    let (old, l') = Retained.push 3 buffer new_listings in
    let (new, l'') = Retained.push 5 new_buffer (full_reads fifteen l') in
    (new.generation ≡ old.generation)
    × (get l'' new.generation ≡ some old)
    × (current l'' ≡ some new)
    × (old.buffer ≡ buffer)
    × (new.buffer ≡ new_buffer)
stale_after_wrap_example = stale_after_wrap 3 5 buffer new_buffer fifteen refl

abbrev failing : Exec ℕ (DirBuffer ℕ)
failing w = (err eio, w + 1)

resume_own_example :
    directory_listing 9 failing (listing_cookie 0 1) (one_listing, 0)
    ≡ (ok (listing first_listing 2 true), (one_listing, 0))
unfolding get Retained.push
resume_own_example =
    resume_own 9 failing one_listing 0 first_listing 1 refl (omega arith) (omega arith)
