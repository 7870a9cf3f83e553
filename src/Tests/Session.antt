-- ===== src/Tests/Session.antt =====
-- typed-fuse/src/session.rs and typed-fuse/src/ffi.rs: requests that a small filesystem answers
-- through the handlers.
use typed_fuse.Base.{ℕ, ◌+◌, ◌≡◌, refl, true, false, none, some, List, [], ◌∷◌, length, arith}
use typed_fuse.Base.Int.{pos}
use typed_fuse.Base.Outcome.{ok, panic, eio}
use typed_fuse.Base.Order.{nat_key}
use typed_fuse.Base.BTreeMap.{get}
use typed_fuse.Attr.{NodeAttr, default_attr}
use typed_fuse.NodeTable.{NodeTable, slot_at}
use typed_fuse.NodeTable.Counts.{plus_entry, retain_lookup}
use typed_fuse.NodeFs.{Listing, ends, offers}
use typed_fuse.Runtime.{State}
use typed_fuse.Runtime.Directories.{serve, account, list_plus}
use typed_fuse.Runtime.Directories.Accounting.{raised, count}
use typed_fuse.Runtime.Lookups.{with_lookup}
use typed_fuse.Session.Raw.{Platform, Timeouts}
use typed_fuse.Session.Reply.{sends_error}
use typed_fuse.Session.Calls.{catch_unwind}
use typed_fuse.Session.Dirents.{RawDirentBuf, new_plus, add_plus}
use typed_fuse.Session.Directories.{deliver_dirents}
use typed_fuse.Session.Ops.{Request, readdirplus, Supports, handle}
use typed_fuse.Session.Answers.{handle-IsAnswered}
use typed_fuse.Session.Answers.Shapes.{shape_of, IsAnswered}
use typed_fuse.Session.Answers.Room.{SizesAreTrue}
use typed_fuse.Session.Undelivered.{returned, deliver-takes_back, deliver-panic, account_skipped}
use typed_fuse.Tests.Runtime.{
  small_fs, anyone, running, file_slot, running-AreHeld, small_fs-IsQuiet,
}

-- Linux's constants, entries with a header of two bytes, and a kernel that takes no buffer.
abbrev refusing : Platform
refusing = record {
  modes = record {
    s_ifmt = 61440;
    s_ifreg = 32768;
    s_ifdir = 16384;
    s_iflnk = 40960;
    s_ifchr = 8192;
    s_ifblk = 24576;
    s_ififo = 4096;
    s_ifsock = 49152;
  };
  locks = record { f_rdlck = 0; f_wrlck = 1; f_unlck = 2; seek_set = 0 };
  set_bits = record {
    set_mode = 1;
    set_uid = 2;
    set_gid = 4;
    set_size = 8;
    set_atime = 16;
    set_mtime = 32;
    set_atime_now = 128;
    set_mtime_now = 256;
    set_ctime = 1024;
  };
  direntry_size = λ name. length name + 2;
  add_direntry = λ name st off. 0 ∷ 0 ∷ name;
  direntry_plus_size = λ name. length name + 2;
  add_direntry_plus = λ name e off. 0 ∷ 0 ∷ name;
  accepts = λ bytes. false;
}

refusing-SizesAreTrue : SizesAreTrue refusing
refusing-SizesAreTrue = record {
  plain = λ name st off. omega arith;
  plus = λ name e off. omega arith;
}

abbrev second : Timeouts
second = record { ttl = 1000000000; negative_ttl = 1000000000 }

abbrev all_supported : Supports
all_supported = record { with_readdirplus = true; with_posix_locks = true; with_flock = true }

abbrev asked : Request
asked = readdirplus 2 64 (pos 0) none

handle-IsAnswered_example :
    IsAnswered
      (shape_of asked)
      (handle refusing second small_fs all_supported asked anyone running).0
handle-IsAnswered_example =
    handle-IsAnswered refusing second small_fs all_supported asked anyone running
      refusing-SizesAreTrue

abbrev full_listing : Listing (NodeTable ℕ × ℕ) NodeAttr
full_listing = offers (b'f' ∷ []) 2 default_attr 1 λ more. ends (ok tt)

abbrev panicking_listing : Listing (NodeTable ℕ × ℕ) NodeAttr
panicking_listing = offers (b'f' ∷ []) 2 default_attr 1 λ more. ends panic

abbrev begun : State ℕ ℕ ℕ (ℕ × (RawDirentBuf × List ℕ))
begun = record {
  table = running.table;
  handles = running.handles;
  world = (0, (new_plus 64 1000000000, []));
}

deliver-takes_back_example :
    slot_at
      (deliver_dirents refusing small_fs
        (returned (list_plus small_fs full_listing (add_plus refusing) begun))).1.table
      2
    ≡ slot_at running.table 2
unfolding serve account plus_entry retain_lookup get add_plus
deliver-takes_back_example =
    deliver-takes_back refusing small_fs full_listing begun (λ more. tt) small_fs-IsQuiet
      running-AreHeld (λ e. cc) (λ e. refl) 2

deliver-panic_example :
    let (r, s') = list_plus small_fs panicking_listing (add_plus refusing) begun in
    let (replies, after) = deliver_dirents refusing small_fs (returned (catch_unwind r, s')) in
    (replies ≡ sends_error eio ∷ [])
    × ((j : ℕ) → slot_at after.table j ≡ raised (count j s'.world.1.1) (slot_at running.table j))
unfolding serve account plus_entry retain_lookup get add_plus
deliver-panic_example = deliver-panic refusing small_fs panicking_listing begun (λ more. tt) refl

account_skipped_example :
    let (r, s') = account (add_plus refusing) (b'f' ∷ 0 ∷ []) 2 default_attr 1 begun in
    (r ≡ ok true)
    × (s'.world.1.0 ≡ new_plus 64 1000000000)
    × (slot_at s'.table 2 ≡ some (with_lookup file_slot))
    × (s'.world.1.1 ≡ 2 ∷ [])
unfolding get
account_skipped_example =
    account_skipped refusing (b'f' ∷ 0 ∷ []) 2 default_attr 1 begun file_slot refl refl
      (omega arith)
