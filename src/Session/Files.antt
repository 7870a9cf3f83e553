-- ===== src/Session/Files.antt =====
-- typed-fuse/src/session.rs: the handlers of the requests on open files, and those that open and close.
use typed_fuse.Base.{ℕ, Bool, Option, List, [], ◌∷◌, take, min, length}
use typed_fuse.Base.Int.{ℤ}
use typed_fuse.Base.Outcome.{Outcome, ok, err, panic, eio}
use typed_fuse.Base.Order.{Bytes}
use typed_fuse.NodeFs.{NodeFs, Caller}
use typed_fuse.Conv.{as_i64}
use typed_fuse.Runtime.Entries.{OpenReply, open_file, opendir, release, releasedir}
use typed_fuse.Runtime.Requests.{read, write, flush, fsync, fsyncdir, fallocate, lseek, flock}
use typed_fuse.Session.Raw.{FileInfo, fi_fh, fi_flags, apply_open, as_u64}
use typed_fuse.Session.Reply.{Reply, sends_open, sends_data, sends_count, sends_offset, sends_error}
use typed_fuse.Session.Calls.{Handler, call_fs, answer, reply_ok}

unfoldable pub reply_open : Option FileInfo → OpenReply → Reply
unfolding apply_open
reply_open fi opened = sends_open (apply_open fi opened.fh opened.hints)

-- The callback that `read_shim` hands to `Runtime::read`; a panic does not reach it.
abbrev pub reply_read : ℕ → Outcome Bytes → List Reply
reply_read size (ok bytes) = sends_data (take (min (length bytes) size) bytes) ∷ []
reply_read size (err e) = sends_error e ∷ []
reply_read size panic = []

-- `if result.is_err() { reply_err(req, EIO) }`, which `Runtime::read` makes an error by a panic only.
abbrev pub after_read : {S : Type 0} → Outcome (List Reply) × S → List Reply × S
after_read (ok replies, s) = (replies, s)
after_read (err e, s) = ([], s)
after_read (panic, s) = (sends_error eio ∷ [], s)

module _ {N H D T : Type 0} (fs : NodeFs N H D T) where
  unfoldable pub open_shim : ℕ → Option FileInfo → Caller → Handler N H D T
  unfolding call_fs open_file reply_open
  open_shim ino fi caller s =
      answer (reply_open fi) (call_fs (open_file fs ino (fi_flags fi)) caller s)

  unfoldable pub read_shim : ℕ → ℕ → ℤ → Option FileInfo → Caller → Handler N H D T
  unfolding read
  read_shim ino size off fi caller s =
      after_read (read fs ino (fi_fh fi) (as_u64 off) size caller (reply_read size) s)

  unfoldable pub write_shim : ℕ → Bytes → ℤ → Option FileInfo → Caller → Handler N H D T
  unfolding call_fs write
  write_shim ino bytes off fi caller s =
      answer sends_count (call_fs (write fs ino (fi_fh fi) bytes (as_u64 off)) caller s)

  unfoldable pub flush_shim : ℕ → Option FileInfo → Caller → Handler N H D T
  unfolding call_fs flush
  flush_shim ino fi caller s = answer reply_ok (call_fs (flush fs ino (fi_fh fi)) caller s)

  unfoldable pub release_shim : ℕ → Option FileInfo → Caller → Handler N H D T
  unfolding call_fs release
  release_shim ino fi caller s = answer reply_ok (call_fs (release fs ino (fi_fh fi)) caller s)

  -- `datasync` is the test `datasync != 0`.
  unfoldable pub fsync_shim : ℕ → Bool → Option FileInfo → Caller → Handler N H D T
  unfolding call_fs fsync
  fsync_shim ino datasync fi caller s =
      answer reply_ok (call_fs (fsync fs ino (fi_fh fi) datasync) caller s)

  unfoldable pub opendir_shim : ℕ → Option FileInfo → Caller → Handler N H D T
  unfolding call_fs opendir reply_open
  opendir_shim ino fi caller s =
      answer (reply_open fi) (call_fs (opendir fs ino (fi_flags fi)) caller s)

  unfoldable pub releasedir_shim : ℕ → Option FileInfo → Caller → Handler N H D T
  unfolding call_fs releasedir
  releasedir_shim ino fi caller s =
      answer reply_ok (call_fs (releasedir fs ino (fi_fh fi)) caller s)

  unfoldable pub fsyncdir_shim : ℕ → Bool → Option FileInfo → Caller → Handler N H D T
  unfolding call_fs fsyncdir
  fsyncdir_shim ino datasync fi caller s =
      answer reply_ok (call_fs (fsyncdir fs ino (fi_fh fi) datasync) caller s)

  unfoldable pub fallocate_shim : ℕ → ℤ → ℤ → ℤ → Option FileInfo → Caller → Handler N H D T
  unfolding call_fs fallocate
  fallocate_shim ino mode offset extent fi caller s =
      answer reply_ok
        (call_fs (fallocate fs ino (fi_fh fi) mode (as_u64 offset) (as_u64 extent)) caller s)

  unfoldable pub lseek_shim : ℕ → ℤ → ℤ → Option FileInfo → Caller → Handler N H D T
  unfolding call_fs lseek
  lseek_shim ino off whence fi caller s =
      answer (λ new_off. sends_offset (as_i64 new_off))
        (call_fs (lseek fs ino (fi_fh fi) (as_u64 off) whence) caller s)

  unfoldable pub flock_shim : ℕ → Option FileInfo → ℤ → Caller → Handler N H D T
  unfolding call_fs flock
  flock_shim ino fi operation caller s =
      answer reply_ok (call_fs (flock fs ino (fi_fh fi) operation) caller s)
