-- ===== src/Session/Reply.antt =====
-- typed-fuse/src/session.rs: the replies that are sent, one constructor for each reply function of
-- libfuse.
use typed_fuse.Base.{ℕ, Option}
use typed_fuse.Base.Int.{ℤ}
use typed_fuse.Base.Outcome.{Errno}
use typed_fuse.Base.Order.{Bytes}
use typed_fuse.Conv.{Stat}
use typed_fuse.FileLock.{Flock}
use typed_fuse.Session.Raw.{EntryParam, FileInfo, StatVfs}

pub data Reply : Type 0 where
  -- `fuse_reply_entry`, for a name that was found and for one that was not
  sends_entry : EntryParam → Reply
  sends_attr : Stat → ℕ → Reply
  sends_target : Bytes → Reply
  sends_open : Option FileInfo → Reply
  sends_create : EntryParam → Option FileInfo → Reply
  -- `fuse_reply_write`
  sends_count : ℕ → Reply
  sends_statfs : StatVfs → Reply
  sends_lock : Flock → Reply
  sends_offset : ℤ → Reply
  -- `fuse_reply_xattr`
  sends_size : ℕ → Reply
  -- `fuse_reply_buf`
  sends_data : Bytes → Reply
  -- `fuse_reply_err` with 0, and with an error number
  sends_ok : Reply
  sends_error : Errno → Reply
  sends_none : Reply
