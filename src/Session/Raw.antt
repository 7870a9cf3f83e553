-- ===== src/Session/Raw.antt =====
-- The C structures of the requests and replies and what fills or reads them: typed-fuse/src/conv.rs
-- and typed-fuse/src/ffi.rs, in the variant for platforms other than macOS whose headers have
-- `parallel_direct_writes`. Timeouts are in nanoseconds; their conversion to floating point is left
-- out.
use Prim.Native.Nat.{bit_and}
use typed_fuse.Base.{ℕ, suc, ◌-◌, Bool, true, false, not, ◌&&◌, Option, none, some, eqb, u64_mod}
use typed_fuse.Base.Int.{ℤ, pos, negsuc}
use typed_fuse.Base.Order.{Bytes}
use typed_fuse.Attr.{NodeAttr, SetAttr, StatFs, TimeOrNow, specific_time, now}
use typed_fuse.NodeFs.{OpenHints}
use typed_fuse.FileLock.{LockTypes}
use typed_fuse.Conv.{ModeBits, Stat, attr_to_stat, secs_nsecs_to_system_time}

-- `as u64` of an i64.
abbrev pub as_u64 : ℤ → ℕ
as_u64 (pos n) = n
as_u64 (negsuc n) = u64_mod - suc n

-- `fuse_file_info`, as far as it is used.
pub record FileInfo : Type 0 where
  pub flags : ℤ
  pub fh : ℕ
  pub lock_owner : ℕ
  pub hints : OpenHints

-- A pointer to it may be null.
abbrev pub fi_fh : Option FileInfo → ℕ
fi_fh none = 0
fi_fh (some fi) = fi.fh

abbrev pub fi_fh_opt : Option FileInfo → Option ℕ
fi_fh_opt none = none
fi_fh_opt (some fi) = some fi.fh

abbrev pub fi_flags : Option FileInfo → ℤ
fi_flags none = pos 0
fi_flags (some fi) = fi.flags

-- `if fi.is_null() { 0 } else { (*fi).lock_owner }`
abbrev pub owner_of : Option FileInfo → ℕ
owner_of none = 0
owner_of (some fi) = fi.lock_owner

unfoldable pub apply_open : Option FileInfo → ℕ → OpenHints → Option FileInfo
apply_open none fh hints = none
apply_open (some fi) fh hints = some (record fi {
  fh = fh;
  hints = record hints { parallel_direct_writes = hints.direct_io && hints.parallel_direct_writes };
})

-- `fuse_entry_param`
pub record EntryParam : Type 0 where
  pub ino : ℕ
  pub generation : ℕ
  pub attr : Stat
  pub attr_timeout : ℕ
  pub entry_timeout : ℕ

unfoldable pub entry_to_entry_param : ModeBits → ℕ → ℕ → NodeAttr → ℕ → EntryParam
unfolding attr_to_stat
entry_to_entry_param b ino generation attr ttl = record {
  ino = ino;
  generation = generation;
  attr = attr_to_stat b ino attr;
  attr_timeout = ttl;
  entry_timeout = ttl;
}

-- `std::mem::zeroed()`
abbrev pub zeroed_stat : Stat
zeroed_stat = record {
  st_ino = 0;
  st_mode = 0;
  st_nlink = 0;
  st_uid = 0;
  st_gid = 0;
  st_rdev = 0;
  st_size = pos 0;
  st_blocks = pos 0;
  st_blksize = pos 0;
  st_atim = (pos 0, pos 0);
  st_mtim = (pos 0, pos 0);
  st_ctim = (pos 0, pos 0);
}

unfoldable pub negative_entry_param : ℕ → EntryParam
negative_entry_param ttl = record {
  ino = 0;
  generation = 0;
  attr = zeroed_stat;
  attr_timeout = 0;
  entry_timeout = ttl;
}

-- The bits of `to_set` in libfuse's header.
pub record SetBits : Type 0 where
  pub set_mode : ℕ
  pub set_uid : ℕ
  pub set_gid : ℕ
  pub set_size : ℕ
  pub set_atime : ℕ
  pub set_mtime : ℕ
  pub set_atime_now : ℕ
  pub set_mtime_now : ℕ
  pub set_ctime : ℕ

abbrev pub no_attr : SetAttr
no_attr = record {
  mode = none;
  uid = none;
  gid = none;
  size = none;
  atime = none;
  mtime = none;
  ctime = none;
  crtime = none;
  flags = none;
}

abbrev pub has_bit : ℕ → ℕ → Bool
has_bit to_set bit = not (eqb (bit_and to_set bit) 0)

abbrev pub given {ℓ} : {A : Type ℓ} → Bool → A → Option A
given true a = some a
given false a = none

unfoldable pub given_time : Bool → Bool → ℤ × ℤ → Option TimeOrNow
unfolding secs_nsecs_to_system_time
given_time true timed t = some now
given_time false true (secs, nsecs) = some (specific_time (secs_nsecs_to_system_time secs nsecs))
given_time false false t = none

unfoldable pub setattr_from_raw : SetBits → Option Stat → ℕ → SetAttr
unfolding secs_nsecs_to_system_time given_time
setattr_from_raw c none to_set = no_attr
setattr_from_raw c (some st) to_set = record {
  mode = given (has_bit to_set c.set_mode) st.st_mode;
  uid = given (has_bit to_set c.set_uid) st.st_uid;
  gid = given (has_bit to_set c.set_gid) st.st_gid;
  size = given (has_bit to_set c.set_size) (as_u64 st.st_size);
  atime = given_time (has_bit to_set c.set_atime_now) (has_bit to_set c.set_atime) st.st_atim;
  mtime = given_time (has_bit to_set c.set_mtime_now) (has_bit to_set c.set_mtime) st.st_mtim;
  ctime = given (has_bit to_set c.set_ctime) (secs_nsecs_to_system_time st.st_ctim.0 st.st_ctim.1);
  crtime = none;
  flags = none;
}

-- `statvfs`, as far as it is set.
pub record StatVfs : Type 0 where
  pub f_bsize : ℕ
  pub f_frsize : ℕ
  pub f_blocks : ℕ
  pub f_bfree : ℕ
  pub f_bavail : ℕ
  pub f_files : ℕ
  pub f_ffree : ℕ
  pub f_namemax : ℕ

abbrev pub statfs_to_raw : StatFs → StatVfs
statfs_to_raw s = record {
  f_bsize = s.bsize;
  f_frsize = s.frsize;
  f_blocks = s.blocks;
  f_bfree = s.bfree;
  f_bavail = s.bavail;
  f_files = s.files;
  f_ffree = s.ffree;
  f_namemax = s.namelen;
}

-- What the platform and libfuse give: constants, the encodings of directory entries with the sizes
-- that they ask for, and whether the kernel takes a reply that carries a buffer.
pub record Platform : Type 0 where
  pub modes : ModeBits
  pub locks : LockTypes
  pub set_bits : SetBits
  pub direntry_size : Bytes → ℕ
  pub add_direntry : Bytes → Stat → ℤ → Bytes
  pub direntry_plus_size : Bytes → ℕ
  pub add_direntry_plus : Bytes → EntryParam → ℤ → Bytes
  pub accepts : Bytes → Bool

-- `Runtime::ttl` and `Runtime::negative_ttl`.
pub record Timeouts : Type 0 where
  pub ttl : ℕ
  pub negative_ttl : ℕ
