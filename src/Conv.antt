-- ===== src/Conv.antt =====
-- typed-fuse/src/conv.rs: attributes as the C structures of the FUSE replies, in the variant for
-- platforms other than macOS, and `escape_option_value` of typed-fuse/src/session.rs in the child
-- Options. A `SystemTime` is in nanoseconds from the epoch; its whole seconds fit an i64.
pub mod Times
pub mod Kinds
pub mod Options
use Prim.Native.Nat.{bit_and, bit_or}
use typed_fuse.Base.{
  ℕ, zero, suc, ◌+◌, ◌-◌, ◌*◌, ◌/◌, ◌%◌, ◌^◌, ◌≡◌, Bool, Option, none, some, eqb, ltb, leb,
  if◌then◌else◌,
}
use typed_fuse.Base.Int.{ℤ, pos, negsuc, is_negative, magnitude, minus}
use typed_fuse.Attr.{
  FileKind, regular_file, directory, symlink, char_device, block_device, named_pipe, socket,
  SystemTime, NodeAttr,
}

-- The platform's file type bits.
pub record ModeBits : Type 0 where
  pub s_ifmt : ℕ
  pub s_ifreg : ℕ
  pub s_ifdir : ℕ
  pub s_iflnk : ℕ
  pub s_ifchr : ℕ
  pub s_ifblk : ℕ
  pub s_ififo : ℕ
  pub s_ifsock : ℕ

abbrev pub kind_to_mode_bits : ModeBits → FileKind → ℕ
kind_to_mode_bits b regular_file = b.s_ifreg
kind_to_mode_bits b directory = b.s_ifdir
kind_to_mode_bits b symlink = b.s_iflnk
kind_to_mode_bits b char_device = b.s_ifchr
kind_to_mode_bits b block_device = b.s_ifblk
kind_to_mode_bits b named_pipe = b.s_ififo
kind_to_mode_bits b socket = b.s_ifsock

abbrev pub kind_of_bits : ModeBits → ℕ → Option FileKind
kind_of_bits b m =
    if eqb m b.s_ifreg
    then some regular_file
    else if eqb m b.s_ifdir
    then some directory
    else if eqb m b.s_iflnk
    then some symlink
    else if eqb m b.s_ifchr
    then some char_device
    else if eqb m b.s_ifblk
    then some block_device
    else if eqb m b.s_ififo
    then some named_pipe
    else if eqb m b.s_ifsock
    then some socket
    else none

unfoldable pub mode_bits_to_kind : ModeBits → ℕ → Option FileKind
mode_bits_to_kind b mode = kind_of_bits b (bit_and mode b.s_ifmt)

abbrev pub nanos : ℕ
nanos = 1000000000

-- `as i64` of a u64.
abbrev pub as_i64 : ℕ → ℤ
as_i64 n = if leb n 9223372036854775807 then pos n else minus (18446744073709551616 - n)

-- `-secs`; with `-secs - 1`, at the smallest i64 it overflows, which the callers' times exclude.
abbrev pub negate : ℤ → ℤ
negate (pos n) = minus n
negate (negsuc n) = pos (suc n)

-- z - 1
abbrev pub before : ℤ → ℤ
before (pos zero) = negsuc 0
before (pos (suc n)) = pos n
before (negsuc n) = negsuc (suc n)

-- z + n
abbrev pub later : ℤ → ℕ → ℤ
later (pos a) n = pos (a + n)
later (negsuc a) n = if leb n a then negsuc (a - n) else pos (n - suc a)

unfoldable pub system_time_to_secs_nsecs : SystemTime → ℤ × ℤ
system_time_to_secs_nsecs (pos n) = (as_i64 (n / nanos), pos (n % nanos))
system_time_to_secs_nsecs (negsuc n) =
    let secs = as_i64 (suc n / nanos) in
    let nsecs = suc n % nanos in
    if eqb nsecs 0 then (negate secs, pos 0) else (before (negate secs), pos (nanos - nsecs))

-- `as u32` of an i64.
abbrev pub as_u32 : ℤ → ℕ
as_u32 (pos n) = n % 4294967296
as_u32 (negsuc n) = 4294967295 - n % 4294967296

-- `Duration::new` carries whole seconds out of its nanoseconds.
unfoldable pub secs_nsecs_to_system_time : ℤ → ℤ → SystemTime
secs_nsecs_to_system_time (pos secs) nsecs = pos (secs * nanos + as_u32 nsecs)
secs_nsecs_to_system_time (negsuc n) nsecs = later (minus (suc n * nanos)) (as_u32 nsecs)

-- The fields of `struct stat` that the replies set; the size, the blocks and the block size are i64.
pub record Stat : Type 0 where
  pub st_ino : ℕ
  pub st_mode : ℕ
  pub st_nlink : ℕ
  pub st_uid : ℕ
  pub st_gid : ℕ
  pub st_rdev : ℕ
  pub st_size : ℤ
  pub st_blocks : ℤ
  pub st_blksize : ℤ
  pub st_atim : ℤ × ℤ
  pub st_mtim : ℤ × ℤ
  pub st_ctim : ℤ × ℤ

unfoldable pub attr_to_stat : ModeBits → ℕ → NodeAttr → Stat
unfolding system_time_to_secs_nsecs
attr_to_stat b ino attr = record {
  st_ino = ino;
  st_mode = bit_or (kind_to_mode_bits b attr.kind) (bit_and attr.perm 4095);
  st_nlink = attr.nlink;
  st_uid = attr.uid;
  st_gid = attr.gid;
  st_rdev = attr.rdev;
  st_size = as_i64 attr.size;
  st_blocks = as_i64 attr.blocks;
  st_blksize = pos attr.blksize;
  st_atim = system_time_to_secs_nsecs attr.atime;
  st_mtim = system_time_to_secs_nsecs attr.mtime;
  st_ctim = system_time_to_secs_nsecs attr.ctime;
}
