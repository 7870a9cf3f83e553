-- ===== src/Tests/Values.antt =====
-- typed-fuse/src: locks, attributes, options and extended attributes.
use typed_fuse.Base.{
  ℕ, ◌%◌, ◌*◌, ◌^◌, ◌<◌, ◌≡◌, ◌≢◌, ltb, if◌then◌else◌, refl, some, [], ◌∷◌, arith,
}
use Prim.Native.Nat.{bit_and}
use typed_fuse.Base.Int.{pos, negsuc}
use typed_fuse.Base.Outcome.{ok, einval, eoverflow}
use typed_fuse.Base.Order.{Bytes}
use typed_fuse.Attr.{
  FileKind, regular_file, directory, symlink, char_device, block_device, named_pipe, socket,
  default_attr, NodeAttr,
}
use typed_fuse.NodeFs.{FileLock, write_lock, read_lock, xattr_data}
use typed_fuse.NodeFs.Xattr.{sized, reply_xattr, answer, reply_xattr-sized}
use typed_fuse.FileLock.{
  LockTypes, AreDistinct, Flock, to_flock, from_flock, IsInRange, from_flock-to_flock,
  to_flock_refuses,
}
use typed_fuse.Conv.{
  ModeBits, kind_to_mode_bits, mode_bits_to_kind, attr_to_stat, system_time_to_secs_nsecs,
}
use typed_fuse.Conv.Times.{IsTimespecOf, secs_nsecs-system_time}
use typed_fuse.Conv.Kinds.{HasTypeField, mode_bits_to_kind-attr_to_stat}

abbrev linux : LockTypes
linux = record { f_rdlck = 0; f_wrlck = 1; f_unlck = 2; seek_set = 0 }

linux-AreDistinct : AreDistinct linux
linux-AreDistinct = record {
  read_write = omega arith;
  read_unlock = omega arith;
  write_unlock = omega arith;
}

abbrev some_lock : FileLock
some_lock = record { kind = write_lock; start = 10; end = 19; pid = 42 }

abbrev some_flock : Flock
some_flock = record { l_type = 1; l_whence = 0; l_start = pos 10; l_len = pos 10; l_pid = pos 42 }

from_flock-to_flock_example : from_flock linux some_flock ≡ ok some_lock
unfolding to_flock
from_flock-to_flock_example =
    from_flock-to_flock linux some_lock some_flock linux-AreDistinct (omega arith) refl

-- A process number that no `pid_t` holds.
abbrev far_owner : FileLock
far_owner = record { kind = read_lock; start = 10; end = 19; pid = 2147483648 }

to_flock_refuses_example :
    ((raw : Flock) → IsInRange raw → from_flock linux raw ≢ ok far_owner)
    × (eoverflow ≡ (if ltb 19 10 then einval else eoverflow))
unfolding to_flock
to_flock_refuses_example = to_flock_refuses linux far_owner eoverflow refl

-- Half a second before the epoch is second -1 and half a second.
before_epoch : system_time_to_secs_nsecs (negsuc 499999999) ≡ (negsuc 0, pos 500000000)
unfolding system_time_to_secs_nsecs
before_epoch = refl

secs_nsecs-system_time_example :
    IsTimespecOf (negsuc 499999999) (system_time_to_secs_nsecs (negsuc 499999999))
secs_nsecs-system_time_example = secs_nsecs-system_time (negsuc 499999999) (omega arith)

abbrev posix : ModeBits
posix = record {
  s_ifmt = 61440;
  s_ifreg = 32768;
  s_ifdir = 16384;
  s_iflnk = 40960;
  s_ifchr = 8192;
  s_ifblk = 24576;
  s_ififo = 4096;
  s_ifsock = 49152;
}

abbrev posix_code : FileKind → ℕ
posix_code regular_file = 8
posix_code directory = 4
posix_code symlink = 10
posix_code char_device = 2
posix_code block_device = 6
posix_code named_pipe = 1
posix_code socket = 12

posix_small : (k : FileKind) → posix_code k < 16
posix_small k = ground arith

posix_apart : (j k : FileKind) → posix_code j ≡ posix_code k → j ≡ k
posix_apart j k e = ground arith

posix_bits : (k : FileKind) → kind_to_mode_bits posix k ≡ posix_code k * 2 ^ 12
posix_bits k = ground arith

posix-HasTypeField : HasTypeField posix
posix-HasTypeField = record {
  code = posix_code;
  small = posix_small;
  apart = posix_apart;
  mask = refl;
  bits = posix_bits;
}

abbrev sticky : NodeAttr
sticky = record default_attr { kind = directory; perm = 17407 }

mode_bits_to_kind_example :
    (mode_bits_to_kind posix (attr_to_stat posix 3 sticky).st_mode ≡ some directory)
    × (bit_and (attr_to_stat posix 3 sticky).st_mode 4095 ≡ 17407 % 4096)
mode_bits_to_kind_example = mode_bits_to_kind-attr_to_stat posix posix-HasTypeField 3 sticky

abbrev tricky : Bytes
tricky = b'a' ∷ 44 ∷ 92 ∷ b'b' ∷ []

reply_xattr-sized_example :
    answer (sized (1 ∷ 2 ∷ 3 ∷ []) 2) 2 ≡ reply_xattr (xattr_data (1 ∷ 2 ∷ 3 ∷ [])) 2
reply_xattr-sized_example = reply_xattr-sized (1 ∷ 2 ∷ 3 ∷ []) 2
