-- ===== src/FileLock.antt =====
-- typed-fuse/src/file_lock.rs: POSIX record locks as `libc::flock`. The platform's constants and the
-- widths of its fields (`off_t` has 64 bits, `pid_t` 32) are parameters of the conversion.
use typed_fuse.Base.{
  ℕ, ◌+◌, ◌-◌, ◌≤◌, ◌≡◌, ◌≢◌, Bool, false, not, ◌||◌, eqb, ltb, leb, if◌then◌else◌, arith, u64_max,
  Option, none, some,
}
use typed_fuse.Base.Int.{ℤ, pos, negsuc, is_negative, magnitude}
use typed_fuse.Base.Outcome.{Outcome, ok, err, panic, Errno, einval, eoverflow}
use typed_fuse.NodeFs.{FileLock, LockKind, read_lock, write_lock, unlock}

pub record LockTypes : Type 0 where
  pub f_rdlck : ℕ
  pub f_wrlck : ℕ
  pub f_unlck : ℕ
  pub seek_set : ℕ

-- The three lock types of a platform are different.
pub record AreDistinct (c : LockTypes) : Type 0 where
  pub read_write : c.f_rdlck ≢ c.f_wrlck
  pub read_unlock : c.f_rdlck ≢ c.f_unlck
  pub write_unlock : c.f_wrlck ≢ c.f_unlck

pub record Flock : Type 0 where
  pub l_type : ℕ
  pub l_whence : ℕ
  pub l_start : ℤ
  pub l_len : ℤ
  pub l_pid : ℤ

abbrev pub i64_max : ℕ
i64_max = 9223372036854775807

abbrev pub i32_max : ℕ
i32_max = 2147483647

-- `T::try_from` of an unsigned number, for a signed type with this maximum.
abbrev pub try_signed : ℕ → ℕ → Outcome ℤ
try_signed limit n = if leb n limit then ok (pos n) else err eoverflow

abbrev pub lock_type : LockTypes → LockKind → ℕ
lock_type c read_lock = c.f_rdlck
lock_type c write_lock = c.f_wrlck
lock_type c unlock = c.f_unlck

-- `end - start + 1` by checked steps, on an `end` other than the largest.
abbrev pub range_length : ℕ → ℕ → Outcome ℤ
range_length start end =
    if eqb end u64_max then ok (pos 0) else try_signed i64_max (end - start + 1)

unfoldable pub to_flock : LockTypes → FileLock → Outcome Flock
to_flock c lock =
    if ltb lock.end lock.start
    then err einval
    else if leb lock.start i64_max
    then elim (range_length lock.start lock.end) [
      | ok l_len ↦
          if leb lock.pid i32_max
          then ok (record {
            l_type = lock_type c lock.kind;
            l_whence = c.seek_set;
            l_start = pos lock.start;
            l_len = l_len;
            l_pid = pos lock.pid;
          })
          else err eoverflow
      | err e ↦ err e
      | panic ↦ panic
    ]
    else err eoverflow

abbrev pub lock_kind : LockTypes → ℕ → Option LockKind
lock_kind c l_type =
    if eqb l_type c.f_rdlck
    then some read_lock
    else if eqb l_type c.f_wrlck
    then some write_lock
    else if eqb l_type c.f_unlck
    then some unlock
    else none

-- `u32::try_from(pid).unwrap_or(0)`
abbrev pub pid_or_zero : ℤ → ℕ
pid_or_zero (pos n) = n
pid_or_zero (negsuc n) = 0

abbrev pub range_end : ℕ → ℕ → Outcome ℕ
range_end start len =
    if eqb len 0
    then ok u64_max
    else if leb (start + (len - 1)) u64_max
    then ok (start + (len - 1))
    else err einval

abbrev pub not_seek_set : LockTypes → Flock → Bool
not_seek_set c raw = not (eqb raw.l_whence c.seek_set)

unfoldable pub from_flock : LockTypes → Flock → Outcome FileLock
from_flock c raw =
    if not_seek_set c raw || is_negative raw.l_start || is_negative raw.l_len
    then err einval
    else elim (lock_kind c raw.l_type) [
      | none ↦ err einval
      | some kind ↦ elim (range_end (magnitude raw.l_start) (magnitude raw.l_len)) [
        | ok end ↦ ok (record {
          kind = kind;
          start = magnitude raw.l_start;
          end = end;
          pid = pid_or_zero raw.l_pid;
        })
        | err e ↦ err e
        | panic ↦ panic
      ]
    ]

lock_kind-lock_type :
    (c : LockTypes) (k : LockKind) → AreDistinct c → lock_kind c (lock_type c k) ≡ some k
lock_kind-lock_type c read_lock d = ground (arith, d.read_write)
lock_kind-lock_type c write_lock d = ground (arith, d.read_write, d.write_unlock)
lock_kind-lock_type c unlock d = ground (arith, d.read_unlock, d.write_unlock)

-- On a platform with three different lock types, a lock that `to_flock` converts comes back from
-- `from_flock` with the same kind, range and owner. Its end is a u64.
pub from_flock-to_flock :
    (c : LockTypes) (lock : FileLock) (raw : Flock)
    → AreDistinct c
    → lock.end ≤ u64_max
    → to_flock c lock ≡ ok raw
    → from_flock c raw ≡ ok lock
unfolding to_flock from_flock
from_flock-to_flock c lock raw d fits e = ground (arith, lock_kind-lock_type c lock.kind d)

-- A flock whose fields are in range and whose owner is not negative comes back from the lock that it
-- is read as.
pub to_flock-from_flock :
    (c : LockTypes) (raw : Flock) (lock : FileLock)
    → magnitude raw.l_start ≤ i64_max
    → magnitude raw.l_len ≤ i64_max
    → magnitude raw.l_pid ≤ i32_max
    → is_negative raw.l_pid ≡ false
    → from_flock c raw ≡ ok lock
    → to_flock c lock ≡ ok raw
unfolding to_flock from_flock
to_flock-from_flock c raw lock s l p owner e = ground arith

-- A flock whose fields fit a 64-bit offset and a 32-bit process number, and whose owner is not
-- negative.
pub record IsInRange (raw : Flock) : Type 0 where
  pub start_fits : magnitude raw.l_start ≤ i64_max
  pub length_fits : magnitude raw.l_len ≤ i64_max
  pub pid_fits : magnitude raw.l_pid ≤ i32_max
  pub pid_positive : is_negative raw.l_pid ≡ false

-- What `to_flock` refuses has no flock at all: a lock is refused only if no flock in range is read
-- as it, and the error is EINVAL if its range is inverted and EOVERFLOW otherwise.
pub to_flock_refuses :
    (c : LockTypes) (lock : FileLock) (e : Errno)
    → to_flock c lock ≡ err e
    → ((raw : Flock) → IsInRange raw → from_flock c raw ≢ ok lock)
      × (e ≡ (if ltb lock.end lock.start then einval else eoverflow))
unfolding to_flock
to_flock_refuses c lock e refused = (
  λ raw fits read.
      let taken =
        to_flock-from_flock c raw lock fits.start_fits fits.length_fits fits.pid_fits
          fits.pid_positive read in
      cc,
  ground arith,
)
