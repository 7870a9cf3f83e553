-- ===== src/Permissions.antt =====
-- typed-fuse/src/passthrough.rs: the POSIX permission checks of a passthrough filesystem. A
-- `SystemTime` is in nanoseconds, and the clock's value is an argument.
use Prim.Native.Nat.{bit_and}
use typed_fuse.Base.{
  ℕ, suc, ◌+◌, ◌-◌, ◌*◌, ◌/◌, ◌%◌, ◌^◌, ◌<◌, ◌≡◌, ◌≢◌, Bool, true, false, not, ◌&&◌, ◌||◌, Option,
  none, some, eqb, ltb, leb, if◌then◌else◌, arith,
}
use typed_fuse.Base.Int.{pos, negsuc}
use typed_fuse.Base.Bits.{and_mask, and_field}
use typed_fuse.Base.Outcome.{Outcome, ok, err, eacces, eperm}
use typed_fuse.Attr.{SystemTime}
use typed_fuse.NodeFs.{Caller}

-- The bits of the caller's class: the owner's, the group's or the others'.
abbrev pub class_bits : Caller → ℕ → ℕ → ℕ → ℕ
class_bits caller file_uid file_gid mode =
    if eqb caller.uid file_uid
    then bit_and (mode / 64) 7
    else if eqb caller.gid file_gid
    then bit_and (mode / 8) 7
    else bit_and mode 7

-- In a release build, where the assertion on `mask` is not compiled.
unfoldable pub access_check : Caller → ℕ → ℕ → ℕ → ℕ → Outcome (Unit {0})
access_check caller file_uid file_gid mode mask =
    let need = bit_and mask 7 in
    let effective = class_bits caller file_uid file_gid mode in
    if eqb need 0 || eqb caller.uid 0
    then ok tt
    else if eqb (bit_and effective need) need
    then ok tt
    else err eacces

-- `SystemTime::duration_since`
abbrev pub duration_since : SystemTime → SystemTime → Option ℕ
duration_since (pos a) (pos b) = if leb b a then some (a - b) else none
duration_since (pos a) (negsuc b) = some (a + suc b)
duration_since (negsuc a) (pos b) = none
duration_since (negsuc a) (negsuc b) = if leb a b then some (b - a) else none

-- `unwrap_or(Duration::MAX) < Duration::from_millis(10)`
abbrev pub within_window : Option ℕ → Bool
within_window none = false
within_window (some d) = ltb d 10000000

unfoldable pub near_now : SystemTime → SystemTime → Bool
near_now now t = within_window (duration_since now t) || within_window (duration_since t now)

abbrev pub is_none_or_near : SystemTime → Option SystemTime → Bool
is_none_or_near now none = true
is_none_or_near now (some t) = near_now now t

abbrev pub is_some : Option SystemTime → Bool
is_some none = false
is_some (some t) = true

unfoldable pub utimens_permission_check :
    SystemTime → Caller → ℕ → ℕ → ℕ → Option SystemTime → Option SystemTime → Outcome (Unit {0})
utimens_permission_check now caller file_uid file_gid mode atime mtime =
    let has_write =
      (eqb caller.uid file_uid && not (eqb (bit_and mode 128) 0))
      || (eqb caller.gid file_gid && not (eqb (bit_and mode 16) 0))
      || not (eqb (bit_and mode 2) 0) in
    if eqb caller.uid 0
    then ok tt
    else if eqb caller.uid file_uid
    then ok tt
    else if not (is_some atime) && not (is_some mtime)
    then ok tt
    else if is_none_or_near now atime && is_none_or_near now mtime
    then (if has_write then ok tt else err eacces)
    else err eperm

-- The bit above k, as a mask reads it.
one_bit : (k x : ℕ) → 0 < 2 ^ k → bit_and x (1 * 2 ^ k) ≡ x / 2 ^ k % 2 * 2 ^ k
one_bit k x h =
    let one : bit_and (x / 2 ^ k) 1 ≡ x / 2 ^ k % 2 = and_mask 1 (x / 2 ^ k) (omega arith) in
    ground (arith, and_field k (x / 2 ^ k) (x % 2 ^ k) 1, one)

-- When every time that is set is within the window of the clock, a caller whom `access_check`
-- allows to write the file may set its times.
pub utimens_permission_check-access_check :
    (now : SystemTime) (caller : Caller) (file_uid file_gid mode : ℕ)
    (atime mtime : Option SystemTime)
    → is_none_or_near now atime ≡ true
    → is_none_or_near now mtime ≡ true
    → access_check caller file_uid file_gid mode 2 ≡ ok tt
    → utimens_permission_check now caller file_uid file_gid mode atime mtime ≡ ok tt
unfolding access_check utimens_permission_check
utimens_permission_check-access_check now caller file_uid file_gid mode atime mtime a m allowed =
    let group : bit_and (mode / 8) 7 ≡ mode / 8 % 8 = and_mask 3 (mode / 8) (omega arith) in
    let others : bit_and mode 7 ≡ mode % 8 = and_mask 3 mode (omega arith) in
    let group_bit : bit_and mode 16 ≡ mode / 16 % 2 * 16 = one_bit 4 mode (omega arith) in
    let others_bit : bit_and mode 2 ≡ mode / 2 % 2 * 2 = one_bit 1 mode (omega arith) in
    let group_need : bit_and (mode / 8 % 8) 2 ≡ mode / 8 % 8 / 2 % 2 * 2 =
      one_bit 1 (mode / 8 % 8) (omega arith) in
    let others_need : bit_and (mode % 8) 2 ≡ mode % 8 / 2 % 2 * 2 =
      one_bit 1 (mode % 8) (omega arith) in
    ground (arith, group, others, group_bit, others_bit, group_need, others_need)

-- A caller who is neither root nor the owner may not set a time outside the window of the clock,
-- whichever of the two times it is and whatever the file's mode.
pub utimens_explicit :
    (now : SystemTime) (caller : Caller) (file_uid file_gid mode : ℕ)
    (atime mtime : Option SystemTime)
    → caller.uid ≢ 0
    → caller.uid ≢ file_uid
    → is_none_or_near now atime && is_none_or_near now mtime ≡ false
    → utimens_permission_check now caller file_uid file_gid mode atime mtime ≡ err eperm
unfolding utimens_permission_check
utimens_explicit now caller file_uid file_gid mode none none r o e = ground arith
utimens_explicit now caller file_uid file_gid mode none (some m) r o e = ground arith
utimens_explicit now caller file_uid file_gid mode (some a) none r o e = ground arith
utimens_explicit now caller file_uid file_gid mode (some a) (some m) r o e = ground arith

-- A caller in the file's group who is not the owner nor root, on a file that the others may write and
-- the group may not: `access_check` refuses the write, and the times within the window of the clock
-- may be set nevertheless.
pub utimens_of_others :
    (now : SystemTime) (caller : Caller) (file_uid mode : ℕ) (atime mtime : Option SystemTime)
    → caller.uid ≢ 0
    → caller.uid ≢ file_uid
    → mode / 16 % 2 ≡ 0
    → mode / 2 % 2 ≡ 1
    → is_none_or_near now atime ≡ true
    → is_none_or_near now mtime ≡ true
    → (access_check caller file_uid caller.gid mode 2 ≡ err eacces)
      × (utimens_permission_check now caller file_uid caller.gid mode atime mtime ≡ ok tt)
unfolding access_check utimens_permission_check
utimens_of_others now caller file_uid mode atime mtime r o group_bit others_bit a m =
    let group : bit_and (mode / 8) 7 ≡ mode / 8 % 8 = and_mask 3 (mode / 8) (omega arith) in
    let others : bit_and mode 2 ≡ mode / 2 % 2 * 2 = one_bit 1 mode (omega arith) in
    let need : bit_and (mode / 8 % 8) 2 ≡ mode / 8 % 8 / 2 % 2 * 2 =
      one_bit 1 (mode / 8 % 8) (omega arith) in
    ground (arith, group, others, need)
