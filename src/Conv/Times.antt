-- ===== src/Conv/Times.antt =====
-- Times before and after the epoch (typed-fuse/src/conv.rs).
use typed_fuse.Base.{
  ℕ, zero, suc, ◌+◌, ◌-◌, ◌*◌, ◌/◌, ◌%◌, ◌≤◌, ◌<◌, ◌≡◌, ◌∙◌, refl, ap, arith, eqb, if◌then◌else◌,
  Bool-cases, inl, inr, false,
}
use typed_fuse.Base.Int.{ℤ, pos, negsuc, is_negative, magnitude, minus}
use typed_fuse.Attr.{SystemTime}
use typed_fuse.Conv.{
  system_time_to_secs_nsecs, secs_nsecs_to_system_time, nanos, as_i64, as_u32, before, later,
}

later-minus : (m k n : ℕ) → m ≡ k + suc n → later (minus m) k ≡ negsuc n
later-minus zero k n e = absurd (omega arith)
later-minus (suc m) k n e = ground arith

-- `as u32` keeps the nanoseconds of a `timespec`.
same_u32 : (n : ℕ) → n ≤ nanos → as_u32 (pos n) ≡ n
same_u32 n h = omega arith

split_before : ℕ → ℕ → ℤ × ℤ
split_before q r =
    if◌then◌else◌ {A = ℤ × ℤ} (eqb r 0) (minus q, pos 0) (before (minus q), pos (nanos - r))

abbrev pub IsTimespecOf : SystemTime → ℤ × ℤ → Type 0
IsTimespecOf t (secs, nsecs) =
    (secs_nsecs_to_system_time secs nsecs ≡ t)
    × (is_negative nsecs ≡ false)
    × (magnitude nsecs < nanos)

-- With the quotient and the remainder of the distance to the epoch.
time_back :
    (q r n : ℕ) → suc n ≡ q * nanos + r → r < nanos → IsTimespecOf (negsuc n) (split_before q r)
unfolding secs_nsecs_to_system_time split_before
time_back zero r n e h = elim (Bool-cases (eqb r 0)) [
  | inl whole ↦ absurd (ground arith)
  | inr part ↦
      rw (part, split_before)
        (
          ap (later (minus (1 * nanos))) (same_u32 (nanos - r) (omega arith))
              ∙ later-minus (1 * nanos) (nanos - r) n (omega arith),
          refl,
          ground arith,
        )
]
time_back (suc q) r n e h = elim (Bool-cases (eqb r 0)) [
  | inl whole ↦
      rw (whole, split_before) (later-minus (suc q * nanos) 0 n (ground arith), refl, omega arith)
  | inr part ↦
      rw (part, split_before)
        (
          ap (later (minus (suc (suc q) * nanos))) (same_u32 (nanos - r) (omega arith))
              ∙ later-minus (suc (suc q) * nanos) (nanos - r) n (omega arith),
          refl,
          ground arith,
        )
]

-- A time whose distance to the epoch has fewer seconds than the largest i64 comes back from its
-- seconds and nanoseconds, and the nanoseconds are those of a `timespec`: not negative and below a
-- second.
pub secs_nsecs-system_time :
    (t : SystemTime)
    → magnitude t / nanos < 9223372036854775807
    → IsTimespecOf t (system_time_to_secs_nsecs t)
unfolding system_time_to_secs_nsecs secs_nsecs_to_system_time split_before
secs_nsecs-system_time (pos n) h =
    let small : as_i64 (n / nanos) ≡ pos (n / nanos) = ground arith in
    rw (small) (ap pos (omega arith), refl, omega arith)
secs_nsecs-system_time (negsuc n) h =
    let small : as_i64 (suc n / nanos) ≡ pos (suc n / nanos) = ground arith in
    rw small (time_back (suc n / nanos) (suc n % nanos) n (omega arith) (omega arith))
