-- ===== src/Base/Outcome.antt =====
-- What a Rust call can do: return a value, return an error number, or panic (`expect` on a full
-- counter, which unwinds to the session's `catch_unwind`). An action keeps its state beside each of
-- the three, since what was written before an error stays written.
-- Error numbers: typed-fuse-core/src/errno.rs.

-- An error number that has a constant in errno.rs is written by that constant; `raw` is any other.
pub data Errno : Type 0 where
  eperm enoent eio eacces eexist enotdir eisdir einval enosys enotempty erange enodata : Errno
  eilseq enospc erofs ebadf enametoolong enxio eopnotsupp eoverflow : Errno
  raw : Prim.Native.Nat.ℕ → Errno

pub data Outcome {ℓ} (A : Type ℓ) : Type ℓ where
  ok : A → Outcome A
  err : Errno → Outcome A
  panic : Outcome A

-- A call with no state.
abbrev pub and_then {ℓ κ} : {A : Type ℓ} {B : Type κ} → Outcome A → (A → Outcome B) → Outcome B
and_then (ok a) f = f a
and_then (err e) f = err e
and_then panic f = panic

abbrev pub Exec {ℓ κ} : Type ℓ → Type κ → Type (ℓ ⊔ κ)
Exec S A = S → Outcome A × S

module _ {ℓ κ} {S : Type ℓ} {A : Type κ} where
  abbrev pub pure : A → Exec S A
  pure a s = (ok a, s)

  abbrev pub fail : Errno → Exec S A
  fail e s = (err e, s)

module _ {ℓ κ ι} {S : Type ℓ} {A : Type κ} {B : Type ι} where
  abbrev pub continue : Outcome A → (A → Exec S B) → Exec S B
  continue (ok a) f s = f a s
  continue (err e) f s = (err e, s)
  continue panic f s = (panic, s)

  infixl 5 ◌>>=◌
  abbrev pub ◌>>=◌ : Exec S A → (A → Exec S B) → Exec S B
  ◌>>=◌ m f s = let (r, s') = m s in continue r f s'
