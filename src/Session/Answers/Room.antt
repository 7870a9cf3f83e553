-- ===== src/Session/Answers/Room.antt =====
-- The buffer of a directory request (typed-fuse/src/ffi.rs: `RawDirentBuf`).
use typed_fuse.Base.{ℕ, ◌≡◌, ◌≤◌, length, length-append, arith, Bool-cases, inl, inr}
use typed_fuse.Base.Int.{ℤ}
use typed_fuse.Base.Order.{nat_key, Bytes}
use typed_fuse.Attr.{FileKind}
use typed_fuse.Conv.{Stat}
use typed_fuse.Runtime.Entries.{EntryReply}
use typed_fuse.Session.Raw.{Platform, EntryParam}
use typed_fuse.Session.Dirents.{RawDirentBuf, append, add, add_plus, has_nul}

-- libfuse writes an entry in the size that it has asked for.
pub record SizesAreTrue (p : Platform) : Type 0 where
  pub plain :
      (name : Bytes) (st : Stat) (off : ℤ)
      → length (p.add_direntry name st off) ≡ p.direntry_size name
  pub plus :
      (name : Bytes) (e : EntryParam) (off : ℤ)
      → length (p.add_direntry_plus name e off) ≡ p.direntry_plus_size name

abbrev pub HasRoom : ℕ → RawDirentBuf → Type 0
HasRoom size b = (b.capacity ≡ size) × (length b.buf ≤ size)

append-HasRoom :
    (size n : ℕ) (entry : Bytes) (b : RawDirentBuf)
    → length entry ≡ n
    → HasRoom size b
    → HasRoom size (append n entry b).1
append-HasRoom size n entry b e h = ground (arith, length-append b.buf entry)

pub add-HasRoom :
    (p : Platform) (size : ℕ) (name : Bytes) (id : ℕ) (kind : FileKind) (off : ℕ) (b : RawDirentBuf)
    → SizesAreTrue p
    → HasRoom size b
    → HasRoom size (add p name id kind off b).1
unfolding add
add-HasRoom p size name id kind off b true_sizes h = elim (Bool-cases (has_nul name)) [
  | inl nul ↦ rw nul h
  | inr whole ↦ rw whole (append-HasRoom size _ _ b (true_sizes.plain name _ _) h)
]

pub add_plus-HasRoom :
    (p : Platform) (size : ℕ) (name : Bytes) (entry : EntryReply) (off : ℕ) (b : RawDirentBuf)
    → SizesAreTrue p
    → HasRoom size b
    → HasRoom size (add_plus p name entry off b).1
unfolding add_plus
add_plus-HasRoom p size name entry off b true_sizes h = elim (Bool-cases (has_nul name)) [
  | inl nul ↦ rw nul h
  | inr whole ↦ rw whole (append-HasRoom size _ _ b (true_sizes.plus name _ _) h)
]
