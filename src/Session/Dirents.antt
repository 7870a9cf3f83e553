-- ===== src/Session/Dirents.antt =====
-- typed-fuse/src/ffi.rs: `RawDirentBuf`. Its request and its format are fixed by the handler that makes
-- it, so a plain buffer has `add` and a buffer with attributes `add_plus`.
use typed_fuse.Base.{
  ℕ, ◌+◌, Bool, true, false, ◌||◌, [], ◌∷◌, ◌++◌, length, eqb, ltb, if◌then◌else◌,
}
use typed_fuse.Base.Order.{Bytes}
use typed_fuse.Attr.{FileKind}
use typed_fuse.Conv.{kind_to_mode_bits, as_i64}
use typed_fuse.Runtime.Entries.{EntryReply}
use typed_fuse.Session.Raw.{Platform, entry_to_entry_param, zeroed_stat}

pub record RawDirentBuf : Type 0 where
  pub capacity : ℕ
  pub buf : Bytes
  pub ttl : ℕ

abbrev pub new_buf : ℕ → RawDirentBuf
new_buf size = record { capacity = size; buf = []; ttl = 0 }

abbrev pub new_plus : ℕ → ℕ → RawDirentBuf
new_plus size ttl = record { capacity = size; buf = []; ttl = ttl }

-- `CString::new(name)` fails.
abbrev pub has_nul : Bytes → Bool
has_nul [] = false
has_nul (c ∷ name) = eqb c 0 || has_nul name

-- The size is asked for first; what libfuse then writes has that size.
abbrev pub append : ℕ → Bytes → RawDirentBuf → Bool × RawDirentBuf
append entry_size entry b =
    if ltb b.capacity (length b.buf + entry_size)
    then (false, b)
    else (true, record b { buf = b.buf ++ entry })

unfoldable pub add : Platform → Bytes → ℕ → FileKind → ℕ → RawDirentBuf → Bool × RawDirentBuf
add p name id kind next_offset b =
    if has_nul name
    then (true, b)
    else append (p.direntry_size name)
        (p.add_direntry name
          (record zeroed_stat { st_ino = id; st_mode = kind_to_mode_bits p.modes kind })
          (as_i64 next_offset))
        b

unfoldable pub add_plus : Platform → Bytes → EntryReply → ℕ → RawDirentBuf → Bool × RawDirentBuf
unfolding entry_to_entry_param
add_plus p name entry next_offset b =
    if has_nul name
    then (true, b)
    else append (p.direntry_plus_size name)
        (p.add_direntry_plus name
          (entry_to_entry_param p.modes entry.ino entry.generation entry.attr b.ttl)
          (as_i64 next_offset))
        b
