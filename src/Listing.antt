-- ===== src/Listing.antt =====
-- typed-fuse-core/src/path_fs.rs: directory buffers and the replay of their entries. `S` is the
-- filesystem's node state behind its `Arc`. A name is its bytes.
pub mod Cookie
pub mod Retained
pub mod Resume
pub mod Replay
use typed_fuse.Base.{
  ℕ, zero, suc, ◌+◌, ◌-◌, Bool, true, false, Option, none, some, List, [], ◌∷◌, ◌++◌, length,
  get_elem?, if◌then◌else◌, min,
}
use typed_fuse.Base.Outcome.{Outcome, ok, err, panic, Exec, pure, continue, ◌>>=◌}
use typed_fuse.Base.Order.{Bytes}
use typed_fuse.Attr.{FileKind, directory, NodeAttr}

pub data PathDirIdentity (S : Type 0) : Type 0 where
  current : PathDirIdentity S
  parent : PathDirIdentity S
  child : S → PathDirIdentity S

pub record DirEntry (S : Type 0) : Type 0 where
  pub name : Bytes
  pub kind : FileKind
  pub attr : Option NodeAttr
  pub identity : PathDirIdentity S

pub record DirBuffer (S : Type 0) : Type 0 where
  pub entries : List (DirEntry S)

module _ {S : Type 0} where
  abbrev pub new_buffer : DirBuffer S
  new_buffer = record { entries = [] }

  unfoldable pub push : Bytes → FileKind → S → DirBuffer S → DirBuffer S
  push name kind state b = record {
    entries =
        b.entries ++ record { name = name; kind = kind; attr = none; identity = child state } ∷ [];
  }

  unfoldable pub push_plus : Bytes → NodeAttr → S → DirBuffer S → DirBuffer S
  push_plus name attr state b = record {
    entries =
        b.entries
        ++ record { name = name; kind = attr.kind; attr = some attr; identity = child state } ∷ [];
  }

  -- "." and ".."
  unfoldable pub push_dots : NodeAttr → NodeAttr → DirBuffer S → DirBuffer S
  push_dots self_attr parent_attr b = record {
    entries =
        b.entries
        ++ record { name = b'.' ∷ []; kind = directory; attr = some self_attr; identity = current }
          ∷ record {
            name = b'.' ∷ b'.' ∷ [];
            kind = directory;
            attr = some parent_attr;
            identity = parent;
          }
          ∷ [];
  }

  abbrev pub len : DirBuffer S → ℕ
  len b = length b.entries

-- The loop of `replay` from `index`, with `count` entries to go. `emit` answers whether to go on.
unfoldable pub replay_from {ℓ} : {T : Type ℓ} → (ℕ → ℕ → Exec T Bool) → ℕ → ℕ → Exec T (Unit {0})
replay_from emit zero index = pure tt
replay_from emit (suc count) index =
    emit index (index + 1) >>= λ more. if more then replay_from emit count (index + 1) else pure tt

-- `usize` has 64 bits, so the conversion of `offset` does not fail.
unfoldable pub replay {ℓ} : {T : Type ℓ} → ℕ → ℕ → (ℕ → ℕ → Exec T Bool) → Exec T (Unit {0})
unfolding replay_from
replay offset len emit = let start = min offset len in replay_from emit (len - start) start

module _ {ℓ} {S : Type 0} {T : Type ℓ} where
  -- `&entries[index]`, which panics out of range.
  abbrev pub at_index : List (DirEntry S) → ℕ → (DirEntry S → Exec T Bool) → Exec T Bool
  at_index entries index f s = elim (get_elem? entries index) [
    | none ↦ (panic, s)
    | some entry ↦ f entry s
  ]

  unfoldable pub fill :
      DirBuffer S → ℕ → (Bytes → FileKind → PathDirIdentity S → ℕ → Exec T Bool) → Exec T (Unit {0})
  unfolding replay
  fill b offset add = replay offset (len b) λ index next_offset.
      at_index b.entries index λ entry. add entry.name entry.kind entry.identity next_offset

  unfoldable pub fill_plus :
      DirBuffer S
      → ℕ
      → (Bytes → Option NodeAttr → PathDirIdentity S → ℕ → Exec T Bool)
      → Exec T (Unit {0})
  unfolding replay
  fill_plus b offset add = replay offset (len b) λ index next_offset.
      at_index b.entries index λ entry. add entry.name entry.attr entry.identity next_offset
