-- ===== src/Mount/Reading.antt =====
-- typed-fuse/src/session.rs: how the text of an option is read. The reader is libfuse's and a
-- parameter.
use typed_fuse.Base.{
  ℕ, ◌≡◌, refl, ap, sym, ◌∙◌, Bool, true, false, not, ◌&&◌, ◌||◌, Option, none, some, List, [], ◌∷◌,
  ◌++◌, arith, Bool-cases, inl, inr,
}
use typed_fuse.Base.Order.{Bytes}
use typed_fuse.Conv.Options.{is_special, escape_option_value}
use typed_fuse.Session.Dirents.{has_nul}
use typed_fuse.Mount.Config.{
  ro_word, allow_other_word, allow_root_word, auto_unmount_word, default_permissions_word,
  nonempty_word, fsname_key, subtype_key, volname_key,
}
use typed_fuse.Mount.Options.{
  MountOption, read_only, allow_other, allow_root, auto_unmount, default_permissions, non_empty,
  fs_name, subtype, vol_name, custom, render,
}

-- A byte before the words of a text.
abbrev pub onto : ℕ → List Bytes → List Bytes
onto c [] = (c ∷ []) ∷ []
onto c (word ∷ words) = (c ∷ word) ∷ words

-- What libfuse documents of its `-o` parser, which the comment of `escape_option_value` repeats:
-- the list is split at commas, and a backslash takes a comma or a backslash as it is. What a
-- backslash does before another byte is left open.
pub record IsOptionReader (split : Bytes → List Bytes) : Type 0 where
  pub stop : split [] ≡ [] ∷ []
  pub comma : (text : Bytes) → split (b',' ∷ text) ≡ [] ∷ split text
  pub plain : (c : ℕ) (text : Bytes) → is_special c ≡ false → split (c ∷ text) ≡ onto c (split text)
  pub escaped :
      (c : ℕ) (text : Bytes) → is_special c ≡ true → split (b'\\' ∷ c ∷ text) ≡ onto c (split text)

-- A word without commas and backslashes.
abbrev pub is_plain : Bytes → Bool
is_plain [] = true
is_plain (c ∷ word) = not (is_special c) && is_plain word

-- What an option says, before it is escaped.
abbrev pub word_of : MountOption → Bytes
word_of read_only = ro_word
word_of allow_other = allow_other_word
word_of allow_root = allow_root_word
word_of auto_unmount = auto_unmount_word
word_of default_permissions = default_permissions_word
word_of non_empty = nonempty_word
word_of (fs_name name) = fsname_key ++ name
word_of (subtype name) = subtype_key ++ name
word_of (vol_name name) = volname_key ++ name
word_of (custom opt) = opt

-- The two options that only macOS has apply there.
abbrev pub applies : Bool → MountOption → Bool
applies is_macos non_empty = is_macos
applies is_macos (vol_name name) = is_macos
applies is_macos option = true

-- A raw option is passed on as it is, so that it is one word only without commas and backslashes.
abbrev pub IsRaw : MountOption → Type 0
IsRaw (custom opt) = is_plain opt ≡ true
IsRaw option = Unit

abbrev pub before : Bytes → List Bytes → List Bytes
before [] words = words
before (c ∷ word) words = onto c (before word words)

pub before-word : (word : Bytes) (words : List Bytes) → before word ([] ∷ words) ≡ word ∷ words
before-word [] words = refl
before-word (c ∷ word) words = ap (onto c) (before-word word words)

pub has_nul-append : (xs ys : Bytes) → has_nul (xs ++ ys) ≡ (has_nul xs || has_nul ys)
has_nul-append [] ys = refl
has_nul-append (x ∷ xs) ys = ground (arith, has_nul-append xs ys)

has_nul-escape : (value : Bytes) → has_nul (escape_option_value value) ≡ has_nul value
unfolding escape_option_value
has_nul-escape [] = refl
has_nul-escape (c ∷ value) = ground (arith, has_nul-escape value)

module _ (split : Bytes → List Bytes) (reader : IsOptionReader split) where
  -- The text is read as this word, whatever follows, and has a NUL where the word has one.
  pub record Reads (text : Bytes) (word : Bytes) : Type 0 where
    pub reads : (rest : Bytes) → split (text ++ rest) ≡ before word (split rest)
    pub same_nul : has_nul text ≡ has_nul word

  plain-Reads : (word : Bytes) → is_plain word ≡ true → Reads word word
  plain-Reads word h = record { reads = go word h; same_nul = refl }
    where
      go :
          (word : Bytes)
          → is_plain word ≡ true
          → (rest : Bytes) → split (word ++ rest) ≡ before word (split rest)
      go [] h rest = refl
      go (c ∷ word) h rest =
          reader.plain c (word ++ rest) (ground (arith, h))
          ∙ ap (onto c) (go word (ground (arith, h)) rest)

  escape-reads :
      (value rest : Bytes) → split (escape_option_value value ++ rest) ≡ before value (split rest)
  unfolding escape_option_value
  escape-reads [] rest = refl
  escape-reads (c ∷ value) rest = elim (Bool-cases (is_special c)) [
    | inl special ↦ rw special (
        reader.escaped c (escape_option_value value ++ rest) special
        ∙ ap (onto c) (escape-reads value rest))
    | inr other ↦ rw other (
        reader.plain c (escape_option_value value ++ rest) other
        ∙ ap (onto c) (escape-reads value rest))
  ]

  -- A key and an escaped value.
  keyed-Reads :
      (key value : Bytes)
      → is_plain key ≡ true
      → Reads (key ++ escape_option_value value) (key ++ value)
  keyed-Reads key value h = record {
    reads = go key h;
    same_nul =
        has_nul-append key (escape_option_value value)
        ∙ ap (λ b. has_nul key || b) (has_nul-escape value)
        ∙ sym (has_nul-append key value);
  }
    where
      go :
          (key : Bytes)
          → is_plain key ≡ true
          → (rest : Bytes)
          → split ((key ++ escape_option_value value) ++ rest) ≡ before (key ++ value) (split rest)
      go [] h rest = escape-reads value rest
      go (c ∷ key) h rest =
          reader.plain c ((key ++ escape_option_value value) ++ rest) (ground (arith, h))
          ∙ ap (onto c) (go key (ground (arith, h)) rest)

  -- A word that is sent is rendered to a text that is read as it, and another to none.
  abbrev pub Renders : Bool → Option Bytes → Bytes → Type 0
  Renders true rendering word = (text : Bytes) × (rendering ≡ some text) × Reads text word
  Renders false rendering word = rendering ≡ none

  pub render-Renders :
      (is_macos : Bool) (option : MountOption)
      → IsRaw option
      → Renders (applies is_macos option) (render is_macos option) (word_of option)
  unfolding render
  render-Renders m read_only h = (_, refl, plain-Reads ro_word refl)
  render-Renders m allow_other h = (_, refl, plain-Reads allow_other_word refl)
  render-Renders m allow_root h = (_, refl, plain-Reads allow_root_word refl)
  render-Renders m auto_unmount h = (_, refl, plain-Reads auto_unmount_word refl)
  render-Renders m default_permissions h = (_, refl, plain-Reads default_permissions_word refl)
  render-Renders true non_empty h = (_, refl, plain-Reads nonempty_word refl)
  render-Renders false non_empty h = refl
  render-Renders m (fs_name name) h = (_, refl, keyed-Reads fsname_key name refl)
  render-Renders m (subtype name) h = (_, refl, keyed-Reads subtype_key name refl)
  render-Renders true (vol_name name) h = (_, refl, keyed-Reads volname_key name refl)
  render-Renders false (vol_name name) h = refl
  render-Renders m (custom opt) h = (_, refl, plain-Reads opt h)
