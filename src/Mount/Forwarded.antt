-- ===== src/Mount/Forwarded.antt =====
-- typed-fuse/src/mount.rs: the words that `parse_option_words` forwards to libfuse.
use typed_fuse.Base.{
  ◌≡◌, refl, ap, sym, ◌∙◌, Bool, true, false, ◌||◌, ◌&&◌, none, List, [], ◌∷◌, ◌++◌, eqb, arith,
  All, Bool-cases, inl, inr,
}
use typed_fuse.Base.Order.{Bytes, bytes_eq}
use typed_fuse.Mount.Config.{
  MountConfig, strip_prefix, set_word, apply_word, parse_option_words, ro_word, rw_word,
  allow_other_word, allow_root_word, default_permissions_word, nonempty_word, fsname_key,
  subtype_key, volname_key,
}
use typed_fuse.Mount.Reading.{is_plain}

-- A word that is forwarded: none of those that are recognized.
abbrev pub is_known : Bytes → Bool
is_known word =
    bytes_eq word allow_other_word
    || (bytes_eq word allow_root_word
        || (bytes_eq word nonempty_word
            || (bytes_eq word ro_word
                || (bytes_eq word rw_word || bytes_eq word default_permissions_word))))

abbrev pub has_key : Bytes → Bytes → Bool
has_key [] word = true
has_key (a ∷ key) [] = false
has_key (a ∷ key) (b ∷ word) = eqb a b && has_key key word

pub record IsForwarded (word : Bytes) : Type 0 where
  pub plain : is_plain word ≡ true
  pub unknown : is_known word ≡ false
  pub no_fsname : has_key fsname_key word ≡ false
  pub no_subtype : has_key subtype_key word ≡ false
  pub no_volname : has_key volname_key word ≡ false

strip_prefix-has_key : (key word : Bytes) → has_key key word ≡ false → strip_prefix key word ≡ none
strip_prefix-has_key [] word h = ground arith
strip_prefix-has_key (a ∷ key) [] h = refl
strip_prefix-has_key (a ∷ key) (b ∷ word) h = elim (Bool-cases (eqb a b)) [
  | inl same ↦ rw same (strip_prefix-has_key key word (ground (arith, h, same)))
  | inr other ↦ rw other refl
]

set_word-unknown :
    (cfg : MountConfig) (word : Bytes)
    → is_known word ≡ false
    → set_word cfg word ≡ record cfg { extra_options = cfg.extra_options ++ word ∷ [] }
set_word-unknown cfg word h = ground arith

apply_word-forwarded :
    (cfg : MountConfig) (word : Bytes)
    → IsForwarded word
    → apply_word cfg word ≡ record cfg { extra_options = cfg.extra_options ++ word ∷ [] }
apply_word-forwarded cfg word h =
    rw
      (
        strip_prefix-has_key fsname_key word h.no_fsname,
        strip_prefix-has_key subtype_key word h.no_subtype,
        strip_prefix-has_key volname_key word h.no_volname,
      )
      (set_word-unknown cfg word h.unknown)

pub append_nil {ℓ} : {A : Type ℓ} (xs : List A) → xs ++ [] ≡ xs
append_nil [] = refl
append_nil (x ∷ xs) = ap (λ ys. x ∷ ys) (append_nil xs)

append_assoc {ℓ} : {A : Type ℓ} (xs ys zs : List A) → (xs ++ ys) ++ zs ≡ xs ++ (ys ++ zs)
append_assoc [] ys zs = refl
append_assoc (x ∷ xs) ys zs = ap (λ l. x ∷ l) (append_assoc xs ys zs)

-- Forwarded words are added to the extra options in order, and nothing else changes.
pub parse-forwarded :
    (words : List Bytes) (cfg : MountConfig)
    → All IsForwarded words
    → parse_option_words words cfg ≡ record cfg { extra_options = cfg.extra_options ++ words }
unfolding parse_option_words
parse-forwarded [] cfg h =
    ap (λ (e : List Bytes). record cfg { extra_options = e }) (sym (append_nil cfg.extra_options))
parse-forwarded (word ∷ words) cfg h =
    let known : apply_word cfg word
        ≡ record cfg { extra_options = cfg.extra_options ++ word ∷ [] } =
      apply_word-forwarded cfg word h.0 in
    ap (parse_option_words words) known
    ∙ parse-forwarded words (record cfg { extra_options = cfg.extra_options ++ word ∷ [] }) h.1
    ∙ ap (λ (e : List Bytes). record cfg { extra_options = e })
        (append_assoc cfg.extra_options (word ∷ []) words)
