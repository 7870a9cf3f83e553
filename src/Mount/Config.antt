-- ===== src/Mount/Config.antt =====
-- typed-fuse/src/mount.rs: `MountConfig`, `MountConfig::new` and `parse_option_words`.
use typed_fuse.Base.{Bool, true, false, Option, none, some, List, [], ◌∷◌, ◌++◌, if◌then◌else◌, eqb}
use typed_fuse.Base.Order.{Bytes, bytes_eq}

abbrev pub ro_word : Bytes
ro_word = b'r' ∷ b'o' ∷ []

abbrev pub rw_word : Bytes
rw_word = b'r' ∷ b'w' ∷ []

abbrev pub allow_other_word : Bytes
allow_other_word = b'a' ∷ b'l' ∷ b'l' ∷ b'o' ∷ b'w' ∷ b'_' ∷ b'o' ∷ b't' ∷ b'h' ∷ b'e' ∷ b'r' ∷ []

abbrev pub allow_root_word : Bytes
allow_root_word = b'a' ∷ b'l' ∷ b'l' ∷ b'o' ∷ b'w' ∷ b'_' ∷ b'r' ∷ b'o' ∷ b'o' ∷ b't' ∷ []

abbrev pub auto_unmount_word : Bytes
auto_unmount_word =
    b'a' ∷ b'u' ∷ b't' ∷ b'o' ∷ b'_' ∷ b'u' ∷ b'n' ∷ b'm' ∷ b'o' ∷ b'u' ∷ b'n' ∷ b't' ∷ []

abbrev pub default_permissions_word : Bytes
default_permissions_word =
    b'd' ∷ b'e' ∷ b'f' ∷ b'a' ∷ b'u' ∷ b'l' ∷ b't' ∷ b'_' ∷ b'p' ∷ b'e' ∷ b'r' ∷ b'm' ∷ b'i' ∷ b's'
    ∷ b's' ∷ b'i' ∷ b'o' ∷ b'n' ∷ b's' ∷ []

abbrev pub nonempty_word : Bytes
nonempty_word = b'n' ∷ b'o' ∷ b'n' ∷ b'e' ∷ b'm' ∷ b'p' ∷ b't' ∷ b'y' ∷ []

abbrev pub fsname_key : Bytes
fsname_key = b'f' ∷ b's' ∷ b'n' ∷ b'a' ∷ b'm' ∷ b'e' ∷ b'=' ∷ []

abbrev pub subtype_key : Bytes
subtype_key = b's' ∷ b'u' ∷ b'b' ∷ b't' ∷ b'y' ∷ b'p' ∷ b'e' ∷ b'=' ∷ []

abbrev pub volname_key : Bytes
volname_key = b'v' ∷ b'o' ∷ b'l' ∷ b'n' ∷ b'a' ∷ b'm' ∷ b'e' ∷ b'=' ∷ []

pub record MountConfig : Type 0 where
  pub fs_name : Bytes
  pub subtype : Option Bytes
  pub allow_other : Bool
  pub allow_root : Bool
  pub default_permissions : Bool
  pub read_only : Bool
  pub nonempty : Bool
  pub volname : Option Bytes
  pub extra_options : List Bytes

-- `MountConfig::new`
abbrev pub new_config : Bytes → MountConfig
new_config name = record {
  fs_name = name;
  subtype = none;
  allow_other = false;
  allow_root = false;
  default_permissions = true;
  read_only = false;
  nonempty = false;
  volname = none;
  extra_options = [];
}

abbrev pub strip_prefix : Bytes → Bytes → Option Bytes
strip_prefix [] word = some word
strip_prefix (a ∷ prefix) [] = none
strip_prefix (a ∷ prefix) (b ∷ word) = if eqb a b then strip_prefix prefix word else none

-- The `match` on a word.
abbrev pub set_word : MountConfig → Bytes → MountConfig
set_word cfg word =
    if bytes_eq word allow_other_word
    then record cfg { allow_other = true }
    else if bytes_eq word allow_root_word
    then record cfg { allow_root = true }
    else if bytes_eq word nonempty_word
    then record cfg { nonempty = true }
    else if bytes_eq word ro_word
    then record cfg { read_only = true }
    else if bytes_eq word rw_word
    then record cfg { read_only = false }
    else if bytes_eq word default_permissions_word
    then record cfg { default_permissions = true }
    else record cfg { extra_options = cfg.extra_options ++ word ∷ [] }

abbrev pub apply_word : MountConfig → Bytes → MountConfig
apply_word cfg word = elim (strip_prefix fsname_key word) [
  | some name ↦ record cfg { fs_name = name }
  | none ↦ elim (strip_prefix subtype_key word) [
    | some name ↦ record cfg { subtype = some name }
    | none ↦ elim (strip_prefix volname_key word) [
      | some name ↦ record cfg { volname = some name }
      | none ↦ set_word cfg word
    ]
  ]
]

unfoldable pub parse_option_words : List Bytes → MountConfig → MountConfig
parse_option_words [] cfg = cfg
parse_option_words (word ∷ words) cfg = parse_option_words words (apply_word cfg word)
