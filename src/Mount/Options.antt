-- ===== src/Mount/Options.antt =====
-- typed-fuse/src/session.rs: `MountOption` and the arguments of a session; typed-fuse/src/mount.rs:
-- `build_mount_options`, whose log messages are left out.
use typed_fuse.Base.{
  Bool, true, false, ◌||◌, Option, none, some, List, [], ◌∷◌, ◌++◌, map, if◌then◌else◌,
}
use typed_fuse.Base.Outcome.{Outcome, ok, panic}
use typed_fuse.Base.Order.{Bytes}
use typed_fuse.Conv.Options.{escape_option_value}
use typed_fuse.Session.Dirents.{has_nul}
use typed_fuse.Mount.Config.{
  MountConfig, ro_word, allow_other_word, allow_root_word, auto_unmount_word,
  default_permissions_word, nonempty_word, fsname_key, subtype_key, volname_key,
}

pub data MountOption : Type 0 where
  read_only allow_other allow_root auto_unmount default_permissions non_empty : MountOption
  fs_name subtype vol_name custom : Bytes → MountOption

-- `is_macos` is `cfg!(target_os = "macos")`.
unfoldable pub render : Bool → MountOption → Option Bytes
unfolding escape_option_value
render is_macos read_only = some ro_word
render is_macos allow_other = some allow_other_word
render is_macos allow_root = some allow_root_word
render is_macos auto_unmount = some auto_unmount_word
render is_macos default_permissions = some default_permissions_word
render is_macos non_empty = if is_macos then some nonempty_word else none
render is_macos (fs_name name) = some (fsname_key ++ escape_option_value name)
render is_macos (subtype name) = some (subtype_key ++ escape_option_value name)
render is_macos (vol_name name) =
    if is_macos then some (volname_key ++ escape_option_value name) else none
render is_macos (custom opt) = some opt

unfoldable pub rendered : Bool → List MountOption → List Bytes
unfolding render
rendered is_macos [] = []
rendered is_macos (option ∷ options) = elim (render is_macos option) [
  | none ↦ rendered is_macos options
  | some word ↦ word ∷ rendered is_macos options
]

-- `join(",")`
abbrev pub join : List Bytes → Bytes
join [] = []
join (word ∷ []) = word
join (word ∷ other ∷ words) = word ++ b',' ∷ join (other ∷ words)

abbrev pub with_options : List Bytes → List Bytes
with_options [] = []
with_options (word ∷ words) = (b'-' ∷ b'o' ∷ []) ∷ join (word ∷ words) ∷ []

abbrev pub any_nul : List Bytes → Bool
any_nul [] = false
any_nul (arg ∷ args) = has_nul arg || any_nul args

-- The arguments that `new_with_config` hands to libfuse; `expect` panics at a NUL.
unfoldable pub session_args : Bool → List MountOption → Outcome (List Bytes)
unfolding rendered
session_args is_macos options =
    let args = (b'f' ∷ b'u' ∷ b's' ∷ b'e' ∷ b'3' ∷ []) ∷ with_options (rendered is_macos options) in
    if any_nul args then panic else ok args

abbrev pub pushed : Bool → MountOption → List MountOption
pushed true option = option ∷ []
pushed false option = []

abbrev pub pushed_value : (Bytes → MountOption) → Option Bytes → List MountOption
pushed_value option none = []
pushed_value option (some value) = option value ∷ []

unfoldable pub build_mount_options : MountConfig → List MountOption
build_mount_options cfg =
    fs_name cfg.fs_name ∷ pushed_value subtype cfg.subtype
    ++ (pushed cfg.allow_other allow_other
        ++ (pushed cfg.allow_root allow_root
            ++ (pushed cfg.default_permissions default_permissions
                ++ (pushed cfg.read_only read_only
                    ++ (pushed cfg.nonempty non_empty
                        ++ (pushed_value vol_name cfg.volname ++ map custom cfg.extra_options))))))
