-- ===== src/Tests/Mount.antt =====
-- typed-fuse/src/mount.rs and the life of a session in typed-fuse/src/session.rs: one mount.
use typed_fuse.Base.{◌≡◌, refl, Bool, true, false, List, [], ◌∷◌, if◌then◌else◌, eqb, arith}
use typed_fuse.Base.Int.{pos}
use typed_fuse.Base.Outcome.{ok, panic}
use typed_fuse.Base.Order.{Bytes}
use typed_fuse.Mount.Options.{
  MountOption, fs_name, read_only, non_empty, custom, any_nul, session_args,
}
use typed_fuse.Mount.Reading.{IsOptionReader, onto}
use typed_fuse.Mount.Arrival.{words_of, Carries, session_args-IsRead}
use typed_fuse.Session.Life.{
  Answers, multi_threaded, default_pool, mount_and_run_with_config, returns,
}
use typed_fuse.Session.Nested.{is_nested, serves, mount_and_run-nests}

-- A reader of option lists: what it makes of a text is held back after a backslash. It drops a
-- backslash, and takes the byte after it as it is.
abbrev read_from : Bool → Bytes → List Bytes
read_from escaped [] = [] ∷ []
read_from true (c ∷ text) = let rest = read_from false text in onto c rest
read_from false (c ∷ text) =
    let plain = read_from false text in
    let after = read_from true text in
    if eqb c b',' then [] ∷ plain else if eqb c b'\\' then after else onto c plain

read_from-IsOptionReader : IsOptionReader (read_from false)
read_from-IsOptionReader = record {
  stop = refl;
  comma = λ text. refl;
  plain = λ c text h. ground arith;
  escaped = λ c text h. refl;
}

-- A source with a comma and a backslash in it, an option that Linux lacks, and a raw option.
abbrev shared : List MountOption
shared =
    fs_name (b'a' ∷ b',' ∷ b'\\' ∷ [])
    ∷ non_empty
    ∷ read_only
    ∷ custom (b'd' ∷ b'e' ∷ b'v' ∷ [])
    ∷ []

session_args-IsRead_example :
    (any_nul (words_of false shared) ≡ true → session_args false shared ≡ panic)
    × (any_nul (words_of false shared) ≡ false
        → (args : List Bytes) × (session_args false shared ≡ ok args)
          × Carries (read_from false) (words_of false shared) args)
session_args-IsRead_example =
    session_args-IsRead (read_from false) read_from-IsOptionReader false shared
      (tt, (tt, (tt, (refl, tt))))

abbrev willing : Answers
willing = record {
  session_made = true;
  exists = true;
  is_dir = true;
  mount_succeeds = true;
  handlers_installed = true;
  config_allocated = true;
  loop_result = pos 0;
}

mount_and_run-nests_example :
    let (r, events) =
      mount_and_run_with_config willing false
        (b'm' ∷ [])
        (fs_name (b'a' ∷ []) ∷ read_only ∷ [])
        (multi_threaded default_pool) in
    (is_nested [] events ≡ true)
    × (r ≡ returns tt → (serves events ≡ true) × (willing.loop_result ≡ pos 0))
mount_and_run-nests_example =
    mount_and_run-nests willing false (b'm' ∷ []) (fs_name (b'a' ∷ []) ∷ read_only ∷ [])
      (multi_threaded default_pool)
