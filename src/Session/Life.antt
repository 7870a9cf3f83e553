-- ===== src/Session/Life.antt =====
-- typed-fuse/src/session.rs: the life of a `Session` (`new_with_config`, `mount`, `run`, `drop`,
-- `mount_and_run_with_config`), `ThreadPoolConfig` and `LoopConfig`, and `mount_blocking` of
-- typed-fuse/src/mount.rs. What libfuse and the file system answer is a parameter; what is taken
-- and given back is logged.
use typed_fuse.Base.{
  ℕ, Bool, true, false, Option, none, some, List, [], ◌∷◌, ◌++◌, ltb, eqb, if◌then◌else◌,
}
use typed_fuse.Base.Int.{ℤ, pos, negsuc}
use typed_fuse.Base.Outcome.{Outcome, ok, err, panic}
use typed_fuse.Base.Order.{Bytes}
use typed_fuse.Session.Dirents.{has_nul}
use typed_fuse.Mount.Config.{MountConfig}
use typed_fuse.Mount.Options.{MountOption, session_args, build_mount_options}

-- `max_threads` is a `NonZeroU32`.
pub record ThreadPoolConfig : Type 0 where
  pub max_threads : ℕ
  pub max_idle_threads : Option ℕ
  pub clone_fd : Bool

-- `ThreadPoolConfig::default`
abbrev pub default_pool : ThreadPoolConfig
default_pool = record { max_threads = 10; max_idle_threads = none; clone_fd = false }

pub data ThreadingMode : Type 0 where
  single_threaded : ThreadingMode
  multi_threaded : ThreadPoolConfig → ThreadingMode

-- The strings of the messages are left out where they say no more than the error.
pub data Error : Type 0 where
  session_new mount_failed : Error
  mount_point_not_found mount_point_not_dir : Bytes → Error
  signal_handlers : Error
  loop_failed : ℤ → Error
  invalid_mountpoint : Bytes → Error
  invalid_thread_pool loop_config_allocation : Error

pub data Resource : Type 0 where
  runtime session mounted handlers loop_config : Resource

pub data Event : Type 0 where
  takes gives_back : Resource → Event
  sets_max_threads sets_idle_threads : ℕ → Event
  sets_clone_fd : Bool → Event
  loops : Event

-- How a call ends: with a value, with an error, or by a panic.
pub data Ended (A : Type 0) : Type 0 where
  returns : A → Ended A
  fails : Error → Ended A
  panics : Ended A

-- What libfuse and the file system answer.
pub record Answers : Type 0 where
  pub session_made : Bool
  pub exists : Bool
  pub is_dir : Bool
  pub mount_succeeds : Bool
  pub handlers_installed : Bool
  pub config_allocated : Bool
  pub loop_result : ℤ

pub record Session : Type 0 where
  pub is_mounted : Bool
  pub threading : ThreadingMode

abbrev pub validate : ThreadPoolConfig → Bool
validate pool = if ltb 100000 pool.max_threads then false else true

abbrev pub valid_mode : ThreadingMode → Bool
valid_mode single_threaded = true
valid_mode (multi_threaded pool) = validate pool

module _ (a : Answers) where
  abbrev pub made : ThreadingMode → Bool → Ended Session × List Event
  made threading true = (
    returns (record { is_mounted = false; threading = threading }),
    takes runtime ∷ takes session ∷ [],
  )
  made threading false = (fails session_new, takes runtime ∷ gives_back runtime ∷ [])

  abbrev pub with_args : ThreadingMode → Outcome (List Bytes) → Ended Session × List Event
  with_args threading (ok args) = made threading a.session_made
  with_args threading (err e) = (panics, [])
  with_args threading panic = (panics, [])

  unfoldable pub new_with_config :
      Bool → List MountOption → ThreadingMode → Ended Session × List Event
  unfolding session_args
  new_with_config is_macos options threading =
      if valid_mode threading
      then with_args threading (session_args is_macos options)
      else (fails invalid_thread_pool, [])

  -- Nothing is given back by `mount` itself, so it gives the session that is left.
  unfoldable pub mount : Bytes → Session → (Ended (Unit {0}) × Session) × List Event
  mount mountpoint s =
      if a.exists
      then if a.is_dir
        then if has_nul mountpoint
          then ((fails (invalid_mountpoint mountpoint), s), [])
          else if a.mount_succeeds
          then ((returns tt, record s { is_mounted = true }), takes mounted ∷ [])
          else ((fails mount_failed, s), [])
        else ((fails (mount_point_not_dir mountpoint), s), [])
      else ((fails (mount_point_not_found mountpoint), s), [])

  abbrev pub idle_setting : Option ℕ → List Event
  idle_setting none = []
  idle_setting (some n) = sets_idle_threads n ∷ []

  -- `LoopConfig::new`
  unfoldable pub new_loop_config : ThreadPoolConfig → Ended (Unit {0}) × List Event
  new_loop_config pool =
      if validate pool
      then if a.config_allocated
        then (
          returns tt,
          takes loop_config ∷ sets_max_threads pool.max_threads ∷ idle_setting pool.max_idle_threads
              ++ sets_clone_fd pool.clone_fd ∷ [],
        )
        else (fails loop_config_allocation, [])
      else (fails invalid_thread_pool, [])

  abbrev pub loop_ended : ℤ → Ended (Unit {0})
  loop_ended (pos n) = if eqb n 0 then returns tt else fails (loop_failed (pos n))
  loop_ended (negsuc n) = fails (loop_failed (negsuc n))

  -- The `match` on the threading mode: its result, and its events up to the removal of the
  -- handlers. The configuration is dropped when the loop has returned.
  abbrev pub looping : Ended (Unit {0}) × List Event → Ended (Unit {0}) × List Event
  looping (returns _, events) =
      (loop_ended a.loop_result, events ++ loops ∷ gives_back loop_config ∷ [])
  looping (fails e, events) = (fails e, events)
  looping (panics, events) = (panics, events)

  unfoldable pub run_loop : ThreadingMode → Ended (Unit {0}) × List Event
  unfolding new_loop_config
  run_loop single_threaded = (loop_ended a.loop_result, loops ∷ [])
  run_loop (multi_threaded pool) = looping (new_loop_config pool)

  abbrev pub between_handlers : Ended (Unit {0}) × List Event → Ended (Unit {0}) × List Event
  between_handlers (r, events) = (r, takes handlers ∷ events ++ gives_back handlers ∷ [])

  unfoldable pub run : Session → Ended (Unit {0}) × List Event
  unfolding run_loop
  run s =
      if a.handlers_installed
      then between_handlers (run_loop s.threading)
      else (fails signal_handlers, [])

  -- `Session::drop`
  abbrev pub drop_session : Session → List Event
  drop_session s =
      (if s.is_mounted then gives_back mounted ∷ [] else [])
      ++ gives_back session ∷ gives_back runtime ∷ []

  -- `session.mount(mountpoint)?; session.run()`, and the drop of the session.
  unfoldable pub then_run :
      (Ended (Unit {0}) × Session) × List Event → Ended (Unit {0}) × List Event
  unfolding run
  then_run ((returns _, s), events) = let (r, ran) = run s in (r, events ++ (ran ++ drop_session s))
  then_run ((fails e, s), events) = (fails e, events ++ drop_session s)
  then_run ((panics, s), events) = (panics, events ++ drop_session s)

  unfoldable pub then_mount : Bytes → Ended Session × List Event → Ended (Unit {0}) × List Event
  unfolding mount then_run
  then_mount mountpoint (returns s, events) =
      let (r, after) = then_run (mount mountpoint s) in (r, events ++ after)
  then_mount mountpoint (fails e, events) = (fails e, events)
  then_mount mountpoint (panics, events) = (panics, events)

  unfoldable pub mount_and_run_with_config :
      Bool → Bytes → List MountOption → ThreadingMode → Ended (Unit {0}) × List Event
  unfolding new_with_config then_mount
  mount_and_run_with_config is_macos mountpoint options threading =
      then_mount mountpoint (new_with_config is_macos options threading)

  unfoldable pub mount_blocking : Bool → Bytes → MountConfig → Bool → Ended (Unit {0}) × List Event
  unfolding mount_and_run_with_config build_mount_options
  mount_blocking is_macos mountpoint cfg single_thread =
      mount_and_run_with_config is_macos mountpoint (build_mount_options cfg)
        (if single_thread then single_threaded else multi_threaded default_pool)
