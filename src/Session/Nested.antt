-- ===== src/Session/Nested.antt =====
-- typed-fuse/src/session.rs: what a session takes and gives back, on every path.
use typed_fuse.Base.{◌≡◌, Bool, true, false, ◌&&◌, List, [], ◌∷◌, arith, if◌then◌else◌}
use typed_fuse.Base.Int.{pos}
use typed_fuse.Base.Order.{Bytes}
use typed_fuse.Mount.Options.{MountOption}
use typed_fuse.Session.Life.{
  ThreadingMode, Resource, runtime, session, mounted, handlers, loop_config, Event, takes,
  gives_back, sets_max_threads, sets_idle_threads, sets_clone_fd, loops, Answers, new_with_config,
  mount, new_loop_config, run_loop, run, then_run, then_mount, mount_and_run_with_config, returns,
}

abbrev pub is_same : Resource → Resource → Bool
is_same runtime runtime = true
is_same session session = true
is_same mounted mounted = true
is_same handlers handlers = true
is_same loop_config loop_config = true
is_same r q = false

abbrev pub holds : Resource → List Resource → Bool
holds r [] = false
holds r (q ∷ held) = if is_same r q then true else holds r held

-- Each resource is given back once, the last that was taken first, none is left at the end, and
-- requests are served only while the session is mounted and its signal handlers are installed.
abbrev pub is_nested : List Resource → List Event → Bool
is_nested [] [] = true
is_nested (r ∷ held) [] = false
is_nested held (takes r ∷ events) = is_nested (r ∷ held) events
is_nested [] (gives_back r ∷ events) = false
is_nested (q ∷ held) (gives_back r ∷ events) = is_same q r && is_nested held events
is_nested held (loops ∷ events) =
    holds mounted held && (holds handlers held && is_nested held events)
is_nested held (sets_max_threads n ∷ events) = is_nested held events
is_nested held (sets_idle_threads n ∷ events) = is_nested held events
is_nested held (sets_clone_fd b ∷ events) = is_nested held events

abbrev pub serves : List Event → Bool
serves [] = false
serves (loops ∷ events) = true
serves (event ∷ events) = serves events

-- However libfuse and the file system answer, mounting and running a session gives back all that it has
-- taken, the last first, and serves requests only while the session is mounted and the signal
-- handlers are installed. It returns with no error only if requests were served and the loop has
-- ended with 0.
pub mount_and_run-nests :
    (a : Answers) (is_macos : Bool) (mountpoint : Bytes) (options : List MountOption)
    (threading : ThreadingMode)
    → let (r, events) = mount_and_run_with_config a is_macos mountpoint options threading in
      (is_nested [] events ≡ true)
      × (r ≡ returns tt → (serves events ≡ true) × (a.loop_result ≡ pos 0))
unfolding mount_and_run_with_config new_with_config mount then_mount then_run run run_loop
    new_loop_config
mount_and_run-nests a is_macos mountpoint options threading =
    (ground arith, λ e. (ground arith, ground arith))
