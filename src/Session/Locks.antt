-- ===== src/Session/Locks.antt =====
-- typed-fuse/src/session.rs: `getlk_shim` and `setlk_shim`. A lock that cannot be read is refused
-- before the runtime is called. The structures of libfuse and libc have the same fields, so
-- `lock_from_raw` and `lock_to_raw` are `from_flock` and `to_flock`.
use typed_fuse.Base.{ℕ, Bool, Option, [], ◌∷◌}
use typed_fuse.Base.Outcome.{Outcome, ok, err, panic, and_then}
use typed_fuse.NodeFs.{NodeFs, Caller, FileLock}
use typed_fuse.FileLock.{Flock, from_flock, to_flock}
use typed_fuse.Runtime.Requests.{getlk, setlk}
use typed_fuse.Session.Raw.{Platform, FileInfo, fi_fh, owner_of}
use typed_fuse.Session.Reply.{sends_lock, sends_error}
use typed_fuse.Session.Calls.{Handler, call_fs, answer, reply_ok}

module _ {N H D T : Type 0} where
  -- `match lock_from_raw(raw) { Ok(v) => v, Err(e) => { reply_err(req, e); return; } }`
  abbrev pub with_lock : (FileLock → Handler N H D T) → Outcome FileLock → Handler N H D T
  with_lock f (ok requested) s = f requested s
  with_lock f (err e) s = (sends_error e ∷ [], s)
  with_lock f panic s = ([], s)

module _ {N H D T : Type 0} (p : Platform) (fs : NodeFs N H D T) where
  unfoldable pub getlk_shim : ℕ → Option FileInfo → Flock → Caller → Handler N H D T
  unfolding call_fs getlk from_flock to_flock
  getlk_shim ino fi raw caller =
      with_lock
        (λ requested s.
          let (r, s') = call_fs (getlk fs ino (fi_fh fi) (owner_of fi) requested) caller s in
          answer sends_lock (and_then r (to_flock p.locks), s'))
        (from_flock p.locks raw)

  -- `sleep` is the test `sleep != 0`.
  unfoldable pub setlk_shim : ℕ → Option FileInfo → Flock → Bool → Caller → Handler N H D T
  unfolding call_fs setlk from_flock
  setlk_shim ino fi raw sleep caller =
      with_lock
        (λ requested s.
          answer reply_ok
            (call_fs (setlk fs ino (fi_fh fi) (owner_of fi) requested sleep) caller s))
        (from_flock p.locks raw)
