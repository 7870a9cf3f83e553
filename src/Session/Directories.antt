-- ===== src/Session/Directories.antt =====
-- typed-fuse/src/session.rs: `readdir_shim` and `readdirplus_shim`.
use typed_fuse.Base.{ℕ, Option, List, [], ◌∷◌, if◌then◌else◌}
use typed_fuse.Base.Int.{ℤ, is_negative}
use typed_fuse.Base.Outcome.{Outcome, ok, err, panic, einval, Exec}
use typed_fuse.NodeFs.{NodeFs, Caller}
use typed_fuse.Runtime.{State}
use typed_fuse.Runtime.Directories.{readdir, readdirplus, forget_all}
use typed_fuse.Session.Raw.{Platform, Timeouts, FileInfo, fi_fh, as_u64}
use typed_fuse.Session.Reply.{Reply, sends_data, sends_error}
use typed_fuse.Session.Dirents.{RawDirentBuf, new_buf, new_plus, add, add_plus}
use typed_fuse.Session.Calls.{Handler, call_fs, answer}

module _ {N H D T X : Type 0} where
  -- A call that is lent a sink, which stands beside the world until it returns.
  abbrev pub lending {ℓ} :
      {A : Type ℓ}
      → X
      → Exec (State N H D (T × X)) A
      → State N H D T
      → (Outcome A × X) × State N H D T
  lending x f s =
      let (r, s') = f (record { table = s.table; handles = s.handles; world = (s.world, x) }) in
      ((r, s'.world.1), record { table = s'.table; handles = s'.handles; world = s'.world.0 })

module _ {N H D T : Type 0} (p : Platform) (fs : NodeFs N H D T) where
  abbrev pub send_dirents :
      (Outcome (Unit {0}) × RawDirentBuf) × State N H D T → List Reply × State N H D T
  send_dirents ((r, b), s) = answer (λ _. sends_data b.buf) (r, s)

  unfoldable pub readdir_shim : ℕ → ℕ → ℤ → Option FileInfo → Caller → Handler N H D T
  unfolding call_fs readdir add
  readdir_shim ino size off fi caller s =
      if is_negative off
      then (sends_error einval ∷ [], s)
      else send_dirents (
          lending (new_buf size) (call_fs (readdir fs ino (fi_fh fi) (as_u64 off) (add p)) caller)
            s)

  -- `if reply_dir_buf(…) != 0 { for id in retained { rt.forget(id.ino(), 1); } }`. A panic in this
  -- loop is not caught, and ends the process.
  unfoldable pub deliver_dirents :
      (Outcome (List ℕ) × (RawDirentBuf × List ℕ)) × State N H D T → List Reply × State N H D T
  unfolding forget_all
  deliver_dirents ((ok retained, (b, accepted)), s) =
      (sends_data b.buf ∷ [], if p.accepts b.buf then s else (forget_all fs retained s).1)
  deliver_dirents ((err e, x), s) = (sends_error e ∷ [], s)
  deliver_dirents ((panic, x), s) = ([], s)

  unfoldable pub readdirplus_shim :
      Timeouts → ℕ → ℕ → ℤ → Option FileInfo → Caller → Handler N H D T
  unfolding call_fs readdirplus add_plus deliver_dirents
  readdirplus_shim t ino size off fi caller s =
      if is_negative off
      then (sends_error einval ∷ [], s)
      else deliver_dirents (
          lending (new_plus size t.ttl, [])
            (call_fs (readdirplus fs ino (fi_fh fi) (as_u64 off) (add_plus p)) caller) s)
