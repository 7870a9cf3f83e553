-- ===== src/Session/Answers/Listed.antt =====
-- typed-fuse/src/session.rs: the replies of `readdir_shim` and `readdirplus_shim`.
use typed_fuse.Base.{ℕ, refl, Option, List, [], arith, Bool-cases, inl, inr}
use typed_fuse.Base.Int.{ℤ, is_negative}
use typed_fuse.Base.Outcome.{Outcome, ok, err, panic, einval}
use typed_fuse.NodeFs.{NodeFs, Caller}
use typed_fuse.Runtime.{State}
use typed_fuse.Runtime.Directories
use typed_fuse.Session.Raw.{Platform, Timeouts, FileInfo, fi_fh, as_u64}
use typed_fuse.Session.Reply.{sends_error}
use typed_fuse.Session.Dirents.{RawDirentBuf, new_buf, new_plus, add, add_plus}
use typed_fuse.Session.Calls.{call_fs, catch_unwind}
use typed_fuse.Session.Directories.{send_dirents, readdir_shim, deliver_dirents, readdirplus_shim}
use typed_fuse.Session.Answers.Room.{SizesAreTrue, HasRoom, add-HasRoom, add_plus-HasRoom}
use typed_fuse.Session.Answers.Spared.{readdir-Spares, readdirplus-Spares}
use typed_fuse.Session.Answers.Shapes.{buffer, IsAnswered}

module _ {N H D T : Type 0} where
  dirents-IsAnswered :
      (p : Platform) (fs : NodeFs N H D T) (size : ℕ) (r : Outcome (Unit {0})) (b : RawDirentBuf)
      (s : State N H D T)
      → HasRoom size b
      → IsAnswered (buffer size) (send_dirents p fs ((catch_unwind r, b), s)).0
  unfolding catch_unwind
  dirents-IsAnswered p fs size (ok _) b s room = (_, refl, ground (arith, room.1))
  dirents-IsAnswered p fs size (err e) b s room = (_, refl, refl)
  dirents-IsAnswered p fs size panic b s room = (_, refl, refl)

  pub readdir-IsAnswered :
      (p : Platform) (fs : NodeFs N H D T) (ino size : ℕ) (off : ℤ) (fi : Option FileInfo)
      (c : Caller) (s : State N H D T)
      → SizesAreTrue p
      → IsAnswered (buffer size) (readdir_shim p fs ino size off fi c s).0
  unfolding readdir_shim call_fs
  readdir-IsAnswered p fs ino size off fi c s sizes = elim (Bool-cases (is_negative off)) [
    | inl refused ↦ rw refused (sends_error einval, refl, refl)
    | inr asked ↦
        let begun : State N H D (T × RawDirentBuf) = record {
          table = s.table;
          handles = s.handles;
          world = (s.world, new_buf size);
        } in
        let r = Directories.readdir fs ino (fi_fh fi) (as_u64 off) (add p) c begun in
        rw asked (
          dirents-IsAnswered p fs size r.0 r.1.world.1
            (record { table = r.1.table; handles = r.1.handles; world = r.1.world.0 })
            (readdir-Spares (HasRoom size) fs ino (fi_fh fi) (as_u64 off) (add p) c
              (λ name id kind next b h. add-HasRoom p size name id kind next b sizes h) begun
              (refl, omega arith)))
  ]

  delivered-IsAnswered :
      (p : Platform) (fs : NodeFs N H D T) (size : ℕ) (r : Outcome (List ℕ)) (b : RawDirentBuf)
      (ids : List ℕ) (s : State N H D T)
      → HasRoom size b
      → IsAnswered (buffer size) (deliver_dirents p fs ((catch_unwind r, (b, ids)), s)).0
  unfolding catch_unwind deliver_dirents
  delivered-IsAnswered p fs size (ok retained) b ids s room = (_, refl, ground (arith, room.1))
  delivered-IsAnswered p fs size (err e) b ids s room = (_, refl, refl)
  delivered-IsAnswered p fs size panic b ids s room = (_, refl, refl)

  pub readdirplus-IsAnswered :
      (p : Platform) (t : Timeouts) (fs : NodeFs N H D T) (ino size : ℕ) (off : ℤ)
      (fi : Option FileInfo) (c : Caller) (s : State N H D T)
      → SizesAreTrue p
      → IsAnswered (buffer size) (readdirplus_shim p fs t ino size off fi c s).0
  unfolding readdirplus_shim call_fs
  readdirplus-IsAnswered p t fs ino size off fi c s sizes = elim (Bool-cases (is_negative off)) [
    | inl refused ↦ rw refused (sends_error einval, refl, refl)
    | inr asked ↦
        let begun : State N H D (T × (RawDirentBuf × List ℕ)) = record {
          table = s.table;
          handles = s.handles;
          world = (s.world, (new_plus size t.ttl, []));
        } in
        let r = Directories.readdirplus fs ino (fi_fh fi) (as_u64 off) (add_plus p) c begun in
        rw asked (
          delivered-IsAnswered p fs size r.0 r.1.world.1.0 r.1.world.1.1
            (record { table = r.1.table; handles = r.1.handles; world = r.1.world.0 })
            (readdirplus-Spares (HasRoom size) fs ino (fi_fh fi) (as_u64 off) (add_plus p) c
              (λ name e next b h. add_plus-HasRoom p size name e next b sizes h) begun
              (refl, omega arith)))
  ]
