-- ===== src/Runtime/Requests.antt =====
-- typed-fuse-core/src/runtime.rs: the requests of `Runtime` on one node, with or without an open file.
use typed_fuse.Base.{ℕ, Bool, Option}
use typed_fuse.Base.Int.{ℤ}
use typed_fuse.Base.Outcome.{Outcome, ok, err, panic, Exec}
use typed_fuse.Base.Order.{nat_key, Bytes}
use typed_fuse.Attr.{NodeAttr, SetAttr, StatFs}
use typed_fuse.NodeFs.{NodeFs, Caller, XattrReply, FileLock}
use typed_fuse.Runtime.{State, call, with_node}
use typed_fuse.Runtime.Files.{with_file, with_dir, with_optional_file}

module _ {N H D T : Type 0} (fs : NodeFs N H D T) where
  unfoldable pub statfs : ℕ → Caller → Exec (State N H D T) StatFs
  statfs _ caller = call (fs.statfs caller)

  unfoldable pub getattr : ℕ → Option ℕ → Caller → Exec (State N H D T) NodeAttr
  unfolding with_node with_optional_file
  getattr ino fh caller =
      with_node ino λ n. with_optional_file fs ino n fh λ h. call (fs.getattr n h caller)

  unfoldable pub setattr : ℕ → Option ℕ → SetAttr → Caller → Exec (State N H D T) NodeAttr
  unfolding with_node with_optional_file
  setattr ino fh set caller =
      with_node ino λ n. with_optional_file fs ino n fh λ h. call (fs.setattr n h set caller)

  unfoldable pub readlink : ℕ → Caller → Exec (State N H D T) Bytes
  unfolding with_node
  readlink ino caller = with_node ino λ n. call (fs.readlink n caller)

  unfoldable pub access : ℕ → ℤ → Caller → Exec (State N H D T) (Unit {0})
  unfolding with_node
  access ino mask caller = with_node ino λ n. call (fs.access n mask caller)

  unfoldable pub setxattr : ℕ → Bytes → Bytes → ℤ → Caller → Exec (State N H D T) (Unit {0})
  unfolding with_node
  setxattr ino name value flags caller =
      with_node ino λ n. call (fs.setxattr n name value flags caller)

  unfoldable pub getxattr : ℕ → Bytes → ℕ → Caller → Exec (State N H D T) XattrReply
  unfolding with_node
  getxattr ino name size caller = with_node ino λ n. call (fs.getxattr n name size caller)

  unfoldable pub listxattr : ℕ → ℕ → Caller → Exec (State N H D T) XattrReply
  unfolding with_node
  listxattr ino size caller = with_node ino λ n. call (fs.listxattr n size caller)

  unfoldable pub removexattr : ℕ → Bytes → Caller → Exec (State N H D T) (Unit {0})
  unfolding with_node
  removexattr ino name caller = with_node ino λ n. call (fs.removexattr n name caller)

  -- `reply` is given the result only, so it does not see that the leases are dropped.
  unfoldable pub read {ℓ} :
      {R : Type ℓ} → ℕ → ℕ → ℕ → ℕ → Caller → (Outcome Bytes → R) → Exec (State N H D T) R
  unfolding with_node with_file
  read ino fh offset size caller reply s =
      let (r, s') =
        with_node ino (λ n. with_file ino fh λ h. call (fs.read n h offset size caller)) s in
      (elim r [ ok bytes ↦ ok (reply (ok bytes)) | err e ↦ ok (reply (err e)) | panic ↦ panic ], s')

  unfoldable pub write : ℕ → ℕ → Bytes → ℕ → Caller → Exec (State N H D T) ℕ
  unfolding with_node with_file
  write ino fh bytes offset caller =
      with_node ino λ n. with_file ino fh λ h. call (fs.write n h bytes offset caller)

  unfoldable pub flush : ℕ → ℕ → Caller → Exec (State N H D T) (Unit {0})
  unfolding with_node with_file
  flush ino fh caller = with_node ino λ n. with_file ino fh λ h. call (fs.flush n h caller)

  unfoldable pub fsync : ℕ → ℕ → Bool → Caller → Exec (State N H D T) (Unit {0})
  unfolding with_node with_file
  fsync ino fh datasync caller =
      with_node ino λ n. with_file ino fh λ h. call (fs.fsync n h datasync caller)

  unfoldable pub fallocate : ℕ → ℕ → ℤ → ℕ → ℕ → Caller → Exec (State N H D T) (Unit {0})
  unfolding with_node with_file
  fallocate ino fh mode offset length caller =
      with_node ino λ n. with_file ino fh λ h. call (fs.fallocate n h mode offset length caller)

  unfoldable pub lseek : ℕ → ℕ → ℕ → ℤ → Caller → Exec (State N H D T) ℕ
  unfolding with_node with_file
  lseek ino fh offset whence caller =
      with_node ino λ n. with_file ino fh λ h. call (fs.lseek n h offset whence caller)

  unfoldable pub getlk : ℕ → ℕ → ℕ → FileLock → Caller → Exec (State N H D T) FileLock
  unfolding with_node with_file
  getlk ino fh owner requested caller =
      with_node ino λ n. with_file ino fh λ h. call (fs.getlk n h owner requested caller)

  unfoldable pub setlk : ℕ → ℕ → ℕ → FileLock → Bool → Caller → Exec (State N H D T) (Unit {0})
  unfolding with_node with_file
  setlk ino fh owner lock sleep caller =
      with_node ino λ n. with_file ino fh λ h. call (fs.setlk n h owner lock sleep caller)

  unfoldable pub flock : ℕ → ℕ → ℤ → Caller → Exec (State N H D T) (Unit {0})
  unfolding with_node with_file
  flock ino fh operation caller =
      with_node ino λ n. with_file ino fh λ h. call (fs.flock n h operation caller)

  unfoldable pub fsyncdir : ℕ → ℕ → Bool → Caller → Exec (State N H D T) (Unit {0})
  unfolding with_node with_dir
  fsyncdir ino fh datasync caller =
      with_node ino λ n. with_dir ino fh λ h. call (fs.fsyncdir n h datasync caller)
