-- ===== src/Session/Ops.antt =====
-- typed-fuse/src/session.rs: `make_ops`, the table of the handlers. A request that the table has no
-- handler for is answered ENOSYS by libfuse. `init` and `destroy` are no requests.
use typed_fuse.Base.{ℕ, Bool, Option, none, some, List, [], ◌∷◌, if◌then◌else◌}
use typed_fuse.Base.Int.{ℤ}
use typed_fuse.Base.Outcome.{enosys}
use typed_fuse.Base.Order.{Bytes}
use typed_fuse.NodeFs.{NodeFs, Caller}
use typed_fuse.Conv.{Stat}
use typed_fuse.FileLock.{Flock}
use typed_fuse.Session.Raw.{Platform, Timeouts, FileInfo}
use typed_fuse.Session.Reply.{sends_error}
use typed_fuse.Session.Calls.{Handler}
use typed_fuse.Session.Names.{
  forget_shim, forget_multi_shim, unlink_shim, rmdir_shim, rename_shim, copy_file_range_shim,
  lookup_shim, mknod_shim, mkdir_shim, symlink_shim, link_shim, create_shim,
}
use typed_fuse.Session.Nodes.{
  readlink_shim, statfs_shim, access_shim, setxattr_shim, getxattr_shim, listxattr_shim,
  removexattr_shim, getattr_shim, setattr_shim,
}
use typed_fuse.Session.Files.{
  open_shim, read_shim, write_shim, flush_shim, release_shim, fsync_shim, opendir_shim,
  releasedir_shim, fsyncdir_shim, fallocate_shim, lseek_shim, flock_shim,
}
use typed_fuse.Session.Locks.{getlk_shim, setlk_shim}
use typed_fuse.Session.Directories.{readdir_shim, readdirplus_shim}

-- The arguments of the callbacks of `fuse_lowlevel_ops`, without the request.
pub data Request : Type 0 where
  lookup : ℕ → Bytes → Request
  forget : ℕ → ℕ → Request
  forget_multi : List (ℕ × ℕ) → Request
  getattr : ℕ → Option FileInfo → Request
  setattr : ℕ → Option Stat → ℕ → Option FileInfo → Request
  readlink : ℕ → Request
  mknod : ℕ → Bytes → ℕ → ℕ → Request
  mkdir : ℕ → Bytes → ℕ → Request
  unlink rmdir : ℕ → Bytes → Request
  symlink : Bytes → ℕ → Bytes → Request
  rename : ℕ → Bytes → ℕ → Bytes → ℕ → Request
  link : ℕ → ℕ → Bytes → Request
  opens opendir : ℕ → Option FileInfo → Request
  read : ℕ → ℕ → ℤ → Option FileInfo → Request
  write : ℕ → Bytes → ℤ → Option FileInfo → Request
  flush release releasedir : ℕ → Option FileInfo → Request
  fsync fsyncdir : ℕ → Bool → Option FileInfo → Request
  readdir readdirplus : ℕ → ℕ → ℤ → Option FileInfo → Request
  statfs : ℕ → Request
  setxattr : ℕ → Bytes → Bytes → ℤ → Request
  getxattr : ℕ → Bytes → ℕ → Request
  listxattr : ℕ → ℕ → Request
  removexattr : ℕ → Bytes → Request
  access : ℕ → ℤ → Request
  create : ℕ → Bytes → ℕ → Option FileInfo → Request
  fallocate : ℕ → ℤ → ℤ → ℤ → Option FileInfo → Request
  copy_file_range : ℕ → ℤ → ℕ → ℤ → ℕ → ℤ → Request
  lseek : ℕ → ℤ → ℤ → Option FileInfo → Request
  getlk : ℕ → Option FileInfo → Flock → Request
  setlk : ℕ → Option FileInfo → Flock → Bool → Request
  flock : ℕ → Option FileInfo → ℤ → Request

-- `NodeFs::SUPPORTS_READDIRPLUS`, `SUPPORTS_POSIX_LOCKS` and `SUPPORTS_FLOCK`.
pub record Supports : Type 0 where
  pub with_readdirplus : Bool
  pub with_posix_locks : Bool
  pub with_flock : Bool

module _ {N H D T : Type 0} (p : Platform) (t : Timeouts) (fs : NodeFs N H D T) where
  abbrev pub when : Bool → Handler N H D T → Option (Handler N H D T)
  when supported handler = if supported then some handler else none

  unfoldable pub make_ops : Supports → Request → Caller → Option (Handler N H D T)
  unfolding forget_shim forget_multi_shim unlink_shim rmdir_shim rename_shim copy_file_range_shim
      lookup_shim mknod_shim mkdir_shim symlink_shim link_shim create_shim readlink_shim statfs_shim
      access_shim setxattr_shim getxattr_shim listxattr_shim removexattr_shim getattr_shim
      setattr_shim open_shim read_shim write_shim flush_shim release_shim fsync_shim opendir_shim
      releasedir_shim fsyncdir_shim fallocate_shim lseek_shim flock_shim getlk_shim setlk_shim
      readdir_shim readdirplus_shim
  make_ops o (lookup parent name) c = some (lookup_shim p t fs parent name c)
  make_ops o (forget ino n) c = some (forget_shim fs ino n)
  make_ops o (forget_multi entries) c = some (forget_multi_shim fs entries)
  make_ops o (getattr ino fi) c = some (getattr_shim p t fs ino fi c)
  make_ops o (setattr ino attr to_set fi) c = some (setattr_shim p t fs ino attr to_set fi c)
  make_ops o (readlink ino) c = some (readlink_shim fs ino c)
  make_ops o (mknod parent name mode rdev) c = some (mknod_shim p t fs parent name mode rdev c)
  make_ops o (mkdir parent name mode) c = some (mkdir_shim p t fs parent name mode c)
  make_ops o (unlink parent name) c = some (unlink_shim fs parent name c)
  make_ops o (rmdir parent name) c = some (rmdir_shim fs parent name c)
  make_ops o (symlink target parent name) c = some (symlink_shim p t fs target parent name c)
  make_ops o (rename parent name newparent newname flags) c =
      some (rename_shim fs parent name newparent newname flags c)
  make_ops o (link ino newparent newname) c = some (link_shim p t fs ino newparent newname c)
  make_ops o (opens ino fi) c = some (open_shim fs ino fi c)
  make_ops o (read ino size off fi) c = some (read_shim fs ino size off fi c)
  make_ops o (write ino bytes off fi) c = some (write_shim fs ino bytes off fi c)
  make_ops o (flush ino fi) c = some (flush_shim fs ino fi c)
  make_ops o (release ino fi) c = some (release_shim fs ino fi c)
  make_ops o (fsync ino datasync fi) c = some (fsync_shim fs ino datasync fi c)
  make_ops o (opendir ino fi) c = some (opendir_shim fs ino fi c)
  make_ops o (readdir ino size off fi) c = some (readdir_shim p fs ino size off fi c)
  make_ops o (releasedir ino fi) c = some (releasedir_shim fs ino fi c)
  make_ops o (fsyncdir ino datasync fi) c = some (fsyncdir_shim fs ino datasync fi c)
  make_ops o (statfs ino) c = some (statfs_shim fs ino c)
  make_ops o (setxattr ino name value flags) c = some (setxattr_shim fs ino name value flags c)
  make_ops o (getxattr ino name size) c = some (getxattr_shim fs ino name size c)
  make_ops o (listxattr ino size) c = some (listxattr_shim fs ino size c)
  make_ops o (removexattr ino name) c = some (removexattr_shim fs ino name c)
  make_ops o (access ino mask) c = some (access_shim fs ino mask c)
  make_ops o (create parent name mode fi) c = some (create_shim p t fs parent name mode fi c)
  make_ops o (fallocate ino mode offset extent fi) c =
      some (fallocate_shim fs ino mode offset extent fi c)
  make_ops o (readdirplus ino size off fi) c =
      when o.with_readdirplus (readdirplus_shim p fs t ino size off fi c)
  make_ops o (copy_file_range ino_in off_in ino_out off_out len flags) c =
      some (copy_file_range_shim fs ino_in off_in ino_out off_out len flags c)
  make_ops o (lseek ino off whence fi) c = some (lseek_shim fs ino off whence fi c)
  make_ops o (getlk ino fi raw) c = when o.with_posix_locks (getlk_shim p fs ino fi raw c)
  make_ops o (setlk ino fi raw sleep) c =
      when o.with_posix_locks (setlk_shim p fs ino fi raw sleep c)
  make_ops o (flock ino fi operation) c = when o.with_flock (flock_shim fs ino fi operation c)

  -- What libfuse does with the entry of the table.
  abbrev pub run_handler : Option (Handler N H D T) → Handler N H D T
  run_handler none s = (sends_error enosys ∷ [], s)
  run_handler (some handler) s = handler s

  unfoldable pub handle : Supports → Request → Caller → Handler N H D T
  unfolding make_ops
  handle o request caller = run_handler (make_ops o request caller)
