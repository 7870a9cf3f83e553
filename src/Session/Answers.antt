-- ===== src/Session/Answers.antt =====
-- typed-fuse/src/session.rs: what is answered to each request, whatever the filesystem does.
pub mod Room
pub mod Shapes
pub mod Spared
pub mod Sent
pub mod Listed
use typed_fuse.Base.{
  ℕ, zero, suc, ◌+◌, ◌≡◌, ◌≤◌, refl, Bool, true, false, not, ◌&&◌, Option, none, some, List, [],
  ◌∷◌, length, take, min, eqb, leb, ltb, if◌then◌else◌, arith, Bool-cases, inl, inr,
}
use typed_fuse.Base.Int.{ℤ, is_negative}
use typed_fuse.Base.Outcome.{Outcome, ok, err, panic, Errno, eio, enosys, Exec, and_then}
use typed_fuse.Base.Order.{Bytes}
use typed_fuse.NodeFs.{NodeFs, Caller, XattrReply, xattr_size, xattr_data, FileLock}
use typed_fuse.NodeFs.Xattr.{reply_xattr}
use typed_fuse.FileLock.{LockTypes, Flock, from_flock, to_flock}
use typed_fuse.Runtime.{State}
use typed_fuse.Conv.{as_i64}
use typed_fuse.Runtime.Entries.{LookupReply, found, negative}
use typed_fuse.Runtime.Directories
use typed_fuse.Runtime.Requests
use typed_fuse.Runtime.Entries
use typed_fuse.Session.Raw.{
  Platform, Timeouts, FileInfo, fi_fh, fi_fh_opt, fi_flags, setattr_from_raw, owner_of, as_u64,
  statfs_to_raw,
}
use typed_fuse.Session.Reply.{
  Reply, sends_entry, sends_attr, sends_target, sends_open, sends_create, sends_count, sends_statfs,
  sends_lock, sends_offset, sends_size, sends_data, sends_ok, sends_error, sends_none,
}
use typed_fuse.Session.Dirents.{RawDirentBuf, has_nul, new_buf, new_plus, add, add_plus}
use typed_fuse.Session.Calls.{
  Handler, call_fs, catch_unwind, answer, answer_none, reply_ok, reply_entry, reply_attr,
}
use typed_fuse.Session.Names.{
  forget_shim, forget_multi_shim, unlink_shim, rmdir_shim, rename_shim, copy_file_range_shim,
  lookup_shim, mknod_shim, mkdir_shim, symlink_shim, link_shim, create_shim, reply_lookup,
  reply_create,
}
use typed_fuse.Session.Nodes.{
  readlink_shim, statfs_shim, access_shim, setxattr_shim, getxattr_shim, listxattr_shim,
  removexattr_shim, getattr_shim, setattr_shim, reply_target,
}
use typed_fuse.Session.Files.{
  open_shim, read_shim, write_shim, flush_shim, release_shim, fsync_shim, opendir_shim,
  releasedir_shim, fsyncdir_shim, fallocate_shim, lseek_shim, flock_shim, after_read, reply_read,
  reply_open,
}
use typed_fuse.Session.Locks.{getlk_shim, setlk_shim, with_lock}
use typed_fuse.Session.Directories.{
  lending, send_dirents, readdir_shim, deliver_dirents, readdirplus_shim,
}
use typed_fuse.Session.Ops.{
  Request, lookup, forget, forget_multi, getattr, setattr, readlink, mknod, mkdir, unlink, rmdir,
  symlink, rename, link, opens, opendir, read, write, flush, release, releasedir, fsync, fsyncdir,
  readdir, readdirplus, statfs, setxattr, getxattr, listxattr, removexattr, access, create,
  fallocate, copy_file_range, lseek, getlk, setlk, flock, Supports, make_ops, when, run_handler,
  handle,
}
use typed_fuse.Session.Answers.Room.{SizesAreTrue, HasRoom, add-HasRoom, add_plus-HasRoom}
use typed_fuse.Session.Answers.Shapes.{
  Shape, entry, attr, target, opened, created, count, stats, lock, offset, done, nothing, buffer,
  value, shape_of, fits, IsAnswered, IsFallible,
}
use typed_fuse.Session.Answers.Listed.{readdir-IsAnswered, readdirplus-IsAnswered}
use typed_fuse.Session.Answers.Sent.{
  call_fs-IsAnswered, when-IsAnswered, read-IsAnswered, getlk-IsAnswered, setlk-IsAnswered,
  reply_lookup-fits, reply_target-fits, reply_xattr-fits,
}

-- Whatever the filesystem returns or whether it panics, every request is answered by exactly one
-- reply, and that is an error or of the kind that the request asks for, while `forget` is answered
-- by the reply that only releases the request. A buffer is no longer than was asked for, and a
-- value's size is sent exactly to a probe with size 0. libfuse writes directory entries in the
-- sizes it reports.
pub handle-IsAnswered :
    {N H D T : Type 0} (p : Platform) (t : Timeouts) (fs : NodeFs N H D T) (o : Supports)
    (request : Request) (c : Caller) (s : State N H D T)
    → SizesAreTrue p
    → IsAnswered (shape_of request) (handle p t fs o request c s).0
unfolding handle make_ops forget_shim forget_multi_shim unlink_shim rmdir_shim rename_shim
    copy_file_range_shim lookup_shim mknod_shim mkdir_shim symlink_shim link_shim create_shim
    readlink_shim statfs_shim access_shim setxattr_shim getxattr_shim listxattr_shim
    removexattr_shim getattr_shim setattr_shim open_shim write_shim flush_shim release_shim
    fsync_shim opendir_shim releasedir_shim fsyncdir_shim fallocate_shim lseek_shim flock_shim
    reply_entry reply_attr reply_open reply_create
handle-IsAnswered p t fs o (lookup parent name) c s sizes =
    call_fs-IsAnswered entry (reply_lookup p t) (Entries.lookup fs parent name) c s (λ e. refl)
      (reply_lookup-fits p t)
handle-IsAnswered p t fs o (getattr ino fi) c s sizes =
    call_fs-IsAnswered attr (reply_attr p t ino) (Requests.getattr fs ino (fi_fh_opt fi)) c s
      (λ e. refl) (λ a. refl)
handle-IsAnswered p t fs o (setattr ino a to_set fi) c s sizes =
    call_fs-IsAnswered attr (reply_attr p t ino)
      (Requests.setattr fs ino (fi_fh_opt fi) (setattr_from_raw p.set_bits a to_set)) c s
      (λ e. refl) (λ a. refl)
handle-IsAnswered p t fs o (readlink ino) c s sizes =
    call_fs-IsAnswered target reply_target (Requests.readlink fs ino) c s (λ e. refl)
      reply_target-fits
handle-IsAnswered p t fs o (mknod parent name mode rdev) c s sizes =
    call_fs-IsAnswered entry (reply_entry p t)
      (λ c. Entries.mknod fs parent name mode rdev c.umask c) c s (λ e. refl) (λ a. refl)
handle-IsAnswered p t fs o (mkdir parent name mode) c s sizes =
    call_fs-IsAnswered entry (reply_entry p t) (λ c. Entries.mkdir fs parent name mode c.umask c) c
      s (λ e. refl) (λ a. refl)
handle-IsAnswered p t fs o (unlink parent name) c s sizes =
    call_fs-IsAnswered done reply_ok (Entries.unlink fs parent name) c s (λ e. refl) (λ a. refl)
handle-IsAnswered p t fs o (rmdir parent name) c s sizes =
    call_fs-IsAnswered done reply_ok (Entries.rmdir fs parent name) c s (λ e. refl) (λ a. refl)
handle-IsAnswered p t fs o (symlink link_target parent name) c s sizes =
    call_fs-IsAnswered entry (reply_entry p t) (Entries.symlink fs parent name link_target) c s
      (λ e. refl) (λ a. refl)
handle-IsAnswered p t fs o (rename parent name newparent newname flags) c s sizes =
    call_fs-IsAnswered done reply_ok (Entries.rename fs parent name newparent newname flags) c s
      (λ e. refl) (λ a. refl)
handle-IsAnswered p t fs o (link ino newparent newname) c s sizes =
    call_fs-IsAnswered entry (reply_entry p t) (Entries.link fs ino newparent newname) c s
      (λ e. refl) (λ a. refl)
handle-IsAnswered p t fs o (opens ino fi) c s sizes =
    call_fs-IsAnswered opened (reply_open fi) (Entries.open_file fs ino (fi_flags fi)) c s
      (λ e. refl) (λ a. refl)
handle-IsAnswered p t fs o (opendir ino fi) c s sizes =
    call_fs-IsAnswered opened (reply_open fi) (Entries.opendir fs ino (fi_flags fi)) c s (λ e. refl)
      (λ a. refl)
handle-IsAnswered p t fs o (write ino bytes off fi) c s sizes =
    call_fs-IsAnswered count sends_count (Requests.write fs ino (fi_fh fi) bytes (as_u64 off)) c s
      (λ e. refl) (λ a. refl)
handle-IsAnswered p t fs o (flush ino fi) c s sizes =
    call_fs-IsAnswered done reply_ok (Requests.flush fs ino (fi_fh fi)) c s (λ e. refl) (λ a. refl)
handle-IsAnswered p t fs o (release ino fi) c s sizes =
    call_fs-IsAnswered done reply_ok (Entries.release fs ino (fi_fh fi)) c s (λ e. refl) (λ a. refl)
handle-IsAnswered p t fs o (releasedir ino fi) c s sizes =
    call_fs-IsAnswered done reply_ok (Entries.releasedir fs ino (fi_fh fi)) c s (λ e. refl)
      (λ a. refl)
handle-IsAnswered p t fs o (fsync ino datasync fi) c s sizes =
    call_fs-IsAnswered done reply_ok (Requests.fsync fs ino (fi_fh fi) datasync) c s (λ e. refl)
      (λ a. refl)
handle-IsAnswered p t fs o (fsyncdir ino datasync fi) c s sizes =
    call_fs-IsAnswered done reply_ok (Requests.fsyncdir fs ino (fi_fh fi) datasync) c s (λ e. refl)
      (λ a. refl)
handle-IsAnswered p t fs o (statfs ino) c s sizes =
    call_fs-IsAnswered stats (λ x. sends_statfs (statfs_to_raw x)) (Requests.statfs fs ino) c s
      (λ e. refl) (λ a. refl)
handle-IsAnswered p t fs o (setxattr ino name v flags) c s sizes =
    call_fs-IsAnswered done reply_ok (Requests.setxattr fs ino name v flags) c s (λ e. refl)
      (λ a. refl)
handle-IsAnswered p t fs o (getxattr ino name size) c s sizes =
    call_fs-IsAnswered (value size) (λ r. reply_xattr r size) (Requests.getxattr fs ino name size) c
      s (λ e. refl) (λ r. reply_xattr-fits r size)
handle-IsAnswered p t fs o (listxattr ino size) c s sizes =
    call_fs-IsAnswered (value size) (λ r. reply_xattr r size) (Requests.listxattr fs ino size) c s
      (λ e. refl) (λ r. reply_xattr-fits r size)
handle-IsAnswered p t fs o (removexattr ino name) c s sizes =
    call_fs-IsAnswered done reply_ok (Requests.removexattr fs ino name) c s (λ e. refl) (λ a. refl)
handle-IsAnswered p t fs o (access ino mask) c s sizes =
    call_fs-IsAnswered done reply_ok (Requests.access fs ino mask) c s (λ e. refl) (λ a. refl)
handle-IsAnswered p t fs o (create parent name mode fi) c s sizes =
    call_fs-IsAnswered created (reply_create p t fi)
      (λ c. Entries.create fs parent name mode c.umask (fi_flags fi) c) c s (λ e. refl) (λ a. refl)
handle-IsAnswered p t fs o (fallocate ino mode off extent fi) c s sizes =
    call_fs-IsAnswered done reply_ok
      (Requests.fallocate fs ino (fi_fh fi) mode (as_u64 off) (as_u64 extent)) c s (λ e. refl)
      (λ a. refl)
handle-IsAnswered p t fs o (copy_file_range ino_in off_in ino_out off_out len flags) c s sizes =
    call_fs-IsAnswered count sends_count
      (Entries.copy_file_range fs ino_in (as_u64 off_in) ino_out (as_u64 off_out) len flags) c s
      (λ e. refl) (λ a. refl)
handle-IsAnswered p t fs o (lseek ino off whence fi) c s sizes =
    call_fs-IsAnswered offset (λ n. sends_offset (as_i64 n))
      (Requests.lseek fs ino (fi_fh fi) (as_u64 off) whence) c s (λ e. refl) (λ a. refl)
handle-IsAnswered p t fs o (forget ino n) c s sizes = (sends_none, refl, refl)
handle-IsAnswered p t fs o (forget_multi entries) c s sizes = (sends_none, refl, refl)
handle-IsAnswered p t fs o (read ino size off fi) c s sizes = read-IsAnswered fs ino size off fi c s
handle-IsAnswered p t fs o (readdir ino size off fi) c s sizes =
    readdir-IsAnswered p fs ino size off fi c s sizes
handle-IsAnswered p t fs o (readdirplus ino size off fi) c s sizes =
    when-IsAnswered (buffer size) p t fs o.with_readdirplus
      (readdirplus_shim p fs t ino size off fi c) s (λ e. refl)
      (readdirplus-IsAnswered p t fs ino size off fi c s sizes)
handle-IsAnswered p t fs o (getlk ino fi raw) c s sizes =
    when-IsAnswered lock p t fs o.with_posix_locks (getlk_shim p fs ino fi raw c) s (λ e. refl)
      (getlk-IsAnswered p fs ino fi raw c s)
handle-IsAnswered p t fs o (setlk ino fi raw sleep) c s sizes =
    when-IsAnswered done p t fs o.with_posix_locks (setlk_shim p fs ino fi raw sleep c) s
      (λ e. refl) (setlk-IsAnswered p fs ino fi raw sleep c s)
handle-IsAnswered p t fs o (flock ino fi operation) c s sizes =
    when-IsAnswered done p t fs o.with_flock (flock_shim fs ino fi operation c) s (λ e. refl)
      (call_fs-IsAnswered done reply_ok (Requests.flock fs ino (fi_fh fi) operation) c s (λ e. refl)
        (λ a. refl))
