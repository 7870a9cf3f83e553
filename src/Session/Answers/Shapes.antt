-- ===== src/Session/Answers/Shapes.antt =====
-- typed-fuse/src/session.rs: which replies fit which request.
use typed_fuse.Base.{ℕ, ◌≡◌, Bool, true, false, not, ◌&&◌, List, [], ◌∷◌, length, eqb, leb}
use typed_fuse.Base.Outcome.{Errno}
use typed_fuse.Session.Reply.{
  Reply, sends_entry, sends_attr, sends_target, sends_open, sends_create, sends_count, sends_statfs,
  sends_lock, sends_offset, sends_size, sends_data, sends_ok, sends_error, sends_none,
}
use typed_fuse.Session.Dirents.{has_nul}
use typed_fuse.Session.Ops.{
  Request, lookup, forget, forget_multi, getattr, setattr, readlink, mknod, mkdir, unlink, rmdir,
  symlink, rename, link, opens, opendir, read, write, flush, release, releasedir, fsync, fsyncdir,
  readdir, readdirplus, statfs, setxattr, getxattr, listxattr, removexattr, access, create,
  fallocate, copy_file_range, lseek, getlk, setlk, flock,
}

-- What the kernel's protocol has as the answer to a request that succeeds. `buffer` and `value` have
-- the size that was asked for.
pub data Shape : Type 0 where
  entry attr target opened created count stats lock offset done nothing : Shape
  buffer value : ℕ → Shape

abbrev pub shape_of : Request → Shape
shape_of (lookup parent name) = entry
shape_of (forget ino n) = nothing
shape_of (forget_multi entries) = nothing
shape_of (getattr ino fi) = attr
shape_of (setattr ino a to_set fi) = attr
shape_of (readlink ino) = target
shape_of (mknod parent name mode rdev) = entry
shape_of (mkdir parent name mode) = entry
shape_of (unlink parent name) = done
shape_of (rmdir parent name) = done
shape_of (symlink t parent name) = entry
shape_of (rename parent name newparent newname flags) = done
shape_of (link ino newparent newname) = entry
shape_of (opens ino fi) = opened
shape_of (opendir ino fi) = opened
shape_of (read ino size off fi) = buffer size
shape_of (write ino bytes off fi) = count
shape_of (flush ino fi) = done
shape_of (release ino fi) = done
shape_of (releasedir ino fi) = done
shape_of (fsync ino datasync fi) = done
shape_of (fsyncdir ino datasync fi) = done
shape_of (readdir ino size off fi) = buffer size
shape_of (readdirplus ino size off fi) = buffer size
shape_of (statfs ino) = stats
shape_of (setxattr ino name v flags) = done
shape_of (getxattr ino name size) = value size
shape_of (listxattr ino size) = value size
shape_of (removexattr ino name) = done
shape_of (access ino mask) = done
shape_of (create parent name mode fi) = created
shape_of (fallocate ino mode o extent fi) = done
shape_of (copy_file_range ino_in off_in ino_out off_out len flags) = count
shape_of (lseek ino off whence fi) = offset
shape_of (getlk ino fi raw) = lock
shape_of (setlk ino fi raw sleep) = done
shape_of (flock ino fi operation) = done

-- Whether a reply is one of these, or an error.
abbrev pub fits : Shape → Reply → Bool
fits nothing sends_none = true
fits nothing reply = false
fits shape (sends_error e) = true
fits entry (sends_entry e) = true
fits attr (sends_attr st ttl) = true
fits target (sends_target t) = not (has_nul t)
fits opened (sends_open fi) = true
fits created (sends_create e fi) = true
fits count (sends_count n) = true
fits stats (sends_statfs s) = true
fits lock (sends_lock l) = true
fits offset (sends_offset n) = true
fits done sends_ok = true
fits (buffer size) (sends_data bytes) = leb (length bytes) size
fits (value size) (sends_size n) = eqb size 0
fits (value size) (sends_data bytes) = not (eqb size 0) && leb (length bytes) size
fits shape reply = false

-- One reply is sent, and it fits.
abbrev pub IsAnswered : Shape → List Reply → Type 0
IsAnswered shape replies = (reply : Reply) × (replies ≡ reply ∷ []) × (fits shape reply ≡ true)

abbrev pub IsFallible : Shape → Type 0
IsFallible shape = (e : Errno) → fits shape (sends_error e) ≡ true
