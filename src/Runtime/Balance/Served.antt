-- ===== src/Runtime/Balance/Served.antt =====
-- The requests of `Runtime` that work on one node or handle (typed-fuse-core/src/runtime.rs).
use typed_fuse.Base.{ℕ, sym, Bool, Option, subst}
use typed_fuse.Base.Outcome.{Outcome}
use typed_fuse.Base.Order.{nat_key}
use typed_fuse.NodeFs.{NodeFs}
use typed_fuse.Runtime.{State, call}
use typed_fuse.Runtime.Files.{with_file, with_dir}
use typed_fuse.Runtime.Balance.{IsLive, Keeps, Keeps-refl}
use typed_fuse.Runtime.Balance.Kept.{with_file-Keeps}
use typed_fuse.Base.Int.{ℤ}
use typed_fuse.Base.Order.{Bytes}
use typed_fuse.Attr.{SetAttr}
use typed_fuse.NodeFs.{Caller, FileLock}
use typed_fuse.Runtime.Balance.{with_node-Keeps}
use typed_fuse.Runtime.Balance.Kept.{with_dir-Keeps}
use typed_fuse.Runtime.Balance.Newest.{IsAscending, with_optional_file-Keeps}
use typed_fuse.Runtime.Requests

pub data Request : Type 0 where
  statfs : ℕ → Caller → Request
  getattr : ℕ → Option ℕ → Caller → Request
  setattr : ℕ → Option ℕ → SetAttr → Caller → Request
  readlink : ℕ → Caller → Request
  access : ℕ → ℤ → Caller → Request
  setxattr : ℕ → Bytes → Bytes → ℤ → Caller → Request
  getxattr : ℕ → Bytes → ℕ → Caller → Request
  listxattr : ℕ → ℕ → Caller → Request
  removexattr : ℕ → Bytes → Caller → Request
  read : ℕ → ℕ → ℕ → ℕ → Caller → Request
  write : ℕ → ℕ → Bytes → ℕ → Caller → Request
  flush : ℕ → ℕ → Caller → Request
  fsync : ℕ → ℕ → Bool → Caller → Request
  fallocate : ℕ → ℕ → ℤ → ℕ → ℕ → Caller → Request
  lseek : ℕ → ℕ → ℕ → ℤ → Caller → Request
  getlk : ℕ → ℕ → ℕ → FileLock → Caller → Request
  setlk : ℕ → ℕ → ℕ → FileLock → Bool → Caller → Request
  flock : ℕ → ℕ → ℤ → Caller → Request
  fsyncdir : ℕ → ℕ → Bool → Caller → Request

module _ {N H D T : Type 0} (fs : NodeFs N H D T) where
  -- The state that a request leaves, whatever it answers.
  unfoldable pub serve : Request → State N H D T → State N H D T
  unfolding Requests.statfs Requests.getattr Requests.setattr Requests.readlink Requests.access
      Requests.setxattr Requests.getxattr Requests.listxattr Requests.removexattr Requests.read
      Requests.write Requests.flush Requests.fsync Requests.fallocate Requests.lseek Requests.getlk
      Requests.setlk Requests.flock Requests.fsyncdir
  serve (statfs a b) s = (Requests.statfs fs a b s).1
  serve (getattr a b c) s = (Requests.getattr fs a b c s).1
  serve (setattr a b c d) s = (Requests.setattr fs a b c d s).1
  serve (readlink a b) s = (Requests.readlink fs a b s).1
  serve (access a b c) s = (Requests.access fs a b c s).1
  serve (setxattr a b c d e) s = (Requests.setxattr fs a b c d e s).1
  serve (getxattr a b c d) s = (Requests.getxattr fs a b c d s).1
  serve (listxattr a b c) s = (Requests.listxattr fs a b c s).1
  serve (removexattr a b c) s = (Requests.removexattr fs a b c s).1
  serve (read a b c d e) s = (Requests.read fs a b c d e (λ (reply : Outcome Bytes). reply) s).1
  serve (write a b c d e) s = (Requests.write fs a b c d e s).1
  serve (flush a b c) s = (Requests.flush fs a b c s).1
  serve (fsync a b c d) s = (Requests.fsync fs a b c d s).1
  serve (fallocate a b c d e f) s = (Requests.fallocate fs a b c d e f s).1
  serve (lseek a b c d e) s = (Requests.lseek fs a b c d e s).1
  serve (getlk a b c d e) s = (Requests.getlk fs a b c d e s).1
  serve (setlk a b c d e f) s = (Requests.setlk fs a b c d e f s).1
  serve (flock a b c d) s = (Requests.flock fs a b c d s).1
  serve (fsyncdir a b c d) s = (Requests.fsyncdir fs a b c d s).1

  -- Each of the nineteen requests that only use a node or an open handle leaves every slot of the
  -- inode table and every open handle as they were, leases included, whatever the filesystem
  -- does: answer, fail or panic. No slot waits to be dropped when the request begins, and the
  -- open files stand in the order of their numbers.
  pub serve-Keeps :
      (r : Request) (s : State N H D T)
      → IsLive s.table
      → IsAscending 0 s.handles.files
      → Keeps s (serve r s)
  unfolding serve
  serve-Keeps (statfs a b) s live up = Keeps-refl s
  serve-Keeps (getattr a b c) s live up = with_node-Keeps a _ s live λ n u same.
      with_optional_file-Keeps fs a n b (λ h. call (fs.getattr n h c)) u
        (subst (λ t. IsAscending 0 t.files) (sym same) up) λ h v. Keeps-refl v
  serve-Keeps (setattr a b c d) s live up = with_node-Keeps a _ s live λ n u same.
      with_optional_file-Keeps fs a n b (λ h. call (fs.setattr n h c d)) u
        (subst (λ t. IsAscending 0 t.files) (sym same) up) λ h v. Keeps-refl v
  serve-Keeps (readlink a b) s live up =
      with_node-Keeps a (λ n. call (fs.readlink n b)) s live λ n u same. Keeps-refl u
  serve-Keeps (access a b c) s live up =
      with_node-Keeps a (λ n. call (fs.access n b c)) s live λ n u same. Keeps-refl u
  serve-Keeps (setxattr a b c d e) s live up =
      with_node-Keeps a (λ n. call (fs.setxattr n b c d e)) s live λ n u same. Keeps-refl u
  serve-Keeps (getxattr a b c d) s live up =
      with_node-Keeps a (λ n. call (fs.getxattr n b c d)) s live λ n u same. Keeps-refl u
  serve-Keeps (listxattr a b c) s live up =
      with_node-Keeps a (λ n. call (fs.listxattr n b c)) s live λ n u same. Keeps-refl u
  serve-Keeps (removexattr a b c) s live up =
      with_node-Keeps a (λ n. call (fs.removexattr n b c)) s live λ n u same. Keeps-refl u
  serve-Keeps (read a b c d e) s live up =
      with_node-Keeps a (λ n. with_file a b (λ h. call (fs.read n h c d e))) s live
        λ n u same. with_file-Keeps a b (λ h. call (fs.read n h c d e)) u λ h v. Keeps-refl v
  serve-Keeps (write a b c d e) s live up =
      with_node-Keeps a (λ n. with_file a b (λ h. call (fs.write n h c d e))) s live
        λ n u same. with_file-Keeps a b (λ h. call (fs.write n h c d e)) u λ h v. Keeps-refl v
  serve-Keeps (flush a b c) s live up =
      with_node-Keeps a (λ n. with_file a b (λ h. call (fs.flush n h c))) s live
        λ n u same. with_file-Keeps a b (λ h. call (fs.flush n h c)) u λ h v. Keeps-refl v
  serve-Keeps (fsync a b c d) s live up =
      with_node-Keeps a (λ n. with_file a b (λ h. call (fs.fsync n h c d))) s live
        λ n u same. with_file-Keeps a b (λ h. call (fs.fsync n h c d)) u λ h v. Keeps-refl v
  serve-Keeps (fallocate a b c d e f) s live up =
      with_node-Keeps a (λ n. with_file a b (λ h. call (fs.fallocate n h c d e f))) s live
        λ n u same. with_file-Keeps a b (λ h. call (fs.fallocate n h c d e f)) u λ h v. Keeps-refl v
  serve-Keeps (lseek a b c d e) s live up =
      with_node-Keeps a (λ n. with_file a b (λ h. call (fs.lseek n h c d e))) s live
        λ n u same. with_file-Keeps a b (λ h. call (fs.lseek n h c d e)) u λ h v. Keeps-refl v
  serve-Keeps (getlk a b c d e) s live up =
      with_node-Keeps a (λ n. with_file a b (λ h. call (fs.getlk n h c d e))) s live
        λ n u same. with_file-Keeps a b (λ h. call (fs.getlk n h c d e)) u λ h v. Keeps-refl v
  serve-Keeps (setlk a b c d e f) s live up =
      with_node-Keeps a (λ n. with_file a b (λ h. call (fs.setlk n h c d e f))) s live
        λ n u same. with_file-Keeps a b (λ h. call (fs.setlk n h c d e f)) u λ h v. Keeps-refl v
  serve-Keeps (flock a b c d) s live up =
      with_node-Keeps a (λ n. with_file a b (λ h. call (fs.flock n h c d))) s live
        λ n u same. with_file-Keeps a b (λ h. call (fs.flock n h c d)) u λ h v. Keeps-refl v
  serve-Keeps (fsyncdir a b c d) s live up =
      with_node-Keeps a (λ n. with_dir a b (λ h. call (fs.fsyncdir n h c d))) s live
        λ n u same. with_dir-Keeps a b (λ h. call (fs.fsyncdir n h c d)) u λ h v. Keeps-refl v
