-- ===== src/PathFilesystem.antt =====
-- typed-fuse-core/src/path_fs.rs: the interface `PathFilesystem` that a path-based filesystem
-- implements, and the methods that it provides. `S` is the filesystem's node state, `H` and `D` are
-- its file and directory handles, and `T` is the world that its methods act on through `&self`. A
-- path is its components from the root; it is absent after the last known name of a node has been
-- removed.
use typed_fuse.Base.{ℕ, Bool, Option, List}
use typed_fuse.Base.Int.{ℤ}
use typed_fuse.Base.Outcome.{Exec, pure, fail, enosys}
use typed_fuse.Base.Order.{Bytes}
use typed_fuse.Attr.{NodeAttr, SetAttr, StatFs}
use typed_fuse.NodeFs.{Caller, Opened, XattrReply, FileLock}
use typed_fuse.Listing.{DirBuffer}
use typed_fuse.Listing.Replay.{PathEntry}

pub record PathNodeRef (S : Type 0) : Type 0 where
  pub path : Option (List Bytes)
  pub state : S

pub record PathFilesystem (S H D T : Type 0) : Type 0 where
  pub forget : PathNodeRef S → Exec T (Unit {0})
  pub lookup : PathNodeRef S → Bytes → Caller → Exec T (Option (PathEntry S))
  pub getattr : PathNodeRef S → Option H → Caller → Exec T NodeAttr
  pub setattr : PathNodeRef S → Option H → SetAttr → Caller → Exec T NodeAttr
  pub readlink : PathNodeRef S → Caller → Exec T Bytes
  pub mknod : PathNodeRef S → Bytes → ℕ → ℕ → ℕ → Caller → Exec T (PathEntry S)
  pub mkdir : PathNodeRef S → Bytes → ℕ → ℕ → Caller → Exec T (PathEntry S)
  pub symlink : PathNodeRef S → Bytes → Bytes → Caller → Exec T (PathEntry S)
  pub unlink : PathNodeRef S → Bytes → Caller → Exec T (Unit {0})
  pub rmdir : PathNodeRef S → Bytes → Caller → Exec T (Unit {0})
  pub rename : PathNodeRef S → Bytes → PathNodeRef S → Bytes → Caller → Exec T (Unit {0})
  pub link : PathNodeRef S → PathNodeRef S → Bytes → Caller → Exec T NodeAttr
  pub open_file : PathNodeRef S → ℤ → Caller → Exec T (Opened H)
  pub read : PathNodeRef S → H → ℕ → ℕ → Caller → Exec T Bytes
  pub write : PathNodeRef S → H → Bytes → ℕ → Caller → Exec T ℕ
  pub flush : PathNodeRef S → H → Caller → Exec T (Unit {0})
  pub release : PathNodeRef S → H → Caller → Exec T (Unit {0})
  pub fsync : PathNodeRef S → H → Bool → Caller → Exec T (Unit {0})
  pub opendir : PathNodeRef S → ℤ → Caller → Exec T (Opened D)
  pub list_dir : PathNodeRef S → D → Caller → Exec T (DirBuffer S)
  pub releasedir : PathNodeRef S → D → Caller → Exec T (Unit {0})
  pub fsyncdir : PathNodeRef S → D → Bool → Caller → Exec T (Unit {0})
  pub statfs : List Bytes → Caller → Exec T StatFs
  pub setxattr : PathNodeRef S → Bytes → Bytes → ℤ → Caller → Exec T (Unit {0})
  pub getxattr : PathNodeRef S → Bytes → ℕ → Caller → Exec T XattrReply
  pub listxattr : PathNodeRef S → ℕ → Caller → Exec T XattrReply
  pub removexattr : PathNodeRef S → Bytes → Caller → Exec T (Unit {0})
  pub access : PathNodeRef S → ℤ → Caller → Exec T (Unit {0})
  pub create : PathNodeRef S → Bytes → ℕ → ℕ → ℤ → Caller → Exec T (PathEntry S × Opened H)
  pub fallocate : PathNodeRef S → H → ℤ → ℕ → ℕ → Caller → Exec T (Unit {0})
  pub lseek : PathNodeRef S → H → ℕ → ℤ → Caller → Exec T ℕ
  pub getlk : PathNodeRef S → H → ℕ → FileLock → Caller → Exec T FileLock
  pub setlk : PathNodeRef S → H → ℕ → FileLock → Bool → Caller → Exec T (Unit {0})
  pub flock : PathNodeRef S → H → ℤ → Caller → Exec T (Unit {0})

-- A filesystem that implements nothing but the method that has no default.
abbrev pub provided :
    {S H D T : Type 0}
    → (PathNodeRef S → Option H → Caller → Exec T NodeAttr)
    → PathFilesystem S H D T
provided getattr = record {
  forget = λ _. pure tt;
  lookup = λ _ _ _. fail enosys;
  getattr = getattr;
  setattr = λ _ _ _ _. fail enosys;
  readlink = λ _ _. fail enosys;
  mknod = λ _ _ _ _ _ _. fail enosys;
  mkdir = λ _ _ _ _ _. fail enosys;
  symlink = λ _ _ _ _. fail enosys;
  unlink = λ _ _ _. fail enosys;
  rmdir = λ _ _ _. fail enosys;
  rename = λ _ _ _ _ _. fail enosys;
  link = λ _ _ _ _. fail enosys;
  open_file = λ _ _ _. fail enosys;
  read = λ _ _ _ _ _. fail enosys;
  write = λ _ _ _ _ _. fail enosys;
  flush = λ _ _ _. pure tt;
  release = λ _ _ _. pure tt;
  fsync = λ _ _ _ _. pure tt;
  opendir = λ _ _ _. fail enosys;
  list_dir = λ _ _ _. fail enosys;
  releasedir = λ _ _ _. pure tt;
  fsyncdir = λ _ _ _ _. pure tt;
  statfs = λ _ _. pure (record {
    blocks = 0;
    bfree = 0;
    bavail = 0;
    files = 0;
    ffree = 0;
    bsize = 512;
    namelen = 255;
    frsize = 0;
  });
  setxattr = λ _ _ _ _ _. fail enosys;
  getxattr = λ _ _ _ _. fail enosys;
  listxattr = λ _ _ _. fail enosys;
  removexattr = λ _ _ _. fail enosys;
  access = λ _ _ _. pure tt;
  create = λ _ _ _ _ _ _. fail enosys;
  fallocate = λ _ _ _ _ _ _. fail enosys;
  lseek = λ _ _ _ _ _. fail enosys;
  getlk = λ _ _ _ _ _. fail enosys;
  setlk = λ _ _ _ _ _ _. fail enosys;
  flock = λ _ _ _ _. fail enosys;
}
