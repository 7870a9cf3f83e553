-- ===== src/NodeFs.antt =====
-- typed-fuse-core/src/node_fs.rs: the values that a filesystem exchanges with the runtime, and the
-- interface `NodeFs` that a filesystem implements. `N` is its node, `H` and `D` its file and directory
-- handles, and `T` the world that its callbacks act on through `&self`. A callback that receives a
-- `Cx` also acts on the inode table.
pub mod Xattr
use typed_fuse.Base.{ℕ, Bool, false, Option, none, List, ◌-◌}
use typed_fuse.Base.Int.{ℤ}
use typed_fuse.Base.Outcome.{Exec, Outcome, ok, err, enosys}
use typed_fuse.Base.Order.{Bytes}
use typed_fuse.Attr.{NodeAttr, SetAttr, StatFs, FileKind}
use typed_fuse.NodeTable.{NodeTable}

pub record Caller : Type 0 where
  pub uid : ℕ
  pub gid : ℕ
  pub pid : ℕ
  pub umask : ℕ

pub record OpenHints : Type 0 where
  pub direct_io : Bool
  pub keep_cache : Bool
  pub nonseekable : Bool
  pub cache_readdir : Bool
  pub parallel_direct_writes : Bool

pub record Opened (H : Type 0) : Type 0 where
  pub handle : H
  pub hints : OpenHints

-- `Opened::new`
abbrev pub new_opened : {H : Type 0} → H → Opened H
new_opened handle = record {
  handle = handle;
  hints = record {
    direct_io = false;
    keep_cache = false;
    nonseekable = false;
    cache_readdir = false;
    parallel_direct_writes = false;
  };
}

pub data XattrReply : Type 0 where
  xattr_size : ℕ → XattrReply
  xattr_data : Bytes → XattrReply

pub data LockKind : Type 0 where
  read_lock write_lock unlock : LockKind

pub record FileLock : Type 0 where
  pub kind : LockKind
  pub start : ℕ
  pub end : ℕ
  pub pid : ℕ

-- What a directory callback does with its sink, step by step: it offers an entry and goes on by the
-- answer, or it changes the table and the world, or it returns.
pub data Listing (S E : Type 0) : Type 0 where
  ends : Outcome (Unit {0}) → Listing S E
  acts : (S → S) → (S → Listing S E) → Listing S E
  offers : Bytes → ℕ → E → ℕ → (Bool → Listing S E) → Listing S E

pub record NodeFs (N H D T : Type 0) : Type 0 where
  pub statfs : Caller → Exec T StatFs
  pub entry_attr : N → Caller → Exec T NodeAttr
  pub forget : N → Exec T (Unit {0})
  pub getattr : N → Option H → Caller → Exec T NodeAttr
  pub setattr : N → Option H → SetAttr → Caller → Exec T NodeAttr
  pub wants_fallback_handle : N → Exec T Bool
  pub readlink : N → Caller → Exec T Bytes
  pub access : N → ℤ → Caller → Exec T (Unit {0})
  pub setxattr : N → Bytes → Bytes → ℤ → Caller → Exec T (Unit {0})
  pub getxattr : N → Bytes → ℕ → Caller → Exec T XattrReply
  pub listxattr : N → ℕ → Caller → Exec T XattrReply
  pub removexattr : N → Bytes → Caller → Exec T (Unit {0})
  pub open_file : N → ℤ → Caller → Exec T (Opened H)
  pub read : N → H → ℕ → ℕ → Caller → Exec T Bytes
  pub write : N → H → Bytes → ℕ → Caller → Exec T ℕ
  pub flush : N → H → Caller → Exec T (Unit {0})
  pub fsync : N → H → Bool → Caller → Exec T (Unit {0})
  pub fallocate : N → H → ℤ → ℕ → ℕ → Caller → Exec T (Unit {0})
  pub lseek : N → H → ℕ → ℤ → Caller → Exec T ℕ
  pub getlk : N → H → ℕ → FileLock → Caller → Exec T FileLock
  pub setlk : N → H → ℕ → FileLock → Bool → Caller → Exec T (Unit {0})
  pub flock : N → H → ℤ → Caller → Exec T (Unit {0})
  pub release : N → H → Caller → Exec T (Unit {0})
  pub opendir : N → ℤ → Caller → Exec T (Opened D)
  pub readdir : N → ℕ → ℕ → D → ℕ → Caller → Listing (NodeTable N × T) FileKind
  pub readdirplus : N → ℕ → ℕ → D → ℕ → Caller → Listing (NodeTable N × T) NodeAttr
  pub fsyncdir : N → D → Bool → Caller → Exec T (Unit {0})
  pub releasedir : N → D → Caller → Exec T (Unit {0})
  pub lookup : ℕ → Bytes → Caller → Exec (NodeTable N × T) (Option ℕ)
  pub mknod : ℕ → Bytes → ℕ → ℕ → ℕ → Caller → Exec (NodeTable N × T) ℕ
  pub mkdir : ℕ → Bytes → ℕ → ℕ → Caller → Exec (NodeTable N × T) ℕ
  pub symlink : ℕ → Bytes → Bytes → Caller → Exec (NodeTable N × T) ℕ
  pub link : ℕ → ℕ → Bytes → Caller → Exec (NodeTable N × T) ℕ
  pub unlink : ℕ → Bytes → Caller → Exec (NodeTable N × T) (Unit {0})
  pub rmdir : ℕ → Bytes → Caller → Exec (NodeTable N × T) (Unit {0})
  pub rename : ℕ → Bytes → ℕ → Bytes → ℕ → Caller → Exec (NodeTable N × T) (Unit {0})
  pub create : ℕ → Bytes → ℕ → ℕ → ℤ → Caller → Exec (NodeTable N × T) (ℕ × Opened H)
  pub copy_file_range : ℕ → ℕ → ℕ → ℕ → ℕ → ℤ → Caller → Exec (NodeTable N × T) ℕ

-- The methods as a trait provides them: most answer ENOSYS, and a few do nothing and succeed. A
-- filesystem that overrides none has `getattr` only.
abbrev pub default_methods :
    {N H D T : Type 0} → (N → Option H → Caller → Exec T NodeAttr) → NodeFs N H D T
default_methods getattr = record {
  statfs = λ _ w. (
    ok (record {
      bsize = 512;
      blocks = 0;
      bfree = 0;
      bavail = 0;
      files = 0;
      ffree = 0;
      namelen = 255;
      frsize = 0;
    }),
    w,
  );
  entry_attr = λ node caller. getattr node none caller;
  forget = λ _ w. (ok tt, w);
  getattr = getattr;
  setattr = λ _ _ _ _ w. (err enosys, w);
  wants_fallback_handle = λ _ w. (ok false, w);
  readlink = λ _ _ w. (err enosys, w);
  access = λ _ _ _ w. (ok tt, w);
  setxattr = λ _ _ _ _ _ w. (err enosys, w);
  getxattr = λ _ _ _ _ w. (err enosys, w);
  listxattr = λ _ _ _ w. (err enosys, w);
  removexattr = λ _ _ _ w. (err enosys, w);
  open_file = λ _ _ _ w. (err enosys, w);
  read = λ _ _ _ _ _ w. (err enosys, w);
  write = λ _ _ _ _ _ w. (err enosys, w);
  flush = λ _ _ _ w. (ok tt, w);
  fsync = λ _ _ _ _ w. (ok tt, w);
  fallocate = λ _ _ _ _ _ _ w. (err enosys, w);
  lseek = λ _ _ _ _ _ w. (err enosys, w);
  getlk = λ _ _ _ _ _ w. (err enosys, w);
  setlk = λ _ _ _ _ _ _ w. (err enosys, w);
  flock = λ _ _ _ _ w. (err enosys, w);
  release = λ _ _ _ w. (ok tt, w);
  opendir = λ _ _ _ w. (err enosys, w);
  readdir = λ _ _ _ _ _ _. ends (err enosys);
  readdirplus = λ _ _ _ _ _ _. ends (err enosys);
  fsyncdir = λ _ _ _ _ w. (ok tt, w);
  releasedir = λ _ _ _ w. (ok tt, w);
  lookup = λ _ _ _ w. (err enosys, w);
  mknod = λ _ _ _ _ _ _ w. (err enosys, w);
  mkdir = λ _ _ _ _ _ w. (err enosys, w);
  symlink = λ _ _ _ _ w. (err enosys, w);
  link = λ _ _ _ _ w. (err enosys, w);
  unlink = λ _ _ _ w. (err enosys, w);
  rmdir = λ _ _ _ w. (err enosys, w);
  rename = λ _ _ _ _ _ _ w. (err enosys, w);
  create = λ _ _ _ _ _ _ w. (err enosys, w);
  copy_file_range = λ _ _ _ _ _ _ _ w. (err enosys, w);
}
