-- ===== src/Attr.antt =====
-- typed-fuse-core/src/attr.rs: attributes. A `SystemTime` is its count of nanoseconds from the Unix
-- epoch, negative before it.
use typed_fuse.Base.{ℕ, Option}
use typed_fuse.Base.Int.{ℤ, pos}

pub data FileKind : Type 0 where
  regular_file directory symlink char_device block_device named_pipe socket : FileKind

abbrev pub SystemTime : Type 0
SystemTime = ℤ

abbrev pub unix_epoch : SystemTime
unix_epoch = pos 0

pub record NodeAttr : Type 0 where
  pub size : ℕ
  pub blocks : ℕ
  pub atime : SystemTime
  pub mtime : SystemTime
  pub ctime : SystemTime
  pub crtime : SystemTime
  pub kind : FileKind
  pub perm : ℕ
  pub nlink : ℕ
  pub uid : ℕ
  pub gid : ℕ
  pub rdev : ℕ
  pub blksize : ℕ
  pub flags : ℕ

-- `NodeAttr::default()`
abbrev pub default_attr : NodeAttr
default_attr = record {
  size = 0;
  blocks = 0;
  atime = unix_epoch;
  mtime = unix_epoch;
  ctime = unix_epoch;
  crtime = unix_epoch;
  kind = regular_file;
  perm = 0;
  nlink = 0;
  uid = 0;
  gid = 0;
  rdev = 0;
  blksize = 0;
  flags = 0;
}

pub data TimeOrNow : Type 0 where
  specific_time : SystemTime → TimeOrNow
  now : TimeOrNow

pub record SetAttr : Type 0 where
  pub mode : Option ℕ
  pub uid : Option ℕ
  pub gid : Option ℕ
  pub size : Option ℕ
  pub atime : Option TimeOrNow
  pub mtime : Option TimeOrNow
  pub ctime : Option SystemTime
  pub crtime : Option SystemTime
  pub flags : Option ℕ

pub record StatFs : Type 0 where
  pub blocks : ℕ
  pub bfree : ℕ
  pub bavail : ℕ
  pub files : ℕ
  pub ffree : ℕ
  pub bsize : ℕ
  pub namelen : ℕ
  pub frsize : ℕ
