-- ===== src/PathNodeFs/Adapter.antt =====
-- typed-fuse-core/src/path_fs.rs: `impl NodeFs for PathNodeFs`.
use typed_fuse.Base.Outcome.{fail, enosys}
use typed_fuse.NodeFs.{NodeFs}
use typed_fuse.Namespace.{PathNode}
use typed_fuse.PathFilesystem.{PathFilesystem}
use typed_fuse.PathNodeFs.{World, PathDirHandle}
use typed_fuse.PathNodeFs.Nodes
use typed_fuse.PathNodeFs.Names
use typed_fuse.PathNodeFs.Directories

-- `root`
abbrev pub root_node : {S : Type 0} → S → PathNode S
root_node state = record { key = 1; state = state }

-- `copy_file_range` is the default of `NodeFs`.
abbrev pub adapt :
    {S H D T : Type 0}
    → PathFilesystem S H D T
    → NodeFs (PathNode S) H (PathDirHandle D) (World S T)
adapt fs = record {
  statfs = Nodes.statfs fs;
  entry_attr = Nodes.entry_attr fs;
  forget = Nodes.forget fs;
  getattr = Nodes.getattr fs;
  setattr = Nodes.setattr fs;
  wants_fallback_handle = Nodes.wants_fallback_handle fs;
  readlink = Nodes.readlink fs;
  access = Nodes.access fs;
  setxattr = Nodes.setxattr fs;
  getxattr = Nodes.getxattr fs;
  listxattr = Nodes.listxattr fs;
  removexattr = Nodes.removexattr fs;
  open_file = Nodes.open_file fs;
  read = Nodes.read fs;
  write = Nodes.write fs;
  flush = Nodes.flush fs;
  fsync = Nodes.fsync fs;
  fallocate = Nodes.fallocate fs;
  lseek = Nodes.lseek fs;
  getlk = Nodes.getlk fs;
  setlk = Nodes.setlk fs;
  flock = Nodes.flock fs;
  release = Nodes.release fs;
  opendir = Nodes.opendir fs;
  readdir = Directories.readdir fs;
  readdirplus = Directories.readdirplus fs;
  fsyncdir = Nodes.fsyncdir fs;
  releasedir = Nodes.releasedir fs;
  lookup = Names.lookup fs;
  mknod = Names.mknod fs;
  mkdir = Names.mkdir fs;
  symlink = Names.symlink fs;
  link = Names.link fs;
  unlink = Names.unlink fs;
  rmdir = Names.rmdir fs;
  rename = Names.rename fs;
  create = Names.create fs;
  copy_file_range = λ _ _ _ _ _ _ _. fail enosys;
}
