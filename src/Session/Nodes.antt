-- ===== src/Session/Nodes.antt =====
-- typed-fuse/src/session.rs: the handlers of the requests on one node without an open file.
use typed_fuse.Base.{ℕ, Option}
use typed_fuse.Base.Int.{ℤ}
use typed_fuse.Base.Outcome.{einval}
use typed_fuse.Base.Order.{Bytes}
use typed_fuse.Base.{if◌then◌else◌}
use typed_fuse.NodeFs.{NodeFs, Caller}
use typed_fuse.NodeFs.Xattr.{reply_xattr}
use typed_fuse.Conv.{Stat}
use typed_fuse.Runtime.Requests.{
  getattr, setattr, readlink, access, setxattr, getxattr, listxattr, removexattr, statfs,
}
use typed_fuse.Session.Raw.{
  Platform, Timeouts, FileInfo, fi_fh_opt, setattr_from_raw, statfs_to_raw,
}
use typed_fuse.Session.Reply.{Reply, sends_target, sends_error, sends_statfs}
use typed_fuse.Session.Dirents.{has_nul}
use typed_fuse.Session.Calls.{Handler, call_fs, answer, reply_ok, reply_attr}

-- `CString::new` refuses a target with a NUL in it.
abbrev pub reply_target : Bytes → Reply
reply_target target = if has_nul target then sends_error einval else sends_target target

module _ {N H D T : Type 0} (fs : NodeFs N H D T) where
  unfoldable pub readlink_shim : ℕ → Caller → Handler N H D T
  unfolding call_fs readlink
  readlink_shim ino caller s = answer reply_target (call_fs (readlink fs ino) caller s)

  unfoldable pub statfs_shim : ℕ → Caller → Handler N H D T
  unfolding call_fs statfs
  statfs_shim ino caller s =
      answer (λ stats. sends_statfs (statfs_to_raw stats)) (call_fs (statfs fs ino) caller s)

  unfoldable pub access_shim : ℕ → ℤ → Caller → Handler N H D T
  unfolding call_fs access
  access_shim ino mask caller s = answer reply_ok (call_fs (access fs ino mask) caller s)

  unfoldable pub setxattr_shim : ℕ → Bytes → Bytes → ℤ → Caller → Handler N H D T
  unfolding call_fs setxattr
  setxattr_shim ino name value flags caller s =
      answer reply_ok (call_fs (setxattr fs ino name value flags) caller s)

  unfoldable pub getxattr_shim : ℕ → Bytes → ℕ → Caller → Handler N H D T
  unfolding call_fs getxattr reply_xattr
  getxattr_shim ino name size caller s =
      answer (λ reply. reply_xattr reply size) (call_fs (getxattr fs ino name size) caller s)

  unfoldable pub listxattr_shim : ℕ → ℕ → Caller → Handler N H D T
  unfolding call_fs listxattr reply_xattr
  listxattr_shim ino size caller s =
      answer (λ reply. reply_xattr reply size) (call_fs (listxattr fs ino size) caller s)

  unfoldable pub removexattr_shim : ℕ → Bytes → Caller → Handler N H D T
  unfolding call_fs removexattr
  removexattr_shim ino name caller s = answer reply_ok (call_fs (removexattr fs ino name) caller s)

module _ {N H D T : Type 0} (p : Platform) (t : Timeouts) (fs : NodeFs N H D T) where
  unfoldable pub getattr_shim : ℕ → Option FileInfo → Caller → Handler N H D T
  unfolding call_fs reply_attr getattr
  getattr_shim ino fi caller s =
      answer (reply_attr p t ino) (call_fs (getattr fs ino (fi_fh_opt fi)) caller s)

  unfoldable pub setattr_shim : ℕ → Option Stat → ℕ → Option FileInfo → Caller → Handler N H D T
  unfolding call_fs reply_attr setattr setattr_from_raw
  setattr_shim ino attr to_set fi caller s =
      let set = setattr_from_raw p.set_bits attr to_set in
      answer (reply_attr p t ino) (call_fs (setattr fs ino (fi_fh_opt fi) set) caller s)
