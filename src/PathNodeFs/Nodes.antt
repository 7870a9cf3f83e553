-- ===== src/PathNodeFs/Nodes.antt =====
-- typed-fuse-core/src/path_fs.rs: the methods of `PathNodeFs` that receive a node. Those that receive a
-- handle besides go on without a path when the node has lost its last name; the others fail.
use typed_fuse.Base.{ℕ, ◌+◌, Bool, true, false, Option, none, some, []}
use typed_fuse.Base.Int.{ℤ}
use typed_fuse.Base.Outcome.{Outcome, ok, Exec, pure, ◌>>=◌}
use typed_fuse.Base.Order.{nat_key, Bytes}
use typed_fuse.Base.BTreeMap.{insert, remove}
use typed_fuse.Attr.{NodeAttr, SetAttr, StatFs}
use typed_fuse.NodeFs.{Caller, Opened, XattrReply, FileLock}
use typed_fuse.Namespace.{PathNode}
use typed_fuse.Listing.Retained.{new_listings}
use typed_fuse.PathFilesystem.{PathFilesystem}
use typed_fuse.PathNodeFs.{
  World, PathDirHandle, call, node_path, take_entry_attr, with_node_path, with_named_node,
}

module _ {S H D T : Type 0} (fs : PathFilesystem S H D T) where
  unfoldable pub forget : PathNode S → Exec (World S T) (Unit {0})
  unfolding node_path
  forget node = with_node_path node fs.forget

  unfoldable pub getattr : PathNode S → Option H → Caller → Exec (World S T) NodeAttr
  unfolding node_path
  getattr node handle caller = with_node_path node λ r. fs.getattr r handle caller

  abbrev pub attr_or : Option NodeAttr → Exec (World S T) NodeAttr → Exec (World S T) NodeAttr
  attr_or (some attr) ask = pure attr
  attr_or none ask = ask

  unfoldable pub entry_attr : PathNode S → Caller → Exec (World S T) NodeAttr
  unfolding take_entry_attr getattr
  entry_attr node caller w =
      let (attr, w') = take_entry_attr node w in attr_or attr (getattr node none caller) w'

  unfoldable pub setattr : PathNode S → Option H → SetAttr → Caller → Exec (World S T) NodeAttr
  unfolding node_path
  setattr node handle set caller = with_node_path node λ r. fs.setattr r handle set caller

  abbrev pub is_none {ℓ} : {A : Type ℓ} → Option A → Bool
  is_none none = true
  is_none (some a) = false

  unfoldable pub wants_fallback_handle : PathNode S → Exec (World S T) Bool
  unfolding node_path
  wants_fallback_handle node w = (ok (is_none (node_path node w)), w)

  unfoldable pub readlink : PathNode S → Caller → Exec (World S T) Bytes
  unfolding node_path
  readlink node caller = with_named_node node λ r. fs.readlink r caller

  -- `open`
  unfoldable pub open_file : PathNode S → ℤ → Caller → Exec (World S T) (Opened H)
  unfolding node_path
  open_file node flags caller = with_named_node node λ r. fs.open_file r flags caller

  unfoldable pub read : PathNode S → H → ℕ → ℕ → Caller → Exec (World S T) Bytes
  unfolding node_path
  read node handle offset size caller = with_node_path node λ r. fs.read r handle offset size caller

  unfoldable pub write : PathNode S → H → Bytes → ℕ → Caller → Exec (World S T) ℕ
  unfolding node_path
  write node handle bytes offset caller =
      with_node_path node λ r. fs.write r handle bytes offset caller

  unfoldable pub flush : PathNode S → H → Caller → Exec (World S T) (Unit {0})
  unfolding node_path
  flush node handle caller = with_node_path node λ r. fs.flush r handle caller

  unfoldable pub release : PathNode S → H → Caller → Exec (World S T) (Unit {0})
  unfolding node_path
  release node handle caller = with_node_path node λ r. fs.release r handle caller

  unfoldable pub fsync : PathNode S → H → Bool → Caller → Exec (World S T) (Unit {0})
  unfolding node_path
  fsync node handle datasync caller = with_node_path node λ r. fs.fsync r handle datasync caller

  unfoldable pub setxattr : PathNode S → Bytes → Bytes → ℤ → Caller → Exec (World S T) (Unit {0})
  unfolding node_path
  setxattr node name value flags caller =
      with_named_node node λ r. fs.setxattr r name value flags caller

  unfoldable pub getxattr : PathNode S → Bytes → ℕ → Caller → Exec (World S T) XattrReply
  unfolding node_path
  getxattr node name size caller = with_named_node node λ r. fs.getxattr r name size caller

  unfoldable pub listxattr : PathNode S → ℕ → Caller → Exec (World S T) XattrReply
  unfolding node_path
  listxattr node size caller = with_named_node node λ r. fs.listxattr r size caller

  unfoldable pub removexattr : PathNode S → Bytes → Caller → Exec (World S T) (Unit {0})
  unfolding node_path
  removexattr node name caller = with_named_node node λ r. fs.removexattr r name caller

  unfoldable pub access : PathNode S → ℤ → Caller → Exec (World S T) (Unit {0})
  unfolding node_path
  access node mask caller = with_named_node node λ r. fs.access r mask caller

  unfoldable pub fallocate : PathNode S → H → ℤ → ℕ → ℕ → Caller → Exec (World S T) (Unit {0})
  unfolding node_path
  fallocate node handle mode offset length caller =
      with_node_path node λ r. fs.fallocate r handle mode offset length caller

  unfoldable pub lseek : PathNode S → H → ℕ → ℤ → Caller → Exec (World S T) ℕ
  unfolding node_path
  lseek node handle offset whence caller =
      with_node_path node λ r. fs.lseek r handle offset whence caller

  unfoldable pub getlk : PathNode S → H → ℕ → FileLock → Caller → Exec (World S T) FileLock
  unfolding node_path
  getlk node handle owner lock caller = with_node_path node λ r. fs.getlk r handle owner lock caller

  unfoldable pub setlk : PathNode S → H → ℕ → FileLock → Bool → Caller → Exec (World S T) (Unit {0})
  unfolding node_path
  setlk node handle owner lock sleep caller =
      with_node_path node λ r. fs.setlk r handle owner lock sleep caller

  unfoldable pub flock : PathNode S → H → ℤ → Caller → Exec (World S T) (Unit {0})
  unfolding node_path
  flock node handle operation caller = with_node_path node λ r. fs.flock r handle operation caller

  unfoldable pub statfs : Caller → Exec (World S T) StatFs
  statfs caller = call (fs.statfs [] caller)

  -- A new `Mutex` for the listings of the handle.
  abbrev pub with_listings : Opened D → Exec (World S T) (Opened (PathDirHandle D))
  with_listings opened w = (
    ok (record {
      handle = record { inner = opened.handle; listings = w.next_listings };
      hints = opened.hints;
    }),
    record w {
      listings = insert w.next_listings new_listings w.listings;
      next_listings = w.next_listings + 1;
    },
  )

  unfoldable pub opendir : PathNode S → ℤ → Caller → Exec (World S T) (Opened (PathDirHandle D))
  unfolding node_path
  opendir node flags caller =
      with_named_node node (λ r. fs.opendir r flags caller) >>= with_listings

  -- The handle's listings are dropped with what is left of it.
  abbrev pub dropping_listings {ℓ} :
      {A : Type ℓ} → PathDirHandle D → Outcome A × World S T → Outcome A × World S T
  dropping_listings handle (r, w) = (r, record w { listings = remove handle.listings w.listings })

  unfoldable pub releasedir : PathNode S → PathDirHandle D → Caller → Exec (World S T) (Unit {0})
  unfolding node_path
  releasedir node handle caller w =
      dropping_listings handle (with_node_path node (λ r. fs.releasedir r handle.inner caller) w)

  unfoldable pub fsyncdir :
      PathNode S → PathDirHandle D → Bool → Caller → Exec (World S T) (Unit {0})
  unfolding node_path
  fsyncdir node handle datasync caller =
      with_node_path node λ r. fs.fsyncdir r handle.inner datasync caller
