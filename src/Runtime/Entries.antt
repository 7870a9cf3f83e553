-- ===== src/Runtime/Entries.antt =====
-- typed-fuse-core/src/runtime.rs: `entry_for`, `forget`, the requests that name entries, and the
-- opening and closing of handles.
use typed_fuse.Base.{ℕ, Option, none, some}
use typed_fuse.Base.Int.{ℤ}
use typed_fuse.Base.Outcome.{Outcome, ok, err, panic, ebadf, Exec, pure, ◌>>=◌}
use typed_fuse.Base.Order.{nat_key, Bytes}
use typed_fuse.Base.BTreeMap.{remove}
use typed_fuse.Attr.{NodeAttr}
use typed_fuse.NodeTable.{NodeRef, maybe_drop}
use typed_fuse.NodeTable.Cx
use typed_fuse.NodeTable.Counts
use typed_fuse.Handles.{add_file, add_dir}
use typed_fuse.NodeFs.{NodeFs, Caller, Opened, OpenHints}
use typed_fuse.Runtime.{State, call, call_cx, on_table, with_node, then_drop}
use typed_fuse.Runtime.Files.{record_at}

pub record EntryReply : Type 0 where
  pub ino : ℕ
  pub generation : ℕ
  pub attr : NodeAttr

pub data LookupReply : Type 0 where
  found : EntryReply → LookupReply
  negative : LookupReply

pub record OpenReply : Type 0 where
  pub fh : ℕ
  pub hints : OpenHints

module _ {N H D T : Type 0} (fs : NodeFs N H D T) where
  unfoldable pub entry_for : ℕ → Caller → Exec (State N H D T) EntryReply
  unfolding with_node Counts.retain_entry
  entry_for id caller = with_node id λ node. call (fs.entry_attr node caller) >>= λ attr.
      on_table (Counts.retain_entry id) >>= λ generation.
      pure (record { ino = id; generation = generation; attr = attr })

  -- `if let Some(node) = forgotten { self.fs.forget(&node); } else { … }`, and the drop of the
  -- lease. At a number with no slot, where the source has returned before, the drop does nothing.
  abbrev pub notify : ℕ → Outcome (Option (NodeRef N)) → Exec (State N H D T) (Unit {0})
  notify ino (ok (some node)) s = then_drop node (call (fs.forget node.payload) s)
  notify ino (ok none) s = (ok tt, record s { table = maybe_drop ino s.table })
  notify ino (err e) s = (err e, s)
  notify ino panic s = (panic, s)

  unfoldable pub forget : ℕ → ℕ → Exec (State N H D T) (Unit {0})
  unfolding Counts.forget_lookups Cx.drop_ref maybe_drop
  forget ino nlookup s =
      let (r, t) = Counts.forget_lookups ino nlookup s.table in
      notify ino r (record s { table = t })

  abbrev pub lookup_reply : Caller → Option ℕ → Exec (State N H D T) LookupReply
  lookup_reply caller none = pure negative
  lookup_reply caller (some id) = entry_for id caller >>= λ entry. pure (found entry)

  unfoldable pub lookup : ℕ → Bytes → Caller → Exec (State N H D T) LookupReply
  unfolding entry_for
  lookup parent name caller = call_cx (fs.lookup parent name caller) >>= lookup_reply caller

  unfoldable pub mknod : ℕ → Bytes → ℕ → ℕ → ℕ → Caller → Exec (State N H D T) EntryReply
  unfolding entry_for
  mknod parent name mode rdev umask caller =
      call_cx (fs.mknod parent name mode rdev umask caller) >>= λ id. entry_for id caller

  unfoldable pub mkdir : ℕ → Bytes → ℕ → ℕ → Caller → Exec (State N H D T) EntryReply
  unfolding entry_for
  mkdir parent name mode umask caller =
      call_cx (fs.mkdir parent name mode umask caller) >>= λ id. entry_for id caller

  unfoldable pub symlink : ℕ → Bytes → Bytes → Caller → Exec (State N H D T) EntryReply
  unfolding entry_for
  symlink parent name target caller =
      call_cx (fs.symlink parent name target caller) >>= λ id. entry_for id caller

  unfoldable pub link : ℕ → ℕ → Bytes → Caller → Exec (State N H D T) EntryReply
  unfolding entry_for
  link ino newparent newname caller =
      call_cx (fs.link ino newparent newname caller) >>= λ id. entry_for id caller

  unfoldable pub unlink : ℕ → Bytes → Caller → Exec (State N H D T) (Unit {0})
  unlink parent name caller = call_cx (fs.unlink parent name caller)

  unfoldable pub rmdir : ℕ → Bytes → Caller → Exec (State N H D T) (Unit {0})
  rmdir parent name caller = call_cx (fs.rmdir parent name caller)

  unfoldable pub rename : ℕ → Bytes → ℕ → Bytes → ℕ → Caller → Exec (State N H D T) (Unit {0})
  rename parent name newparent newname flags caller =
      call_cx (fs.rename parent name newparent newname flags caller)

  unfoldable pub copy_file_range : ℕ → ℕ → ℕ → ℕ → ℕ → ℤ → Caller → Exec (State N H D T) ℕ
  copy_file_range ino_in off_in ino_out off_out len flags caller =
      call_cx (fs.copy_file_range ino_in off_in ino_out off_out len flags caller)

  abbrev pub store_file : ℕ → Opened H → Exec (State N H D T) OpenReply
  store_file ino opened s =
      let (fh, handles) = add_file ino opened.handle s.handles in
      (ok (record { fh = fh; hints = opened.hints }), record s { handles = handles })

  abbrev pub store_dir : ℕ → Opened D → Exec (State N H D T) OpenReply
  store_dir ino opened s =
      let (fh, handles) = add_dir ino opened.handle s.handles in
      (ok (record { fh = fh; hints = opened.hints }), record s { handles = handles })

  -- `Runtime::open`; `open` is a word of the language.
  unfoldable pub open_file : ℕ → ℤ → Caller → Exec (State N H D T) OpenReply
  unfolding with_node Counts.add_open add_file
  open_file ino flags caller = with_node ino λ node.
      call (fs.open_file node flags caller) >>= λ opened.
      on_table (Counts.add_open ino) >>= λ _. store_file ino opened

  unfoldable pub opendir : ℕ → ℤ → Caller → Exec (State N H D T) OpenReply
  unfolding with_node Counts.add_open add_dir
  opendir ino flags caller = with_node ino λ node. call (fs.opendir node flags caller) >>= λ opened.
      on_table (Counts.add_open ino) >>= λ _. store_dir ino opened

  unfoldable pub create :
      ℕ → Bytes → ℕ → ℕ → ℤ → Caller → Exec (State N H D T) (EntryReply × OpenReply)
  unfolding entry_for Counts.add_open add_file
  create parent name mode umask flags caller =
      call_cx (fs.create parent name mode umask flags caller) >>= λ made.
      entry_for made.0 caller >>= λ entry. on_table (Counts.add_open made.0) >>= λ _.
      store_file made.0 made.1 >>= λ opened. pure (entry, opened)

  abbrev pub close_open : ℕ → Exec (State N H D T) (Unit {0})
  close_open ino s = (ok tt, record s { table = Counts.remove_open ino s.table })

  -- `close_and_take` waits until the leases of other requests are dropped, and then gives the payload.
  unfoldable pub release : ℕ → ℕ → Caller → Exec (State N H D T) (Unit {0})
  unfolding with_node record_at Counts.remove_open remove
  release ino fh caller s = elim (record_at ino fh s.handles.files) [
    | none ↦ (err ebadf, s)
    | some r ↦
        (with_node ino λ node. close_open ino >>= λ _. call (fs.release node r.payload caller))
          (record s { handles = record s.handles { files = remove fh s.handles.files } })
  ]

  unfoldable pub releasedir : ℕ → ℕ → Caller → Exec (State N H D T) (Unit {0})
  unfolding with_node record_at Counts.remove_open remove
  releasedir ino fh caller s = elim (record_at ino fh s.handles.dirs) [
    | none ↦ (err ebadf, s)
    | some r ↦
        (with_node ino λ node. close_open ino >>= λ _. call (fs.releasedir node r.payload caller))
          (record s { handles = record s.handles { dirs = remove fh s.handles.dirs } })
  ]
