-- ===== src/Session/Names.antt =====
-- typed-fuse/src/session.rs: the handlers of the requests that name entries, and `forget`.
use typed_fuse.Base.{ℕ, Option, List, [], ◌∷◌}
use typed_fuse.Base.Int.{ℤ}
use typed_fuse.Base.Outcome.{Exec, pure, ◌>>=◌}
use typed_fuse.Base.Order.{Bytes}
use typed_fuse.NodeFs.{NodeFs, Caller}
use typed_fuse.Runtime.{State}
use typed_fuse.Runtime.Entries.{
  EntryReply, LookupReply, found, negative, OpenReply, lookup, mknod, mkdir, symlink, link, unlink,
  rmdir, rename, create, forget, copy_file_range,
}
use typed_fuse.Session.Raw.{
  Platform, Timeouts, FileInfo, fi_flags, apply_open, as_u64, entry_to_entry_param,
  negative_entry_param,
}
use typed_fuse.Session.Reply.{Reply, sends_entry, sends_create, sends_count}
use typed_fuse.Session.Calls.{Handler, call_fs, answer, answer_none, reply_ok, reply_entry}

unfoldable pub reply_lookup : Platform → Timeouts → LookupReply → Reply
unfolding negative_entry_param reply_entry
reply_lookup p t (found entry) = reply_entry p t entry
reply_lookup p t negative = sends_entry (negative_entry_param t.negative_ttl)

unfoldable pub reply_create : Platform → Timeouts → Option FileInfo → EntryReply × OpenReply → Reply
unfolding apply_open entry_to_entry_param
reply_create p t fi (entry, opened) =
    sends_create (entry_to_entry_param p.modes entry.ino entry.generation entry.attr t.ttl)
      (apply_open fi opened.fh opened.hints)

module _ {N H D T : Type 0} (fs : NodeFs N H D T) where
  unfoldable pub forget_shim : ℕ → ℕ → Handler N H D T
  unfolding forget
  forget_shim ino nlookup s = answer_none (forget fs ino nlookup s)

  -- The loop of `forget_multi_shim`. A panic ends it.
  unfoldable pub forget_each : List (ℕ × ℕ) → Exec (State N H D T) (Unit {0})
  unfolding forget
  forget_each [] = pure tt
  forget_each ((ino, nlookup) ∷ entries) = forget fs ino nlookup >>= λ _. forget_each entries

  unfoldable pub forget_multi_shim : List (ℕ × ℕ) → Handler N H D T
  unfolding forget_each
  forget_multi_shim entries s = answer_none (forget_each entries s)

  unfoldable pub unlink_shim : ℕ → Bytes → Caller → Handler N H D T
  unfolding call_fs unlink
  unlink_shim parent name caller s = answer reply_ok (call_fs (unlink fs parent name) caller s)

  unfoldable pub rmdir_shim : ℕ → Bytes → Caller → Handler N H D T
  unfolding call_fs rmdir
  rmdir_shim parent name caller s = answer reply_ok (call_fs (rmdir fs parent name) caller s)

  unfoldable pub rename_shim : ℕ → Bytes → ℕ → Bytes → ℕ → Caller → Handler N H D T
  unfolding call_fs rename
  rename_shim parent name newparent newname flags caller s =
      answer reply_ok (call_fs (rename fs parent name newparent newname flags) caller s)

  unfoldable pub copy_file_range_shim : ℕ → ℤ → ℕ → ℤ → ℕ → ℤ → Caller → Handler N H D T
  unfolding call_fs copy_file_range
  copy_file_range_shim ino_in off_in ino_out off_out len flags caller s = answer sends_count (
      call_fs (copy_file_range fs ino_in (as_u64 off_in) ino_out (as_u64 off_out) len flags) caller
        s)

module _ {N H D T : Type 0} (p : Platform) (t : Timeouts) (fs : NodeFs N H D T) where
  unfoldable pub lookup_shim : ℕ → Bytes → Caller → Handler N H D T
  unfolding call_fs lookup reply_lookup
  lookup_shim parent name caller s =
      answer (reply_lookup p t) (call_fs (lookup fs parent name) caller s)

  unfoldable pub mknod_shim : ℕ → Bytes → ℕ → ℕ → Caller → Handler N H D T
  unfolding call_fs mknod reply_entry
  mknod_shim parent name mode rdev caller s =
      answer (reply_entry p t) (call_fs (λ c. mknod fs parent name mode rdev c.umask c) caller s)

  unfoldable pub mkdir_shim : ℕ → Bytes → ℕ → Caller → Handler N H D T
  unfolding call_fs mkdir reply_entry
  mkdir_shim parent name mode caller s =
      answer (reply_entry p t) (call_fs (λ c. mkdir fs parent name mode c.umask c) caller s)

  unfoldable pub symlink_shim : Bytes → ℕ → Bytes → Caller → Handler N H D T
  unfolding call_fs symlink reply_entry
  symlink_shim target parent name caller s =
      answer (reply_entry p t) (call_fs (symlink fs parent name target) caller s)

  unfoldable pub link_shim : ℕ → ℕ → Bytes → Caller → Handler N H D T
  unfolding call_fs link reply_entry
  link_shim ino newparent newname caller s =
      answer (reply_entry p t) (call_fs (link fs ino newparent newname) caller s)

  unfoldable pub create_shim : ℕ → Bytes → ℕ → Option FileInfo → Caller → Handler N H D T
  unfolding call_fs create reply_create
  create_shim parent name mode fi caller s =
      answer (reply_create p t fi)
        (call_fs (λ c. create fs parent name mode c.umask (fi_flags fi) c) caller s)
