-- ===== src/Session/Calls.antt =====
-- typed-fuse/src/session.rs: `call_fs`, `catch_unwind` and the sending of a result. A handler gives the
-- replies that it sends and the state that it leaves. No reply is sent where a panic is not caught.
use typed_fuse.Base.{ℕ, List, [], ◌∷◌}
use typed_fuse.Base.Outcome.{Outcome, ok, err, panic, eio, Exec}
use typed_fuse.NodeFs.{Caller}
use typed_fuse.Attr.{NodeAttr}
use typed_fuse.Conv.{attr_to_stat}
use typed_fuse.Runtime.{State}
use typed_fuse.Runtime.Entries.{EntryReply}
use typed_fuse.Session.Raw.{Platform, Timeouts, entry_to_entry_param}
use typed_fuse.Session.Reply.{Reply, sends_entry, sends_attr, sends_ok, sends_error, sends_none}

abbrev pub Handler : Type 0 → Type 0 → Type 0 → Type 0 → Type 0
Handler N H D T = State N H D T → List Reply × State N H D T

unfoldable pub catch_unwind {ℓ} : {A : Type ℓ} → Outcome A → Outcome A
catch_unwind (ok a) = ok a
catch_unwind (err e) = err e
catch_unwind panic = err eio

module _ {N H D T : Type 0} where
  unfoldable pub call_fs {ℓ} :
      {A : Type ℓ} → (Caller → Exec (State N H D T) A) → Caller → Exec (State N H D T) A
  unfolding catch_unwind
  call_fs f caller s = let (r, s') = f caller s in (catch_unwind r, s')

  -- `match … { Ok(a) => …, Err(e) => reply_err(req, e) }`
  abbrev pub answer {ℓ} :
      {A : Type ℓ} → (A → Reply) → Outcome A × State N H D T → List Reply × State N H D T
  answer reply (ok a, s) = (reply a ∷ [], s)
  answer reply (err e, s) = (sends_error e ∷ [], s)
  answer reply (panic, s) = ([], s)

  -- `catch_unwind_unit`, after which `fuse_reply_none` is called.
  abbrev pub answer_none : Outcome (Unit {0}) × State N H D T → List Reply × State N H D T
  answer_none (r, s) = (sends_none ∷ [], s)

abbrev pub reply_ok : Unit {0} → Reply
reply_ok _ = sends_ok

unfoldable pub reply_entry : Platform → Timeouts → EntryReply → Reply
unfolding entry_to_entry_param
reply_entry p t entry =
    sends_entry (entry_to_entry_param p.modes entry.ino entry.generation entry.attr t.ttl)

unfoldable pub reply_attr : Platform → Timeouts → ℕ → NodeAttr → Reply
unfolding attr_to_stat
reply_attr p t ino attr = sends_attr (attr_to_stat p.modes ino attr) t.ttl
