-- ===== src/Session/Answers/Sent.antt =====
-- typed-fuse/src/session.rs: the replies of single handlers, and the steps that all handlers share.
use typed_fuse.Base.{
  ℕ, zero, suc, ◌≡◌, ◌≤◌, refl, Bool, true, false, Option, List, [], ◌∷◌, length, take, min, arith,
  Bool-cases, inl, inr,
}
use typed_fuse.Base.Int.{ℤ}
use typed_fuse.Base.Outcome.{Outcome, ok, err, panic, eio, enosys, Exec, and_then}
use typed_fuse.Base.Order.{Bytes}
use typed_fuse.NodeFs.{NodeFs, Caller, XattrReply, xattr_size, xattr_data, FileLock}
use typed_fuse.NodeFs.Xattr.{reply_xattr}
use typed_fuse.FileLock.{LockTypes, Flock, from_flock, to_flock}
use typed_fuse.Runtime.{State}
use typed_fuse.Runtime.Entries.{LookupReply, found, negative}
use typed_fuse.Runtime.Requests
use typed_fuse.Session.Raw.{Platform, Timeouts, FileInfo, fi_fh, owner_of}
use typed_fuse.Session.Reply.{Reply, sends_lock, sends_data, sends_error}
use typed_fuse.Session.Dirents.{has_nul}
use typed_fuse.Session.Calls.{Handler, call_fs, catch_unwind, answer, reply_ok, reply_entry}
use typed_fuse.Session.Names.{reply_lookup}
use typed_fuse.Session.Nodes.{reply_target}
use typed_fuse.Session.Files.{read_shim, after_read, reply_read}
use typed_fuse.Session.Locks.{getlk_shim, setlk_shim, with_lock}
use typed_fuse.Session.Ops.{when, run_handler}
use typed_fuse.Session.Answers.Shapes.{
  Shape, entry, target, lock, done, buffer, value, fits, IsAnswered, IsFallible,
}

module _ {N H D T : Type 0} where
  answer-IsAnswered {ℓ} :
      {A : Type ℓ}
      → (shape : Shape) (reply : A → Reply) (r : Outcome A) (s : State N H D T) → IsFallible shape
      → ((a : A) → fits shape (reply a) ≡ true)
      → IsAnswered shape (answer reply (catch_unwind r, s)).0
  unfolding catch_unwind
  answer-IsAnswered shape reply (ok a) s fallible h = (reply a, refl, h a)
  answer-IsAnswered shape reply (err e) s fallible h = (sends_error e, refl, fallible e)
  answer-IsAnswered shape reply panic s fallible h = (sends_error eio, refl, fallible eio)

  -- A request that reaches the runtime through `call_fs` and is answered by its result.
  pub call_fs-IsAnswered {ℓ} :
      {A : Type ℓ}
      → (shape : Shape) (reply : A → Reply) (f : Caller → Exec (State N H D T) A) (c : Caller)
        (s : State N H D T)
      → IsFallible shape
      → ((a : A) → fits shape (reply a) ≡ true)
      → IsAnswered shape (answer reply (call_fs f c s)).0
  unfolding call_fs
  call_fs-IsAnswered shape reply f c s fallible h =
      answer-IsAnswered shape reply (f c s).0 (f c s).1 fallible h

pub reply_lookup-fits :
    (p : Platform) (t : Timeouts) (reply : LookupReply) → fits entry (reply_lookup p t reply) ≡ true
unfolding reply_lookup reply_entry
reply_lookup-fits p t (found e) = refl
reply_lookup-fits p t negative = refl

pub reply_target-fits : (name : Bytes) → fits target (reply_target name) ≡ true
reply_target-fits name = elim (Bool-cases (has_nul name)) [
  | inl nul ↦ rw nul refl
  | inr whole ↦ rw (whole) (rw whole refl)
]

pub reply_xattr-fits :
    (reply : XattrReply) (size : ℕ) → fits (value size) (reply_xattr reply size) ≡ true
unfolding reply_xattr
reply_xattr-fits (xattr_size len) size = ground arith
reply_xattr-fits (xattr_data v) size = ground arith

length-take-le : (n : ℕ) (bytes : Bytes) → length (take n bytes) ≤ n
length-take-le zero bytes = omega arith
length-take-le (suc n) [] = omega arith
length-take-le (suc n) (c ∷ bytes) = omega (arith, length-take-le n bytes)

take-fits :
    (size : ℕ) (bytes : Bytes)
    → fits (buffer size) (sends_data (take (min (length bytes) size) bytes)) ≡ true
take-fits size bytes = ground (arith, length-take-le (min (length bytes) size) bytes)

to_flock-returns : (c : LockTypes) (l : FileLock) → to_flock c l ≡ panic → ⊥
unfolding to_flock
to_flock-returns c l e = ground arith

from_flock-returns : (c : LockTypes) (raw : Flock) → from_flock c raw ≡ panic → ⊥
unfolding from_flock
from_flock-returns c raw e = ground arith

module _ {N H D T : Type 0} where
  pub when-IsAnswered :
      (shape : Shape) (p : Platform) (t : Timeouts) (fs : NodeFs N H D T) (supported : Bool)
      (handler : Handler N H D T) (s : State N H D T)
      → IsFallible shape
      → IsAnswered shape (handler s).0
      → IsAnswered shape (run_handler p t fs (when p t fs supported handler) s).0
  when-IsAnswered shape p t fs true handler s fallible h = h
  when-IsAnswered shape p t fs false handler s fallible h =
      (sends_error enosys, refl, fallible enosys)

  pub read-IsAnswered :
      (fs : NodeFs N H D T) (ino size : ℕ) (off : ℤ) (fi : Option FileInfo) (c : Caller)
      (s : State N H D T)
      → IsAnswered (buffer size) (read_shim fs ino size off fi c s).0
  unfolding read_shim Requests.read
  read-IsAnswered fs ino size off fi c s = go _ _
    where
      go :
          (r : Outcome Bytes) (s' : State N H D T)
          → IsAnswered
              (buffer size)
              (after_read (
                elim r as (λ _. Outcome (List Reply)) [
                  | ok bytes ↦ ok (reply_read size (ok bytes))
                  | err e ↦ ok (reply_read size (err e))
                  | panic ↦ panic
                ],
                s',
              )).0
      go (ok bytes) s' = (_, refl, take-fits size bytes)
      go (err e) s' = (_, refl, refl)
      go panic s' = (_, refl, refl)

  pub getlk-IsAnswered :
      (p : Platform) (fs : NodeFs N H D T) (ino : ℕ) (fi : Option FileInfo) (raw : Flock)
      (c : Caller) (s : State N H D T)
      → IsAnswered lock (getlk_shim p fs ino fi raw c s).0
  unfolding getlk_shim
  getlk-IsAnswered p fs ino fi raw c s = go (from_flock p.locks raw) refl
    where
      sent :
          (r : Outcome Flock) (s' : State N H D T)
          → (r ≡ panic → ⊥)
          → IsAnswered lock (answer sends_lock (r, s')).0
      sent (ok l) s' h = (_, refl, refl)
      sent (err e) s' h = (_, refl, refl)
      sent panic s' h = absurd (h refl)

      converted : (r : Outcome FileLock) → and_then (catch_unwind r) (to_flock p.locks) ≡ panic → ⊥
      converted (ok l) e = to_flock-returns p.locks l (unfold catch_unwind in e)
      converted (err x) e = unfold catch_unwind in (cc)
      converted panic e = unfold catch_unwind in (cc)

      go :
          (o : Outcome FileLock)
          → from_flock p.locks raw ≡ o
          → IsAnswered lock
              (with_lock
                (λ requested s.
                  let (r, s') =
                    call_fs (Requests.getlk fs ino (fi_fh fi) (owner_of fi) requested) c s in
                  answer sends_lock (and_then r (to_flock p.locks), s'))
                o
                s).0
      go (ok l) e =
          let r = Requests.getlk fs ino (fi_fh fi) (owner_of fi) l c s in
          unfold call_fs in
          (sent (and_then (catch_unwind r.0) (to_flock p.locks)) r.1 (converted r.0))
      go (err x) e = (_, refl, refl)
      go panic e = absurd (from_flock-returns p.locks raw e)

  pub setlk-IsAnswered :
      (p : Platform) (fs : NodeFs N H D T) (ino : ℕ) (fi : Option FileInfo) (raw : Flock)
      (sleep : Bool) (c : Caller) (s : State N H D T)
      → IsAnswered done (setlk_shim p fs ino fi raw sleep c s).0
  unfolding setlk_shim
  setlk-IsAnswered p fs ino fi raw sleep c s = go (from_flock p.locks raw) refl
    where
      go :
          (o : Outcome FileLock)
          → from_flock p.locks raw ≡ o
          → IsAnswered done
              (with_lock
                (λ requested s.
                  answer reply_ok
                    (call_fs (Requests.setlk fs ino (fi_fh fi) (owner_of fi) requested sleep) c s))
                o
                s).0
      go (ok l) e =
          call_fs-IsAnswered done reply_ok (Requests.setlk fs ino (fi_fh fi) (owner_of fi) l sleep)
            c s (λ e. refl) (λ a. refl)
      go (err x) e = (_, refl, refl)
      go panic e = absurd (from_flock-returns p.locks raw e)
