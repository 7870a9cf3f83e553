-- ===== src/Runtime/Files.antt =====
-- typed-fuse-core/src/runtime.rs: `Runtime::file`, `Runtime::dir` and `Runtime::optional_file`, with
-- the scope that holds the lease. A handle that is being closed has left the table before, so the
-- lease's record is the one that stands under its number.
use typed_fuse.Base.{
  ℕ, Bool, true, false, not, ◌&&◌, Option, none, some, [], ◌∷◌, eqb, ltb, if◌then◌else◌,
}
use typed_fuse.Base.Outcome.{Outcome, ok, err, panic, ebadf, Exec, ◌>>=◌}
use typed_fuse.Base.Order.{nat_key}
use typed_fuse.Base.BTreeMap.{BTreeMap, get, insert}
use typed_fuse.NodeTable.{slot_at}
use typed_fuse.Handles.{HandleRecord, HandleState, acquire, drop_lease}
use typed_fuse.NodeFs.{NodeFs}
use typed_fuse.Runtime.{State, call}

module _ {P : Type 0} where
  abbrev pub with_state : HandleState → HandleRecord P → HandleRecord P
  with_state st r = record r { state = st }

  -- The drop of a lease on the handle with this number.
  abbrev pub drop_at : ℕ → BTreeMap ℕ (HandleRecord P) → BTreeMap ℕ (HandleRecord P)
  drop_at fh m = elim (get fh m) [
    | none ↦ m
    | some r ↦ insert fh (with_state (drop_lease r.state).1 r) m
  ]

  -- The record with this number, if it is a handle on this node.
  unfoldable pub record_at : ℕ → ℕ → BTreeMap ℕ (HandleRecord P) → Option (HandleRecord P)
  record_at ino fh m = elim (get fh m) [
    | none ↦ none
    | some r ↦ if eqb r.node ino then some r else none
  ]

  -- `values().rev().filter(…).find_map(HandleRecord::acquire)` up to the count: the last record on the
  -- node that is not being closed.
  unfoldable pub newest : ℕ → BTreeMap ℕ (HandleRecord P) → Option (ℕ × HandleRecord P)
  newest ino [] = none
  newest ino ((fh, r) ∷ m) = elim (newest ino m) [
    | some found ↦ some found
    | none ↦ if eqb r.node ino && not r.state.closing then some (fh, r) else none
  ]

module _ {N H D T : Type 0} where
  abbrev pub put_file : ℕ → HandleRecord H → State N H D T → State N H D T
  put_file fh r s = record s { handles = record s.handles { files = insert fh r s.handles.files } }

  abbrev pub drop_file {ℓ} :
      {A : Type ℓ} → ℕ → Outcome A × State N H D T → Outcome A × State N H D T
  drop_file fh (a, s) =
      (a, record s { handles = record s.handles { files = drop_at fh s.handles.files } })

  abbrev pub leasing_file {ℓ} :
      {A : Type ℓ}
      → ℕ
      → HandleRecord H
      → (H → Exec (State N H D T) A)
      → Outcome Bool × HandleState
      → Exec (State N H D T) A
  leasing_file fh r f (ok true, st) s = drop_file fh (f r.payload (put_file fh (with_state st r) s))
  leasing_file fh r f (ok false, st) s = (err ebadf, s)
  leasing_file fh r f (err e, st) s = (err e, s)
  leasing_file fh r f (panic, st) s = (panic, s)

  -- A lease on this record, and the scope that holds it.
  unfoldable pub lease_file {ℓ} :
      {A : Type ℓ} → ℕ → HandleRecord H → (H → Exec (State N H D T) A) → Exec (State N H D T) A
  unfolding acquire drop_lease get insert
  lease_file fh r f s = leasing_file fh r f (acquire r.state) s

  unfoldable pub with_file {ℓ} :
      {A : Type ℓ} → ℕ → ℕ → (H → Exec (State N H D T) A) → Exec (State N H D T) A
  unfolding record_at lease_file
  with_file ino fh f s = elim (record_at ino fh s.handles.files) [
    | none ↦ (err ebadf, s)
    | some r ↦ lease_file fh r f s
  ]

  abbrev pub put_dir : ℕ → HandleRecord D → State N H D T → State N H D T
  put_dir fh r s = record s { handles = record s.handles { dirs = insert fh r s.handles.dirs } }

  abbrev pub drop_dir {ℓ} : {A : Type ℓ} → ℕ → Outcome A × State N H D T → Outcome A × State N H D T
  drop_dir fh (a, s) =
      (a, record s { handles = record s.handles { dirs = drop_at fh s.handles.dirs } })

  abbrev pub leasing_dir {ℓ} :
      {A : Type ℓ}
      → ℕ
      → HandleRecord D
      → (D → Exec (State N H D T) A)
      → Outcome Bool × HandleState
      → Exec (State N H D T) A
  leasing_dir fh r f (ok true, st) s = drop_dir fh (f r.payload (put_dir fh (with_state st r) s))
  leasing_dir fh r f (ok false, st) s = (err ebadf, s)
  leasing_dir fh r f (err e, st) s = (err e, s)
  leasing_dir fh r f (panic, st) s = (panic, s)

  unfoldable pub lease_dir {ℓ} :
      {A : Type ℓ} → ℕ → HandleRecord D → (D → Exec (State N H D T) A) → Exec (State N H D T) A
  unfolding acquire drop_lease get insert
  lease_dir fh r f s = leasing_dir fh r f (acquire r.state) s

  unfoldable pub with_dir {ℓ} :
      {A : Type ℓ} → ℕ → ℕ → (D → Exec (State N H D T) A) → Exec (State N H D T) A
  unfolding record_at lease_dir
  with_dir ino fh f s = elim (record_at ino fh s.handles.dirs) [
    | none ↦ (err ebadf, s)
    | some r ↦ lease_dir fh r f s
  ]

  abbrev pub has_opens : ℕ → State N H D T → Bool
  has_opens ino s = elim (slot_at s.table ino) [ none ↦ false | some slot ↦ ltb 0 slot.opens ]

  unfoldable pub with_newest {ℓ} :
      {A : Type ℓ} → ℕ → (Option H → Exec (State N H D T) A) → Exec (State N H D T) A
  unfolding newest lease_file
  with_newest ino f s = elim (newest ino s.handles.files) [
    | none ↦ f none s
    | some (fh, r) ↦ lease_file fh r (λ h. f (some h)) s
  ]

  -- `let h = self.optional_file(ino, &n, fh)?;` and what follows it.
  unfoldable pub with_optional_file {ℓ} :
      {A : Type ℓ}
      → NodeFs N H D T
      → ℕ
      → N
      → Option ℕ
      → (Option H → Exec (State N H D T) A)
      → Exec (State N H D T) A
  unfolding with_file with_newest
  with_optional_file fs ino node (some fh) f s = with_file ino fh (λ h. f (some h)) s
  with_optional_file fs ino node none f s =
      if has_opens ino s
      then (call (fs.wants_fallback_handle node) >>= λ wanted.
            if wanted then with_newest ino f else f none)
          s
      else f none s
