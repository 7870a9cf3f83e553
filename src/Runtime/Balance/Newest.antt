-- ===== src/Runtime/Balance/Newest.antt =====
-- The handle that `getattr` and `setattr` fall back on (typed-fuse-core/src/runtime.rs:
-- `Runtime::optional_file`).
use typed_fuse.Base.{
  ℕ, ◌+◌, ◌≡◌, Bool, true, false, Option, none, some, Option-cases, Bool-cases, inl, inr, eqb,
  if◌then◌else◌, arith, [], ◌∷◌,
}
use typed_fuse.Base.Outcome.{Outcome, ok, err, panic, Exec, continue}
use typed_fuse.Base.Order.{nat_key}
use typed_fuse.Base.BTreeMap.{BTreeMap, get}
use typed_fuse.Handles.{HandleRecord}
use typed_fuse.NodeFs.{NodeFs}
use typed_fuse.Runtime.{State}
use typed_fuse.Runtime.Files.{newest, with_newest, with_optional_file, has_opens}
use typed_fuse.Runtime.Balance.{Keeps, Keeps-refl}
use typed_fuse.Base.{◌≤◌}
use typed_fuse.Runtime.Balance.Kept.{lease_file-Keeps, with_file-Keeps}

-- A map whose keys ascend from this one on, as a `BTreeMap` iterates.
abbrev pub IsAscending : {V : Type 0} → ℕ → BTreeMap ℕ V → Type 0
IsAscending low [] = Unit
IsAscending low ((j, v) ∷ m) = (low ≤ j) × IsAscending (j + 1) m

module _ {V : Type 0} where
  pub get-bound :
      (low k : ℕ) (v : V) (m : BTreeMap ℕ V) → IsAscending low m → get k m ≡ some v → low ≤ k
  unfolding get
  get-bound low k v [] a e = cc
  get-bound low k v ((j, w) ∷ m) a e = elim (Bool-cases (eqb j k)) [
    | inl same ↦ ground (arith, a.0)
    | inr other ↦ (let later = get-bound (j + 1) k v m a.1 (ground arith) in omega (arith, a.0))
  ]

module _ {P : Type 0} where
  newest-get :
      (ino low fh : ℕ) (r : HandleRecord P) (m : BTreeMap ℕ (HandleRecord P))
      → IsAscending low m
      → newest ino m ≡ some (fh, r)
      → (get fh m ≡ some r) × (r.node ≡ ino)
  unfolding newest get
  newest-get ino low fh r [] a e = cc
  newest-get ino low fh r ((j, x) ∷ m) a e = elim (Option-cases (newest ino m)) [
    | inl nothing ↦ (ground arith)
    | inr (found, later) ↦
        (ground (arith, newest-get ino (j + 1) fh r m a.1, get-bound (j + 1) fh r m a.1))
  ]

  none_left :
      (ino low fh : ℕ) (r : HandleRecord P) (m : BTreeMap ℕ (HandleRecord P))
      → IsAscending low m
      → newest ino m ≡ none
      → get fh m ≡ some r
      → r.node ≡ ino
      → r.state.closing ≡ false
      → ⊥
  unfolding newest get
  none_left ino low fh r [] a e here node running = cc
  none_left ino low fh r ((j, x) ∷ m) a e here node running = elim (Option-cases (newest ino m)) [
    | inl nothing ↦ ground (arith, none_left ino (j + 1) fh r m a.1 nothing)
    | inr (found, later) ↦ ground arith
  ]

  last :
      (ino low fh : ℕ) (r : HandleRecord P) (fh' : ℕ) (r' : HandleRecord P)
      (m : BTreeMap ℕ (HandleRecord P))
      → IsAscending low m
      → newest ino m ≡ some (fh, r)
      → get fh' m ≡ some r'
      → r'.node ≡ ino
      → r'.state.closing ≡ false
      → fh' ≤ fh
  unfolding newest get
  last ino low fh r fh' r' [] a e here' node' running = cc
  last ino low fh r fh' r' ((j, x) ∷ m) a e here' node' running =
      elim (Option-cases (newest ino m)) [
        | inl nothing ↦ ground (arith, none_left ino (j + 1) fh' r' m a.1 nothing)
        | inr (found, later) ↦ ground (
          arith,
          last ino (j + 1) fh r fh' r' m a.1,
          newest-get ino (j + 1) fh r m a.1,
          get-bound (j + 1) fh r m a.1,
        )
      ]

  -- The handle that `optional_file` falls back on is an open handle on the node, and no handle on the
  -- node that is not being closed has a larger number: as numbers ascend, it is the one opened last.
  pub newest_is_last :
      (ino low fh : ℕ) (r : HandleRecord P) (m : BTreeMap ℕ (HandleRecord P))
      → IsAscending low m
      → newest ino m ≡ some (fh, r)
      → (get fh m ≡ some r)
        × (r.node ≡ ino)
        × ((fh' : ℕ) (r' : HandleRecord P)
            → get fh' m ≡ some r'
            → r'.node ≡ ino
            → r'.state.closing ≡ false
            → fh' ≤ fh)
  newest_is_last ino low fh r m a e =
      let (here, node) = newest-get ino low fh r m a e in
      (here, node, λ fh' r' here' node' running. last ino low fh r fh' r' m a e here' node' running)

module _ {N H D T : Type 0} where
  with_newest-Keeps {ℓ} :
      {A : Type ℓ}
      → (ino : ℕ) (f : Option H → Exec (State N H D T) A) (s : State N H D T)
      → IsAscending 0 s.handles.files
      → ((h : Option H) (u : State N H D T) → Keeps u (f h u).1)
      → Keeps s (with_newest ino f s).1
  unfolding with_newest
  with_newest-Keeps ino f s a h = elim (Option-cases (newest ino s.handles.files)) [
    | inl nothing ↦ rw (nothing, with_newest) (h none s)
    | inr ((fh, r), here) ↦
        rw (here, with_newest)
          (lease_file-Keeps fh r (λ h. f (some h)) s
            (newest-get ino 0 fh r s.handles.files a here).0 (λ x u. h (some x) u))
  ]

  wanted-Keeps {ℓ} :
      {A : Type ℓ}
      → (ino : ℕ) (f : Option H → Exec (State N H D T) A) (r : Outcome Bool) (s : State N H D T)
      → IsAscending 0 s.handles.files
      → ((h : Option H) (u : State N H D T) → Keeps u (f h u).1)
      → Keeps s (continue r (λ wanted. if wanted then with_newest ino f else f none) s).1
  wanted-Keeps ino f (ok true) s a h = with_newest-Keeps ino f s a h
  wanted-Keeps ino f (ok false) s a h = h none s
  wanted-Keeps ino f (err e) s a h = Keeps-refl s
  wanted-Keeps ino f panic s a h = Keeps-refl s

  pub with_optional_file-Keeps {ℓ} :
      {A : Type ℓ}
      → (fs : NodeFs N H D T) (ino : ℕ) (node : N) (fh : Option ℕ)
        (f : Option H → Exec (State N H D T) A) (s : State N H D T)
      → IsAscending 0 s.handles.files
      → ((h : Option H) (u : State N H D T) → Keeps u (f h u).1)
      → Keeps s (with_optional_file fs ino node fh f s).1
  unfolding with_optional_file
  with_optional_file-Keeps fs ino node (some fh) f s a h =
      with_file-Keeps ino fh (λ x. f (some x)) s (λ x u. h (some x) u)
  with_optional_file-Keeps fs ino node none f s a h = elim (Bool-cases (has_opens ino s)) [
    | inl opened ↦
        rw (opened, with_optional_file)
          (wanted-Keeps ino f (fs.wants_fallback_handle node s.world).0
            (record s { world = (fs.wants_fallback_handle node s.world).1 }) a h)
    | inr closed ↦ rw (closed, with_optional_file) (h none s)
  ]
