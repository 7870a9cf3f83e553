-- ===== src/Runtime/Balance/Kept.antt =====
-- The scopes of a handle's lease keep the tables (typed-fuse-core/src/runtime.rs).
use typed_fuse.Base.{
  ℕ, ◌+◌, ◌-◌, ◌≡◌, refl, sym, ◌∙◌, Bool, true, false, some, Option-cases, Bool-cases, inl, inr,
  ◌⊎◌, subst, eqb, if◌then◌else◌, arith, checked_succ, u32_max,
}
use typed_fuse.Base.Outcome.{Outcome, ok, panic, Exec}
use typed_fuse.Base.Order.{nat_key}
use typed_fuse.Base.BTreeMap.{BTreeMap, get, get-insert}
use typed_fuse.Handles.{HandleRecord, HandleState, acquire, drop_lease}
use typed_fuse.Runtime.{State}
use typed_fuse.Runtime.Files.{
  with_state, drop_at, record_at, lease_file, with_file, leasing_file, leasing_dir, drop_file,
  drop_dir, put_file, put_dir, lease_dir, with_dir,
}
use typed_fuse.Runtime.Balance.{Keeps, Keeps-refl, succ_value}

module _ {P : Type 0} where
  get-drop_at :
      (fh k : ℕ) (r : HandleRecord P) (m : BTreeMap ℕ (HandleRecord P))
      → get fh m ≡ some r
      → get k (drop_at fh m)
        ≡ (if eqb fh k then some (with_state (drop_lease r.state).1 r) else get k m)
  get-drop_at fh k r m here =
      rw (here, drop_at) (get-insert fh k (with_state (drop_lease r.state).1 r) m)

  record_at-some :
      (ino fh : ℕ) (m : BTreeMap ℕ (HandleRecord P)) (r : HandleRecord P)
      → record_at ino fh m ≡ some r
      → get fh m ≡ some r
  unfolding record_at
  record_at-some ino fh m r e = ground arith

  -- What `acquire` then `drop_lease` leave.
  acquire_cases :
      (r : HandleRecord P)
      → (acquire r.state ≡ (ok false, r.state))
        ⊎ (acquire r.state ≡ (panic, r.state))
        ⊎ ((acquire r.state ≡ (ok true, record r.state { active = r.state.active + 1 }))
            × (with_state (drop_lease (record r.state { active = r.state.active + 1 })).1 r ≡ r))
  unfolding acquire drop_lease
  acquire_cases r = elim (Bool-cases r.state.closing) [
    | inl closing ↦ inl (ground arith)
    | inr running ↦ elim (Option-cases (checked_succ u32_max r.state.active)) [
      | inl full ↦ inr (inl (ground arith))
      | inr (n, room) ↦ inr (
          inr (
            ground (arith, succ_value u32_max r.state.active n room),
            (let back : r.state.active + 1 - 1 ≡ r.state.active = omega arith in simp back refl),
          ))
    ]
  ]

module _ {N H D T : Type 0} where
  pub lease_file-Keeps {ℓ} :
      {A : Type ℓ}
      → (fh : ℕ) (r : HandleRecord H) (f : H → Exec (State N H D T) A) (s : State N H D T)
      → get fh s.handles.files ≡ some r
      → ((h : H) (u : State N H D T) → Keeps u (f h u).1)
      → Keeps s (lease_file fh r f s).1
  unfolding lease_file
  lease_file-Keeps fh r f s here h = elim (acquire_cases r) [
    | inl closing ↦ at (ok false, r.state) closing (Keeps-refl s)
    | inr (inl full) ↦ at (panic, r.state) full (Keeps-refl s)
    | inr (inr (leased, back)) ↦ at _ leased (held back)
  ]
    where
      busy : HandleRecord H
      busy = with_state (record r.state { active = r.state.active + 1 }) r

      at :
          (a : Outcome Bool × HandleState)
          → acquire r.state ≡ a
          → Keeps s (leasing_file fh r f a s).1
          → Keeps s (lease_file fh r f s).1
      at a e k = subst (λ a. Keeps s (leasing_file fh r f a s).1) (sym e) k

      held :
          with_state (drop_lease busy.state).1 r ≡ r
          → Keeps s (drop_file fh (f r.payload (put_file fh busy s))).1
      held back =
          let (slots, files, dirs) = h r.payload (put_file fh busy s) in
          let m = (f r.payload (put_file fh busy s)).1.handles.files in
          let there : get fh m ≡ some busy =
            files fh ∙ ground (arith, get-insert fh fh busy s.handles.files) in
          (
            slots,
            λ k.
                get-drop_at fh k busy m there
                ∙ ground (arith, files k, get-insert fh k busy s.handles.files, here, back),
            dirs,
          )

  pub with_file-Keeps {ℓ} :
      {A : Type ℓ}
      → (ino fh : ℕ) (f : H → Exec (State N H D T) A) (s : State N H D T)
      → ((h : H) (u : State N H D T) → Keeps u (f h u).1)
      → Keeps s (with_file ino fh f s).1
  unfolding with_file
  with_file-Keeps ino fh f s h = elim (Option-cases (record_at ino fh s.handles.files)) [
    | inl no_file ↦ rw (no_file, with_file) (Keeps-refl s)
    | inr (r, here) ↦
        rw (here, with_file)
          (lease_file-Keeps fh r f s (record_at-some ino fh s.handles.files r here) h)
  ]

  pub lease_dir-Keeps {ℓ} :
      {A : Type ℓ}
      → (fh : ℕ) (r : HandleRecord D) (f : D → Exec (State N H D T) A) (s : State N H D T)
      → get fh s.handles.dirs ≡ some r
      → ((h : D) (u : State N H D T) → Keeps u (f h u).1)
      → Keeps s (lease_dir fh r f s).1
  unfolding lease_dir
  lease_dir-Keeps fh r f s here h = elim (acquire_cases r) [
    | inl closing ↦ at (ok false, r.state) closing (Keeps-refl s)
    | inr (inl full) ↦ at (panic, r.state) full (Keeps-refl s)
    | inr (inr (leased, back)) ↦ at _ leased (held back)
  ]
    where
      busy : HandleRecord D
      busy = with_state (record r.state { active = r.state.active + 1 }) r

      at :
          (a : Outcome Bool × HandleState)
          → acquire r.state ≡ a
          → Keeps s (leasing_dir fh r f a s).1
          → Keeps s (lease_dir fh r f s).1
      at a e k = subst (λ a. Keeps s (leasing_dir fh r f a s).1) (sym e) k

      held :
          with_state (drop_lease busy.state).1 r ≡ r
          → Keeps s (drop_dir fh (f r.payload (put_dir fh busy s))).1
      held back =
          let (slots, files, dirs) = h r.payload (put_dir fh busy s) in
          let m = (f r.payload (put_dir fh busy s)).1.handles.dirs in
          let there : get fh m ≡ some busy =
            dirs fh ∙ ground (arith, get-insert fh fh busy s.handles.dirs) in
          (
            slots,
            files,
            λ k.
                get-drop_at fh k busy m there
                ∙ ground (arith, dirs k, get-insert fh k busy s.handles.dirs, here, back),
          )

  pub with_dir-Keeps {ℓ} :
      {A : Type ℓ}
      → (ino fh : ℕ) (f : D → Exec (State N H D T) A) (s : State N H D T)
      → ((h : D) (u : State N H D T) → Keeps u (f h u).1)
      → Keeps s (with_dir ino fh f s).1
  unfolding with_dir
  with_dir-Keeps ino fh f s h = elim (Option-cases (record_at ino fh s.handles.dirs)) [
    | inl no_dir ↦ rw (no_dir, with_dir) (Keeps-refl s)
    | inr (r, here) ↦
        rw (here, with_dir)
          (lease_dir-Keeps fh r f s (record_at-some ino fh s.handles.dirs r here) h)
  ]
