-- ===== src/Handles/Protocol/Safe.antt =====
-- What holds of an open handle under every interleaving (typed-fuse-core/src/runtime.rs).
use typed_fuse.Base.{
  ℕ, zero, suc, ◌+◌, ◌<◌, ◌≡◌, refl, Bool, true, false, not, ◌&&◌, ◌||◌, List, [], ◌∷◌, eqb, ltb,
  arith, replicate, Bool-cases, Option-cases, inl, inr, u32_max, checked_succ,
}
use typed_fuse.Handles.{acquire, close, try_take}
use typed_fuse.Handles.Protocol.{
  Closer, absent, removed, asleep, woken, done, Life, Call, clones_record, acquires, drops_clone,
  drops_lease, removes_record, closes, wakes, drops_table, opened, owns, settle, step, run, attempt,
  resume, begin, without_clone, without_lease, without_table, leased,
}

abbrev pub is_asleep : Closer → Bool
is_asleep asleep = true
is_asleep absent = false
is_asleep removed = false
is_asleep woken = false
is_asleep done = false

abbrev pub is_done : Closer → Bool
is_done done = true
is_done asleep = false
is_done absent = false
is_done removed = false
is_done woken = false

abbrev pub is_waiting : Closer → Bool
is_waiting asleep = true
is_waiting woken = true
is_waiting absent = false
is_waiting removed = false
is_waiting done = false

abbrev pub is_absent : Closer → Bool
is_absent absent = true
is_absent asleep = false
is_absent removed = false
is_absent woken = false
is_absent done = false

abbrev pub count : Bool → ℕ
count true = 1
count false = 0

pub record IsSafe (l : Life) : Type 0 where
  pub counted : l.state.active ≡ l.leases
  -- The payload is in place while leases are, and is moved or dropped at most once.
  pub moved : l.moves ≡ count l.state.taken
  pub dropped : l.drops ≡ count (l.freed && not l.state.taken)
  pub closed : l.state.closing ≡ (is_waiting l.closer || is_done l.closer)
  pub taken : l.state.taken ≡ is_done l.closer
  pub drained : l.state.taken ≡ true → l.leases ≡ 0
  pub freed : l.freed ≡ true → l.leases + l.clones ≡ 0
  pub unreachable : l.freed ≡ true → l.in_table ≡ false
  pub unowned : l.freed ≡ true → owns l.closer ≡ false
  pub owned : l.in_table ≡ true → l.closer ≡ absent
  pub waits : is_asleep l.closer ≡ true → 0 < l.leases

opened-IsSafe : IsSafe opened
opened-IsSafe = record {
  counted = refl;
  moved = refl;
  dropped = refl;
  closed = refl;
  taken = refl;
  drained = λ h. refl;
  freed = λ h. refl;
  unreachable = λ h. cc;
  unowned = λ h. refl;
  owned = λ h. refl;
  waits = λ h. cc;
}

settle-IsSafe : (l : Life) → IsSafe l → IsSafe (settle l)
settle-IsSafe l v = record {
  counted = ground (arith, v.counted);
  moved = ground (arith, v.moved);
  dropped = ground (arith, v.dropped);
  closed = ground (arith, v.closed);
  taken = ground (arith, v.taken);
  drained = ground (arith, v.drained);
  freed = ground (arith, v.freed);
  unreachable = ground (arith, v.unreachable);
  unowned = ground (arith, v.unowned);
  owned = ground (arith, v.owned);
  waits = ground (arith, v.waits);
}

attempt-IsSafe : (l : Life) → is_waiting l.closer ≡ true → IsSafe l → IsSafe (attempt l)
unfolding try_take
attempt-IsSafe l waiting v = elim (Bool-cases (eqb l.state.active 0)) [
  | inl drained ↦ rw drained (
      settle-IsSafe
        (record l { state = record l.state { taken = true }; closer = done; moves = l.moves + 1 })
        (ground arith))
  | inr busy ↦ rw busy (ground arith)
]

resume-IsSafe : (c : Closer) (l : Life) → l.closer ≡ c → IsSafe l → IsSafe (resume c l)
resume-IsSafe asleep l h v = attempt-IsSafe l (ground arith) v
resume-IsSafe woken l h v = attempt-IsSafe l (ground arith) v
resume-IsSafe absent l h v = v
resume-IsSafe removed l h v = v
resume-IsSafe done l h v = v

begin-IsSafe : (c : Closer) (l : Life) → l.closer ≡ c → IsSafe l → IsSafe (begin c l)
begin-IsSafe removed l h v =
    attempt-IsSafe (record l { state = close l.state; closer = woken }) refl (ground arith)
begin-IsSafe asleep l h v = v
begin-IsSafe woken l h v = v
begin-IsSafe absent l h v = v
begin-IsSafe done l h v = v

leased-IsSafe : (l : Life) → 0 < l.clones → IsSafe l → IsSafe (leased (acquire l.state) l)
unfolding acquire
leased-IsSafe l some_clone v = elim (Bool-cases l.state.closing) [
  | inl closing ↦ simp closing (settle-IsSafe (without_clone l) (ground arith))
  | inr running ↦ elim (Option-cases (checked_succ u32_max l.state.active)) [
    | inl full ↦ simp (running, full) (settle-IsSafe (without_clone l) (ground arith))
    | inr (n, room) ↦ simp (running, room) (ground arith)
  ]
]

step-IsSafe : (c : Call) (l : Life) → IsSafe l → IsSafe (step c l)
unfolding step
step-IsSafe clones_record l v = ground arith
step-IsSafe acquires l v = elim (Bool-cases (ltb 0 l.clones)) [
  | inl some_clone ↦ rw some_clone (leased-IsSafe l (ground arith) v)
  | inr no_clone ↦ rw no_clone v
]
step-IsSafe drops_clone l v = elim (Bool-cases (ltb 0 l.clones)) [
  | inl some_clone ↦ rw some_clone (settle-IsSafe (without_clone l) (ground arith))
  | inr no_clone ↦ rw no_clone v
]
step-IsSafe drops_lease l v = elim (Bool-cases (ltb 0 l.leases)) [
  | inl some_lease ↦ rw some_lease (settle-IsSafe (without_lease l) (ground arith))
  | inr no_lease ↦ rw no_lease v
]
step-IsSafe removes_record l v = ground arith
step-IsSafe closes l v = begin-IsSafe l.closer l refl v
step-IsSafe wakes l v = resume-IsSafe l.closer l refl v
step-IsSafe drops_table l v = elim (Bool-cases l.in_table) [
  | inl inside ↦ simp inside (settle-IsSafe (without_table l) (ground arith))
  | inr outside ↦ simp outside v
]

run-IsSafe_from : (cs : List Call) (l : Life) → IsSafe l → IsSafe (run cs l)
unfolding run
run-IsSafe_from [] l v = v
run-IsSafe_from (c ∷ cs) l v = run-IsSafe_from cs (step c l) (step-IsSafe c l v)

-- Under every interleaving, an open handle's payload is in place while any request has a lease on
-- it; it is moved out at most once and only when no lease is left, and dropped in place at most once
-- and only if it was not moved out; no lease is counted that nobody has; and the request that
-- closes the handle sleeps only while a lease is left.
pub run-IsSafe : (cs : List Call) → IsSafe (run cs opened)
run-IsSafe cs = run-IsSafe_from cs opened opened-IsSafe

abbrev pub is_woken : Closer → Bool
is_woken woken = true
is_woken asleep = false
is_woken absent = false
is_woken removed = false
is_woken done = false

drain :
    (n : ℕ) (l : Life)
    → IsSafe l
    → is_waiting l.closer ≡ true
    → l.leases ≡ n
    → let l' = run (replicate n drops_lease) l in
      (is_woken l'.closer ≡ true) × (is_done (step wakes l').closer ≡ true)
unfolding run step
drain zero l v waiting h = ends l.closer refl
  where
    ends :
        (c : Closer)
        → l.closer ≡ c
        → (is_woken l.closer ≡ true) × (is_done (resume c l).closer ≡ true)
    ends asleep e = absurd (ground (arith, v.waits))
    ends woken e = (ground arith, ground arith)
    ends absent e = absurd (ground arith)
    ends removed e = absurd (ground arith)
    ends done e = absurd (ground arith)
drain (suc n) l v waiting h =
    drain n (step drops_lease l) (step-IsSafe drops_lease l v) (ground arith) (ground arith)

-- A release that waits, after any interleaving, is woken: once the leases that are left have been
-- dropped, and with nothing else done, the closer is no longer asleep, and when it runs on it
-- takes the payload.
pub close_ends :
    (cs : List Call)
    → let l = run cs opened in
      is_waiting l.closer ≡ true
      → let l' = run (replicate l.leases drops_lease) l in
        (is_woken l'.closer ≡ true) × (is_done (step wakes l').closer ≡ true)
close_ends cs waiting = drain (run cs opened).leases (run cs opened) (run-IsSafe cs) waiting refl
