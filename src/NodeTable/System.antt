-- ===== src/NodeTable/System.antt =====
-- The table as concurrent requests see it (typed-fuse-core/src/runtime.rs). Each section that holds
-- the table's mutex is one call, and any list of calls is an interleaving of any number of requests.
-- `refs` are the `NodeRef` values that are alive in some request, and `issued` are the pairs of number
-- and generation that `Cx::insert` has handed out.
use typed_fuse.Base.{ℕ, zero, suc, Option, none, some, List, [], ◌∷◌}
use typed_fuse.Base.Outcome.{Outcome, ok, err, panic}
use typed_fuse.NodeTable.{Slot, NodeTable, NodeRef, slot_at, maybe_drop, root_table, root_id}
use typed_fuse.NodeTable.Cx
use typed_fuse.NodeTable.Counts

pub record System (N : Type 0) : Type 0 where
  pub table : NodeTable N
  pub refs : List (NodeRef N)
  pub issued : List (ℕ × ℕ)

pub data Call (N : Type 0) : Type 0 where
  gets : ℕ → Call N
  inserts : N → ℕ → Call N
  reparents : ℕ → ℕ → Call N
  adds_link : ℕ → Call N
  removes_link : ℕ → Call N
  -- `entry_for` and `retain_lookup`
  looks_up : ℕ → Call N
  forgets : ℕ → ℕ → Call N
  -- The last section of a `forget` that has not reached zero.
  settles : ℕ → Call N
  adds_open : ℕ → Call N
  removes_open : ℕ → Call N
  -- The drop of the lease at this place of `refs`.
  drops : ℕ → Call N

module _ {N : Type 0} where
  abbrev pub taken : Outcome (Option (NodeRef N)) → List (NodeRef N) → List (NodeRef N)
  taken (ok (some r)) refs = r ∷ refs
  taken (ok none) refs = refs
  taken (err e) refs = refs
  taken panic refs = refs

  abbrev pub ref_at : List (NodeRef N) → ℕ → Option (NodeRef N)
  ref_at [] k = none
  ref_at (r ∷ refs) zero = some r
  ref_at (r ∷ refs) (suc k) = ref_at refs k

  abbrev pub without : ℕ → List (NodeRef N) → List (NodeRef N)
  without k [] = []
  without zero (r ∷ refs) = refs
  without (suc k) (r ∷ refs) = r ∷ without k refs

  abbrev pub generation_of : Option (Slot N) → ℕ
  generation_of none = 0
  generation_of (some s) = s.generation

  unfoldable pub step : Call N → System N → System N
  step (gets id) s = let (r, t) = Cx.get id s.table in record s { table = t; refs = taken r s.refs }
  step (inserts payload parent) s =
      let (ino, t) = Cx.insert payload parent s.table in
      record s { table = t; issued = (ino, generation_of (slot_at t ino)) ∷ s.issued }
  step (reparents id parent) s = record s { table = Cx.reparent id parent s.table }
  step (adds_link id) s = record s { table = (Cx.add_link id s.table).1 }
  step (removes_link id) s = record s { table = Cx.remove_link id s.table }
  step (looks_up id) s = record s { table = (Counts.retain_entry id s.table).1 }
  step (forgets id n) s =
      let (r, t) = Counts.forget_lookups id n s.table in
      record s { table = t; refs = taken r s.refs }
  step (settles id) s = record s { table = maybe_drop id s.table }
  step (adds_open id) s = record s { table = (Counts.add_open id s.table).1 }
  step (removes_open id) s = record s { table = Counts.remove_open id s.table }
  step (drops k) s = elim (ref_at s.refs k) [
    | none ↦ s
    | some r ↦ record s { table = Cx.drop_ref r s.table; refs = without k s.refs }
  ]

  unfoldable pub run : List (Call N) → System N → System N
  run [] s = s
  run (c ∷ cs) s = run cs (step c s)

  -- After `Runtime::new`.
  unfoldable pub start : N → System N
  start payload = record { table = root_table payload; refs = []; issued = (root_id, 0) ∷ [] }
