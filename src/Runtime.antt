-- ===== src/Runtime.antt =====
-- typed-fuse-core/src/runtime.rs: `Runtime`, which runs a `NodeFs` behind inode and handle numbers.
-- A request is run from start to end here; what other requests do in between is in the step relations
-- of NodeTable/System and Handles/Protocol. Leases are dropped however the callback ends, a panic
-- included, as unwinding drops them.
pub mod Files
pub mod Entries
pub mod Requests
pub mod Directories
pub mod Balance
pub mod OpenClose
pub mod Lookups
use typed_fuse.Base.{
  ℕ, zero, suc, ◌+◌, ◌≤◌, ◌<◌, ◌≡◌, Bool, true, false, not, ◌&&◌, Option, none, some, List, [], ◌∷◌,
  eqb, ltb, if◌then◌else◌,
}
use typed_fuse.Base.Outcome.{
  Outcome, ok, err, panic, Errno, enoent, ebadf, Exec, pure, fail, continue, ◌>>=◌,
}
use typed_fuse.Base.Order.{nat_key}
use typed_fuse.Base.BTreeMap.{BTreeMap, get, insert}
use typed_fuse.NodeTable.{NodeTable, NodeRef, slot_at}
use typed_fuse.NodeTable.Cx
use typed_fuse.Handles.{HandleTable, HandleRecord, HandleState, acquire, drop_lease}

-- What a `Runtime` holds besides the filesystem's code and its timeouts.
pub record State (N H D T : Type 0) : Type 0 where
  pub table : NodeTable N
  pub handles : HandleTable H D
  pub world : T

module _ {N H D T : Type 0} where
  -- A callback without and with a `Cx`.
  abbrev pub call {ℓ} : {A : Type ℓ} → Exec T A → Exec (State N H D T) A
  call f s = let (r, w) = f s.world in (r, record s { world = w })

  abbrev pub call_cx {ℓ} : {A : Type ℓ} → Exec (NodeTable N × T) A → Exec (State N H D T) A
  call_cx f s = let (r, (t, w)) = f (s.table, s.world) in (r, record s { table = t; world = w })

  -- A critical section of the table's mutex.
  abbrev pub on_table {ℓ} : {A : Type ℓ} → Exec (NodeTable N) A → Exec (State N H D T) A
  on_table f s = let (r, t) = f s.table in (r, record s { table = t })

  -- The drop of the lease at the end of the scope that holds it.
  abbrev pub then_drop {ℓ} :
      {A : Type ℓ} → NodeRef N → Outcome A × State N H D T → Outcome A × State N H D T
  then_drop r (a, s) = (a, record s { table = Cx.drop_ref r s.table })

  abbrev pub holding {ℓ} :
      {A : Type ℓ}
      → (N → Exec (State N H D T) A)
      → Outcome (Option (NodeRef N))
      → Exec (State N H D T) A
  holding f (ok (some r)) s = then_drop r (f r.payload s)
  holding f (ok none) s = (err enoent, s)
  holding f (err e) s = (err e, s)
  holding f panic s = (panic, s)

  -- `let node = self.node(ino)?;` and what follows it.
  unfoldable pub with_node {ℓ} :
      {A : Type ℓ} → ℕ → (N → Exec (State N H D T) A) → Exec (State N H D T) A
  unfolding Cx.get Cx.drop_ref
  with_node ino f s = let (r, t) = Cx.get ino s.table in holding f r (record s { table = t })
