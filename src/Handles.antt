-- ===== src/Handles.antt =====
-- typed-fuse-core/src/runtime.rs: open handles, their leases and the table that numbers them. A
-- function on `HandleRecord` is one critical section of the record's mutex. The payload stands in
-- the record until `taken`, as it does in its `ManuallyDrop`.
pub mod Protocol
pub mod Numbers
use typed_fuse.Base.{
  ℕ, ◌+◌, ◌-◌, ◌%◌, Bool, true, false, ◌&&◌, Option, none, some, [], eqb, if◌then◌else◌,
  checked_succ, u32_max, u64_mod,
}
use typed_fuse.Base.Outcome.{Outcome, ok, panic, Exec}
use typed_fuse.Base.Order.{nat_key}
use typed_fuse.Base.BTreeMap.{BTreeMap, insert}

pub record HandleState : Type 0 where
  pub active : ℕ
  pub closing : Bool
  pub taken : Bool

pub record HandleRecord (H : Type 0) : Type 0 where
  pub node : ℕ
  pub payload : H
  pub state : HandleState

pub record HandleTable (H D : Type 0) : Type 0 where
  pub files : BTreeMap ℕ (HandleRecord H)
  pub dirs : BTreeMap ℕ (HandleRecord D)
  pub next_fh : ℕ

abbrev pub new_state : HandleState
new_state = record { active = 0; closing = false; taken = false }

-- Whether a lease was given. The count's `expect` panics before it is written.
unfoldable pub acquire : Exec HandleState Bool
acquire s = if s.closing then (ok false, s) else elim (checked_succ u32_max s.active) [
  | none ↦ (panic, s)
  | some n ↦ (ok true, record s { active = n })
]

-- `HandleLease::drop`, and whether it wakes the waiting `close_and_take`.
unfoldable pub drop_lease : HandleState → Bool × HandleState
drop_lease s = let left = s.active - 1 in (eqb left 0 && s.closing, record s { active = left })

-- `close_and_take` up to its wait, and the test of the wait with what follows it.
abbrev pub close : HandleState → HandleState
close s = record s { closing = true }

-- None: `active` leases are left and the caller waits for `drained`.
unfoldable pub try_take : HandleState → Option HandleState
try_take s = if eqb s.active 0 then some (record s { taken = true }) else none

-- `HandleRecord::drop`: whether it drops the payload.
abbrev pub drops_payload : HandleState → Bool
drops_payload s = if s.taken then false else true

module _ {H : Type 0} where
  abbrev pub new_record : ℕ → H → HandleRecord H
  new_record node payload = record { node = node; payload = payload; state = new_state }

module _ {H D : Type 0} where
  abbrev pub new_handles : HandleTable H D
  new_handles = record { files = []; dirs = []; next_fh = 1 }

  -- `self.next_fh += 1` on u64.
  abbrev pub next : HandleTable H D → ℕ × HandleTable H D
  next t = (t.next_fh, record t { next_fh = (t.next_fh + 1) % u64_mod })

  unfoldable pub add_file : ℕ → H → HandleTable H D → ℕ × HandleTable H D
  add_file node handle t =
      let (fh, u) = next t in (fh, record u { files = insert fh (new_record node handle) u.files })

  unfoldable pub add_dir : ℕ → D → HandleTable H D → ℕ × HandleTable H D
  add_dir node handle t =
      let (fh, u) = next t in (fh, record u { dirs = insert fh (new_record node handle) u.dirs })
