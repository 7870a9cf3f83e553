-- ===== src/NodeTable.antt =====
-- typed-fuse-core/src/runtime.rs: the inode table, its leases and the `Cx` that callbacks receive.
-- Each function is one critical section of the table's mutex. An `Arc<NodeRecord>` is its payload
-- with the number of its allocation, so that `Arc::ptr_eq` compares those numbers; `next_record`
-- stands for the allocator, which never hands out an address that is still referred to.
-- Slot counters are u32 and u64 with `checked_add`, whose `expect` panics before anything is written.
pub mod Cx
pub mod Counts
pub mod Effects
pub mod System
pub mod Sound
pub mod Held
pub mod Identity
pub mod Kept
pub mod Steps
pub mod Lifetime
pub mod Reuse
use typed_fuse.Base.{
  ℕ, ◌+◌, ◌-◌, ◌%◌, Bool, true, false, ◌&&◌, Option, none, some, List, [], ◌∷◌, eqb, ltb,
  if◌then◌else◌, checked_succ, u32_max, u64_max, u64_mod,
}
use typed_fuse.Base.Outcome.{Outcome, ok, err, panic, Errno, enoent, Exec}
use typed_fuse.Base.Order.{nat_key}
use typed_fuse.Base.BTreeMap.{BTreeMap, get, insert, remove}

pub record Slot (N : Type 0) : Type 0 where
  pub record_id : ℕ
  pub payload : N
  pub generation : ℕ
  pub links : ℕ
  pub lookups : ℕ
  pub opens : ℕ
  pub leases : ℕ
  pub parent : ℕ

pub record NodeTable (N : Type 0) : Type 0 where
  pub map : BTreeMap ℕ (Slot N)
  pub next_ino : ℕ
  -- The head is the top of the stack.
  pub free : List (ℕ × ℕ)
  pub next_record : ℕ

pub record NodeRef (N : Type 0) : Type 0 where
  pub id : ℕ
  pub record_id : ℕ
  pub payload : N

abbrev pub root_id : ℕ
root_id = 1

module _ {N : Type 0} where
  abbrev pub slot_at : NodeTable N → ℕ → Option (Slot N)
  slot_at t ino = get ino t.map

  unfoldable pub droppable : Slot N → Bool
  droppable s = eqb s.links 0 && (eqb s.lookups 0 && (eqb s.opens 0 && eqb s.leases 0))

  unfoldable pub empty_table : NodeTable N
  empty_table = record { map = []; next_ino = 2; free = []; next_record = 0 }

  -- The number and the generation of a new inode, and the table that is left.
  unfoldable pub alloc : NodeTable N → (ℕ × ℕ) × NodeTable N
  alloc t = elim t.free [
    | [] ↦ ((t.next_ino, 0), record t { next_ino = (t.next_ino + 1) % u64_mod })
    | entry ∷ rest ↦ (entry, record t { free = rest })
  ]

  -- The slot is removed and its number put on the free stack with the next generation.
  abbrev pub reclaim : ℕ → Slot N → NodeTable N → NodeTable N
  reclaim ino s t = record t {
    map = remove ino t.map;
    free = (ino, (s.generation + 1) % u64_mod) ∷ t.free;
  }

  unfoldable pub maybe_drop : ℕ → NodeTable N → NodeTable N
  unfolding droppable
  maybe_drop ino t = elim (get ino t.map) [
    | none ↦ t
    | some s ↦ if droppable s then reclaim ino s t else t
  ]

  -- `if let Some(slot) = map.get_mut(&ino) { … }`
  unfoldable pub touch : ℕ → (Slot N → Slot N) → NodeTable N → NodeTable N
  touch ino f t = elim (get ino t.map) [
    | none ↦ t
    | some s ↦ record t { map = insert ino (f s) t.map }
  ]

  abbrev pub ref_to : ℕ → Slot N → NodeRef N
  ref_to id s = record { id = id; record_id = s.record_id; payload = s.payload }

  abbrev pub new_slot : ℕ → N → ℕ → ℕ → Slot N
  new_slot record_id payload generation parent = record {
    record_id = record_id;
    payload = payload;
    generation = generation;
    links = 1;
    lookups = 0;
    opens = 0;
    leases = 0;
    parent = parent;
  }

  abbrev pub put : ℕ → Slot N → NodeTable N → NodeTable N
  put ino s t = record t { map = insert ino s t.map }

  -- `Runtime::new`: the table with the root inode.
  unfoldable pub root_table : N → NodeTable N
  unfolding empty_table
  root_table payload = record empty_table {
    map = insert root_id (new_slot 0 payload 0 root_id) [];
    next_record = 1;
  }
