-- ===== src/Handles/Protocol.antt =====
-- The life of one open handle among concurrent requests (typed-fuse-core/src/runtime.rs:
-- `HandleRecord`, `HandleLease`, `Runtime::file` and `Runtime::release`). Each call below is what one
-- request does between two waits; any list of calls is an interleaving.
pub mod Safe
use typed_fuse.Base.{
  ℕ, zero, suc, ◌+◌, ◌-◌, ◌≤◌, ◌<◌, ◌≡◌, ◌≢◌, refl, Bool, true, false, not, ◌&&◌, Option, none,
  some, List, [], ◌∷◌, eqb, ltb, if◌then◌else◌, arith, u32_max, checked_succ,
}
use typed_fuse.Base.Outcome.{Outcome, ok, err, panic, Exec}
use typed_fuse.Handles.{HandleState, new_state, acquire, drop_lease, close, try_take, drops_payload}

-- The request that removed the record from the table, if there is one.
pub data Closer : Type 0 where
  absent : Closer
  -- It owns the record and has not locked it yet.
  removed : Closer
  -- It is asleep on `drained`.
  asleep : Closer
  -- It was woken, and tests `active` again.
  woken : Closer
  -- It has moved the payload out and dropped its reference.
  done : Closer

pub record Life : Type 0 where
  pub state : HandleState
  pub in_table : Bool
  -- References that requests cloned out of the table.
  pub clones : ℕ
  pub leases : ℕ
  pub closer : Closer
  -- The record itself is gone.
  pub freed : Bool
  -- How often the payload was moved out, and how often it was dropped in place.
  pub moves : ℕ
  pub drops : ℕ

pub data Call : Type 0 where
  clones_record : Call
  acquires : Call
  drops_clone : Call
  drops_lease : Call
  removes_record : Call
  -- `close_and_take` begins.
  closes : Call
  -- The closer runs on after a wake, also a spurious one.
  wakes : Call
  -- The table is dropped with the record in it.
  drops_table : Call

abbrev pub opened : Life
opened = record {
  state = new_state;
  in_table = true;
  clones = 0;
  leases = 0;
  closer = absent;
  freed = false;
  moves = 0;
  drops = 0;
}

abbrev pub owns : Closer → Bool
owns absent = false
owns removed = true
owns asleep = true
owns woken = true
owns done = false

-- The last reference frees the record, and `Drop` may drop the payload.
abbrev pub settle : Life → Life
settle l =
    if l.in_table
    then l
    else if ltb 0 (l.clones + l.leases)
    then l
    else if owns l.closer
    then l
    else if l.freed
    then l
    else record l { freed = true; drops = if drops_payload l.state then l.drops + 1 else l.drops }

abbrev pub took : Option HandleState → Life → Life
took none l = record l { closer = asleep }
took (some s) l = settle (record l { state = s; closer = done; moves = l.moves + 1 })

abbrev pub woke : Bool → Closer → Closer
woke true asleep = woken
woke true absent = absent
woke true removed = removed
woke true woken = woken
woke true done = done
woke false c = c

-- The closer holds the lock and tests `active`.
abbrev pub attempt : Life → Life
attempt l = took (try_take l.state) l

abbrev pub resume : Closer → Life → Life
resume asleep l = attempt l
resume woken l = attempt l
resume absent l = l
resume removed l = l
resume done l = l

abbrev pub begin : Closer → Life → Life
begin removed l = attempt (record l { state = close l.state; closer = woken })
begin absent l = l
begin asleep l = l
begin woken l = l
begin done l = l

abbrev pub without_clone : Life → Life
without_clone l = record l { clones = l.clones - 1 }

abbrev pub without_lease : Life → Life
without_lease l =
    let (wakes_closer, s) = drop_lease l.state in
    record l { state = s; leases = l.leases - 1; closer = woke wakes_closer l.closer }

abbrev pub without_table : Life → Life
without_table l = record l { in_table = false }

abbrev pub leased : Outcome Bool × HandleState → Life → Life
leased (ok true, s) l = record l { state = s; clones = l.clones - 1; leases = l.leases + 1 }
leased (ok false, s) l = settle (without_clone l)
leased (err e, s) l = settle (without_clone l)
leased (panic, s) l = settle (without_clone l)

unfoldable pub step : Call → Life → Life
unfolding acquire drop_lease try_take
step clones_record l = if l.in_table then record l { clones = l.clones + 1 } else l
step acquires l = if ltb 0 l.clones then leased (acquire l.state) l else l
step drops_clone l = if ltb 0 l.clones then settle (without_clone l) else l
step drops_lease l = if ltb 0 l.leases then settle (without_lease l) else l
step removes_record l = if l.in_table then record l { in_table = false; closer = removed } else l
step closes l = begin l.closer l
step wakes l = resume l.closer l
step drops_table l = if l.in_table then settle (without_table l) else l

unfoldable pub run : List Call → Life → Life
run [] l = l
run (c ∷ cs) l = run cs (step c l)
