-- ===== src/NodeTable/Reuse.antt =====
-- When inode numbers are handed out, held and reclaimed (typed-fuse-core/src/runtime.rs): what the
-- kernel and the filesystem rely on.
use typed_fuse.Base.{
  ℕ, ◌+◌, ◌-◌, ◌≤◌, ◌<◌, ◌≡◌, ◌≢◌, ◌&&◌, none, some, List, Option-cases, inl, inr, arith, ltb, leb,
  if◌then◌else◌, length, u32_max, u64_mod,
}
use typed_fuse.Base.Outcome.{ok}
use typed_fuse.Base.Order.{nat_key}
use typed_fuse.Base.BTreeMap.{get, get-insert}
use typed_fuse.NodeTable.{
  maybe_drop, Slot, NodeTable, NodeRef, slot_at, droppable, new_slot, ref_to,
}
use typed_fuse.NodeTable.Cx
use typed_fuse.NodeTable.Counts
use typed_fuse.NodeTable.Effects.{free_at, slot_at-put, slot_at-maybe_drop}
use typed_fuse.NodeTable.System.{Call, run, start, ref_at}
use typed_fuse.NodeTable.Sound.{IsSound, insert_cases, unused}
use typed_fuse.NodeTable.Held.{IsLive-at, refs_on-without}
use typed_fuse.NodeTable.Identity.{IsUnique}
use typed_fuse.NodeTable.Lifetime.{IsConsistent, start-IsConsistent, run-IsConsistent}

module _ {N : Type 0} where
  reached :
      (payload : N) (cs : List (Call N))
      → length cs + 2 < u64_mod
      → IsConsistent (length cs + 0) (run cs (start payload))
  reached payload cs small =
      run-IsConsistent 0 cs (start payload) (omega arith) (start-IsConsistent payload)

  -- From a new runtime, whatever the interleaving of fewer than 2^64 - 2 table sections: no two
  -- insertions hand out the same inode number with the same generation, the root's included.
  pub issued-IsUnique :
      (payload : N) (cs : List (Call N))
      → length cs + 2 < u64_mod
      → IsUnique (run cs (start payload)).issued
  issued-IsUnique payload cs small = (reached payload cs small).unique

  -- From a new runtime, after any such interleaving: a lease that is alive dereferences to its own
  -- slot, which has the lease's record and payload and counts at least this lease.
  pub lease-IsLive :
      (payload : N) (cs : List (Call N)) (n : ℕ) (r : NodeRef N)
      → length cs + 2 < u64_mod
      → ref_at (run cs (start payload)).refs n ≡ some r
      → (s : Slot N) × (slot_at (run cs (start payload)).table r.id ≡ some s)
        × (s.record_id ≡ r.record_id)
        × (s.payload ≡ r.payload)
        × (1 ≤ s.leases)
  lease-IsLive payload cs n r small on =
      let v = reached payload cs small in
      let refs = (run cs (start payload)).refs in
      let (s, e, id, load) =
        IsLive-at (run cs (start payload)).table n r refs on v.kept.held.live in
      (s, e, id, load, ground (arith, v.kept.held.counted r.id s, refs_on-without n r.id r refs on))

  -- After any such interleaving: every slot in the table is held by a link, a lookup, an open
  -- handle or a lease, and every inode number that was ever handed out and has no slot waits on the
  -- free stack.
  pub no_leak :
      (payload : N) (cs : List (Call N))
      → length cs + 2 < u64_mod
      → let t = (run cs (start payload)).table in
        ((i : ℕ) (s : Slot N) → slot_at t i ≡ some s → 0 < s.links + s.lookups + s.opens + s.leases)
        × ((i : ℕ) → 1 ≤ i → i < t.next_ino → slot_at t i ≡ none → (g : ℕ) × (free_at t i ≡ some g))
  unfolding droppable
  no_leak payload cs small =
      let v = reached payload cs small in
      (
        λ i s e. ground (arith, v.alive i s e),
        λ i lo hi out. elim (Option-cases (free_at (run cs (start payload)).table i)) [
          | inl off ↦ absurd (v.kept.sound.covered i lo hi out off)
          | inr on ↦ on
        ],
      )

  insert_effect :
      (k : ℕ) (payload : N) (parent : ℕ) (t : NodeTable N)
      → IsSound k t
      → let (ino, u) = Cx.insert payload parent t in
        (slot_at t ino ≡ none)
        × ((j : ℕ) → j ≢ ino → slot_at u j ≡ slot_at t j)
        × ((g : ℕ) × (slot_at u ino ≡ some (new_slot t.next_record payload g parent)))
  unfolding get
  insert_effect k payload parent t v =
      insert_cases
        (λ r.
          (slot_at t r.0 ≡ none)
          × ((j : ℕ) → j ≢ r.0 → slot_at r.1 j ≡ slot_at t j)
          × ((g : ℕ) × (slot_at r.1 r.0 ≡ some (new_slot t.next_record payload g parent))))
        payload parent t
        (λ e. (
          unused k t v,
          λ j ne.
              ground
                (arith, get-insert t.next_ino j (new_slot t.next_record payload 0 parent) t.map),
          (
            0,
            ground (
              arith,
              get-insert t.next_ino t.next_ino (new_slot t.next_record payload 0 parent) t.map,
            ),
          ),
        ))
        (λ i g rest e. (
          ground (arith, v.free_numbered i g),
          λ j ne. ground (arith, get-insert i j (new_slot t.next_record payload g parent) t.map),
          (g, ground (arith, get-insert i i (new_slot t.next_record payload g parent) t.map)),
        ))

  -- After any such interleaving, `Cx::insert` returns a number with no slot, so one that is leased,
  -- looked up, open or linked by nobody. It leaves every other slot as it was, and the new slot has
  -- one link, no other holder, the given payload and the given parent.
  pub insert_takes_unused :
      (payload : N) (cs : List (Call N)) (fresh : N) (parent : ℕ)
      → length cs + 2 < u64_mod
      → let t = (run cs (start payload)).table in
        let (ino, u) = Cx.insert fresh parent t in
        (slot_at t ino ≡ none)
        × ((j : ℕ) → j ≢ ino → slot_at u j ≡ slot_at t j)
        × ((g : ℕ) × (slot_at u ino ≡ some (new_slot t.next_record fresh g parent)))
  insert_takes_unused payload cs fresh parent small =
      insert_effect (length cs + 0) fresh parent _ (reached payload cs small).kept.sound

  -- `forget` of `n` lookups on a slot whose lease counter has room: the filesystem is notified, through
  -- a lease on the slot, exactly if there were lookups and none is left. The slot then stays, leased.
  -- Otherwise the slot has the lookups that are left, and the look whether it can go removes it exactly
  -- if nothing holds it.
  pub forget_notifies :
      (i n : ℕ) (s : Slot N) (t : NodeTable N)
      → slot_at t i ≡ some s
      → s.leases < u32_max
      → let notified = ltb 0 s.lookups && leb s.lookups n in
        let left = record s { lookups = s.lookups - n } in
        ((Counts.forget_lookups i n t).0 ≡ ok (if notified then some (ref_to i s) else none))
        × (slot_at (Counts.forget_lookups i n t).1 i
            ≡ some (if notified then record left { leases = s.leases + 1 } else left))
        × (slot_at (maybe_drop i (Counts.forget_lookups i n t).1) i ≡ (
            if notified
            then some (record left { leases = s.leases + 1 })
            else if droppable left
            then none
            else some left))
  unfolding Counts.forget_lookups droppable
  forget_notifies i n s t e room =
      let left : Slot N = record s { lookups = s.lookups - n } in
      ground (
        arith,
        slot_at-put i i left t,
        slot_at-put i i (record left { leases = s.leases + 1 }) t,
        slot_at-maybe_drop i i (Counts.forget_lookups i n t).1,
      )
