-- ===== src/Runtime/Lookups.antt =====
-- The kernel's lookups (typed-fuse-core/src/runtime.rs: `entry_for` and `forget`).
use typed_fuse.Base.{
  ℕ, ◌+◌, ◌-◌, ◌<◌, ◌≡◌, refl, ap, ◌∙◌, false, Option, none, some, Bool-cases, inl, inr, eqb,
  if◌then◌else◌, arith, u32_max,
}
use typed_fuse.Base.Outcome.{Outcome, ok, err, Errno, continue, ◌>>=◌}
use typed_fuse.Base.Order.{nat_key}
use typed_fuse.NodeTable.{NodeTable, NodeRef, Slot, slot_at, droppable, put, ref_to}
use typed_fuse.NodeTable.Cx
use typed_fuse.NodeTable.Counts
use typed_fuse.NodeTable.Effects.{slot_at-put, slot_at-maybe_drop}
use typed_fuse.NodeFs.{NodeFs, Caller}
use typed_fuse.Runtime.{State, on_table, then_drop}
use typed_fuse.Runtime.Entries.{EntryReply, entry_for, forget, notify}
use typed_fuse.Runtime.Balance.{drop_ref_back}
use typed_fuse.Base.{u64_max}
use typed_fuse.Base.Outcome.{pure}
use typed_fuse.Attr.{NodeAttr}
use typed_fuse.Runtime.OpenClose.{with_node-at, same_number, leased}

module _ {N : Type 0} where
  abbrev pub with_lookup : Slot N → Slot N
  with_lookup s = record s { lookups = s.lookups + 1 }

  retain_entry-at :
      (id : ℕ) (s : Slot N) (t : NodeTable N)
      → slot_at t id ≡ some s
      → s.lookups < u64_max
      → Counts.retain_entry id t ≡ (ok s.generation, put id (with_lookup s) t)
  unfolding Counts.retain_entry
  retain_entry-at id s t here room = rw (here, Counts.retain_entry) (ground arith)

  -- The table after the lookup is counted and the lease is dropped again.
  pub entered_table : ℕ → Slot N → NodeTable N → NodeTable N
  entered_table id slot t =
      Cx.drop_ref (ref_to id slot) (put id (with_lookup (leased slot)) (put id (leased slot) t))

  pub entered_slot :
      (id : ℕ) (slot : Slot N) (t : NodeTable N)
      → slot_at t id ≡ some slot
      → (j : ℕ)
      → slot_at (entered_table id slot t) j
        ≡ (if eqb id j then some (with_lookup slot) else slot_at t j)
  unfolding entered_table droppable
  entered_slot id slot t here j =
      drop_ref_back id j (with_lookup slot)
        (put id (with_lookup (leased slot)) (put id (leased slot) t)) (ground arith)
        (ground (arith, slot_at-put id id (with_lookup (leased slot)) (put id (leased slot) t)))
      ∙ ground (
        arith,
        slot_at-put id j (with_lookup (leased slot)) (put id (leased slot) t),
        slot_at-put id j (leased slot) t,
      )

  pub leased_back :
      (id j : ℕ) (slot : Slot N) (t : NodeTable N)
      → slot_at t id ≡ some slot
      → droppable slot ≡ false
      → slot_at (Cx.drop_ref (ref_to id slot) (put id (leased slot) t)) j ≡ slot_at t j
  leased_back id j slot t here live =
      drop_ref_back id j slot (put id (leased slot) t) live
        (slot_at-put id id (leased slot) t ∙ same_number _ id)
      ∙ ground (arith, slot_at-put id j (leased slot) t, here)

  -- What `forget` of one lookup does to the table: the last one leases the node.
  pub forget_one :
      (id : ℕ) (slot : Slot N) (t : NodeTable N)
      → slot_at t id ≡ some (with_lookup slot)
      → slot.leases < u32_max
      → Counts.forget_lookups id 1 t ≡ (
          if eqb slot.lookups 0
          then (ok (some (ref_to id slot)), put id (leased slot) t)
          else (ok none, put id slot t))
  unfolding Counts.forget_lookups
  forget_one id slot t here room =
      let back : slot.lookups + 1 - 1 ≡ slot.lookups = omega arith in
      elim (Bool-cases (eqb slot.lookups 0)) [
        | inl last ↦ rw (here, Counts.forget_lookups) (simp back (ground arith))
        | inr more ↦ rw (here, Counts.forget_lookups) (simp back (ground arith))
      ]

module _ {N H D T : Type 0} (fs : NodeFs N H D T) where
  pub entry_for-at :
      (id : ℕ) (caller : Caller) (s : State N H D T) (slot : Slot N) (attr : NodeAttr) (w : T)
      → slot_at s.table id ≡ some slot
      → slot.leases < u32_max
      → slot.lookups < u64_max
      → fs.entry_attr slot.payload caller s.world ≡ (ok attr, w)
      → entry_for fs id caller s ≡ (
        ok (record { ino = id; generation = slot.generation; attr = attr }),
        record { table = entered_table id slot s.table; handles = s.handles; world = w },
      )
  unfolding entry_for entered_table
  entry_for-at id caller s slot attr w here leases room e =
      with_node-at id _ s slot here leases
      ∙ ap (then_drop (ref_to id slot)) (
          ap
            (λ (r : Outcome NodeAttr × T).
              continue r.0
                (λ attr. on_table (Counts.retain_entry id) >>= λ generation.
                  pure (record { ino = id; generation = generation; attr = attr }))
                (record s { table = t; world = r.1 }))
            e
          ∙ ap
              (λ (r : Outcome ℕ × NodeTable N).
                continue r.0
                  (λ generation.
                    pure {A = EntryReply}
                      (record { ino = id; generation = generation; attr = attr }))
                  (record s { table = r.1; world = w }))
              (retain_entry-at id (leased slot) t
                (ground (arith, slot_at-put id id (leased slot) s.table)) room))
    where
      t : NodeTable N
      t = put id (leased slot) s.table

  -- At a node whose counters have room, an `entry_for` to which the filesystem gives attributes
  -- answers with them and the inode's own generation, and counts one lookup on that inode: no
  -- other slot and no handle changes, and the filesystem is asked nothing else.
  pub entry_for_counts :
      (id : ℕ) (caller : Caller) (s : State N H D T) (slot : Slot N) (attr : NodeAttr) (w : T)
      → slot_at s.table id ≡ some slot
      → slot.leases < u32_max
      → slot.lookups < u64_max
      → fs.entry_attr slot.payload caller s.world ≡ (ok attr, w)
      → let (reply, s') = entry_for fs id caller s in
        (reply ≡ ok (record { ino = id; generation = slot.generation; attr = attr }))
        × ((j : ℕ)
            → slot_at s'.table j
              ≡ (if eqb id j then some (with_lookup slot) else slot_at s.table j))
        × (s'.handles ≡ s.handles)
        × (s'.world ≡ w)
  entry_for_counts id caller s slot attr w here leases room e =
      let done = entry_for-at id caller s slot attr w here leases room e in
      (
        ap (λ x. x.0) done,
        λ j. ap (λ x. slot_at x.1.table j) done ∙ entered_slot id slot s.table here j,
        ap (λ x. x.1.handles) done,
        ap (λ x. x.1.world) done,
      )

  -- If the filesystem fails to give the attributes of a node that something holds, `entry_for`
  -- passes its error on, no lookup is counted, and no slot or handle changes.
  pub entry_for_fails :
      (id : ℕ) (caller : Caller) (s : State N H D T) (slot : Slot N) (e : Errno) (w : T)
      → slot_at s.table id ≡ some slot
      → droppable slot ≡ false
      → slot.leases < u32_max
      → fs.entry_attr slot.payload caller s.world ≡ (err e, w)
      → let (reply, s') = entry_for fs id caller s in
        (reply ≡ err e)
        × ((j : ℕ) → slot_at s'.table j ≡ slot_at s.table j)
        × (s'.handles ≡ s.handles)
  unfolding entry_for
  entry_for_fails id caller s slot e w here live leases failed =
      let t = put id (leased slot) s.table in
      let done =
        with_node-at id _ s slot here leases
        ∙ ap (then_drop (ref_to id slot)) (
            ap
              (λ (r : Outcome NodeAttr × T).
                continue r.0
                  (λ attr. on_table (Counts.retain_entry id) >>= λ generation.
                    pure (record { ino = id; generation = generation; attr = attr }))
                  (record s { table = t; world = r.1 }))
              failed) in
      (
        ap (λ x. x.0) done,
        λ j. ap (λ x. slot_at x.1.table j) done ∙ leased_back id j slot s.table here live,
        ap (λ x. x.1.handles) done,
      )

  -- Forgetting a node's lookup takes it back and changes no other slot; the filesystem's `forget`
  -- runs on the node if this was its last lookup, and otherwise no code of the filesystem runs.
  pub forget_takes_back :
      (id : ℕ) (s : State N H D T) (slot : Slot N)
      → slot_at s.table id ≡ some (with_lookup slot)
      → droppable slot ≡ false
      → slot.leases < u32_max
      → let (reply, s') = forget fs id 1 s in
        ((j : ℕ) → slot_at s'.table j ≡ (if eqb id j then some slot else slot_at s.table j))
        × (s'.world ≡ (if eqb slot.lookups 0 then (fs.forget slot.payload s.world).1 else s.world))
  unfolding forget
  forget_takes_back id s slot here live room = elim (Bool-cases (eqb slot.lookups 0)) [
    | inl last ↦
        let e =
          at (ok (some (ref_to id slot)), put id (leased slot) s.table)
            (forget_one id slot s.table here room ∙ rw last refl) in
        (
          λ j.
              ap (λ x. slot_at x.1.table j) e
              ∙ drop_ref_back id j slot (put id (leased slot) s.table) live
                  (slot_at-put id id (leased slot) s.table ∙ same_number _ id)
              ∙ ground (arith, slot_at-put id j (leased slot) s.table),
          ap (λ x. x.1.world) e ∙ rw last refl,
        )
    | inr more ↦
        let e =
          at (ok none, put id slot s.table) (forget_one id slot s.table here room ∙ rw more refl) in
        (
          λ j.
              ap (λ x. slot_at x.1.table j) e
              ∙ slot_at-maybe_drop id j (put id slot s.table)
              ∙ ground (arith, slot_at-put id id slot s.table, slot_at-put id j slot s.table),
          ap (λ x. x.1.world) e ∙ rw more refl,
        )
  ]
    where
      at :
          (r : Outcome (Option (NodeRef N)) × NodeTable N)
          → Counts.forget_lookups id 1 s.table ≡ r
          → forget fs id 1 s ≡ notify fs id r.0 (record s { table = r.1 })
      at r e =
          ap
            (λ (r : Outcome (Option (NodeRef N)) × NodeTable N).
              notify fs id r.0 (record s { table = r.1 }))
            e

  -- At a node that something holds and whose counters have room, a successful `entry_for` and the
  -- kernel's `forget` of that lookup leave every slot as it was, and the filesystem's `forget`
  -- runs exactly if the kernel had no other lookup on the node.
  pub forget-entry_for :
      (id : ℕ) (caller : Caller) (s : State N H D T) (slot : Slot N) (attr : NodeAttr) (w : T)
      → slot_at s.table id ≡ some slot
      → droppable slot ≡ false
      → slot.leases < u32_max
      → slot.lookups < u64_max
      → fs.entry_attr slot.payload caller s.world ≡ (ok attr, w)
      → let s' = (forget fs id 1 (entry_for fs id caller s).1).1 in
        ((j : ℕ) → slot_at s'.table j ≡ slot_at s.table j)
        × (s'.world ≡ (if eqb slot.lookups 0 then (fs.forget slot.payload w).1 else w))
  forget-entry_for id caller s slot attr w here live leases room e =
      let (reply, counted, handles, world) =
        entry_for_counts id caller s slot attr w here leases room e in
      let after = (entry_for fs id caller s).1 in
      let (slots, told) =
        forget_takes_back id after slot (counted id ∙ same_number _ id) live leases in
      (
        λ j. slots j ∙ ground (arith, counted j, here),
        told ∙ ap (λ v. if eqb slot.lookups 0 then (fs.forget slot.payload v).1 else v) world,
      )
