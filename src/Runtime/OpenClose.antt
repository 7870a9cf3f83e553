-- ===== src/Runtime/OpenClose.antt =====
-- `open` followed by `release` (typed-fuse-core/src/runtime.rs).
use typed_fuse.Base.{
  ℕ, ◌+◌, ◌-◌, ◌<◌, ◌≡◌, refl, ap, ◌∙◌, false, Option, none, some, eqb, if◌then◌else◌, arith,
  u32_max,
}
use typed_fuse.Base.Int.{ℤ}
use typed_fuse.Base.Outcome.{Outcome, ok, Exec, continue, ◌>>=◌}
use typed_fuse.Base.Order.{nat_key}
use typed_fuse.Base.BTreeMap.{get, remove, get-insert, get-remove}
use typed_fuse.NodeTable.{NodeTable, NodeRef, Slot, slot_at, droppable, put, ref_to, touch}
use typed_fuse.NodeTable.Cx
use typed_fuse.NodeTable.Counts
use typed_fuse.NodeTable.Effects.{slot_at-put, slot_at-touch, slot_at-maybe_drop}
use typed_fuse.Handles.{HandleRecord, new_record, add_file}
use typed_fuse.NodeFs.{NodeFs, Caller, Opened}
use typed_fuse.Runtime.{State, on_table, with_node, holding, then_drop}
use typed_fuse.Runtime.Files.{record_at}
use typed_fuse.Runtime.Entries.{open_file, release, store_file}
use typed_fuse.Runtime.Balance.{drop_ref_back}

pub same_number : {A : Type 0} {x : A} → (y : A) (i : ℕ) → (if eqb i i then x else y) ≡ x
same_number y i = ground arith

module _ {N : Type 0} where
  abbrev pub leased : Slot N → Slot N
  leased s = record s { leases = s.leases + 1 }

  abbrev with_open : Slot N → Slot N
  with_open s = record s { opens = s.opens + 1 }

  get-at :
      (id : ℕ) (s : Slot N) (t : NodeTable N)
      → slot_at t id ≡ some s
      → s.leases < u32_max
      → Cx.get id t ≡ (ok (some (ref_to id s)), put id (leased s) t)
  unfolding Cx.get
  get-at id s t here room = rw (here, Cx.get) (ground arith)

  add_open-at :
      (id : ℕ) (s : Slot N) (t : NodeTable N)
      → slot_at t id ≡ some s
      → s.opens < u32_max
      → Counts.add_open id t ≡ (ok tt, put id (with_open s) t)
  unfolding Counts.add_open
  add_open-at id s t here room = rw (here, Counts.add_open) (ground arith)

  close_count : Slot N → Slot N
  close_count s = record s { opens = s.opens - 1 }

  close-open : (s : Slot N) → close_count (leased (with_open s)) ≡ leased s
  unfolding close_count
  close-open s = let back : s.opens + 1 - 1 ≡ s.opens = omega arith in simp back refl

  touched_open :
      (id k : ℕ) (s : Slot N) (u : NodeTable N)
      → slot_at u id ≡ some (leased (with_open s))
      → slot_at (touch id close_count u) k ≡ (if eqb id k then some (leased s) else slot_at u k)
  touched_open id k s u here = slot_at-touch id k close_count u ∙ ground (arith, here, close-open s)

  removed_open :
      (id k : ℕ) (s : Slot N) (u : NodeTable N)
      → slot_at u id ≡ some (leased (with_open s))
      → slot_at (Counts.remove_open id u) k ≡ (if eqb id k then some (leased s) else slot_at u k)
  unfolding Counts.remove_open close_count droppable
  removed_open id k s u here =
      slot_at-maybe_drop id k (touch id close_count u)
      ∙ ground (arith, touched_open id id s u here, touched_open id k s u here)

module _ {N H D T : Type 0} where
  pub with_node-at {ℓ} :
      {A : Type ℓ}
      → (ino : ℕ) (f : N → Exec (State N H D T) A) (s : State N H D T) (slot : Slot N)
      → slot_at s.table ino ≡ some slot
      → slot.leases < u32_max
      → with_node ino f s
        ≡ then_drop
            (ref_to ino slot)
            (f slot.payload (record s { table = put ino (leased slot) s.table }))
  unfolding with_node
  with_node-at ino f s slot here room =
      ap
        (λ (r : Outcome (Option (NodeRef N)) × NodeTable N).
          holding f r.0 (record s { table = r.1 }))
        (get-at ino slot s.table here room)

module _ {N H D T : Type 0} (fs : NodeFs N H D T) where
  -- The table after the two counts are up and the lease is dropped again.
  opened_table : ℕ → Slot N → NodeTable N → NodeTable N
  opened_table ino slot t =
      Cx.drop_ref (ref_to ino slot) (put ino (with_open (leased slot)) (put ino (leased slot) t))

  open_file-at :
      (ino : ℕ) (flags : ℤ) (caller : Caller) (s : State N H D T) (slot : Slot N)
      (opened : Opened H) (w : T)
      → slot_at s.table ino ≡ some slot
      → slot.leases < u32_max
      → slot.opens < u32_max
      → fs.open_file slot.payload flags caller s.world ≡ (ok opened, w)
      → open_file fs ino flags caller s ≡ (
        ok (record { fh = s.handles.next_fh; hints = opened.hints }),
        record {
          table = opened_table ino slot s.table;
          handles = (add_file ino opened.handle s.handles).1;
          world = w;
        },
      )
  unfolding open_file opened_table add_file
  open_file-at ino flags caller s slot opened w here leases opens e =
      with_node-at ino _ s slot here leases
      ∙ ap (then_drop (ref_to ino slot)) (
          ap
            (λ (r : Outcome (Opened H) × T).
              continue r.0 (λ o. on_table (Counts.add_open ino) >>= λ _. store_file fs ino o)
                (record s { table = t; world = r.1 }))
            e
          ∙ ap
              (λ (r : Outcome (Unit {0}) × NodeTable N).
                continue r.0 (λ _. store_file fs ino opened) (record s { table = r.1; world = w }))
              (add_open-at ino (leased slot) t
                (ground (arith, slot_at-put ino ino (leased slot) s.table)) opens))
    where
      t : NodeTable N
      t = put ino (leased slot) s.table

  opened_slot :
      (ino : ℕ) (slot : Slot N) (t : NodeTable N)
      → slot_at t ino ≡ some slot
      → (j : ℕ)
      → slot_at (opened_table ino slot t) j
        ≡ (if eqb ino j then some (with_open slot) else slot_at t j)
  unfolding opened_table droppable
  opened_slot ino slot t here j =
      drop_ref_back ino j (with_open slot)
        (put ino (with_open (leased slot)) (put ino (leased slot) t)) (ground arith)
        (ground (arith, slot_at-put ino ino (with_open (leased slot)) (put ino (leased slot) t)))
      ∙ ground (
        arith,
        slot_at-put ino j (with_open (leased slot)) (put ino (leased slot) t),
        slot_at-put ino j (leased slot) t,
      )

  closed_table : ℕ → Slot N → NodeTable N → NodeTable N
  closed_table ino slot t =
      Cx.drop_ref (ref_to ino slot) (Counts.remove_open ino (put ino (leased (with_open slot)) t))

  closed_slot :
      (ino : ℕ) (slot : Slot N) (t : NodeTable N)
      → droppable slot ≡ false
      → (j : ℕ)
      → slot_at (closed_table ino slot t) j ≡ (if eqb ino j then some slot else slot_at t j)
  unfolding closed_table
  closed_slot ino slot t live j =
      let u = put ino (leased (with_open slot)) t in
      let here = slot_at-put ino ino (leased (with_open slot)) t ∙ same_number _ ino in
      drop_ref_back ino j slot (Counts.remove_open ino u) live
        (removed_open ino ino slot u here ∙ same_number _ ino)
      ∙ ground
          (arith, removed_open ino j slot u here, slot_at-put ino j (leased (with_open slot)) t)

  release-at :
      (ino fh : ℕ) (caller : Caller) (s : State N H D T) (slot : Slot N) (r : HandleRecord H)
      → slot_at s.table ino ≡ some (with_open slot)
      → slot.leases < u32_max
      → record_at ino fh s.handles.files ≡ some r
      → release fs ino fh caller s ≡ (
          let (a, w) = fs.release slot.payload r.payload caller s.world in
          (
            a,
            record {
              table = closed_table ino slot s.table;
              handles = record s.handles { files = remove fh s.handles.files };
              world = w;
            },
          ))
  unfolding release closed_table
  release-at ino fh caller s slot r here leases there =
      rw (there, release)
        (with_node-at ino _
          (record s { handles = record s.handles { files = remove fh s.handles.files } })
          (with_open slot) here leases)

  -- Opening a file and releasing it gives the filesystem its own handle back, once, and leaves the
  -- inode table and the open files as they were. It holds at a live node whose counters have room,
  -- for a number that no open file has.
  pub release-open_file :
      (ino : ℕ) (flags : ℤ) (caller closer : Caller) (s : State N H D T) (slot : Slot N)
      (opened : Opened H) (w : T)
      → slot_at s.table ino ≡ some slot
      → droppable slot ≡ false
      → slot.leases < u32_max
      → slot.opens < u32_max
      → get s.handles.next_fh s.handles.files ≡ none
      → fs.open_file slot.payload flags caller s.world ≡ (ok opened, w)
      → let (reply, s') = open_file fs ino flags caller s in
        let (answer, s'') = release fs ino s.handles.next_fh closer s' in
        (reply ≡ ok (record { fh = s.handles.next_fh; hints = opened.hints }))
        × (answer ≡ (fs.release slot.payload opened.handle closer w).0)
        × (s''.world ≡ (fs.release slot.payload opened.handle closer w).1)
        × ((j : ℕ) → slot_at s''.table j ≡ slot_at s.table j)
        × ((fh : ℕ) → get fh s''.handles.files ≡ get fh s.handles.files)
  unfolding add_file record_at
  release-open_file ino flags caller closer s slot opened w here live leases opens unused e =
      let after : State N H D T = record {
        table = opened_table ino slot s.table;
        handles = (add_file ino opened.handle s.handles).1;
        world = w;
      } in
      let opening = open_file-at ino flags caller s slot opened w here leases opens e in
      let there : record_at ino s.handles.next_fh after.handles.files
          ≡ some (new_record ino opened.handle) =
        ground (
          arith,
          get-insert s.handles.next_fh s.handles.next_fh (new_record ino opened.handle)
              s.handles.files,
        ) in
      let closing =
        release-at ino s.handles.next_fh closer after slot (new_record ino opened.handle)
          (opened_slot ino slot s.table here ino ∙ same_number _ ino) leases there in
      let closed = ap (λ x. release fs ino s.handles.next_fh closer x.1) opening ∙ closing in
      (
        ap (λ x. x.0) opening,
        ap (λ x. x.0) closed,
        ap (λ x. x.1.world) closed,
        λ j.
            ap (λ x. slot_at x.1.table j) closed
            ∙ closed_slot ino slot (opened_table ino slot s.table) live j
            ∙ ground (arith, opened_slot ino slot s.table here j, here),
        λ fh.
            ap (λ x. get fh x.1.handles.files) closed
            ∙ get-remove s.handles.next_fh fh after.handles.files
            ∙ ground (
              arith,
              get-insert s.handles.next_fh fh (new_record ino opened.handle) s.handles.files,
              unused,
            ),
      )
