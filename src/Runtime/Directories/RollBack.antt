-- ===== src/Runtime/Directories/RollBack.antt =====
-- A `readdirplus` that fails (typed-fuse-core/src/runtime.rs): the lookups of the entries that the sink
-- accepted are taken back.
use typed_fuse.Base.{
  ℕ, ◌+◌, ◌≡◌, ◌<◌, refl, ap, sym, ◌∙◌, Bool, false, Option, none, some, List, [], ◌∷◌, eqb, arith,
  Bool-cases, Option-cases, inl, inr, u32_max,
}
use typed_fuse.Base.Outcome.{Outcome, ok, err, Errno, continue, fail}
use typed_fuse.Base.Order.{nat_key, Bytes}
use typed_fuse.Attr.{NodeAttr}
use typed_fuse.NodeTable.{NodeTable, NodeRef, Slot, slot_at, droppable, put, ref_to, maybe_drop}
use typed_fuse.NodeTable.Counts
use typed_fuse.NodeFs.{NodeFs, Listing}
use typed_fuse.Runtime.{State}
use typed_fuse.Runtime.Entries.{EntryReply, forget, notify}
use typed_fuse.Runtime.Directories.{extra, serve, account, forget_all, roll_back, list_plus}
use typed_fuse.Runtime.Lookups.{with_lookup, forget_takes_back, forget_one}
use typed_fuse.Runtime.OpenClose.{leased}
use typed_fuse.Runtime.Directories.Accounting.{
  OnlyOffers, count, raised-zero, HasRetained, serve-HasRetained,
}

-- Each slot is held by something, and its leases have room.
abbrev pub AreHeld : {N : Type 0} → (ℕ → Option (Slot N)) → Type 0
AreHeld base =
    (j : ℕ) (slot : Slot _)
    → base j ≡ some slot
    → (droppable slot ≡ false) × (slot.leases < u32_max)

module _ {N H D T : Type 0} (fs : NodeFs N H D T) where
  -- The filesystem's `forget` returns.
  abbrev pub IsQuiet : Type 0
  IsQuiet = (n : N) (w : T) → (fs.forget n w).0 ≡ ok tt

  forget_by :
      (id : ℕ) (s : State N H D T) (r : Outcome (Option (NodeRef N)) × NodeTable N)
      → Counts.forget_lookups id 1 s.table ≡ r
      → forget fs id 1 s ≡ notify fs id r.0 (record s { table = r.1 })
  unfolding forget
  forget_by id s r e =
      ap
        (λ (r : Outcome (Option (NodeRef N)) × NodeTable N).
          notify fs id r.0 (record s { table = r.1 }))
        e

  forget_unknown :
      (id : ℕ) (s : State N H D T) → slot_at s.table id ≡ none → forget fs id 1 s ≡ (ok tt, s)
  unfolding Counts.forget_lookups maybe_drop
  forget_unknown id s gone =
      forget_by id s (ok none, s.table) (rw (gone, Counts.forget_lookups) refl)
      ∙ rw (gone, maybe_drop) refl

  forget-ok :
      (id : ℕ) (s : State N H D T) (slot : Slot N)
      → IsQuiet
      → slot_at s.table id ≡ some (with_lookup slot)
      → slot.leases < u32_max
      → (forget fs id 1 s).0 ≡ ok tt
  forget-ok id s slot quiet here room = elim (Bool-cases (eqb slot.lookups 0)) [
    | inl last ↦
        ap (λ x. x.0)
          (forget_by id s (ok (some (ref_to id slot)), put id (leased slot) s.table)
            (forget_one id slot s.table here room ∙ rw last refl))
        ∙ quiet slot.payload s.world
    | inr more ↦
        ap (λ x. x.0)
          (forget_by id s (ok none, put id slot s.table)
            (forget_one id slot s.table here room ∙ rw more refl))
  ]

  forget_back :
      (base : ℕ → Option (Slot N)) (id : ℕ) (ids : List ℕ) (s : State N H D T)
      → IsQuiet
      → AreHeld base
      → HasRetained base (id ∷ ids) s.table
      → ((forget fs id 1 s).0 ≡ ok tt) × HasRetained base ids (forget fs id 1 s).1.table
  unfolding droppable
  forget_back base id ids s quiet held h = elim (Option-cases (base id)) [
    | inl unknown ↦
        let e = forget_unknown id s (h id ∙ rw unknown refl) in
        (ap (λ x. x.0) e, λ j. ap (λ x. slot_at x.1.table j) e ∙ h j ∙ ground (arith, unknown))
    | inr (slot, known) ↦
        let left : Slot N = record slot { lookups = slot.lookups + count id ids } in
        let (alive, room) = held id slot known in
        let here : slot_at s.table id ≡ some (with_lookup left) = h id ∙ ground (arith, known) in
        let (slots, told) = forget_takes_back fs id s left here (ground (arith, alive)) room in
        (forget-ok id s left quiet here room, λ j. slots j ∙ ground (arith, h j, known))
  ]

  pub forget_all_back :
      (base : ℕ → Option (Slot N)) (ids : List ℕ) (s : State N H D T)
      → IsQuiet
      → AreHeld base
      → HasRetained base ids s.table
      → ((forget_all fs ids s).0 ≡ ok tt)
        × ((j : ℕ) → slot_at (forget_all fs ids s).1.table j ≡ base j)
  unfolding forget_all
  forget_all_back base [] s quiet held h = (refl, λ j. h j ∙ raised-zero (base j))
  forget_all_back base (id ∷ ids) s quiet held h =
      let (returned, less) = forget_back base id ids s quiet held h in
      let (done, slots) = forget_all_back base ids (forget fs id 1 s).1 quiet held less in
      let e =
        ap (λ (o : Outcome (Unit {0})). continue o (λ _. forget_all fs ids) (forget fs id 1 s).1)
          returned in
      (ap (λ x. x.0) e ∙ done, λ j. ap (λ x. slot_at x.1.table j) e ∙ slots j)

module _ {N H D T K : Type 0} (fs : NodeFs N H D T) where
  -- When a directory callback that only offers entries fails, `readdirplus` takes back the lookups
  -- of the entries that the kernel's buffer had accepted: the error is passed on and every slot is
  -- as it was. Each slot is held by something and its leases have room, and the filesystem's
  -- `forget` returns.
  pub list_plus-rolls_back :
      (listing : Listing (NodeTable N × T) NodeAttr) (sink : Bytes → EntryReply → ℕ → K → Bool × K)
      (e : Errno) (s : State N H D (T × (K × List ℕ)))
      → OnlyOffers listing
      → IsQuiet fs
      → AreHeld (slot_at s.table)
      → (serve listing (account sink) (extra (s.world.1.0, []) s)).0 ≡ err e
      → let (reply, s') = list_plus fs listing sink s in
        (reply ≡ err e) × ((j : ℕ) → slot_at s'.table j ≡ slot_at s.table j)
  unfolding list_plus
  list_plus-rolls_back listing sink e s only quiet held failed =
      let begun = extra (s.world.1.0, []) s in
      let u = (serve listing (account sink) begun).1 in
      let kept =
        serve-HasRetained sink (slot_at s.table) listing begun only
          (λ j. sym (raised-zero (slot_at s.table j))) in
      let (done, slots) =
        forget_all_back fs (slot_at s.table) u.world.1.1
          (record { table = u.table; handles = u.handles; world = u.world.0 }) quiet held kept in
      let forgotten =
        (forget_all fs u.world.1.1
          (record { table = u.table; handles = u.handles; world = u.world.0 })).1 in
      let after : State N H D (T × (K × List ℕ)) = record {
        table = forgotten.table;
        handles = forgotten.handles;
        world = (forgotten.world, u.world.1);
      } in
      let rolled =
        ap (λ (r : Outcome (Unit {0})). roll_back fs r u) failed
        ∙ ap (λ (o : Outcome (Unit {0})). continue o (λ _. fail {A = List ℕ} e) after) done in
      (ap (λ x. x.0) rolled, λ j. ap (λ x. slot_at x.1.table j) rolled ∙ slots j)
