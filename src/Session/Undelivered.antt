-- ===== src/Session/Undelivered.antt =====
-- typed-fuse/src/session.rs and typed-fuse/src/ffi.rs: the lookups of a `readdirplus` whose entries
-- do not reach the kernel.
use typed_fuse.Base.{
  ℕ, ◌≡◌, ◌≢◌, ◌<◌, refl, ap, sym, ◌∙◌, Bool, true, false, Option, some, List, [], ◌∷◌, ◌++◌,
  if◌then◌else◌, arith, u64_max, subst,
}
use typed_fuse.Base.Outcome.{Outcome, ok, err, panic, eio}
use typed_fuse.Base.Order.{nat_key, Bytes}
use typed_fuse.Attr.{NodeAttr}
use typed_fuse.NodeTable.{NodeTable, Slot, slot_at, put}
use typed_fuse.NodeTable.Counts
use typed_fuse.NodeTable.Effects.{slot_at-put}
use typed_fuse.NodeFs.{NodeFs, Listing}
use typed_fuse.Runtime.{State}
use typed_fuse.Runtime.Lookups.{with_lookup}
use typed_fuse.Runtime.Directories.{serve, account, list_plus, roll_back, forget_all, extra, is_dot}
use typed_fuse.Runtime.Directories.Accounting.{
  OnlyOffers, HasRetained, raised, count, raised-zero, serve-HasRetained,
}
use typed_fuse.Runtime.Directories.RollBack.{
  AreHeld, IsQuiet, forget_all_back, list_plus-rolls_back,
}
use typed_fuse.Session.Raw.{Platform}
use typed_fuse.Session.Dirents.{RawDirentBuf, has_nul, add_plus}
use typed_fuse.Session.Calls.{catch_unwind}
use typed_fuse.Session.Reply.{sends_error}
use typed_fuse.Session.Directories.{deliver_dirents}

-- What the handler passes on of a listing's result.
abbrev pub returned :
    {N H D T X A : Type 0} → Outcome A × State N H D (T × X) → (Outcome A × X) × State N H D T
returned (r, s) =
    ((r, s.world.1), record { table = s.table; handles = s.handles; world = s.world.0 })

module _ {N H D T : Type 0} (p : Platform) (fs : NodeFs N H D T) where
  -- A `readdirplus` whose callback succeeds and whose buffer the kernel does not take, or whose
  -- callback fails, leaves every slot as it was: the lookups of all entries that the buffer had
  -- accepted are taken back. In the second case the kernel may take any buffer. The callback only
  -- offers entries and does not panic, each slot is held by something and its leases have room, and
  -- the filesystem's `forget` returns.
  pub deliver-takes_back :
      (listing : Listing (NodeTable N × T) NodeAttr) (s : State N H D (T × (RawDirentBuf × List ℕ)))
      → OnlyOffers listing
      → IsQuiet fs
      → AreHeld (slot_at s.table)
      → (serve listing (account (add_plus p)) (extra (s.world.1.0, []) s)).0 ≢ panic
      → let (r, u) = serve listing (account (add_plus p)) (extra (s.world.1.0, []) s) in
        (r ≡ ok tt → p.accepts u.world.1.0.buf ≡ false)
        → (j : ℕ)
        → slot_at (deliver_dirents p fs (returned (list_plus fs listing (add_plus p) s))).1.table j
          ≡ slot_at s.table j
  unfolding list_plus deliver_dirents
  deliver-takes_back listing s only quiet held returns refused j =
      go (serve listing (account (add_plus p)) begun).0 refl
    where
      begun : State N H D (T × (RawDirentBuf × List ℕ))
      begun = extra (s.world.1.0, []) s

      u : State N H D (T × (RawDirentBuf × List ℕ))
      u = (serve listing (account (add_plus p)) begun).1

      small : State N H D T
      small = record { table = u.table; handles = u.handles; world = u.world.0 }

      kept : HasRetained (slot_at s.table) u.world.1.1 u.table
      kept =
          serve-HasRetained (add_plus p) (slot_at s.table) listing begun only
            (λ j. sym (raised-zero (slot_at s.table j)))

      at : Outcome (Unit {0}) → Option (Slot N)
      at r = slot_at (deliver_dirents p fs (returned (roll_back fs r u))).1.table j

      go :
          (r : Outcome (Unit {0}))
          → (serve listing (account (add_plus p)) begun).0 ≡ r
          → slot_at
              (deliver_dirents p fs (returned (list_plus fs listing (add_plus p) s))).1.table
              j
            ≡ slot_at s.table j
      go (ok _) e =
          ap at e
          ∙ ap
              (λ (b : Bool).
                slot_at (if b then small else (forget_all fs u.world.1.1 small).1).table j)
              (refused e)
          ∙ (forget_all_back fs (slot_at s.table) u.world.1.1 small quiet held kept).1 j
      go (err x) e =
          let (failed, slots) =
            list_plus-rolls_back fs listing (add_plus p) x s only quiet held e in
          ap
            (λ (o : Outcome (List ℕ)).
              slot_at
                (deliver_dirents p fs
                  (returned (o, (list_plus fs listing (add_plus p) s).1))).1.table
                j)
            failed
          ∙ slots j
      go panic e = absurd (returns e)

  -- When the callback panics after the buffer has accepted entries, the kernel is answered EIO, and
  -- every slot keeps a lookup more for each entry that was accepted. The callback only offers
  -- entries.
  pub deliver-panic :
      (listing : Listing (NodeTable N × T) NodeAttr) (s : State N H D (T × (RawDirentBuf × List ℕ)))
      → OnlyOffers listing
      → (serve listing (account (add_plus p)) (extra (s.world.1.0, []) s)).0 ≡ panic
      → let (r, s') = list_plus fs listing (add_plus p) s in
        let (replies, after) = deliver_dirents p fs (returned (catch_unwind r, s')) in
        (replies ≡ sends_error eio ∷ [])
        × ((j : ℕ) → slot_at after.table j ≡ raised (count j s'.world.1.1) (slot_at s.table j))
  unfolding list_plus deliver_dirents catch_unwind
  deliver-panic listing s only panics =
      let begun = extra (s.world.1.0, []) s in
      let u = (serve listing (account (add_plus p)) begun).1 in
      let left : list_plus fs listing (add_plus p) s ≡ (panic, u) =
        ap (λ (r : Outcome (Unit {0})). roll_back fs r u) panics in
      let kept : HasRetained (slot_at s.table) u.world.1.1 u.table =
        serve-HasRetained (add_plus p) (slot_at s.table) listing begun only
          (λ j. sym (raised-zero (slot_at s.table j))) in
      subst
        (λ (x : Outcome (List ℕ) × State N H D (T × (RawDirentBuf × List ℕ))).
          let (replies, after) = deliver_dirents p fs (returned (catch_unwind x.0, x.1)) in
          (replies ≡ sends_error eio ∷ [])
          × ((j : ℕ) → slot_at after.table j ≡ raised (count j x.1.world.1.1) (slot_at s.table j)))
        (sym left) (refl, kept)

has_nul-is_dot : (name : Bytes) → has_nul name ≡ true → is_dot name ≡ false
has_nul-is_dot [] h = ground arith
has_nul-is_dot (c ∷ []) h = ground arith
has_nul-is_dot (c ∷ d ∷ []) h = ground arith
has_nul-is_dot (c ∷ d ∷ e ∷ name) h = ground arith

module _ {N H D T : Type 0} where
  -- An entry whose name has a NUL in it is left out of the buffer, and yet it is answered as taken
  -- and its lookup is counted, so the kernel holds a lookup less than the table has.
  pub account_skipped :
      (p : Platform) (name : Bytes) (id : ℕ) (attr : NodeAttr) (next : ℕ)
      (s : State N H D (T × (RawDirentBuf × List ℕ))) (slot : Slot N)
      → has_nul name ≡ true
      → slot_at s.table id ≡ some slot
      → slot.lookups < u64_max
      → let (r, s') = account (add_plus p) name id attr next s in
        (r ≡ ok true)
        × (s'.world.1.0 ≡ s.world.1.0)
        × (slot_at s'.table id ≡ some (with_lookup slot))
        × (s'.world.1.1 ≡ s.world.1.1 ++ id ∷ [])
  unfolding account add_plus
  account_skipped p name id attr next s slot nul here room =
      let known : (Counts.plus_entry id s.table).0 ≡ ok slot.generation =
        rw (here, Counts.plus_entry) refl in
      let counted : Counts.retain_lookup id s.table ≡ (ok tt, put id (with_lookup slot) s.table) =
        rw (here, Counts.retain_lookup) (ground arith) in
      let whole : account (add_plus p) name id attr next s ≡ (
        ok true,
        record s {
          table = put id (with_lookup slot) s.table;
          world = (s.world.0, (s.world.1.0, s.world.1.1 ++ id ∷ []));
        },
      ) =
        rw (known, nul, has_nul-is_dot name nul, counted) refl in
      (
        ap (λ x. x.0) whole,
        ap (λ x. x.1.world.1.0) whole,
        ap (λ x. slot_at x.1.table id) whole
            ∙ slot_at-put id id (with_lookup slot) s.table
            ∙ ground arith,
        ap (λ x. x.1.world.1.1) whole,
      )
