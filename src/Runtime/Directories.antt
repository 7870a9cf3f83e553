-- ===== src/Runtime/Directories.antt =====
-- typed-fuse-core/src/runtime.rs: `readdir` and `readdirplus`. The sink's state `K` and the accepted
-- entries stand beside the world.
pub mod Accounting
pub mod RollBack
use typed_fuse.Base.{
  ℕ, Bool, true, false, not, ◌||◌, none, some, List, [], ◌∷◌, ◌++◌, if◌then◌else◌,
}
use typed_fuse.Base.Outcome.{Outcome, ok, err, panic, enoent, Exec, pure, fail, ◌>>=◌}
use typed_fuse.Base.Order.{nat_key, Bytes, bytes_eq}
use typed_fuse.Attr.{NodeAttr, FileKind}
use typed_fuse.NodeTable.{NodeTable, slot_at}
use typed_fuse.NodeFs.{NodeFs, Caller, Listing, ends, acts, offers}
use typed_fuse.Runtime.{State, on_table, with_node}
use typed_fuse.Runtime.Files.{with_dir}
use typed_fuse.NodeTable.Counts
use typed_fuse.Runtime.Entries.{EntryReply, forget}

module _ {N H D T X : Type 0} where
  abbrev pub extra : X → State N H D (T × X) → State N H D (T × X)
  extra x s = record s { world = (s.world.0, x) }

  -- A request in the smaller state.
  abbrev pub zoom {ℓ} : {A : Type ℓ} → Exec (State N H D T) A → Exec (State N H D (T × X)) A
  zoom f s =
      let (r, s') = f (record { table = s.table; handles = s.handles; world = s.world.0 }) in
      (r, record { table = s'.table; handles = s'.handles; world = (s'.world, s.world.1) })

  -- The callback with the sink's `add`.
  unfoldable pub serve :
      {E : Type 0}
      → Listing (NodeTable N × T) E
      → (Bytes → ℕ → E → ℕ → Exec (State N H D (T × X)) Bool)
      → Exec (State N H D (T × X)) (Unit {0})
  serve (ends r) add s = (r, s)
  serve (acts f next) add s =
      let (t, w) = f (s.table, s.world.0) in
      serve (next (s.table, s.world.0)) add (record s { table = t; world = (w, s.world.1) })
  serve (offers name id e next_offset next) add s =
      (add name id e next_offset >>= λ more. serve (next more) add) s

  -- `.map(|s| s.parent).ok_or(ENOENT)?`
  abbrev pub parent_of : ℕ → Exec (State N H D (T × X)) ℕ
  parent_of ino s = elim (slot_at s.table ino) [
    | none ↦ (err enoent, s)
    | some slot ↦ (ok slot.parent, s)
  ]

abbrev pub is_dot : Bytes → Bool
is_dot name = bytes_eq name (b'.' ∷ []) || bytes_eq name (b'.' ∷ b'.' ∷ [])

module _ {N H D T : Type 0} (fs : NodeFs N H D T) where
  -- `for id in accounting.accepted { self.forget(id.ino(), 1); }`
  unfoldable pub forget_all : List ℕ → Exec (State N H D T) (Unit {0})
  unfolding forget
  forget_all [] = pure tt
  forget_all (id ∷ ids) = forget fs id 1 >>= λ _. forget_all ids

module _ {N H D T K : Type 0} where
  abbrev pub note_retained :
      ℕ
      → Outcome (Unit {0}) × State N H D (T × (K × List ℕ))
      → Outcome Bool × State N H D (T × (K × List ℕ))
  note_retained id (ok _, s) = (ok true, extra (s.world.1.0, s.world.1.1 ++ id ∷ []) s)
  note_retained id (err e, s) = (ok true, s)
  note_retained id (panic, s) = (panic, s)

  -- After `inner.add` has answered.
  abbrev pub taken_entry : Bool → Bytes → ℕ → Exec (State N H D (T × (K × List ℕ))) Bool
  taken_entry false name id s = (ok false, s)
  taken_entry true name id s =
      if is_dot name then (ok true, s) else note_retained id (on_table (Counts.retain_lookup id) s)

  -- After `plus_entry` has answered.
  abbrev pub known_entry :
      (Bytes → EntryReply → ℕ → K → Bool × K)
      → Bytes
      → ℕ
      → NodeAttr
      → ℕ
      → Outcome ℕ
      → Exec (State N H D (T × (K × List ℕ))) Bool
  known_entry sink name id attr next_offset (err e) s = (ok false, s)
  known_entry sink name id attr next_offset panic s = (panic, s)
  known_entry sink name id attr next_offset (ok generation) s =
      let entry : EntryReply = record { ino = id; generation = generation; attr = attr } in
      let (taken, k) = sink name entry next_offset s.world.1.0 in
      taken_entry taken name id (extra (k, s.world.1.1) s)

  -- `Accounting::add`
  unfoldable pub account :
      (Bytes → EntryReply → ℕ → K → Bool × K)
      → Bytes
      → ℕ
      → NodeAttr
      → ℕ
      → Exec (State N H D (T × (K × List ℕ))) Bool
  unfolding Counts.plus_entry Counts.retain_lookup
  account sink name id attr next_offset s =
      known_entry sink name id attr next_offset (Counts.plus_entry id s.table).0 s

module _ {N H D T K : Type 0} (fs : NodeFs N H D T) where
  abbrev pub add_entry :
      (Bytes → ℕ → FileKind → ℕ → K → Bool × K)
      → Bytes
      → ℕ
      → FileKind
      → ℕ
      → Exec (State N H D (T × K)) Bool
  add_entry sink name id kind next_offset s =
      let (more, k) = sink name id kind next_offset s.world.1 in (ok more, extra k s)

  unfoldable pub readdir :
      ℕ
      → ℕ
      → ℕ
      → (Bytes → ℕ → FileKind → ℕ → K → Bool × K)
      → Caller
      → Exec (State N H D (T × K)) (Unit {0})
  unfolding with_node with_dir serve
  readdir ino fh offset sink caller = with_node ino λ node. parent_of ino >>= λ parent.
      with_dir ino fh λ h. serve (fs.readdir node ino parent h offset caller) (add_entry sink)

  abbrev pub roll_back : Outcome (Unit {0}) → Exec (State N H D (T × (K × List ℕ))) (List ℕ)
  roll_back (ok _) s = (ok s.world.1.1, s)
  roll_back (err e) s = (zoom (forget_all fs s.world.1.1) >>= λ _. fail e) s
  roll_back panic s = (panic, s)

  -- The callback with `accounting` as its sink, and the match on its result.
  unfoldable pub list_plus :
      Listing (NodeTable N × T) NodeAttr
      → (Bytes → EntryReply → ℕ → K → Bool × K)
      → Exec (State N H D (T × (K × List ℕ))) (List ℕ)
  unfolding serve account forget_all
  list_plus listing sink s =
      let (r, s') = serve listing (account sink) (extra (s.world.1.0, []) s) in roll_back r s'

  unfoldable pub readdirplus :
      ℕ
      → ℕ
      → ℕ
      → (Bytes → EntryReply → ℕ → K → Bool × K)
      → Caller
      → Exec (State N H D (T × (K × List ℕ))) (List ℕ)
  unfolding with_node with_dir list_plus
  readdirplus ino fh offset sink caller = with_node ino λ node. parent_of ino >>= λ parent.
      with_dir ino fh λ h. list_plus (fs.readdirplus node ino parent h offset caller) sink
