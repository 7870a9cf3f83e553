-- ===== src/Session/Answers/Spared.antt =====
-- What a directory request leaves of its sink, through the scopes of typed-fuse-core/src/runtime.rs
-- that stand between the handler and the callback.
use typed_fuse.Base.{
  ℕ, Bool, true, false, Option, none, some, Option-cases, List, [], Bool-cases, inl, inr,
}
use typed_fuse.Base.Outcome.{Outcome, ok, err, panic, Exec, continue, fail, ◌>>=◌}
use typed_fuse.Base.Order.{nat_key, Bytes}
use typed_fuse.Attr.{FileKind, NodeAttr}
use typed_fuse.NodeTable.{NodeTable, NodeRef, slot_at}
use typed_fuse.NodeTable.Cx
use typed_fuse.NodeTable.Counts
use typed_fuse.Handles.{HandleRecord, HandleState, acquire}
use typed_fuse.NodeFs.{NodeFs, Caller, Listing, ends, acts, offers}
use typed_fuse.Runtime.{State, with_node, holding}
use typed_fuse.Runtime.Files.{with_dir, lease_dir, leasing_dir, record_at}
use typed_fuse.Runtime.Entries.{EntryReply}
use typed_fuse.Runtime.Directories.{
  serve, add_entry, parent_of, readdir, readdirplus, list_plus, account, known_entry, taken_entry,
  note_retained, is_dot, extra, roll_back, forget_all,
}
use typed_fuse.Session.Dirents.{add}

module _ {N H D T : Type 0} (I : T → Type 0) where
  -- What holds of the world before a call holds after it.
  abbrev pub Preserves {ℓ} : {A : Type ℓ} → Exec (State N H D T) A → Type 0
  Preserves f = (s : State N H D T) → I s.world → I (f s).1.world

  pub with_node-Preserves {ℓ} :
      {A : Type ℓ}
      → (ino : ℕ) (f : N → Exec (State N H D T) A) → ((n : N) → Preserves (f n))
      → Preserves (with_node ino f)
  unfolding with_node
  with_node-Preserves ino f h s i = at (Cx.get ino s.table)
    where
      at :
          (r : Outcome (Option (NodeRef N)) × NodeTable N)
          → I (holding f r.0 (record s { table = r.1 })).1.world
      at (ok (some r), t) = h r.payload (record s { table = t }) i
      at (ok none, t) = i
      at (err e, t) = i
      at (panic, t) = i

  pub with_dir-Preserves {ℓ} :
      {A : Type ℓ}
      → (ino fh : ℕ) (f : D → Exec (State N H D T) A) → ((d : D) → Preserves (f d))
      → Preserves (with_dir ino fh f)
  unfolding with_dir lease_dir
  with_dir-Preserves ino fh f h s i = elim (Option-cases (record_at ino fh s.handles.dirs)) [
    | inl gone ↦ rw (gone, with_dir) i
    | inr (r, here) ↦ rw (here, with_dir) (leased r (acquire r.state))
  ]
    where
      leased :
          (r : HandleRecord D) (o : Outcome Bool × HandleState) → I (leasing_dir fh r f o s).1.world
      leased r (ok true, st) = h r.payload _ i
      leased r (ok false, st) = i
      leased r (err e, st) = i
      leased r (panic, st) = i

module _ {N H D T K : Type 0} (J : K → Type 0) where
  -- What holds of the sink before a call holds after it.
  abbrev pub Spares {ℓ} : {A : Type ℓ} → Exec (State N H D (T × K)) A → Type 0
  Spares f = Preserves {T = T × K} (λ w. J w.1) f

  then_parent-Spares {ℓ} :
      {A : Type ℓ}
      → (ino : ℕ) (f : ℕ → Exec (State N H D (T × K)) A) → ((parent : ℕ) → Spares (f parent))
      → Spares (parent_of ino >>= f)
  then_parent-Spares ino f h s i = elim (Option-cases (slot_at s.table ino)) [
    | inl gone ↦ rw (gone, parent_of) i
    | inr (slot, here) ↦ rw (here, parent_of) (h slot.parent s i)
  ]

  -- The scopes that a directory request opens.
  in_directory-Spares {ℓ} :
      {A : Type ℓ}
      → (ino fh : ℕ) (f : N → ℕ → D → Exec (State N H D (T × K)) A)
      → ((node : N) (parent : ℕ) (d : D) → Spares (f node parent d))
      → Spares
          (with_node ino λ node. parent_of ino >>= λ parent. with_dir ino fh λ d. f node parent d)
  in_directory-Spares ino fh f h =
      with_node-Preserves (λ w. J w.1) ino
        (λ node. parent_of ino >>= λ parent. with_dir ino fh λ d. f node parent d)
        (λ node.
          then_parent-Spares ino (λ parent. with_dir ino fh λ d. f node parent d)
            (λ parent. with_dir-Preserves (λ w. J w.1) ino fh (f node parent) (h node parent)))

  serve-Spares :
      {E : Type 0}
      → (add : Bytes → ℕ → E → ℕ → Exec (State N H D (T × K)) Bool)
      → ((name : Bytes) (id : ℕ) (e : E) (off : ℕ) → Spares (add name id e off))
      → (listing : Listing (NodeTable N × T) E) → Spares (serve listing add)
  unfolding serve
  serve-Spares add h (ends r) s i = i
  serve-Spares add h (acts f next) s i = serve-Spares add h (next (s.table, s.world.0)) _ i
  serve-Spares add h (offers name id e off next) s i =
      go (λ more. serve-Spares add h (next more) (add name id e off s).1) (add name id e off s).0
        (h name id e off s i)
    where
      go :
          ((more : Bool)
            → J (add name id e off s).1.world.1
            → J (serve (next more) add (add name id e off s).1).1.world.1)
          → (o : Outcome Bool) → J (add name id e off s).1.world.1
          → J (continue o (λ more. serve (next more) add) (add name id e off s).1).1.world.1
      go step (ok more) k = step more k
      go step (err x) k = k
      go step panic k = k

module _ {N H D T K : Type 0} (J : K → Type 0) (fs : NodeFs N H D T) where
  -- A plain listing with a sink that keeps its invariant.
  pub readdir-Spares :
      (ino fh off : ℕ) (sink : Bytes → ℕ → FileKind → ℕ → K → Bool × K) (caller : Caller)
      → ((name : Bytes) (id : ℕ) (kind : FileKind) (next : ℕ) (k : K)
          → J k
          → J (sink name id kind next k).1)
      → Spares J (readdir fs ino fh off sink caller)
  unfolding readdir
  readdir-Spares ino fh off sink caller h =
      in_directory-Spares J ino fh
        (λ node parent d. serve (fs.readdir node ino parent d off caller) (add_entry fs sink))
        (λ node parent d.
          serve-Spares J (add_entry fs sink)
            (λ name id kind next s i. h name id kind next s.world.1 i)
            (fs.readdir node ino parent d off caller))

abbrev pub Kept : {K : Type 0} → (K → Type 0) → K × List ℕ → Type 0
Kept J x = J x.0

module _ {N H D T K : Type 0} (J : K → Type 0) where
  taken-Spares :
      (taken : Bool) (name : Bytes) (id : ℕ)
      → Spares {N = N} {H = H} {D = D} {T = T} (Kept J) (taken_entry taken name id)
  taken-Spares false name id s i = i
  taken-Spares true name id s i = elim (Bool-cases (is_dot name)) [
    | inl dot ↦ rw dot i
    | inr child ↦ rw child (noted (Counts.retain_lookup id s.table))
  ]
    where
      noted :
          (r : Outcome (Unit {0}) × NodeTable N)
          → J (note_retained id (r.0, record s { table = r.1 })).1.world.1.0
      noted (ok _, t) = i
      noted (err e, t) = i
      noted (panic, t) = i

  account-Spares :
      (sink : Bytes → EntryReply → ℕ → K → Bool × K)
      → ((name : Bytes) (e : EntryReply) (next : ℕ) (k : K) → J k → J (sink name e next k).1)
      → (name : Bytes) (id : ℕ) (attr : NodeAttr) (next : ℕ)
      → Spares {N = N} {H = H} {D = D} {T = T} (Kept J) (account sink name id attr next)
  unfolding account
  account-Spares sink h name id attr next s i = go (Counts.plus_entry id s.table).0
    where
      go : (o : Outcome ℕ) → J (known_entry sink name id attr next o s).1.world.1.0
      go (err e) = i
      go panic = i
      go (ok generation) = taken-Spares _ name id _ (h name _ next s.world.1.0 i)

module _ {N H D T K : Type 0} (J : K → Type 0) (fs : NodeFs N H D T) where
  rolled-Spares : (r : Outcome (Unit {0})) → Spares {K = K × List ℕ} (Kept J) (roll_back fs r)
  rolled-Spares (ok _) s i = i
  rolled-Spares (err e) s i = go (
      forget_all fs s.world.1.1
        (record { table = s.table; handles = s.handles; world = s.world.0 }))
    where
      go :
          (r : Outcome (Unit {0}) × State N H D T)
          → Kept J
              (continue {S = State N H D (T × (K × List ℕ))} r.0
                (λ _. fail {A = List ℕ} e)
                (record {
                  table = r.1.table;
                  handles = r.1.handles;
                  world = (r.1.world, s.world.1);
                })).1.world.1
      go (ok _, u) = i
      go (err x, u) = i
      go (panic, u) = i
  rolled-Spares panic s i = i

  -- A listing with attributes and a sink that keeps its invariant, the rollback included.
  pub readdirplus-Spares :
      (ino fh off : ℕ) (sink : Bytes → EntryReply → ℕ → K → Bool × K) (caller : Caller)
      → ((name : Bytes) (e : EntryReply) (next : ℕ) (k : K) → J k → J (sink name e next k).1)
      → Spares (Kept J) (readdirplus fs ino fh off sink caller)
  unfolding readdirplus list_plus
  readdirplus-Spares ino fh off sink caller h =
      in_directory-Spares (Kept J) ino fh
        (λ node parent d. list_plus fs (fs.readdirplus node ino parent d off caller) sink)
        (λ node parent d s i.
          let listing = fs.readdirplus node ino parent d off caller in
          let begun = extra (s.world.1.0, []) s in
          rolled-Spares (serve listing (account sink) begun).0
            (serve listing (account sink) begun).1
            (serve-Spares (Kept J) (account sink) (account-Spares J sink h) listing begun i))
