-- ===== src/PathNodeFs/Post.antt =====
-- How the methods of `PathNodeFs` that receive a `Cx` act on the names: `Q` relates the namespace
-- before, the outcome and the namespace after. Leases, the nodes' cells and the filesystem's world
-- have no part in it.
use typed_fuse.Base.{ℕ, ◌≡◌, refl, sym, subst, Option, none, some, List, arith}
use typed_fuse.Base.Outcome.{Outcome, ok, err, panic, Errno, Exec, pure, continue, and_then, ◌>>=◌}
use typed_fuse.Base.Order.{Bytes}
use typed_fuse.NodeTable.{NodeTable, NodeRef}
use typed_fuse.NodeTable.Cx
use typed_fuse.Namespace.{PathNode, Namespace}
use typed_fuse.PathFilesystem.{PathNodeRef}
use typed_fuse.PathNodeFs.{World, entries_changed, path, call, at_path, on_world, with_ref, holding}
use typed_fuse.PathNodeFs.Names.{State, on_node, in_directory}

-- What fails or panics before the names are touched.
abbrev pub Stays : {A : Type 0} → (Namespace → Outcome A → Namespace → Type 0) → Type 0
Stays Q = ((ns : Namespace) (e : Errno) → Q ns (err e) ns) × ((ns : Namespace) → Q ns panic ns)

module _ {S T : Type 0} where
  abbrev pub Post :
      {A : Type 0} → (Namespace → Outcome A → Namespace → Type 0) → Exec (State S T) A → Type 0
  Post Q f = (s : State S T) → Q s.1.namespace (f s).0 (f s).1.1.namespace

  -- The action leaves the namespace as it is.
  abbrev pub IsQuiet : {A : Type 0} → Exec (State S T) A → Type 0
  IsQuiet f = (s : State S T) → (f s).1.1.namespace ≡ s.1.namespace

  pub on_world-IsQuiet :
      {A : Type 0} (f : Exec (World S T) A)
      → ((w : World S T) → (f w).1.namespace ≡ w.namespace)
      → IsQuiet (on_world f)
  on_world-IsQuiet f h (t, w) = h w

  pub call-IsQuiet : {A : Type 0} (f : Exec T A) → IsQuiet (on_world (call f))
  call-IsQuiet f s = refl

  pub changed-IsQuiet : (node : PathNode S) → IsQuiet (on_node (entries_changed node))
  unfolding entries_changed
  changed-IsQuiet node s = refl

  pub path-IsQuiet : (id : ℕ) → IsQuiet (on_world (path id))
  unfolding path
  path-IsQuiet id (t, w) = ground arith

  pub quiet-Post :
      {A B : Type 0} (Q : Namespace → Outcome B → Namespace → Type 0) (m : Exec (State S T) A)
      (k : A → Exec (State S T) B)
      → Stays Q
      → IsQuiet m
      → ((a : A) → Post Q (k a))
      → Post Q (m >>= k)
  quiet-Post {A} Q m k stays quiet h s = go (m s).0 (m s).1 (quiet s)
    where
      go :
          (r : Outcome A) (s' : State S T)
          → s'.1.namespace ≡ s.1.namespace
          → Q s.1.namespace (continue r k s').0 (continue r k s').1.1.namespace
      go (ok a) s' e = subst (λ ns. Q ns (k a s').0 (k a s').1.1.namespace) e (h a s')
      go (err x) s' e = subst (λ ns. Q s.1.namespace (err x) ns) (sym e) (stays.0 _ x)
      go panic s' e = subst (λ ns. Q s.1.namespace panic ns) (sym e) (stays.1 _)

  -- A value that is made of the result.
  pub mapped-Post :
      {A B : Type 0} (Q : Namespace → Outcome B → Namespace → Type 0) (g : A → B)
      (m : Exec (State S T) A)
      → Post (λ ns r ns'. Q ns (and_then r (λ a. ok (g a))) ns') m
      → Post Q (m >>= λ a. pure (g a))
  mapped-Post {A} Q g m h s = go (m s).0 (m s).1 (h s)
    where
      go :
          (r : Outcome A) (s' : State S T)
          → Q s.1.namespace (and_then r (λ a. ok (g a))) s'.1.namespace
          → Q s.1.namespace
              (continue r (λ a. pure (g a)) s').0
              (continue r (λ a. pure (g a)) s').1.1.namespace
      go (ok a) s' q = q
      go (err x) s' q = q
      go panic s' q = q

  pub with_ref-Post :
      {A : Type 0} (Q : Namespace → Outcome A → Namespace → Type 0) (id : ℕ)
      (f : PathNode S → Exec (State S T) A)
      → Stays Q
      → ((node : PathNode S) → Post Q (f node))
      → Post Q (with_ref id f)
  unfolding with_ref
  with_ref-Post Q id f stays h (t, w) = go (Cx.get id t).0 (Cx.get id t).1
    where
      go :
          (r : Outcome (Option (NodeRef (PathNode S)))) (t' : NodeTable (PathNode S))
          → Q w.namespace (holding f r (t', w)).0 (holding f r (t', w)).1.1.namespace
      go (ok (some node)) t' = h node.payload (t', w)
      go (ok none) t' = stays.0 _ _
      go (err e) t' = stays.0 _ e
      go panic t' = stays.1 _

  -- After a call of the filesystem.
  pub called-Post :
      {A B : Type 0} (Q : Namespace → Outcome B → Namespace → Type 0) (f : Exec T A)
      (k : A → Exec (State S T) B)
      → Stays Q
      → ((a : A) → Post Q (k a))
      → Post Q (on_world (call f) >>= k)
  called-Post Q f k stays h = quiet-Post Q (on_world (call f)) k stays (call-IsQuiet f) h

  -- After a path is found.
  pub path-Post :
      {A : Type 0} (Q : Namespace → Outcome A → Namespace → Type 0) (id : ℕ)
      (k : List Bytes → Exec (State S T) A)
      → Stays Q
      → ((above : List Bytes) → Post Q (k above))
      → Post Q (on_world (path id) >>= k)
  path-Post Q id k stays h = quiet-Post Q (on_world (path id)) k stays (path-IsQuiet id) h

  -- After a directory's epoch has changed.
  pub changed-Post :
      {A : Type 0} (Q : Namespace → Outcome A → Namespace → Type 0) (node : PathNode S)
      (k : Exec (State S T) A)
      → Stays Q
      → Post Q k
      → Post Q (on_node (entries_changed node) >>= λ _. k)
  changed-Post Q node k stays h =
      quiet-Post Q (on_node (entries_changed node)) (λ _. k) stays (changed-IsQuiet node) (λ _. h)

  pub in_directory-Post :
      {A : Type 0} (Q : Namespace → Outcome A → Namespace → Type 0) (parent : ℕ)
      (f : PathNodeRef S → Exec (State S T) A)
      → Stays Q
      → ((r : PathNodeRef S) → Post Q (f r))
      → Post Q (in_directory parent f)
  unfolding in_directory
  in_directory-Post Q parent f stays h =
      let inside = λ (node : PathNode S) (above : List Bytes). f (at_path above node) in
      with_ref-Post Q parent
        (λ node. on_node (entries_changed node) >>= λ _. on_world (path parent) >>= inside node)
        stays
        λ node.
          changed-Post Q node (on_world (path parent) >>= inside node) stays
            (path-Post Q parent (inside node) stays λ above. h (at_path above node))
