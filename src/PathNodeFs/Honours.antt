-- ===== src/PathNodeFs/Honours.antt =====
-- What the last step of each request of `PathNodeFs` does to the names
-- (typed-fuse-core/src/path_fs.rs), for the promise and for the agreement of the namespace's two
-- maps together.
use typed_fuse.Base.{
  ℕ, ◌≡◌, ◌≢◌, ◌⊎◌, refl, ap, sym, subst, ◌∙◌, Bool, none, some, arith, Option-cases, Bool-cases,
  inl, inr,
}
use typed_fuse.Base.Outcome.{Outcome, ok, err, panic, Errno, pure, continue, and_then, ◌>>=◌}
use typed_fuse.Base.Order.{nat_key, Bytes}
use typed_fuse.Base.BTreeMap.{get, get-insert}
use typed_fuse.NodeTable.{NodeTable}
use typed_fuse.NodeTable.Cx
use typed_fuse.Namespace.{Dentry, dentry_key, PathNode, Namespace, is_named}
use typed_fuse.Namespace
use typed_fuse.Namespace.Consistent.{
  IsConsistent, insert-IsConsistent, rollback_names, move-IsConsistent, remove-IsConsistent,
  by_name-remove, add_alias-IsConsistent,
}
use typed_fuse.Listing.Replay.{PathEntry}
use typed_fuse.PathNodeFs.{World}
use typed_fuse.PathNodeFs.Names.{State, on_names, change_names, add_node}
use typed_fuse.PathNodeFs.Post.{Post, Stays}
use typed_fuse.PathNodeFs.Requests.{View, view, bind, unbind, move}
use typed_fuse.PathNodeFs.Made.{
  Refines, Refines-Stays, Refines-map, add_node-Refines, note_attr, note_attr-IsQuiet,
}

abbrev pub Honours :
    {A : Type 0}
    → (Namespace → Type 0)
    → (A → View → View)
    → Namespace
    → Outcome A
    → Namespace
    → Type 0
Honours Safe change ns r ns' =
    Refines change ns r ns' × (Safe ns → IsConsistent ns → IsConsistent ns')

abbrev pub Always : Namespace → Type 0
Always ns = Unit

pub Honours-Stays :
    {A : Type 0} (Safe : Namespace → Type 0) (change : A → View → View)
    → Stays (Honours Safe change)
Honours-Stays Safe change = (
  (λ ns x. ((Refines-Stays change).0 ns x, λ _ v. v)),
  (λ ns. ((Refines-Stays change).1 ns, λ _ v. v)),
)

pub Honours-map :
    {A B : Type 0} (Safe : Namespace → Type 0) (g : A → B) (change : B → View → View)
    (ns : Namespace) (r : Outcome A) (ns' : Namespace)
    → Honours Safe (λ a. change (g a)) ns r ns'
    → Honours Safe change ns (and_then r (λ a. ok (g a))) ns'
Honours-map Safe g change ns r ns' h = (Refines-map g change ns r ns' h.0, h.1)

module _ {S : Type 0} where
  view-move_name :
      (old new e : Dentry) (ns : Namespace) (t : NodeTable (PathNode S))
      → view (Namespace.move_name old new (ns, t)).0 e ≡ move old new (view ns) e
  unfolding Namespace.move_name Namespace.add_alias
  view-move_name old new e ns t = elim (Option-cases (get old ns.by_name)) [
    | inl unknown ↦ rw (unknown, Namespace.move_name) refl
    | inr (source, known) ↦ elim (Bool-cases (is_named new source ns)) [
      | inl same ↦ rw (known, same, Namespace.move_name) (ground (arith, same))
      | inr other ↦
          let left = (Namespace.rollback_dentry new (ns, t)).0 in
          rw (known, other, Namespace.move_name)
            (ground (
              arith,
              other,
              get-insert new e source (Namespace.remove old left).1.by_name,
              by_name-remove old e left,
              ap (λ n. get e n.by_name) (rollback_names new ns t),
              by_name-remove new e ns,
            ))
    ]
  ]

module _ {S T : Type 0} where
  add_node-keeps :
      (parent : ℕ) (name : Bytes) (entry : PathEntry S) (t : NodeTable (PathNode S)) (w : World S T)
      → IsConsistent w.namespace
      → IsConsistent (add_node parent name entry (t, w)).1.1.namespace
  unfolding add_node
  add_node-keeps parent name entry t w v =
      let made = Namespace.insert parent name entry.state (w.namespace, t) in
      go made.0 made.1 (insert-IsConsistent parent name entry.state w.namespace t v)
    where
      answered :
          (id : ℕ) (r : Outcome (Unit {0})) (s : State S T)
          → IsConsistent s.1.namespace
          → IsConsistent (continue r (λ _. pure id) s).1.1.namespace
      answered id (ok _) s v = v
      answered id (err x) s v = v
      answered id panic s v = v

      go :
          (r : Outcome (ℕ × Bool)) (s : Namespace × NodeTable (PathNode S))
          → IsConsistent s.0
          → IsConsistent
              (continue {S = State S T} r
                (λ inserted. note_attr inserted.0 entry.attr >>= λ _. pure inserted.0)
                (s.1, record w { namespace = s.0 })).1.1.namespace
      go (ok (id, inserted)) (ns, t') v =
          let s : State S T = (t', record w { namespace = ns }) in
          let after = note_attr id entry.attr s in
          answered id after.0 after.1
            (subst IsConsistent (sym (note_attr-IsQuiet id entry.attr s)) v)
      go (err x) s v = v
      go panic s v = v

  pub add_node-Honours :
      (parent : ℕ) (name : Bytes) (entry : PathEntry S)
      → Post
          (Honours Always (bind (record { parent = parent; name = name })))
          (add_node {S = S} {T = T} parent name entry)
  add_node-Honours parent name entry (t, w) =
      (add_node-Refines parent name entry (t, w), λ _. add_node-keeps parent name entry t w)

  pub rollback-Honours :
      (d : Dentry)
      → Post
          (Honours Always (λ _. unbind d))
          (change_names {S = S} {T = T} (Namespace.rollback_dentry d))
  rollback-Honours d (t, w) =
      let gone = rollback_names d w.namespace t in
      (
        (λ e. ap (λ n. view n e) gone ∙ by_name-remove d e w.namespace),
        λ _ v. subst IsConsistent (sym gone) (remove-IsConsistent d w.namespace v),
      )

  pub move-Honours :
      (old new : Dentry)
      → Post
          (Honours Always (λ _. move old new))
          (change_names {S = S} {T = T} (Namespace.move_name old new))
  move-Honours old new (t, w) = (
    (λ e. view-move_name old new e w.namespace t),
    λ _ v. move-IsConsistent old new w.namespace t v,
  )

-- The name is free, or it is the node's already.
abbrev pub IsFree : ℕ → Dentry → Namespace → Type 0
IsFree id d ns = (get d ns.by_name ≡ none) ⊎ (get d ns.by_name ≡ some id)

linked-Refines :
    (id : ℕ) (d : Dentry) (ns : Namespace) (r : Outcome (Unit {0}))
    → ((x : Errno) → r ≢ err x)
    → Refines
        (bind d)
        ns
        (elim r [ ok _ ↦ ok id | err e ↦ err e | panic ↦ panic ])
        (Namespace.add_alias id d ns)
unfolding Namespace.add_alias
linked-Refines id d ns (ok _) h = λ e. get-insert d e id ns.by_name
linked-Refines id d ns (err x) h = absurd (h x refl)
linked-Refines id d ns panic h = tt

add_link-ne-err : {N : Type 0} (id : ℕ) (t : NodeTable N) (x : Errno) → (Cx.add_link id t).0 ≢ err x
unfolding Cx.add_link
add_link-ne-err id t x h = ground (arith, h)

module _ {S T : Type 0} where
  pub link-Honours :
      (id : ℕ) (d : Dentry)
      → Post (Honours (IsFree id d) (bind d)) (on_names {S = S} {T = T} (Namespace.link_name id d))
  unfolding Namespace.link_name
  link-Honours id d (t, w) = (
    linked-Refines id d w.namespace (Cx.add_link id t).0 (add_link-ne-err id t),
    add_alias-IsConsistent id d w.namespace,
  )
