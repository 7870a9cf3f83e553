-- ===== src/Namespace/Consistent.antt =====
-- The two maps of `Namespace` agree (typed-fuse-core/src/path_fs.rs).
use typed_fuse.Base.{
  subst, ℕ, ◌≡◌, ◌≢◌, ◌↔◌, refl, ap, sym, ◌∙◌, Option, none, some, List, [], ◌∷◌, eqb,
  if◌then◌else◌, arith, Option-cases, Bool-cases, inl, inr, ◌⊎◌, checked_succ, u64_max,
}
use typed_fuse.Base.Order.{nat_key, Bytes, ◌==◌}
use typed_fuse.Base.BTreeMap.{BTreeMap, get, insert, remove, get-insert, get-remove}
use typed_fuse.NodeTable.{NodeTable}
use typed_fuse.NodeTable.Cx
use typed_fuse.Namespace.{
  Dentry, dentry_key, PathNode, Names, Namespace, names_of, put_names, without_name, new_namespace,
  add_alias, is_named,
}
use typed_fuse.Namespace

-- Whether the dentry is one of the node's names.
abbrev pub named : Namespace → ℕ → Dentry → Option (Unit {0})
named ns id dentry = get dentry (names_of ns id)

-- Each name refers to the node that has it among its names, and to no other.
abbrev pub IsConsistent : Namespace → Type 0
IsConsistent ns = (d : Dentry) (id : ℕ) → (get d ns.by_name ≡ some id) ↔ (named ns id d ≡ some tt)

pub new-IsConsistent : IsConsistent new_namespace
unfolding new_namespace get
new-IsConsistent d id = ground arith

get-put_names :
    (i j : ℕ) (d : Dentry) (names : Names) (aliases : BTreeMap ℕ Names)
    → get d (elim (get j (put_names i names aliases)) [ none ↦ [] | some n ↦ n ])
      ≡ (if eqb i j then get d names else get d (elim (get j aliases) [ none ↦ [] | some n ↦ n ]))
unfolding get
get-put_names i j d [] aliases = ground (arith, get-remove i j aliases)
get-put_names i j d (n ∷ names) aliases = ground (arith, get-insert i j (n ∷ names) aliases)

named-add_alias :
    (id j : ℕ) (d e : Dentry) (ns : Namespace)
    → named (add_alias id d ns) j e
      ≡ (if eqb id j then if d == e then some tt else named ns id e else named ns j e)
unfolding add_alias
named-add_alias id j d e ns = ground (
  arith,
  get-insert id j (insert d tt (names_of ns id)) ns.aliases,
  get-insert d e tt (names_of ns id),
)

named-without_name :
    (id j : ℕ) (d e : Dentry) (ns : Namespace)
    → named (without_name id d ns) j e
      ≡ (if eqb id j then if d == e then none else named ns id e else named ns j e)
unfolding get
named-without_name id j d e ns = elim (Option-cases (get id ns.aliases)) [
  | inl no_names ↦ simp no_names (ground arith)
  | inr (names, here) ↦
      simp here
        (ground (arith, get-put_names id j e (remove d names) ns.aliases, get-remove d e names))
]

-- A name that is free, or is the node's already.
pub add_alias-IsConsistent :
    (id : ℕ) (d : Dentry) (ns : Namespace)
    → (get d ns.by_name ≡ none) ⊎ (get d ns.by_name ≡ some id)
    → IsConsistent ns
    → IsConsistent (add_alias id d ns)
unfolding add_alias
add_alias-IsConsistent id d ns free v e j = ground (
  arith,
  named-add_alias id j d e ns,
  get-insert d e id ns.by_name,
  v e j,
  v e id,
  dentry_key.beq_iff d e,
  free,
)

without_name-IsConsistent :
    (id : ℕ) (d : Dentry) (ns : Namespace)
    → get d ns.by_name ≡ some id
    → IsConsistent ns
    → IsConsistent (without_name id d ns)
without_name-IsConsistent id d ns here v e j = ground (
  arith,
  named-without_name id j d e ns,
  get-remove d e ns.by_name,
  v e j,
  v e id,
  dentry_key.beq_iff d e,
)

pub remove-IsConsistent :
    (d : Dentry) (ns : Namespace) → IsConsistent ns → IsConsistent (Namespace.remove d ns).1
unfolding Namespace.remove
remove-IsConsistent d ns v = elim (Option-cases (get d ns.by_name)) [
  | inl unknown ↦ rw (unknown, Namespace.remove) v
  | inr (id, here) ↦ rw (here, Namespace.remove) (without_name-IsConsistent id d ns here v)
]

-- What `remove` leaves of the names.
pub by_name-remove :
    (d e : Dentry) (ns : Namespace)
    → get e (Namespace.remove d ns).1.by_name ≡ (if d == e then none else get e ns.by_name)
unfolding Namespace.remove
by_name-remove d e ns = elim (Option-cases (get d ns.by_name)) [
  | inl unknown ↦ rw (unknown, Namespace.remove) (ground (arith, dentry_key.beq_iff d e))
  | inr (id, here) ↦ rw (here, Namespace.remove) (get-remove d e ns.by_name)
]

-- What the operations of `PathNodeFs` do to the names: listings, lookups and creations insert, removals
-- and refused listings take away, and renames move.
pub data Change (S : Type 0) : Type 0 where
  inserts : ℕ → Bytes → S → Change S
  removes : Dentry → Change S
  moves : Dentry → Dentry → Change S

module _ {S : Type 0} where
  unfoldable pub change :
      Change S → Namespace × NodeTable (PathNode S) → Namespace × NodeTable (PathNode S)
  change (inserts parent name state) s = (Namespace.insert parent name state s).1
  change (removes d) s = Namespace.rollback_dentry d s
  change (moves old new) s = Namespace.move_name old new s

  pub insert-IsConsistent :
      (parent : ℕ) (name : Bytes) (state : S) (ns : Namespace) (t : NodeTable (PathNode S))
      → IsConsistent ns
      → IsConsistent (Namespace.insert parent name state (ns, t)).1.0
  unfolding Namespace.insert
  insert-IsConsistent parent name state ns t v =
      let d : Dentry = record { parent = parent; name = name } in
      elim (Option-cases (get d ns.by_name)) [
        | inr (id, known) ↦ rw (known, Namespace.insert) v
        | inl unknown ↦ elim (Option-cases (checked_succ u64_max ns.next_key)) [
          | inl full ↦ rw (unknown, full, Namespace.insert) v
          | inr (next, room) ↦
              let node : PathNode S = record { key = ns.next_key; state = state } in
              let id = (Cx.insert node parent t).0 in
              rw (unknown, room, Namespace.insert)
                (add_alias-IsConsistent id d
                  (record ns { keys = insert ns.next_key id ns.keys; next_key = next })
                  (inl unknown) v)
        ]
      ]

  pub rollback_names :
      (d : Dentry) (ns : Namespace) (t : NodeTable (PathNode S))
      → (Namespace.rollback_dentry d (ns, t)).0 ≡ (Namespace.remove d ns).1
  unfolding Namespace.rollback_dentry
  rollback_names d ns t = elim (Option-cases (Namespace.remove d ns).0) [
    | inl unknown ↦ rw (unknown, Namespace.rollback_dentry) refl
    | inr (id, here) ↦ rw (here, Namespace.rollback_dentry) refl
  ]

  pub move-IsConsistent :
      (old new : Dentry) (ns : Namespace) (t : NodeTable (PathNode S))
      → IsConsistent ns
      → IsConsistent (Namespace.move_name old new (ns, t)).0
  unfolding Namespace.move_name
  move-IsConsistent old new ns t v = elim (Option-cases (get old ns.by_name)) [
    | inl unknown ↦ rw (unknown, Namespace.move_name) v
    | inr (source, known) ↦ elim (Bool-cases (is_named new source ns)) [
      | inl same ↦ rw (known, same, Namespace.move_name) v
      | inr other ↦
          let left = (Namespace.rollback_dentry new (ns, t)).0 in
          let gone : get new left.by_name ≡ none =
            ap (λ n. get new n.by_name) (rollback_names new ns t)
            ∙ by_name-remove new new ns
            ∙ ground (arith, dentry_key.beq_iff new new) in
          let kept : IsConsistent left =
            subst IsConsistent (sym (rollback_names new ns t)) (remove-IsConsistent new ns v) in
          rw (known, other, Namespace.move_name)
            (add_alias-IsConsistent source new (Namespace.remove old left).1
              (inl (by_name-remove old new left ∙ ground (arith, gone)))
              (remove-IsConsistent old left kept))
    ]
  ]

  change-IsConsistent :
      (c : Change S) (s : Namespace × NodeTable (PathNode S))
      → IsConsistent s.0
      → IsConsistent (change c s).0
  unfolding change
  change-IsConsistent (inserts parent name state) s v =
      insert-IsConsistent parent name state s.0 s.1 v
  change-IsConsistent (removes d) s v =
      subst IsConsistent (sym (rollback_names d s.0 s.1)) (remove-IsConsistent d s.0 v)
  change-IsConsistent (moves old new) s v = move-IsConsistent old new s.0 s.1 v

  unfoldable pub changes :
      List (Change S) → Namespace × NodeTable (PathNode S) → Namespace × NodeTable (PathNode S)
  changes [] s = s
  changes (c ∷ cs) s = changes cs (change c s)

  changes-IsConsistent_from :
      (cs : List (Change S)) (s : Namespace × NodeTable (PathNode S))
      → IsConsistent s.0
      → IsConsistent (changes cs s).0
  unfolding changes
  changes-IsConsistent_from [] s v = v
  changes-IsConsistent_from (c ∷ cs) s v =
      changes-IsConsistent_from cs (change c s) (change-IsConsistent c s v)

  -- After any insertions, removals and renames of names, in any order and on any inode table: a
  -- name refers to a node exactly if it is among that node's names, so no node answers to a
  -- name that was given to another.
  pub changes-IsConsistent :
      (cs : List (Change S)) (t : NodeTable (PathNode S))
      → IsConsistent (changes cs (new_namespace, t)).0
  changes-IsConsistent cs t = changes-IsConsistent_from cs (new_namespace, t) new-IsConsistent

  -- `link` under a name that refers to another node leaves that node with the name among its own,
  -- though the name now refers to the linked node.
  pub link_name_stale :
      (id other : ℕ) (d : Dentry) (ns : Namespace) (t : NodeTable (PathNode S))
      → IsConsistent ns
      → get d ns.by_name ≡ some other
      → other ≢ id
      → let ns' = (Namespace.link_name id d (ns, t)).1.0 in
        (get d ns'.by_name ≡ some id) × (named ns' other d ≡ some tt)
  unfolding Namespace.link_name add_alias
  link_name_stale id other d ns t v here differ = (
    ground (arith, get-insert d d id ns.by_name, dentry_key.beq_iff d d),
    ground (arith, named-add_alias id other d d ns, v d other),
  )
