-- ===== src/Namespace.antt =====
-- typed-fuse-core/src/path_fs.rs: `Namespace`, the names that `PathNodeFs` knows for its nodes. A
-- set is a map to the unit; a path is its components from the root. `S` is the filesystem's node
-- state.
pub mod Consistent
pub mod RollBack
pub mod Paths
pub mod Depth
use typed_fuse.Base.{
  ℕ, zero, suc, Bool, true, false, ◌&&◌, ◌||◌, ◌≡◌, ◌↔◌, Option, none, some, List, [], ◌∷◌, ◌++◌,
  eqb, ltb, if◌then◌else◌, checked_succ, u64_max, arith,
}
use typed_fuse.Base.Outcome.{Outcome, ok, err, panic, Exec}
use typed_fuse.Base.Order.{Key, nat_key, Bytes, bytes_eq, bytes_lt, bytes_eq_iff}
use typed_fuse.Base.BTreeMap
use typed_fuse.NodeTable.{NodeTable, root_id}
use typed_fuse.NodeTable.Cx

pub record Dentry : Type 0 where
  pub parent : ℕ
  pub name : Bytes

abbrev pub same_dentry : Dentry → Dentry → Bool
same_dentry a b = eqb a.parent b.parent && bytes_eq a.name b.name

pub same_dentry_iff : (a b : Dentry) → (same_dentry a b ≡ true) ↔ (a ≡ b)
same_dentry_iff a b = ground (arith, bytes_eq_iff a.name b.name)

instance abbrev pub dentry_key : Key Dentry
dentry_key = record {
  beq = same_dentry;
  blt = λ a b. ltb a.parent b.parent || eqb a.parent b.parent && bytes_lt a.name b.name;
  beq_iff = same_dentry_iff;
}

-- The part of `PathNode` that never changes.
pub record PathNode (S : Type 0) : Type 0 where
  pub key : ℕ
  pub state : S

abbrev pub Names : Type 0
Names = BTreeMap.BTreeMap Dentry (Unit {0})

pub record Namespace : Type 0 where
  pub by_name : BTreeMap.BTreeMap Dentry ℕ
  pub aliases : BTreeMap.BTreeMap ℕ Names
  pub keys : BTreeMap.BTreeMap ℕ ℕ
  pub next_key : ℕ

unfoldable pub new_namespace : Namespace
new_namespace = record {
  by_name = [];
  aliases = [];
  keys = BTreeMap.insert 1 root_id [];
  next_key = 2;
}

abbrev pub id_for_node : {S : Type 0} → Namespace → PathNode S → Option ℕ
id_for_node ns node = BTreeMap.get node.key ns.keys

-- `entry(id).or_default()`
abbrev pub names_of : Namespace → ℕ → Names
names_of ns id = elim (BTreeMap.get id ns.aliases) [ none ↦ [] | some names ↦ names ]

abbrev pub first_name : Option Names → Option Dentry
first_name none = none
first_name (some []) = none
first_name (some ((d, _) ∷ names)) = some d

abbrev pub below : Option (List Bytes) → Bytes → Option (List Bytes)
below none name = none
below (some path) name = some (path ++ name ∷ [])

-- The recursion goes from a node to the parent of its first name; fuel bounds its depth.
unfoldable pub path_for : ℕ → Namespace → ℕ → Option (List Bytes)
path_for zero ns id = none
path_for (suc fuel) ns id =
    if eqb id root_id then some [] else elim (first_name (BTreeMap.get id ns.aliases)) [
      | none ↦ none
      | some alias ↦ below (path_for fuel ns alias.parent) alias.name
    ]

unfoldable pub add_alias : ℕ → Dentry → Namespace → Namespace
add_alias id dentry ns = record ns {
  by_name = BTreeMap.insert dentry id ns.by_name;
  aliases = BTreeMap.insert id (BTreeMap.insert dentry tt (names_of ns id)) ns.aliases;
}

-- What is left of a node's names; an empty set is removed.
abbrev pub put_names : ℕ → Names → BTreeMap.BTreeMap ℕ Names → BTreeMap.BTreeMap ℕ Names
put_names id [] aliases = BTreeMap.remove id aliases
put_names id (name ∷ names) aliases = BTreeMap.insert id (name ∷ names) aliases

abbrev pub without_name : ℕ → Dentry → Namespace → Namespace
without_name id dentry ns = record ns {
  by_name = BTreeMap.remove dentry ns.by_name;
  aliases = elim (BTreeMap.get id ns.aliases) [
    | none ↦ ns.aliases
    | some names ↦ put_names id (BTreeMap.remove dentry names) ns.aliases
  ];
}

unfoldable pub remove : Dentry → Namespace → Option ℕ × Namespace
remove dentry ns = elim (BTreeMap.get dentry ns.by_name) [
  | none ↦ (none, ns)
  | some id ↦ (some id, without_name id dentry ns)
]

-- `by_name.get(&dentry).copied() == Some(id)`
abbrev pub is_named : Dentry → ℕ → Namespace → Bool
is_named dentry id ns = elim (BTreeMap.get dentry ns.by_name) [
  | none ↦ false
  | some found ↦ eqb found id
]

module _ {S : Type 0} where
  -- The node of the name and whether this call inserted it.
  unfoldable pub insert : ℕ → Bytes → S → Exec (Namespace × NodeTable (PathNode S)) (ℕ × Bool)
  unfolding add_alias Cx.insert
  insert parent name state (ns, t) =
      let dentry : Dentry = record { parent = parent; name = name } in
      elim (BTreeMap.get dentry ns.by_name) [
        | some id ↦ (ok (id, false), (ns, t))
        | none ↦ elim (checked_succ u64_max ns.next_key) [
          | none ↦ (panic, (ns, t))
          | some next ↦
              let node : PathNode S = record { key = ns.next_key; state = state } in
              let (id, t') = Cx.insert node parent t in
              (
                ok (id, true),
                (
                  add_alias id dentry (record ns {
                    keys = BTreeMap.insert ns.next_key id ns.keys;
                    next_key = next;
                  }),
                  t',
                ),
              )
        ]
      ]

  -- `rollback_dentry`, which is also what `remove_entry` does once the filesystem has removed the name.
  unfoldable pub rollback_dentry :
      Dentry → Namespace × NodeTable (PathNode S) → Namespace × NodeTable (PathNode S)
  unfolding remove Cx.remove_link
  rollback_dentry dentry (ns, t) =
      let (removed, ns') = remove dentry ns in
      elim removed [ none ↦ (ns', t) | some id ↦ (ns', Cx.remove_link id t) ]

  -- What `rename` does once the filesystem has renamed.
  unfoldable pub move_name :
      Dentry → Dentry → Namespace × NodeTable (PathNode S) → Namespace × NodeTable (PathNode S)
  unfolding rollback_dentry remove add_alias Cx.reparent
  move_name old new (ns, t) = elim (BTreeMap.get old ns.by_name) [
    | none ↦ (ns, t)
    | some source ↦
        if is_named new source ns
        then (ns, t)
        else let (ns', t') = rollback_dentry new (ns, t) in
          (add_alias source new (remove old ns').1, Cx.reparent source new.parent t')
  ]

  -- What `link` does once the filesystem has linked.
  unfoldable pub link_name : ℕ → Dentry → Exec (Namespace × NodeTable (PathNode S)) ℕ
  unfolding add_alias Cx.add_link
  link_name id dentry (ns, t) =
      let (r, t') = Cx.add_link id t in
      (elim r [ ok _ ↦ ok id | err e ↦ err e | panic ↦ panic ], (add_alias id dentry ns, t'))
