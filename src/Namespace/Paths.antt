-- ===== src/Namespace/Paths.antt =====
-- The path that `Namespace` builds for a node (typed-fuse-core/src/path_fs.rs: `path_for`).
use typed_fuse.Base.{
  ℕ, zero, suc, ◌≡◌, ap, sym, Option, none, some, List, [], ◌∷◌, ◌++◌, eqb, arith, Option-cases,
  Bool-cases, inl, inr, some-eq, subst, ◌⊎◌,
}
use typed_fuse.Base.Order.{nat_key, Bytes}
use typed_fuse.Base.BTreeMap.{get}
use typed_fuse.NodeTable.{root_id}
use typed_fuse.Namespace.{Dentry, dentry_key, Names, Namespace, first_name, path_for}
use typed_fuse.Namespace.Consistent.{IsConsistent, named}

abbrev pub at_child : Option ℕ → (ℕ → Option ℕ) → Option ℕ
at_child none f = none
at_child (some child) f = f child

-- The node that a path leads to by the names, component by component.
abbrev pub resolve : Namespace → ℕ → List Bytes → Option ℕ
resolve ns id [] = some id
resolve ns id (name ∷ path) =
    at_child (get (record { parent = id; name = name }) ns.by_name) λ child. resolve ns child path

resolve-below :
    (ns : Namespace) (from parent id : ℕ) (path : List Bytes) (name : Bytes)
    → resolve ns from path ≡ some parent
    → get (record { parent = parent; name = name }) ns.by_name ≡ some id
    → resolve ns from (path ++ name ∷ []) ≡ some id
resolve-below ns from parent id [] name e here =
    let same : from ≡ parent = some-eq e in
    subst (λ from. resolve ns from (name ∷ []) ≡ some id) (sym same)
      (ap (λ o. at_child o λ child. some child) here)
resolve-below ns from parent id (c ∷ path) name e here =
    further (get (record { parent = from; name = c }) ns.by_name)
      (λ child h. resolve-below ns child parent id path name h here) e
  where
    further :
        (o : Option ℕ)
        → ((child : ℕ)
            → resolve ns child path ≡ some parent
            → resolve ns child (path ++ name ∷ []) ≡ some id)
        → at_child o (λ child. resolve ns child path) ≡ some parent
        → at_child o (λ child. resolve ns child (path ++ name ∷ [])) ≡ some id
    further none step h = cc
    further (some child) step h = step child h

first-named :
    (ns : Namespace) (id : ℕ) (alias : Dentry)
    → first_name (get id ns.aliases) ≡ some alias
    → named ns id alias ≡ some tt
unfolding get
first-named ns id alias e = go (get id ns.aliases) e
  where
    go :
        (o : Option Names)
        → first_name o ≡ some alias
        → get alias (elim o [ none ↦ [] | some names ↦ names ]) ≡ some tt
    go none h = cc
    go (some []) h = cc
    go (some ((d, u) ∷ names)) h = ground (arith, some-eq h, dentry_key.beq_iff d alias)

path_cases :
    (fuel : ℕ) (ns : Namespace) (id : ℕ) (path : List Bytes)
    → path_for (suc fuel) ns id ≡ some path
    → ((id ≡ root_id) × (path ≡ []))
      ⊎ ((alias : Dentry) × (above : List Bytes) × (first_name (get id ns.aliases) ≡ some alias)
          × (path_for fuel ns alias.parent ≡ some above)
          × (path ≡ above ++ alias.name ∷ []))
unfolding path_for
path_cases fuel ns id path e = elim (Bool-cases (eqb id root_id)) [
  | inl root ↦ inl (ground arith)
  | inr inner ↦ elim (Option-cases (first_name (get id ns.aliases))) [
    | inl nameless ↦ absurd (ground arith)
    | inr (alias, first) ↦ elim (Option-cases (path_for fuel ns alias.parent)) [
      | inl lost ↦ absurd (ground arith)
      | inr (above, found) ↦ inr (alias, above, first, found, ground arith)
    ]
  ]
]

-- A path that is built for a node leads back to that node, by the names from the root on.
pub resolve-path_for :
    (fuel : ℕ) (ns : Namespace) (id : ℕ) (path : List Bytes)
    → IsConsistent ns
    → path_for fuel ns id ≡ some path
    → resolve ns root_id path ≡ some id
unfolding path_for
resolve-path_for zero ns id path v e = cc
resolve-path_for (suc fuel) ns id path v e = elim (path_cases fuel ns id path e) [
  | inl (root, empty) ↦ rw empty (ap some (sym root))
  | inr (alias, above, first, found, whole) ↦ rw whole (
      resolve-below ns root_id alias.parent id above alias.name
        (resolve-path_for fuel ns alias.parent above v found)
        ((v alias id).1 (first-named ns id alias first)))
]
