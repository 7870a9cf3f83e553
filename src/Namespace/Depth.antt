-- ===== src/Namespace/Depth.antt =====
-- typed-fuse-core/src/path_fs.rs: how deep `Namespace::path_for` goes.
use typed_fuse.Base.{
  ℕ, zero, suc, ◌≤◌, ◌<◌, ◌≡◌, refl, ap, subst, some, [], ◌∷◌, ◌++◌, eqb, arith, length, List,
  Bool-cases, inl, inr, ◌⊎◌,
}
use typed_fuse.Base.Order.{nat_key, Bytes}
use typed_fuse.Base.BTreeMap.{BTreeMap, get, remove, get-remove}
use typed_fuse.NodeTable.{root_id}
use typed_fuse.Namespace.{Dentry, Names, Namespace, first_name, path_for}

-- The first names of a node and its parents reach the root in this many steps.
abbrev pub IsRooted : BTreeMap ℕ Names → ℕ → ℕ → Type 0
IsRooted aliases zero id = id ≡ root_id
IsRooted aliases (suc n) id =
    (alias : Dentry) × (first_name (get id aliases) ≡ some alias) × IsRooted aliases n alias.parent

length-remove : (id : ℕ) (m : BTreeMap ℕ Names) → length (remove id m) ≤ length m
unfolding remove
length-remove id [] = omega arith
length-remove id ((i, names) ∷ m) = ground (arith, length-remove id m)

length-remove_named :
    (id : ℕ) (m : BTreeMap ℕ Names) (alias : Dentry)
    → first_name (get id m) ≡ some alias
    → suc (length (remove id m)) ≤ length m
unfolding get remove
length-remove_named id [] alias e = ground arith
length-remove_named id ((i, names) ∷ m) alias e =
    ground (arith, length-remove id m, length-remove_named id m alias)

remove-IsRooted :
    (i n id : ℕ) (aliases : BTreeMap ℕ Names)
    → IsRooted (remove i aliases) n id
    → IsRooted aliases n id
remove-IsRooted i zero id aliases r = r
remove-IsRooted i (suc n) id aliases (alias, first, up) =
    (alias, ground (arith, get-remove i id aliases), remove-IsRooted i n alias.parent aliases up)

-- A way to the root goes round a node, or there is a way from that node that is no longer.
avoid :
    (i n id : ℕ) (aliases : BTreeMap ℕ Names)
    → IsRooted aliases n id
    → IsRooted (remove i aliases) n id ⊎ ((k : ℕ) × (k ≤ n) × IsRooted aliases k i)
avoid i zero id aliases r = inl r
avoid i (suc n) id aliases (alias, first, up) = elim (Bool-cases (eqb i id)) [
  | inl same ↦ inr (
    suc n,
    omega arith,
    subst (λ j. IsRooted aliases (suc n) j) (ground (arith, same)) (alias, first, up),
  )
  | inr other ↦ elim (avoid i n alias.parent aliases up) [
    | inl round ↦ inl (alias, ground (arith, get-remove i id aliases, other), round)
    | inr (k, h, back) ↦ inr (k, omega arith, back)
  ]
]

-- A way without a cycle visits each node that has a name once at most.
pub shortest :
    (most n id : ℕ) (aliases : BTreeMap ℕ Names)
    → n ≤ most
    → IsRooted aliases n id
    → (k : ℕ) × (k ≤ length aliases) × IsRooted aliases k id
shortest most zero id aliases h r = (zero, omega arith, r)
shortest zero (suc n) id aliases h r = absurd (omega arith)
shortest (suc most) (suc n) id aliases h (alias, first, up) =
    elim (avoid id n alias.parent aliases up) [
      | inl round ↦
          let (k, fits, way) =
            shortest most n alias.parent (remove id aliases) (omega arith) round in
          (
            suc k,
            omega (arith, length-remove_named id aliases alias first),
            (alias, first, remove-IsRooted id k alias.parent aliases way),
          )
      | inr (k, shorter, back) ↦ shortest most k id aliases (omega arith) back
    ]

-- With more fuel than a node's depth, its path is built.
pub path_for_enough :
    (n fuel : ℕ) (ns : Namespace) (id : ℕ)
    → n < fuel
    → IsRooted ns.aliases n id
    → (path : List Bytes) × (path_for fuel ns id ≡ some path)
unfolding path_for
path_for_enough zero zero ns id h r = absurd (omega arith)
path_for_enough zero (suc fuel) ns id h r = ([], rw (ap (λ i. eqb i root_id) r) refl)
path_for_enough (suc n) zero ns id h r = absurd (omega arith)
path_for_enough (suc n) (suc fuel) ns id h (alias, first, up) =
    let (above, found) = path_for_enough n fuel ns alias.parent (omega arith) up in
    elim (Bool-cases (eqb id root_id)) [
      | inl root ↦ ([], rw root refl)
      | inr inner ↦ (above ++ alias.name ∷ [], ground (arith, inner, first, found))
    ]
