-- ===== src/Tests/Names.antt =====
-- typed-fuse-core/src/path_fs.rs: the names of nodes.
use typed_fuse.Base.{ℕ, ◌≡◌, refl, some, List, [], ◌∷◌, arith}
use typed_fuse.Base.Order.{nat_key, Bytes}
use typed_fuse.Base.BTreeMap.{get, insert, remove}
use typed_fuse.NodeTable.{NodeTable, root_table, root_id}
use typed_fuse.NodeTable.Cx
use typed_fuse.Namespace.{Dentry, dentry_key, PathNode, Namespace, new_namespace, path_for}
use typed_fuse.Namespace
use typed_fuse.Namespace.Consistent.{
  Change, inserts, moves, changes, change, named, changes-IsConsistent, link_name_stale,
}
use typed_fuse.Namespace.Paths.{resolve, resolve-path_for}
use typed_fuse.PathNodeFs.{World, new_world, path}
use typed_fuse.PathNodeFs.Reached.{path-IsReached}
use typed_fuse.Base.Outcome.{ok}

abbrev dentry : ℕ → Bytes → Dentry
dentry parent name = record { parent = parent; name = name }

abbrev table : NodeTable (PathNode ℕ)
table = root_table (record { key = 1; state = 0 })

-- A directory `d` with a file `f` in it, which is renamed to `g` in the root.
abbrev made : List (Change ℕ)
made = inserts 1 (b'd' ∷ []) 10 ∷ inserts 2 (b'f' ∷ []) 11 ∷ []

abbrev renamed : List (Change ℕ)
renamed =
    inserts 1 (b'd' ∷ []) 10
    ∷ inserts 2 (b'f' ∷ []) 11
    ∷ moves (dentry 2 (b'f' ∷ [])) (dentry 1 (b'g' ∷ []))
    ∷ []

abbrev tree : Namespace
tree = (changes made (new_namespace, table)).0

moved_path : path_for 3 (changes renamed (new_namespace, table)).0 3 ≡ some ((b'g' ∷ []) ∷ [])
unfolding changes change path_for new_namespace root_table Namespace.insert Namespace.move_name
    Namespace.remove Cx.insert insert remove get
moved_path = refl

resolve-path_for_example : resolve tree root_id ((b'd' ∷ []) ∷ (b'f' ∷ []) ∷ []) ≡ some 3
unfolding changes change path_for new_namespace root_table Namespace.insert Cx.insert insert get
resolve-path_for_example =
    resolve-path_for 3 tree 3 ((b'd' ∷ []) ∷ (b'f' ∷ []) ∷ []) (changes-IsConsistent made table)
      refl

abbrev kept : World ℕ ℕ
kept = record (new_world 0) { namespace = tree }

path-IsReached_example :
    (names : List Bytes) × (path 3 kept ≡ (ok names, kept)) × (resolve tree root_id names ≡ some 3)
unfolding changes change new_world new_namespace root_table Namespace.insert Cx.insert insert get
path-IsReached_example =
    path-IsReached 3 2 kept (changes-IsConsistent made table)
      (dentry 2 (b'f' ∷ []), refl, (dentry 1 (b'd' ∷ []), refl, refl))

link_name_stale_example :
    let ns' = (Namespace.link_name 2 (dentry 2 (b'f' ∷ [])) (tree, table)).1.0 in
    (get (dentry 2 (b'f' ∷ [])) ns'.by_name ≡ some 2)
    × (named ns' 3 (dentry 2 (b'f' ∷ [])) ≡ some tt)
unfolding changes change new_namespace root_table Namespace.insert Cx.insert insert get
link_name_stale_example =
    link_name_stale 2 3 (dentry 2 (b'f' ∷ [])) tree table (changes-IsConsistent made table) refl
      (omega arith)
