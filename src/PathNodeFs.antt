-- ===== src/PathNodeFs.antt =====
-- typed-fuse-core/src/path_fs.rs: `PathNodeFs`, which adapts a `PathFilesystem` to the interface
-- `NodeFs`. A request runs from start to end here. The source orders requests by the `operations`
-- lock: those that change names hold it exclusively. A node's `Mutex` and its counter, which are
-- shared by everything that refers to the node, are cells that stand under the node's key; a
-- directory handle's `Mutex` of listings stands under the number of its allocation.
pub mod Nodes
pub mod Names
pub mod Directories
pub mod Adapter
pub mod Post
pub mod Requests
pub mod Made
pub mod Honours
pub mod Steps
pub mod Refinement
pub mod Creation
pub mod Reply
pub mod Refused
pub mod Reached
use typed_fuse.Base.{ℕ, suc, ◌+◌, ◌%◌, Option, none, some, List, [], length, u64_mod}
use typed_fuse.Base.Outcome.{Outcome, ok, err, panic, enoent, Exec, pure, fail, ◌>>=◌}
use typed_fuse.Base.Order.{nat_key, Bytes}
use typed_fuse.Base.BTreeMap.{BTreeMap, get, insert}
use typed_fuse.Attr.{NodeAttr}
use typed_fuse.NodeTable.{NodeTable, NodeRef}
use typed_fuse.NodeTable.Cx
use typed_fuse.PathFilesystem.{PathNodeRef}
use typed_fuse.Listing.Retained.{DirListings}
use typed_fuse.Namespace.{PathNode, Namespace, new_namespace, id_for_node, path_for}

-- The part of a `PathNode` that changes.
pub record Cell : Type 0 where
  pub entry_attr : Option NodeAttr
  pub entries_epoch : ℕ

pub record PathDirHandle (D : Type 0) : Type 0 where
  pub inner : D
  pub listings : ℕ

-- What `PathNodeFs` and the nodes and directory handles of its own hold.
pub record World (S T : Type 0) : Type 0 where
  pub namespace : Namespace
  pub cells : BTreeMap ℕ Cell
  pub listings : BTreeMap ℕ (DirListings S)
  pub next_listings : ℕ
  pub inner : T

-- `PathNodeFs::new`
unfoldable pub new_world : {S T : Type 0} → T → World S T
unfolding new_namespace
new_world inner = record {
  namespace = new_namespace;
  cells = [];
  listings = [];
  next_listings = 0;
  inner = inner;
}

-- A path without a cycle visits each node that has a name once at most.
abbrev pub depth_bound : Namespace → ℕ
depth_bound ns = suc (length ns.aliases)

abbrev pub node_path_of : Namespace → Option ℕ → Option (List Bytes)
node_path_of ns none = none
node_path_of ns (some id) = path_for (depth_bound ns) ns id

abbrev pub or_enoent {ℓ κ} : {A : Type ℓ} {W : Type κ} → Option A → Exec W A
or_enoent none = fail enoent
or_enoent (some a) = pure a

abbrev pub at_path : {S : Type 0} → List Bytes → PathNode S → PathNodeRef S
at_path above node = record { path = some above; state = node.state }

module _ {S T : Type 0} where
  -- The cell of a node as `PathNode::new` leaves it, until it is written.
  unfoldable pub cell_of : PathNode S → World S T → Cell
  cell_of node w = elim (get node.key w.cells) [
    | none ↦ record { entry_attr = none; entries_epoch = 0 }
    | some cell ↦ cell
  ]

  abbrev pub put_cell : PathNode S → Cell → World S T → World S T
  put_cell node cell w = record w { cells = insert node.key cell w.cells }

  unfoldable pub entries_changed : PathNode S → World S T → World S T
  unfolding cell_of
  entries_changed node w =
      let cell = cell_of node w in
      put_cell node (record cell { entries_epoch = (cell.entries_epoch + 1) % u64_mod }) w

  unfoldable pub set_entry_attr : PathNode S → NodeAttr → World S T → World S T
  unfolding cell_of
  set_entry_attr node attr w = put_cell node (record (cell_of node w) { entry_attr = some attr }) w

  unfoldable pub take_entry_attr : PathNode S → World S T → Option NodeAttr × World S T
  unfolding cell_of
  take_entry_attr node w =
      let cell = cell_of node w in
      (cell.entry_attr, put_cell node (record cell { entry_attr = none }) w)

  unfoldable pub node_path : PathNode S → World S T → Option (List Bytes)
  unfolding path_for
  node_path node w = node_path_of w.namespace (id_for_node w.namespace node)

  unfoldable pub path : ℕ → Exec (World S T) (List Bytes)
  unfolding path_for
  path id w = or_enoent (path_for (depth_bound w.namespace) w.namespace id) w

  -- A method of the filesystem.
  abbrev pub call {ℓ} : {A : Type ℓ} → Exec T A → Exec (World S T) A
  call f w = let (r, inner) = f w.inner in (r, record w { inner = inner })

  -- The node with its path, if it still has a name.
  abbrev pub with_node_path {ℓ} :
      {A : Type ℓ} → PathNode S → (PathNodeRef S → Exec T A) → Exec (World S T) A
  with_node_path node f w = call (f (record { path = node_path node w; state = node.state })) w

  -- `self.node_path(node).ok_or(Errno::ENOENT)?`, and what follows it.
  abbrev pub with_named_node {ℓ} :
      {A : Type ℓ} → PathNode S → (PathNodeRef S → Exec T A) → Exec (World S T) A
  with_named_node node f w =
      (or_enoent (node_path node w) >>= λ path. call (f (at_path path node))) w

module _ {N W : Type 0} where
  abbrev pub on_world {ℓ} : {A : Type ℓ} → Exec W A → Exec (NodeTable N × W) A
  on_world f (t, w) = let (r, w') = f w in (r, (t, w'))

  abbrev pub then_drop {ℓ} :
      {A : Type ℓ} → NodeRef N → Outcome A × (NodeTable N × W) → Outcome A × (NodeTable N × W)
  then_drop node (r, (t, w)) = (r, (Cx.drop_ref node t, w))

  abbrev pub holding {ℓ} :
      {A : Type ℓ}
      → (N → Exec (NodeTable N × W) A)
      → Outcome (Option (NodeRef N))
      → Exec (NodeTable N × W) A
  holding f (ok (some node)) s = then_drop node (f node.payload s)
  holding f (ok none) s = (err enoent, s)
  holding f (err e) s = (err e, s)
  holding f panic s = (panic, s)

  -- `let node = cx.get(id).ok_or(Errno::ENOENT)?;`, and the scope that holds the lease.
  unfoldable pub with_ref {ℓ} :
      {A : Type ℓ} → ℕ → (N → Exec (NodeTable N × W) A) → Exec (NodeTable N × W) A
  unfolding Cx.get Cx.drop_ref
  with_ref id f (t, w) = let (r, t') = Cx.get id t in holding f r (t', w)
