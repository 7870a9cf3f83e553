-- ===== src/PathNodeFs/Reached.antt =====
-- typed-fuse-core/src/path_fs.rs: the path that `PathNodeFs` gives a node.
use typed_fuse.Base.{ℕ, ◌≡◌, refl, some, List, arith}
use typed_fuse.Base.Outcome.{ok}
use typed_fuse.Base.Order.{Bytes}
use typed_fuse.NodeTable.{root_id}
use typed_fuse.Namespace.Consistent.{IsConsistent}
use typed_fuse.Namespace.Paths.{resolve, resolve-path_for}
use typed_fuse.Namespace.Depth.{IsRooted, shortest, path_for_enough}
use typed_fuse.PathNodeFs.{World, path, depth_bound}

-- A node that any number of steps, each to the parent of a first name, leads from to the root has a
-- path: `path` gives one without an error, however deep the node is and whatever cycles the other
-- nodes form, and the names of that path lead from the root back to this node. The two maps of the
-- namespace agree.
pub path-IsReached :
    {S T : Type 0} (id steps : ℕ) (w : World S T)
    → IsConsistent w.namespace
    → IsRooted w.namespace.aliases steps id
    → (names : List Bytes) × (path id w ≡ (ok names, w))
      × (resolve w.namespace root_id names ≡ some id)
unfolding path
path-IsReached id steps w v rooted =
    let ns = w.namespace in
    let (n, fits, way) = shortest steps steps id ns.aliases (omega arith) rooted in
    let (names, found) = path_for_enough n (depth_bound ns) ns id (omega arith) way in
    (names, rw found refl, resolve-path_for (depth_bound ns) ns id names v found)
