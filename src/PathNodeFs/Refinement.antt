-- ===== src/PathNodeFs/Refinement.antt =====
-- The requests of `PathNodeFs` keep what they promise of the names (typed-fuse-core/src/path_fs.rs).
use typed_fuse.Base.{true, false, none, some, List, [], ◌∷◌}
use typed_fuse.Base.Outcome.{pure, ◌>>=◌}
use typed_fuse.Namespace.{Dentry, Namespace}
use typed_fuse.Namespace.Consistent.{IsConsistent}
use typed_fuse.PathFilesystem.{PathFilesystem}
use typed_fuse.PathNodeFs.Names.{
  State, on_names, change_names, on_node, add_node, add_found, in_directory, remove_entry,
}
use typed_fuse.PathNodeFs.Names
use typed_fuse.PathNodeFs.Steps.{
  answering-Post, calling-Post, lookup-Post, remove-Post, rename-Post, link-Post,
}
use typed_fuse.PathNodeFs.Post.{Post}
use typed_fuse.PathNodeFs.Requests.{
  Request, looks_up, makes_node, makes_dir, makes_symlink, creates, links, unlinks, removes_dir,
  renames, bind, bind_found, unbind, move, promised, serve,
}
use typed_fuse.PathNodeFs.Made.{Refines}
use typed_fuse.PathNodeFs.Honours.{Honours, Always, add_node-Honours, IsFree}

-- A link takes a name that is free.
abbrev pub IsSafe : Request → Namespace → Type 0
IsSafe (links id newparent newname caller) =
    IsFree id (record { parent = newparent; name = newname })
IsSafe _ = Always

module _ {S H D T : Type 0} (fs : PathFilesystem S H D T) where
  -- Each request does to the names what it promises: if it succeeds, the names refer to the nodes that
  -- `promised` says, and if it fails, no name changes.
  serve-Honours : (r : Request) → Post (Honours (IsSafe r) (promised r)) (serve fs r)
  unfolding serve Names.mknod Names.mkdir Names.symlink Names.create Names.unlink Names.rmdir
  serve-Honours (looks_up parent name caller) = lookup-Post fs parent name caller
  serve-Honours (makes_node parent name mode rdev umask caller) =
      answering-Post Always (λ id. some id) (bind_found (record { parent = parent; name = name }))
        (Names.mknod fs parent name mode rdev umask caller)
        (calling-Post (bind (record { parent = parent; name = name })) parent
          (λ r. fs.mknod r name mode rdev umask caller) (add_node parent name)
          (add_node-Honours parent name))
  serve-Honours (makes_dir parent name mode umask caller) =
      answering-Post Always (λ id. some id) (bind_found (record { parent = parent; name = name }))
        (Names.mkdir fs parent name mode umask caller)
        (calling-Post (bind (record { parent = parent; name = name })) parent
          (λ r. fs.mkdir r name mode umask caller) (add_node parent name)
          (add_node-Honours parent name))
  serve-Honours (makes_symlink parent name target caller) =
      answering-Post Always (λ id. some id) (bind_found (record { parent = parent; name = name }))
        (Names.symlink fs parent name target caller)
        (calling-Post (bind (record { parent = parent; name = name })) parent
          (λ r. fs.symlink r name target caller) (add_node parent name)
          (add_node-Honours parent name))
  serve-Honours (creates parent name mode umask flags caller) =
      answering-Post Always (λ made. some made.0)
        (bind_found (record { parent = parent; name = name }))
        (Names.create fs parent name mode umask flags caller)
        (calling-Post (λ made. bind (record { parent = parent; name = name }) made.0) parent
          (λ r. fs.create r name mode umask flags caller)
          (λ made. add_node parent name made.0 >>= λ id. pure (id, made.1))
          λ made.
            answering-Post Always (λ id. (id, made.1))
              (λ made. bind (record { parent = parent; name = name }) made.0)
              (add_node parent name made.0) (add_node-Honours parent name made.0))
  serve-Honours (links id newparent newname caller) =
      let d : Dentry = record { parent = newparent; name = newname } in
      answering-Post (IsFree id d) (λ linked. some linked) (bind_found d)
        (Names.link fs id newparent newname caller) (link-Post fs id newparent newname caller)
  serve-Honours (unlinks parent name caller) =
      answering-Post Always (λ _. none) (λ _. unbind (record { parent = parent; name = name }))
        (Names.unlink fs parent name caller) (remove-Post fs parent name caller false)
  serve-Honours (removes_dir parent name caller) =
      answering-Post Always (λ _. none) (λ _. unbind (record { parent = parent; name = name }))
        (Names.rmdir fs parent name caller) (remove-Post fs parent name caller true)
  serve-Honours (renames parent name newparent newname flags caller) =
      answering-Post Always (λ _. none)
        (λ _.
          move (record { parent = parent; name = name })
            (record { parent = newparent; name = newname }))
        (Names.rename fs parent name newparent newname flags caller)
        (rename-Post fs parent name newparent newname flags caller)

  -- Each request does to the names what it promises, whatever the filesystem does: if it succeeds,
  -- every name refers to the node that `promised` says, and if it fails with an error, no name
  -- changes. After a panic nothing is said.
  pub serve-Refines :
      (r : Request) (s : State S T)
      → let (o, s') = serve fs r s in Refines (promised r) s.1.namespace o s'.1.namespace
  serve-Refines r s = (serve-Honours r s).0

  unfoldable pub run : List Request → State S T → State S T
  unfolding serve
  run [] s = s
  run (r ∷ rs) s = run rs (serve fs r s).1

  -- Each link of the run takes a name that is free or the node's own when it is served.
  abbrev pub AreSafe : List Request → State S T → Type 0
  AreSafe [] s = Unit
  AreSafe (r ∷ rs) s = IsSafe r s.1.namespace × AreSafe rs (serve fs r s).1

  -- Whatever requests are served in whatever order, and however each ends, a panic included, the
  -- two maps of the namespace agree afterwards if they did before: a name refers to a node
  -- exactly if it is among that node's names. Each link has to take a name that is free or
  -- the node's own.
  pub requests-IsConsistent :
      (rs : List Request) (s : State S T)
      → AreSafe rs s
      → IsConsistent s.1.namespace
      → IsConsistent (run rs s).1.namespace
  unfolding run
  requests-IsConsistent [] s safe v = v
  requests-IsConsistent (r ∷ rs) s (now, later) v =
      requests-IsConsistent rs (serve fs r s).1 later ((serve-Honours r s).1 now v)
