-- ===== src/PathNodeFs/Requests.antt =====
-- The requests of `PathNodeFs` that find and change names (typed-fuse-core/src/path_fs.rs), and
-- what each promises to do to the names: the abstract view of a namespace is the node that each
-- name refers to.
use typed_fuse.Base.{ℕ, Bool, false, Option, none, some, eqb, if◌then◌else◌}
use typed_fuse.Base.Int.{ℤ}
use typed_fuse.Base.Outcome.{Exec, pure, ◌>>=◌}
use typed_fuse.Base.Order.{nat_key, Bytes, ◌==◌}
use typed_fuse.Base.BTreeMap.{get}
use typed_fuse.NodeFs.{Caller}
use typed_fuse.Namespace.{Dentry, dentry_key, Namespace}
use typed_fuse.PathFilesystem.{PathFilesystem}
use typed_fuse.PathNodeFs.Names.{State}
use typed_fuse.PathNodeFs.Names

pub data Request : Type 0 where
  looks_up : ℕ → Bytes → Caller → Request
  makes_node : ℕ → Bytes → ℕ → ℕ → ℕ → Caller → Request
  makes_dir : ℕ → Bytes → ℕ → ℕ → Caller → Request
  makes_symlink : ℕ → Bytes → Bytes → Caller → Request
  creates : ℕ → Bytes → ℕ → ℕ → ℤ → Caller → Request
  links : ℕ → ℕ → Bytes → Caller → Request
  unlinks : ℕ → Bytes → Caller → Request
  removes_dir : ℕ → Bytes → Caller → Request
  renames : ℕ → Bytes → ℕ → Bytes → ℕ → Caller → Request

-- The node that a name refers to.
abbrev pub View : Type 0
View = Dentry → Option ℕ

abbrev pub view : Namespace → View
view ns d = get d ns.by_name

abbrev pub bind : Dentry → ℕ → View → View
bind d id v e = if d == e then some id else v e

abbrev pub unbind : Dentry → View → View
unbind d v e = if d == e then none else v e

abbrev pub refers : Option ℕ → ℕ → Bool
refers none id = false
refers (some found) id = eqb found id

-- A name that nothing is known of moves nothing, and a name that has the node already stays.
abbrev pub move_from : Option ℕ → Dentry → Dentry → View → View
move_from none old new v = v
move_from (some source) old new v =
    if refers (v new) source then v else bind new source (unbind old (unbind new v))

abbrev pub move : Dentry → Dentry → View → View
move old new v = move_from (v old) old new v

abbrev pub bind_found : Dentry → Option ℕ → View → View
bind_found d none v = v
bind_found d (some id) v = bind d id v

-- What a request that succeeds with this node, or without one, does to the names.
abbrev pub promised : Request → Option ℕ → View → View
promised (looks_up parent name caller) r = bind_found (record { parent = parent; name = name }) r
promised (makes_node parent name mode rdev umask caller) r =
    bind_found (record { parent = parent; name = name }) r
promised (makes_dir parent name mode umask caller) r =
    bind_found (record { parent = parent; name = name }) r
promised (makes_symlink parent name target caller) r =
    bind_found (record { parent = parent; name = name }) r
promised (creates parent name mode umask flags caller) r =
    bind_found (record { parent = parent; name = name }) r
promised (links id newparent newname caller) r =
    bind_found (record { parent = newparent; name = newname }) r
promised (unlinks parent name caller) r = unbind (record { parent = parent; name = name })
promised (removes_dir parent name caller) r = unbind (record { parent = parent; name = name })
promised (renames parent name newparent newname flags caller) r =
    move (record { parent = parent; name = name }) (record { parent = newparent; name = newname })

module _ {S H D T : Type 0} (fs : PathFilesystem S H D T) where
  -- The request, with the node that it answers.
  unfoldable pub serve : Request → Exec (State S T) (Option ℕ)
  unfolding Names.lookup Names.mknod Names.mkdir Names.symlink Names.create Names.link Names.unlink
      Names.rmdir Names.rename
  serve (looks_up parent name caller) = Names.lookup fs parent name caller
  serve (makes_node parent name mode rdev umask caller) =
      Names.mknod fs parent name mode rdev umask caller >>= λ id. pure (some id)
  serve (makes_dir parent name mode umask caller) =
      Names.mkdir fs parent name mode umask caller >>= λ id. pure (some id)
  serve (makes_symlink parent name target caller) =
      Names.symlink fs parent name target caller >>= λ id. pure (some id)
  serve (creates parent name mode umask flags caller) =
      Names.create fs parent name mode umask flags caller >>= λ made. pure (some made.0)
  serve (links id newparent newname caller) =
      Names.link fs id newparent newname caller >>= λ linked. pure (some linked)
  serve (unlinks parent name caller) = Names.unlink fs parent name caller >>= λ _. pure none
  serve (removes_dir parent name caller) = Names.rmdir fs parent name caller >>= λ _. pure none
  serve (renames parent name newparent newname flags caller) =
      Names.rename fs parent name newparent newname flags caller >>= λ _. pure none
