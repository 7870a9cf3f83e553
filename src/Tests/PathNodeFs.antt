-- ===== src/Tests/PathNodeFs.antt =====
-- typed-fuse-core/src/path_fs.rs: `PathNodeFs` over a small filesystem.
use typed_fuse.Base.{ℕ, ◌+◌, ◌≡◌, inl, refl, Bool, false, none, some, [], ◌∷◌, arith}
use typed_fuse.Base.Outcome.{ok, Exec}
use typed_fuse.Base.Order.{Bytes, nat_key}
use typed_fuse.Base.BTreeMap
use typed_fuse.Attr.{NodeAttr, FileKind, regular_file, default_attr}
use typed_fuse.NodeTable.{Slot, new_slot, slot_at, root_table, alloc}
use typed_fuse.NodeFs.{Caller}
use typed_fuse.Namespace.{Dentry, PathNode, path_for}
use typed_fuse.Namespace.Consistent.{IsConsistent, new-IsConsistent}
use typed_fuse.PathFilesystem.{PathFilesystem, provided}
use typed_fuse.PathNodeFs.{World, PathDirHandle, new_world}
use typed_fuse.PathNodeFs.Reply.{dir, serve_making, making_replies}
use typed_fuse.Handles.{new_handles}
use typed_fuse.Runtime
use typed_fuse.Runtime.Directories
use typed_fuse.Runtime.Directories.{extra}
use typed_fuse.Listing.{DirEntry, child}
use typed_fuse.PathNodeFs.Names.{State}
use typed_fuse.PathNodeFs.Adapter.{root_node}
use typed_fuse.PathNodeFs.Requests.{
  Request, makes_dir, renames, unlinks, links, view, bind, promised, serve,
}
use typed_fuse.PathNodeFs.Made.{Refines}
use typed_fuse.PathNodeFs.Refinement.{serve-Refines, requests-IsConsistent, run}

abbrev caller : Caller
caller = record { uid = 0; gid = 0; pid = 1; umask = 18 }

abbrev of_size : ℕ → NodeAttr
of_size n = record default_attr { size = n }

-- Its world counts the calls. The state of a node is the number of the call that found it.
abbrev counting : PathFilesystem ℕ ℕ ℕ ℕ
counting = record (provided (λ _ _ _ n. (ok (of_size n), n + 1))) {
  mkdir = λ _ _ _ _ _ n. (ok (record { attr = of_size n; state = n }), n + 1);
  unlink = λ _ _ _ n. (ok tt, n + 1);
  rename = λ _ _ _ _ _ n. (ok tt, n + 1);
  link = λ _ _ _ _ n. (ok (of_size n), n + 1);
}

abbrev started : State ℕ ℕ
started = (root_table (root_node 0), new_world 7)

abbrev name_a : Bytes
name_a = b'a' ∷ []

abbrev name_b : Bytes
name_b = b'b' ∷ []

abbrev a_in_root : Dentry
a_in_root = record { parent = 1; name = name_a }

abbrev b_in_root : Dentry
b_in_root = record { parent = 1; name = name_b }

abbrev made_a : Request
made_a = makes_dir 1 name_a 493 18 caller

abbrev moved_a : Request
moved_a = renames 1 name_a 1 name_b 0 caller

-- The directory has the number 2.
a_is_made : (serve counting made_a started).0 ≡ ok (some 2)
unfolding serve new_world root_table BTreeMap.get BTreeMap.insert BTreeMap.remove
a_is_made = refl

b_has_it :
    view (serve counting moved_a (serve counting made_a started).1).1.1.namespace b_in_root ≡ some 2
unfolding serve new_world root_table BTreeMap.get BTreeMap.insert BTreeMap.remove
b_has_it = refl

serve-Refines_example :
    let s = (serve counting made_a started).1 in
    let (o, s') = serve counting moved_a s in
    Refines (promised moved_a) s.1.namespace o s'.1.namespace
serve-Refines_example = serve-Refines counting moved_a (serve counting made_a started).1

requests-IsConsistent_example :
    IsConsistent
      (run counting
        (made_a ∷ moved_a ∷ unlinks 1 name_b caller ∷ links 1 1 name_a caller ∷ [])
        started).1.namespace
unfolding serve new_world root_table BTreeMap.get BTreeMap.insert BTreeMap.remove
requests-IsConsistent_example =
    requests-IsConsistent counting
      (made_a ∷ moved_a ∷ unlinks 1 name_b caller ∷ links 1 1 name_a caller ∷ []) started
      (tt, (tt, (tt, (inl refl, tt)))) new-IsConsistent

abbrev idle : Runtime.State (PathNode ℕ) ℕ (PathDirHandle ℕ) (World ℕ ℕ)
idle = record { table = started.0; handles = new_handles; world = started.1 }

making_replies_example :
    let (r, s') = serve_making counting (dir 493 18) 1 name_a caller idle in
    (r ≡ ok (record { ino = 2; generation = 0; attr = of_size 7 }))
    × (s'.world.inner ≡ 8)
    × ((e : Dentry) → view s'.world.namespace e ≡ bind a_in_root 2 (view started.1.namespace) e)
    × ((slot : Slot (PathNode ℕ)) × (slot_at s'.table 2 ≡ some slot)
        × (slot.lookups ≡ 1)
        × (slot.parent ≡ 1)
        × (slot.payload.state ≡ 7))
unfolding new_world root_table BTreeMap.get BTreeMap.insert alloc path_for
making_replies_example =
    making_replies counting (dir 493 18) 1 name_a caller idle (new_slot 0 (root_node 0) 0 1) []
      (record { attr = of_size 7; state = 7 }) 8 refl (omega arith) refl refl refl (omega arith)
      (omega arith)

abbrev reading : Runtime.State (PathNode ℕ) ℕ (PathDirHandle ℕ) (World ℕ ℕ × ℕ)
reading = record { table = started.0; handles = new_handles; world = (started.1, 4) }

abbrev Reading : Type 0
Reading = Runtime.State (PathNode ℕ) ℕ (PathDirHandle ℕ) (World ℕ ℕ × ℕ)

-- A reply that is full counts the entries that it refuses.
abbrev full : Bytes → ℕ → FileKind → ℕ → Exec Reading Bool
full name id kind next_offset s = (ok false, extra (s.world.1 + 1) s)

abbrev entry_b : DirEntry ℕ
entry_b = record { name = name_b; kind = regular_file; attr = none; identity = child 9 }
