-- ===== src/Tests/Runtime.antt =====
-- typed-fuse-core/src/runtime.rs: requests on a small filesystem.
use typed_fuse.Base.{ℕ, ◌+◌, ◌≡◌, refl, true, none, some, [], ◌∷◌, arith, eqb, if◌then◌else◌}
use typed_fuse.Base.Int.{pos}
use typed_fuse.Base.Outcome.{ok, err, eio}
use typed_fuse.Base.Order.{nat_key}
use typed_fuse.Base.BTreeMap.{get}
use typed_fuse.Attr.{default_attr}
use typed_fuse.NodeTable.{Slot, slot_at, droppable, new_slot}
use typed_fuse.Handles.{HandleTable, new_record}
use typed_fuse.NodeFs.{default_methods, NodeFs, Caller, new_opened, ends}
use typed_fuse.Runtime.{State}
use typed_fuse.Runtime.Entries.{entry_for, forget, open_file, release}
use typed_fuse.Runtime.Balance.{IsLive, Keeps}
use typed_fuse.Runtime.Balance.Served.{Request, serve, serve-Keeps}
use typed_fuse.Runtime.Balance.Served
use typed_fuse.Runtime.OpenClose.{release-open_file}
use typed_fuse.NodeTable.{NodeTable}
use typed_fuse.NodeTable.Counts.{plus_entry, retain_lookup}
use typed_fuse.NodeFs.{Listing, offers}
use typed_fuse.Attr.{NodeAttr}
use typed_fuse.Base.{Bool, List}
use typed_fuse.Base.Order.{Bytes}
use typed_fuse.Runtime.Entries.{EntryReply}
use typed_fuse.Runtime.Directories
use typed_fuse.Runtime.Directories.{list_plus}
use typed_fuse.Runtime.Directories.RollBack.{AreHeld, IsQuiet, list_plus-rolls_back}
use typed_fuse.Runtime.Lookups.{with_lookup, entry_for_counts, forget-entry_for}

-- It answers the requests below and refuses the others; its world counts what was asked of it.
abbrev pub small_fs : NodeFs ℕ ℕ ℕ ℕ
small_fs =
    record (default_methods (λ node _ _ w. (ok (record default_attr { size = node }), w + 1))) {
      forget = λ _ w. (ok tt, w + 1000);
      wants_fallback_handle = λ _ w. (ok true, w);
      open_file = λ node _ _ w. (ok (new_opened (node + 100)), w + 1);
      release = λ _ handle _ w. (ok tt, w + handle);
    }

-- It cannot read attributes.
abbrev failing_fs : NodeFs ℕ ℕ ℕ ℕ
failing_fs = record small_fs { entry_attr = λ _ _ w. (err eio, w) }

abbrev pub anyone : Caller
anyone = record { uid = 0; gid = 0; pid = 1; umask = 18 }

abbrev pub file_slot : Slot ℕ
file_slot = record (new_slot 1 7 3 1) { opens = 2 }

abbrev pub one_file : HandleTable ℕ ℕ
one_file = record {
  files = (1, new_record 2 50) ∷ (2, new_record 2 51) ∷ [];
  dirs = [];
  next_fh = 3;
}

abbrev pub running : State ℕ ℕ ℕ ℕ
running = record {
  table = record { map = (2, file_slot) ∷ []; next_ino = 3; free = []; next_record = 2 };
  handles = one_file;
  world = 0;
}

running-IsLive : IsLive running.table
unfolding get droppable
running-IsLive i s e = ground arith

serve-Keeps_example : Keeps running (serve small_fs (Served.getattr 2 none anyone) running)
serve-Keeps_example =
    serve-Keeps small_fs (Served.getattr 2 none anyone) running running-IsLive
      (omega arith, (omega arith, tt))

release-open_file_example :
    let (reply, s') = open_file small_fs 2 (pos 0) anyone running in
    let (answer, s'') = release small_fs 2 3 anyone s' in
    (reply ≡ ok (record { fh = 3; hints = (new_opened {H = ℕ} 107).hints }))
    × (answer ≡ ok tt)
    × (s''.world ≡ 108)
    × ((j : ℕ) → slot_at s''.table j ≡ slot_at running.table j)
    × ((fh : ℕ) → get fh s''.handles.files ≡ get fh running.handles.files)
unfolding get droppable
release-open_file_example =
    release-open_file small_fs 2 (pos 0) anyone anyone running file_slot (new_opened 107) 1 refl
      refl (omega arith) (omega arith) refl refl

entry_for_counts_example :
    let (reply, s') = entry_for small_fs 2 anyone running in
    (reply ≡ ok (record { ino = 2; generation = 3; attr = record default_attr { size = 7 } }))
    × ((j : ℕ)
        → slot_at s'.table j
          ≡ (if eqb 2 j then some (with_lookup file_slot) else slot_at running.table j))
    × (s'.handles ≡ one_file)
    × (s'.world ≡ 1)
unfolding get
entry_for_counts_example =
    entry_for_counts small_fs 2 anyone running file_slot (record default_attr { size = 7 }) 1 refl
      (omega arith) (omega arith) refl

forget-entry_for_example :
    let s' = (forget small_fs 2 1 (entry_for small_fs 2 anyone running).1).1 in
    ((j : ℕ) → slot_at s'.table j ≡ slot_at running.table j) × (s'.world ≡ 1001)
unfolding get droppable
forget-entry_for_example =
    forget-entry_for small_fs 2 anyone running file_slot (record default_attr { size = 7 }) 1 refl
      refl (omega arith) (omega arith) refl

-- An offer of the node, then an error.
abbrev failing_listing : Listing (NodeTable ℕ × ℕ) NodeAttr
failing_listing = offers (b'f' ∷ []) 2 default_attr 1 λ more. ends (err eio)

abbrev listing_state : State ℕ ℕ ℕ (ℕ × (ℕ × List ℕ))
listing_state = record { table = running.table; handles = one_file; world = (0, (0, [])) }

-- It takes every entry.
abbrev roomy_sink : Bytes → EntryReply → ℕ → ℕ → Bool × ℕ
roomy_sink name entry next_offset k = (true, k + 1)

pub running-AreHeld : AreHeld (slot_at running.table)
unfolding get droppable
running-AreHeld j slot e = (ground arith, ground arith)

pub small_fs-IsQuiet : IsQuiet small_fs
small_fs-IsQuiet n w = refl

list_plus-rolls_back_example :
    let (reply, s') = list_plus small_fs failing_listing roomy_sink listing_state in
    (reply ≡ err eio) × ((j : ℕ) → slot_at s'.table j ≡ slot_at running.table j)
unfolding Directories.serve Directories.account plus_entry retain_lookup get
list_plus-rolls_back_example =
    list_plus-rolls_back small_fs failing_listing roomy_sink eio listing_state (λ more. tt)
      small_fs-IsQuiet running-AreHeld refl
