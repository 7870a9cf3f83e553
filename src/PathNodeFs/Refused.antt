-- ===== src/PathNodeFs/Refused.antt =====
-- typed-fuse-core/src/path_fs.rs: `add_listed_entry` when the reply has no room for the entry, in a
-- read that `Runtime` serves.
use typed_fuse.Base.{ℕ, ◌≡◌, Option}
use typed_fuse.Base.Outcome.{Outcome, ok}
use typed_fuse.Base.Order.{nat_key}
use typed_fuse.NodeTable.{NodeTable}
use typed_fuse.Namespace.RollBack.{IsRestored}
use typed_fuse.NodeFs.{Listing}
use typed_fuse.Namespace.{Dentry, dentry_key}
use typed_fuse.Runtime.{State}
use typed_fuse.PathNodeFs.Names
use typed_fuse.PathNodeFs.Directories.{take_back}

module _ {S T : Type 0} where
  -- What a table and a world are after a name has been taken back.
  pub record IsAsBefore (s s' : Names.State S T) : Type 0 where
    pub restored : IsRestored (s.1.namespace, s.0) (s'.1.namespace, s'.0)
    pub others : s'.1 ≡ record s.1 { namespace = s'.1.namespace }

  -- The node that is found or made for an entry, and the state in which the entry is offered;
  -- taking its name back restores the state.
  record IsRevertible (s : Names.State S T) (r : Outcome (ℕ × Option Dentry) × Names.State S T)
      : Type 0 where
    id : ℕ
    inserted : Option Dentry
    identified : r.0 ≡ ok (id, inserted)
    before : IsAsBefore s (take_back inserted r.1)
