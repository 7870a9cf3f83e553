-- ===== src/NodeTable/Lifetime.antt =====
-- Inode lifetime under every interleaving of the sections of runtime.rs that hold the table's mutex.
use typed_fuse.Base.{
  ℕ, suc, ◌+◌, ◌<◌, List, [], ◌∷◌, Option-cases, inl, inr, arith, length, u64_mod, subst,
}
use typed_fuse.Base.Order.{nat_key}
use typed_fuse.Base.BTreeMap.{get, insert, get-insert}
use typed_fuse.NodeTable.{NodeTable, droppable, root_table, new_slot}
use typed_fuse.NodeTable.Cx
use typed_fuse.NodeTable.System.{
  settles, System, Call, gets, inserts, reparents, adds_link, removes_link, looks_up, forgets,
  adds_open, removes_open, drops, step, run, start, ref_at,
}
use typed_fuse.NodeTable.Sound.{insert-IsSound, insert_cases}
use typed_fuse.NodeTable.Held.{insert-IsHeld}
use typed_fuse.NodeTable.Identity.{IsUnique, All-mono, insert-IsNew}
use typed_fuse.NodeTable.Kept.{IsKept, IsAlive}
use typed_fuse.NodeTable.Steps.{
  IsFine, get-IsFine, add_link-IsFine, retain_entry-IsFine, add_open-IsFine, reparent-IsFine,
  remove_link-IsFine, remove_open-IsFine, forget_lookups-IsFine, drop_ref-IsFine, stay, settle,
}

pub record IsConsistent {N : Type 0} (k : ℕ) (s : System N) : Type 0 where
  pub kept : IsKept k s.refs s.issued s.table
  pub alive : IsAlive s.table
  pub unique : IsUnique s.issued

module _ {N : Type 0} where
  insert-IsAlive :
      (payload : N) (parent : ℕ) (t : NodeTable N)
      → IsAlive t
      → IsAlive (Cx.insert payload parent t).1
  unfolding droppable
  insert-IsAlive payload parent t v =
      insert_cases (λ r. IsAlive r.1) payload parent t
        (λ e j s h.
          ground
            (arith, get-insert t.next_ino j (new_slot t.next_record payload 0 parent) t.map, v j s))
        (λ i g rest e j s h.
          ground (arith, get-insert i j (new_slot t.next_record payload g parent) t.map, v j s))

  inserts-IsConsistent :
      (k : ℕ) (payload : N) (parent : ℕ) (s : System N)
      → k + 3 < u64_mod
      → IsConsistent k s
      → IsConsistent (suc k) (step (inserts payload parent) s)
  unfolding step
  inserts-IsConsistent k payload parent s small v =
      let (now, others) = insert-IsNew k payload parent s.table small v.kept.sound in
      record {
        kept = record {
          sound = insert-IsSound k payload parent s.table small v.kept.sound;
          held = insert-IsHeld k s.refs payload parent s.table v.kept.sound v.kept.held;
          behind = (now, All-mono _ _ (λ p b. (others p b).0) s.issued v.kept.behind);
        };
        alive = insert-IsAlive payload parent s.table v.alive;
        unique = (All-mono _ _ (λ p b. (others p b).1) s.issued v.kept.behind, v.unique);
      }

  from_fine :
      (k : ℕ) (s : System N)
      → IsFine k s.refs s.issued s.table
      → IsUnique s.issued
      → IsConsistent k s
  from_fine k s f u = record { kept = f.0; alive = f.1; unique = u }

  drops-IsConsistent :
      (k n : ℕ) (s : System N)
      → k + 1 < u64_mod
      → IsConsistent k s
      → IsConsistent (suc k) (step (drops n) s)
  unfolding step
  drops-IsConsistent k n s small v = elim (Option-cases (ref_at s.refs n)) [
    | inl e ↦
        rw (e, step)
          (from_fine (suc k) s (stay k s.refs s.issued s.table small (v.kept, v.alive)) v.unique)
    | inr (r, e) ↦
        rw (e, step)
          (from_fine (suc k) _
            (drop_ref-IsFine k s.refs s.issued s.table small (v.kept, v.alive) n r e) v.unique)
  ]

  pub step-IsConsistent :
      (k : ℕ) (c : Call N) (s : System N)
      → k + 3 < u64_mod
      → IsConsistent k s
      → IsConsistent (suc k) (step c s)
  step-IsConsistent k (inserts payload parent) s small v =
      inserts-IsConsistent k payload parent s small v
  step-IsConsistent k (drops n) s small v = drops-IsConsistent k n s (omega arith) v
  step-IsConsistent k (gets i) s small v =
      unfold step in
      from_fine (suc k) _ (get-IsFine k s.refs s.issued s.table (omega arith) (v.kept, v.alive) i)
        v.unique
  step-IsConsistent k (reparents i p) s small v =
      unfold step in
      from_fine (suc k) _
        (reparent-IsFine k s.refs s.issued s.table (omega arith) (v.kept, v.alive) i p) v.unique
  step-IsConsistent k (adds_link i) s small v =
      unfold step in
      from_fine (suc k) _
        (add_link-IsFine k s.refs s.issued s.table (omega arith) (v.kept, v.alive) i) v.unique
  step-IsConsistent k (removes_link i) s small v =
      unfold step in
      from_fine (suc k) _
        (remove_link-IsFine k s.refs s.issued s.table (omega arith) (v.kept, v.alive) i) v.unique
  step-IsConsistent k (looks_up i) s small v =
      unfold step in
      from_fine (suc k) _
        (retain_entry-IsFine k s.refs s.issued s.table (omega arith) (v.kept, v.alive) i) v.unique
  step-IsConsistent k (forgets i n) s small v =
      unfold step in
      from_fine (suc k) _
        (forget_lookups-IsFine k s.refs s.issued s.table (omega arith) (v.kept, v.alive) i n)
        v.unique
  step-IsConsistent k (settles i) s small v =
      unfold step in
      from_fine (suc k) _ (settle k s.refs s.issued s.table (omega arith) (v.kept, v.alive) i)
        v.unique
  step-IsConsistent k (adds_open i) s small v =
      unfold step in
      from_fine (suc k) _
        (add_open-IsFine k s.refs s.issued s.table (omega arith) (v.kept, v.alive) i) v.unique
  step-IsConsistent k (removes_open i) s small v =
      unfold step in
      from_fine (suc k) _
        (remove_open-IsFine k s.refs s.issued s.table (omega arith) (v.kept, v.alive) i) v.unique

  pub start-IsConsistent : (payload : N) → IsConsistent 0 (start payload)
  unfolding start root_table get insert droppable
  start-IsConsistent payload = record {
    kept = record {
      sound = record {
        numbered = λ i s h. ground arith;
        free_numbered = λ i g h. ground arith;
        distinct = tt;
        covered = λ i lo hi h. ground arith;
        young = λ i s h. ground arith;
        free_young = λ i g h. ground arith;
        room = omega arith;
      };
      held = record { counted = λ i s h. ground arith; live = tt };
      behind = (
        record { known = omega arith; used = λ s h. omega arith; freed = λ g h. ground arith },
        tt,
      );
    };
    alive = λ i s h. ground arith;
    unique = (tt, tt);
  }

  pub run-IsConsistent :
      (k : ℕ) (cs : List (Call N)) (s : System N)
      → length cs + k + 2 < u64_mod
      → IsConsistent k s
      → IsConsistent (length cs + k) (run cs s)
  unfolding run
  run-IsConsistent k [] s small v = subst (λ n. IsConsistent n s) (omega arith) v
  run-IsConsistent k (c ∷ cs) s small v =
      subst (λ n. IsConsistent n (run cs (step c s))) (omega arith)
        (run-IsConsistent (suc k) cs (step c s) (omega arith)
          (step-IsConsistent k c s (omega arith) v))
