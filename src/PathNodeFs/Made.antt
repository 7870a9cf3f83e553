-- ===== src/PathNodeFs/Made.antt =====
-- What `add_node` does to the names (typed-fuse-core/src/path_fs.rs).
use typed_fuse.Base.{
  ℕ, ◌+◌, ◌≡◌, ◌<◌, refl, ap, ◌∙◌, some, ◌⊎◌, arith, Option-cases, inl, inr, checked_succ, u32_max,
  u64_max,
}
use typed_fuse.Base.Outcome.{Outcome, ok, err, panic, Exec, pure, continue, and_then}
use typed_fuse.Base.Order.{nat_key, Bytes}
use typed_fuse.Base.BTreeMap.{get, insert, get-insert}
use typed_fuse.NodeTable.{NodeTable, slot_at, Slot, put, ref_to, new_slot, alloc}
use typed_fuse.NodeTable.Cx
use typed_fuse.Attr.{NodeAttr}
use typed_fuse.Namespace.{Dentry, dentry_key, PathNode, Namespace, add_alias}
use typed_fuse.Namespace
use typed_fuse.Listing.Replay.{PathEntry}
use typed_fuse.PathNodeFs.{World, set_entry_attr, with_ref, then_drop}
use typed_fuse.PathNodeFs.Names.{State, on_node, add_node}
use typed_fuse.PathNodeFs.Post.{Post, Stays, IsQuiet, with_ref-Post}
use typed_fuse.PathNodeFs.Requests.{View, view, bind}

-- The outcome is what the change of the names says: an error changes none. After a panic nothing is
-- said.
abbrev pub Refines : {A : Type 0} → (A → View → View) → Namespace → Outcome A → Namespace → Type 0
Refines change ns (ok a) ns' = (e : Dentry) → view ns' e ≡ change a (view ns) e
Refines change ns (err x) ns' = (e : Dentry) → view ns' e ≡ view ns e
Refines change ns panic ns' = Unit

pub Refines-Stays : {A : Type 0} (change : A → View → View) → Stays (Refines change)
Refines-Stays change = ((λ ns x e. refl), (λ ns. tt))

pub Refines-map :
    {A B : Type 0} (g : A → B) (change : B → View → View) (ns : Namespace) (r : Outcome A)
    (ns' : Namespace)
    → Refines (λ a. change (g a)) ns r ns'
    → Refines change ns (and_then r (λ a. ok (g a))) ns'
Refines-map g change ns (ok a) ns' h = h
Refines-map g change ns (err x) ns' h = h
Refines-map g change ns panic ns' h = h

module _ {N W A : Type 0} where
  -- The node is there, so the action runs on its payload, under a lease.
  pub with_ref-at :
      (id : ℕ) (f : N → Exec (NodeTable N × W) A) (t : NodeTable N) (w : W) (s : Slot N)
      → slot_at t id ≡ some s
      → s.leases < u32_max
      → with_ref id f (t, w)
        ≡ then_drop (ref_to id s) (f s.payload (put id (record s { leases = s.leases + 1 }) t, w))
  unfolding with_ref Cx.get
  with_ref-at id f t w s here room = rw (here, Cx.get) (ground (arith))

module _ {S : Type 0} where
  -- The slot of a new node.
  pub insert-there :
      (node : PathNode S) (parent : ℕ) (t : NodeTable (PathNode S))
      → let (id, t') = Cx.insert node parent t in
        (s : Slot (PathNode S)) × (slot_at t' id ≡ some s) × (s.leases ≡ 0) × (s.payload ≡ node)
  unfolding Cx.insert alloc
  insert-there node parent t =
      let made = alloc t in
      (
        new_slot made.1.next_record node made.0.1 parent,
        get-insert made.0.0 made.0.0 _ made.1.map ∙ ground arith,
        refl,
        refl,
      )

module _ {S T : Type 0} where
  abbrev pub note_attr : ℕ → NodeAttr → Exec (State S T) (Unit {0})
  note_attr id attr = with_ref id (λ node. on_node (set_entry_attr node attr))

  pub note_attr-IsQuiet : (id : ℕ) (attr : NodeAttr) → IsQuiet (note_attr id attr)
  unfolding set_entry_attr
  note_attr-IsQuiet id attr =
      with_ref-Post (λ ns r ns'. ns' ≡ ns) id (λ node. on_node (set_entry_attr node attr))
        ((λ ns e. refl), (λ ns. refl)) λ node s. refl

  -- The rest of `add_node` once the name has a node.
  then_answer :
      (d : Dentry) (id : ℕ) (ns : Namespace) (r : Outcome (Unit {0})) (s : State S T)
      → ((e : Dentry) → view s.1.namespace e ≡ bind d id (view ns) e)
      → (r ≡ ok tt) ⊎ (view ns d ≡ some id)
      → Refines
          (bind d)
          ns
          (continue r (λ _. pure id) s).0
          (continue r (λ _. pure id) s).1.1.namespace
  then_answer d id ns (ok _) s h fine = h
  then_answer d id ns (err x) s h (inl fine) = absurd (cc)
  then_answer d id ns (err x) s h (inr known) = λ e. ground (arith, h e, dentry_key.beq_iff d e)
  then_answer d id ns panic s h fine = tt

  note_attr-ok :
      (id : ℕ) (attr : NodeAttr) (t : NodeTable (PathNode S)) (w : World S T)
      (s : Slot (PathNode S))
      → slot_at t id ≡ some s
      → s.leases ≡ 0
      → (note_attr id attr (t, w)).0 ≡ ok tt
  note_attr-ok id attr t w s here free =
      ap (λ x. x.0)
        (with_ref-at id (λ node. on_node (set_entry_attr node attr)) t w s here (omega arith))

  -- The name refers to the node that is answered, and no other name changes.
  pub add_node-Refines :
      (parent : ℕ) (name : Bytes) (entry : PathEntry S)
      → Post
          (Refines (bind (record { parent = parent; name = name })))
          (add_node {S = S} {T = T} parent name entry)
  unfolding add_node Namespace.insert add_alias
  add_node-Refines parent name entry (t, w) =
      let ns = w.namespace in
      let d : Dentry = record { parent = parent; name = name } in
      elim (Option-cases (get d ns.by_name)) [
        | inr (id, known) ↦
            let after = note_attr id entry.attr (t, w) in
            rw (known, add_node, Namespace.insert)
              (then_answer d id ns after.0 after.1
                (λ e.
                  ap (λ n. view n e) (note_attr-IsQuiet id entry.attr (t, w))
                  ∙ ground (arith, known, dentry_key.beq_iff d e))
                (inr known))
        | inl unknown ↦ elim (Option-cases (checked_succ u64_max ns.next_key)) [
          | inl full ↦ rw (unknown, full, add_node, Namespace.insert) tt
          | inr (next, room) ↦
              let node : PathNode S = record { key = ns.next_key; state = entry.state } in
              let made = Cx.insert node parent t in
              let id = made.0 in
              let ns' =
                add_alias id d
                  (record ns { keys = insert ns.next_key id ns.keys; next_key = next }) in
              let after = note_attr id entry.attr (made.1, record w { namespace = ns' }) in
              let (slot, here, free, _) = insert-there node parent t in
              rw (unknown, room, add_node, Namespace.insert)
                (then_answer d id ns after.0 after.1
                  (λ e.
                    ap (λ n. view n e)
                      (note_attr-IsQuiet id entry.attr (made.1, record w { namespace = ns' }))
                    ∙ get-insert d e id ns.by_name)
                  (inl (
                    note_attr-ok id entry.attr made.1 (record w { namespace = ns' }) slot here
                      free)))
        ]
      ]
