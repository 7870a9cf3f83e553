-- ===== src/Handles/Numbers.antt =====
-- Handle numbers (typed-fuse-core/src/runtime.rs: `HandleTable`).
use typed_fuse.Base.{
  ℕ, ◌+◌, ◌-◌, ◌≤◌, ◌<◌, ◌≡◌, refl, none, List, [], ◌∷◌, length, arith, ◌⊎◌, inl, u64_max,
}
use typed_fuse.Base.Order.{nat_key}
use typed_fuse.Base.BTreeMap.{get, remove, get-insert, get-remove}
use typed_fuse.Handles.{HandleTable, new_record, new_handles, add_file, add_dir}

pub data Change (H D : Type 0) : Type 0 where
  adds_file : ℕ → H → Change H D
  adds_dir : ℕ → D → Change H D
  removes_file : ℕ → Change H D
  removes_dir : ℕ → Change H D

module _ {H D : Type 0} where
  unfoldable pub change : Change H D → HandleTable H D → HandleTable H D
  change (adds_file node handle) t = (add_file node handle t).1
  change (adds_dir node handle) t = (add_dir node handle t).1
  change (removes_file fh) t = record t { files = remove fh t.files }
  change (removes_dir fh) t = record t { dirs = remove fh t.dirs }

  unfoldable pub changes : List (Change H D) → HandleTable H D → HandleTable H D
  changes [] t = t
  changes (c ∷ cs) t = changes cs (change c t)

  record AreNumbered (t : HandleTable H D) : Type 0 where
    new_files : (fh : ℕ) → t.next_fh ≤ fh → get fh t.files ≡ none
    new_dirs : (fh : ℕ) → t.next_fh ≤ fh → get fh t.dirs ≡ none
    apart : (fh : ℕ) → (get fh t.files ≡ none) ⊎ (get fh t.dirs ≡ none)

  change-AreNumbered :
      (c : Change H D) (t : HandleTable H D)
      → t.next_fh < u64_max
      → AreNumbered t
      → AreNumbered (change c t) × ((change c t).next_fh ≤ t.next_fh + 1)
  unfolding change add_file add_dir
  change-AreNumbered (adds_file node handle) t room v = (
    record {
      new_files = λ fh h.
          ground (arith, get-insert t.next_fh fh (new_record node handle) t.files, v.new_files fh);
      new_dirs = λ fh h. ground (arith, v.new_dirs fh);
      apart = λ fh. ground (
        arith,
        get-insert t.next_fh fh (new_record node handle) t.files,
        v.new_dirs fh,
        v.apart fh,
      );
    },
    omega arith,
  )
  change-AreNumbered (adds_dir node handle) t room v = (
    record {
      new_dirs = λ fh h.
          ground (arith, get-insert t.next_fh fh (new_record node handle) t.dirs, v.new_dirs fh);
      new_files = λ fh h. ground (arith, v.new_files fh);
      apart = λ fh. ground (
        arith,
        get-insert t.next_fh fh (new_record node handle) t.dirs,
        v.new_files fh,
        v.apart fh,
      );
    },
    omega arith,
  )
  change-AreNumbered (removes_file gone) t room v = (
    record {
      new_files = λ fh h. ground (arith, get-remove gone fh t.files, v.new_files fh);
      new_dirs = v.new_dirs;
      apart = λ fh. ground (arith, get-remove gone fh t.files, v.apart fh);
    },
    omega arith,
  )
  change-AreNumbered (removes_dir gone) t room v = (
    record {
      new_dirs = λ fh h. ground (arith, get-remove gone fh t.dirs, v.new_dirs fh);
      new_files = v.new_files;
      apart = λ fh. ground (arith, get-remove gone fh t.dirs, v.apart fh);
    },
    omega arith,
  )

  changes-AreNumbered :
      (cs : List (Change H D)) (t : HandleTable H D)
      → t.next_fh + length cs < u64_max
      → AreNumbered t
      → AreNumbered (changes cs t) × ((changes cs t).next_fh < u64_max)
  unfolding changes
  changes-AreNumbered [] t room v = (v, omega arith)
  changes-AreNumbered (c ∷ cs) t room v =
      let (v', bound) = change-AreNumbered c t (omega arith) v in
      changes-AreNumbered cs (change c t) (omega arith) v'

  -- After any handles were opened and released, as long as the numbers do not run out, a number
  -- names no file and directory at once, and the numbers that the next handles get are in use by
  -- neither.
  pub numbers_are_unique :
      (cs : List (Change H D))
      → length cs < u64_max - 1
      → let t = changes cs new_handles in
        ((fh : ℕ) → (get fh t.files ≡ none) ⊎ (get fh t.dirs ≡ none))
        × ((fh : ℕ) → t.next_fh ≤ fh → (get fh t.files ≡ none) × (get fh t.dirs ≡ none))
  unfolding get
  numbers_are_unique cs room =
      let (v, bound) = changes-AreNumbered cs new_handles (omega arith) (record {
        new_files = λ fh h. empty_map fh;
        new_dirs = λ fh h. empty_map fh;
        apart = λ fh. inl (empty_map fh);
      }) in
      (v.apart, λ fh h. (v.new_files fh h, v.new_dirs fh h))
    where
      empty_map : {V : Type 0} → (fh : ℕ) → get {V = V} fh [] ≡ none
      empty_map fh = refl
