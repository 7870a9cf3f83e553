-- ===== src/Tests/Handles.antt =====
-- typed-fuse-core/src/runtime.rs: open handles.
use typed_fuse.Base.{◌≡◌, refl, true, List, [], ◌∷◌, replicate}
use typed_fuse.Base.Order.{nat_key}
use typed_fuse.Handles.Protocol.{
  Call, clones_record, acquires, drops_lease, removes_record, closes, wakes, run, step, opened,
}
use typed_fuse.Handles.Protocol.Safe.{IsSafe, is_done, is_woken, run-IsSafe, close_ends}

-- Two requests take leases, a third releases the handle and waits, and a late clone gets no lease.
abbrev busy_close : List Call
busy_close =
    clones_record ∷ clones_record ∷ clones_record ∷ acquires ∷ acquires ∷ removes_record ∷ closes
    ∷ acquires ∷ []

two_leases_left : (run busy_close opened).leases ≡ 2
unfolding run step
two_leases_left = refl

run-IsSafe_example : IsSafe (run busy_close opened)
run-IsSafe_example = run-IsSafe busy_close

close_ends_example :
    let l' = run (replicate 2 drops_lease) (run busy_close opened) in
    (is_woken l'.closer ≡ true) × (is_done (step wakes l').closer ≡ true)
unfolding run step
close_ends_example = close_ends busy_close refl
