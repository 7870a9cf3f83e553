-- ===== src/Tests/Permissions.antt =====
-- typed-fuse/src/passthrough.rs: the permission checks.
use typed_fuse.Base.{true, ◌≡◌, refl, none, some, arith}
use typed_fuse.Base.Int.{pos, negsuc}
use typed_fuse.Base.Outcome.{ok, err, eacces}
use typed_fuse.Attr.{SystemTime}
use typed_fuse.NodeFs.{Caller}
use typed_fuse.Permissions.{
  access_check, utimens_permission_check, near_now, utimens_permission_check-access_check,
  utimens_of_others,
}

abbrev alice : Caller
alice = record { uid = 1000; gid = 100; pid = 7; umask = 18 }

abbrev this_instant : SystemTime
this_instant = pos 5000000000

-- The source's own test: 0o640 of owner 1000 and group 100.
owner_reads_and_writes : access_check alice 1000 100 416 6 ≡ ok tt
unfolding access_check
owner_reads_and_writes = refl

group_does_not_write : access_check alice 1 100 416 2 ≡ err eacces
unfolding access_check
group_does_not_write = refl

a_time_across_the_epoch : near_now (pos 1) (negsuc 8999999) ≡ true
unfolding near_now
a_time_across_the_epoch = refl

-- 432 is 0o660.
utimens_permission_check-access_check_example :
    utimens_permission_check this_instant alice 1 100 432 (some this_instant) none ≡ ok tt
unfolding near_now access_check
utimens_permission_check-access_check_example =
    utimens_permission_check-access_check this_instant alice 1 100 432 (some this_instant) none refl
      refl refl

-- 438 is 0o666.
-- 386 is 0o602.
utimens_of_others_example :
    (access_check alice 1 100 386 2 ≡ err eacces)
    × (utimens_permission_check this_instant alice 1 100 386 none (some this_instant) ≡ ok tt)
unfolding near_now
utimens_of_others_example =
    utimens_of_others this_instant alice 1 386 none (some this_instant) (omega arith) (omega arith)
      refl refl refl refl
