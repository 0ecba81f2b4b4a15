-- ===== src/Buffers/Tests.antt =====
-- The theorem on bget at a concrete cache.
use csse332_project.Base.{
  ◌≤◌, ◌<◌, ◌≡◌, ◌≢◌, ◌⊎◌, arith, List, [], ◌∷◌, true, false, ok, panic, All,
}
use csse332_project.Locks.{Sleeplock}
use csse332_project.Base.{false, []}
use csse332_project.Buffers.{Buf, Found, bget}
use csse332_project.Buffers.Unique.{cached, in_use, bget_lem}

abbrev open_lock : Sleeplock
open_lock = record { locked = false; pid = 0 }

-- Block 7 is in use, block 9 is not.
abbrev two_cached : List Buf
two_cached =
    record { id = 0; dev = 1; blockno = 7; valid = true; refcnt = 1; lock = open_lock; bytes = 70 }
    ∷ record {
      id = 1;
      dev = 1;
      blockno = 9;
      valid = true;
      refcnt = 0;
      lock = open_lock;
      bytes = 90;
    }
    ∷ []

two_cached_once : cached 1 7 two_cached ≤ 1
unfolding cached
two_cached_once = omega arith

-- Block 5 takes the place of block 9.
bget_lem_example :
    ((bget 1 5 two_cached ≡ panic "bget: no buffers") × All (λ b. b.refcnt ≢ 0) two_cached)
    ⊎ ((f : Found) × (bget 1 5 two_cached ≡ ok f)
        × (cached 1 7 f.bufs ≤ 1)
        × (in_use 1 7 two_cached ≤ in_use 1 7 f.bufs)
        × (0 < in_use 1 5 f.bufs))
bget_lem_example =
    bget_lem 1 5 1 7 two_cached
      (record { small = omega arith }, (record { small = omega arith }, tt)) two_cached_once
