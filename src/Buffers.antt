-- ===== src/Buffers.antt =====
-- kernel/bio.c. The doubly linked list of the buffers is a list here, the most recently used first;
-- `id` is the place in `bcache.buf`. Each buffer has its sleeplock.
pub mod Unique
mod Tests
use csse332_project.Base.{
  ℕ, zero, suc, ◌+◌, ◌-◌, ◌%◌, ◌^◌, Bool, true, false, not, ◌&&◌, Option, none, some, List, [], ◌∷◌,
  ◌++◌, ◌==◌, if◌then◌else◌, u32, sub32, Outcome, ok, panic, ◌>>=◌,
}
use csse332_project.Locks.{Sleeplock, initsleeplock, releasesleep, holdingsleep}

pub record Buf : Type 0 where
  pub id : ℕ
  pub dev : ℕ
  pub blockno : ℕ
  pub valid : Bool
  pub refcnt : ℕ
  pub lock : Sleeplock
  pub bytes : ℕ

-- `NBUF`
abbrev pub buffer_count : ℕ
buffer_count = 30

-- The loop of `binit` from buffer `i` on: each goes in front of those before it.
pub binit_loop : (rounds i : ℕ) → List Buf → List Buf
binit_loop zero i bs = bs
binit_loop (suc rounds) i bs = binit_loop rounds (i + 1) (
    record {
      id = i;
      dev = 0;
      blockno = 0;
      valid = false;
      refcnt = 0;
      lock = initsleeplock;
      bytes = 0;
    }
    ∷ bs)

pub binit : List Buf
binit = binit_loop buffer_count 0 []

abbrev pub holds_block : (dev blockno : ℕ) → Buf → Bool
holds_block dev blockno b = (b.dev == dev) && (b.blockno == blockno)

-- The list with a buffer changed, and the place of that buffer.
pub record Found : Type 0 where
  pub id : ℕ
  pub bufs : List Buf

abbrev behind : Buf → Option Found → Option Found
behind b none = none
behind b (some f) = some (record f { bufs = b ∷ f.bufs })

-- The first loop of `bget`, from the front.
pub find_cached : (dev blockno : ℕ) → List Buf → Option Found
find_cached dev blockno [] = none
find_cached dev blockno (b ∷ bs) =
    let rest = find_cached dev blockno bs in
    if holds_block dev blockno b
    then some (record { id = b.id; bufs = record b { refcnt = u32 (b.refcnt + 1) } ∷ bs })
    else behind b rest

abbrev pub recycled : (dev blockno : ℕ) → Buf → Buf
recycled dev blockno b = record b { dev = dev; blockno = blockno; valid = false; refcnt = 1 }

-- The second loop, from the back.
pub recycle : (dev blockno : ℕ) → List Buf → Option Found
recycle dev blockno [] = none
recycle dev blockno (b ∷ bs) = elim (recycle dev blockno bs) [
  | some f ↦ some (record f { bufs = b ∷ f.bufs })
  | none ↦
      if b.refcnt == 0
      then some (record { id = b.id; bufs = recycled dev blockno b ∷ bs })
      else none
]

-- `bget` up to `acquiresleep`, which the caller goes on with for the buffer `id`.
pub bget : (dev blockno : ℕ) → List Buf → Outcome Found
bget dev blockno bs = elim (find_cached dev blockno bs) [
  | some f ↦ ok f
  | none ↦ elim (recycle dev blockno bs) [ some f ↦ ok f | none ↦ panic "bget: no buffers" ]
]

-- `bread` once it has the buffer locked; `disk` is what virtio_disk_rw reads.
pub bread_locked : (disk : ℕ → ℕ → ℕ) → Buf → Buf
bread_locked disk b =
    if not b.valid then record b { bytes = disk b.dev b.blockno; valid = true } else b

-- What virtio_disk_rw is told to write: device, block and data.
pub bwrite : (pid : ℕ) → Buf → Outcome (ℕ × ℕ × ℕ)
bwrite pid b =
    if not (holdingsleep pid b.lock) then panic "bwrite" else ok (b.dev, b.blockno, b.bytes)
