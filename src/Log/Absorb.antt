-- ===== src/Log/Absorb.antt =====
-- `log_write` of kernel/log.c: what it records.
use csse332_project.Base.{
  ℕ, ◌+◌, ◌-◌, ◌^◌, ◌≡◌, Bool, false, ◌||◌, arith, update, ltb, leb, ◌==◌, if◌then◌else◌, ok,
}
use csse332_project.Log.{Machine, Block, log_size, find_block, log_write, bpin}
use csse332_project.Log.Recover.{IsHome}
use csse332_project.Log.Commit.{IsReady}

-- The first tests of `log_write`.
abbrev too_big : Machine → Bool
too_big m = leb log_size m.log.lh.n || leb (m.log.size - 1) m.log.lh.n

abbrev outside : Machine → Bool
outside m = ltb m.log.outstanding 1 || leb (2 ^ 31) m.log.outstanding

-- The machine that `log_write` leaves: an entry that is there is written again, and a new one is
-- added at the end and its buffer pinned.
abbrev pub absorbed : ℕ → Machine → Machine
absorbed b m =
    let lh = m.log.lh in
    let i = find_block lh.n 0 lh.block b in
    let block = update lh.block i b in
    if i == lh.n
    then bpin b (record m { log = record (m.log) { lh = record { n = lh.n + 1; block = block } } })
    else record m { log = record (m.log) { lh = record { n = lh.n; block = block } } }

pub log_write-ok :
    (b : ℕ) (m m' : Machine)
    → log_write b m ≡ ok m'
    → (too_big m ≡ false) × (outside m ≡ false) × (absorbed b m ≡ m')
unfolding log_write
log_write-ok b m m' e = ground arith

pub log_write_runs :
    (b : ℕ) (m : Machine)
    → too_big m ≡ false
    → outside m ≡ false
    → log_write b m ≡ ok (absorbed b m)
unfolding log_write
log_write_runs b m p q = ground arith

-- A system call changes the buffer of block `b`, before it calls `log_write`.
abbrev pub modify : ℕ → Block → Machine → Machine
modify b val m = record m { mem = update m.mem b val }

module _ (m : Machine) (r : IsReady m) (b : ℕ) (val : Block)
    (home : IsHome m.log.start m.log.size b) where
  abbrev n : ℕ
  n = m.log.lh.n

  abbrev bl : ℕ → ℕ
  bl = m.log.lh.block
