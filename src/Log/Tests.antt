-- ===== src/Log/Tests.antt =====
-- Concrete runs of the log, and the theorems at concrete machines.
use csse332_project.Base.{
  ℕ, ◌+◌, ◌≤◌, ◌<◌, ◌⊎◌, ◌≡◌, refl, inr, false, [], ◌∷◌, arith, length, update, ◌==◌, if◌then◌else◌,
  ok, panic,
}
use csse332_project.Log.{
  Machine, Log, Block, log_write, begin_op, initlog, commit, write_log, write_loop, write_one,
  install_trans, install_loop, install_one, write_head,
}
use csse332_project.Log.Recover.{boot}
use csse332_project.Log.Commit.{IsReady}
use csse332_project.Log.Atomic.{crash_disk, commit_atomic}
use csse332_project.Log.Absorb.{absorbed}
use csse332_project.Log.Reserve.{Running, Step, Reach, IsReserved, log_bounded, log_write_total}

-- The log starts at block 2; an unwritten block is full of its number, and the header of zeros.
abbrev old_disk : ℕ → Block
old_disk b = if b == 2 then (λ w. 0) else (λ w. b)

abbrev log_with : ℕ → ℕ → ℕ → (ℕ → ℕ) → Log
log_with size outstanding n block = record {
  start = 2;
  size = size;
  outstanding = outstanding;
  committing = false;
  lh = record { n = n; block = block };
}

abbrev sevens : Block
sevens w = 7

-- Block 40 was changed to sevens and logged.
abbrev one_change : Machine
one_change = record {
  disk = old_disk;
  mem = update old_disk 40 sevens;
  pins = λ _. 0;
  trace = [];
  log = log_with 30 1 1 (λ _. 40);
}

one_change-IsReady : IsReady one_change
one_change-IsReady = record {
  fits = omega arith;
  homes = λ i h. inr (omega arith);
  apart = λ i j l h. absurd (omega arith);
  clean = refl;
  agree = λ b hb out. ground (arith, out 0 (omega arith));
}

-- The power fails behind the second write, that of the header.
commit_atomic_example :
    (initlog 2 30 (boot (crash_disk one_change 2) (log_with 0 0 0 (λ _. 0)))).disk 40 ≡ sevens
commit_atomic_example =
    commit_atomic 2 (log_with 0 0 0 (λ _. 0)) 40 one_change-IsReady refl (inr (omega arith))

commit_writes : length (commit one_change).trace ≡ 4
unfolding commit write_log write_loop write_one install_trans install_loop install_one write_head
commit_writes = refl

-- Block 40 is changed again, and absorbed.
abbrev eights : Block
eights w = 8

abbrev quiet : ℕ → Running
quiet size = record { machine = record one_change { log = log_with size 0 0 (λ _. 40) }; left = [] }

abbrev begun : ℕ → Running
begun size = record {
  machine = record one_change { log = log_with size 1 0 (λ _. 40) };
  left = 10 ∷ [];
}

quiet-IsReserved : (size : ℕ) → IsReserved (quiet size)
quiet-IsReserved size = record {
  idle = refl;
  counted = refl;
  few = omega arith;
  budgets = tt;
  room = omega arith;
}

Reach-begun : (size : ℕ) → Reach (quiet size) (begun size)
unfolding begin_op
Reach-begun size = Reach.next Reach.here (Step.begin (begun size).machine refl refl)

log_bounded_example : (0 + 10 ≤ 30) × (1 ≤ 3) × ((begun 31).machine.log.outstanding ≡ 1)
log_bounded_example = log_bounded (quiet-IsReserved 31) (Reach-begun 31)

log_write_total_example :
    ((1 < 30) × (log_write 41 (begun 30).machine ≡ ok (absorbed 41 (begun 30).machine)))
    ⊎ ((30 ≤ 1) × (30 ≤ 30) × (log_write 41 (begun 30).machine ≡ panic "too big a transaction"))
log_write_total_example = log_write_total 41 0 9 (quiet-IsReserved 30) (Reach-begun 30) refl

-- mkfs makes `nlog` 30 with the header in it: three calls that keep to their budgets are let in,
-- and the thirtieth block panics.
last_block : Running
last_block = record {
  machine = record one_change { log = log_with 30 3 29 (λ i. 100 + i) };
  left = 0 ∷ 0 ∷ 1 ∷ [];
}

last_block-IsReserved : IsReserved last_block
unfolding last_block
last_block-IsReserved = record {
  idle = refl;
  counted = refl;
  few = omega arith;
  budgets = omega arith;
  room = omega arith;
}

last_block_panics : log_write 500 last_block.machine ≡ panic "too big a transaction"
unfolding log_write last_block
last_block_panics = refl
