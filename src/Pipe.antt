-- ===== src/Pipe.antt =====
-- kernel/pipe.c. A function runs under `pi->lock` from the place where it starts, or wakes, to the
-- place where it sleeps or returns; such a stretch is one call here, and what it returns says
-- which. After a sleep `pipewrite` goes on at the `i` with which it slept, and `piperead` tests again.
pub mod Contents
pub mod Write
pub mod Read
pub mod System
mod Tests
use csse332_project.Base.{
  ℕ, zero, suc, ◌+◌, ◌-◌, ◌%◌, Bool, true, false, not, ◌&&◌, ◌||◌, Option, none, some, List, [],
  ◌∷◌, ◌==◌, if◌then◌else◌, update, u32, u64,
}

abbrev pub pipe_size : ℕ
pipe_size = 512

-- `struct pipe`
pub record Pipe : Type 0 where
  pub bytes : ℕ → ℕ
  pub nread : ℕ
  pub nwrite : ℕ
  pub readopen : Bool
  pub writeopen : Bool

-- The fields that `pipealloc` sets; the page from `kalloc` holds junk.
pub pipe_init : (ℕ → ℕ) → Pipe
pipe_init junk = record { bytes = junk; nread = 0; nwrite = 0; readopen = true; writeopen = true }

-- The addresses that processes sleep on: `&pi->nread` and `&pi->nwrite`.
pub data Chan : Type 0 where
  at_nread at_nwrite : Chan

-- The pipe, the channel that is woken, and whether the page is freed.
pub record Closed : Type 0 where
  pub pipe : Pipe
  pub woken : Chan
  pub freed : Bool

close_end : Pipe → Bool → Pipe × Chan
close_end p true = (record p { writeopen = false }, at_nread)
close_end p false = (record p { readopen = false }, at_nwrite)

pub pipeclose : Pipe → Bool → Closed
unfolding close_end
pipeclose p writable =
    let (p', c) = close_end p writable in
    record { pipe = p'; woken = c; freed = not p'.readopen && not p'.writeopen }

-- How a stretch of `pipewrite` or `piperead` ends: asleep on a channel with `i` bytes moved, or
-- returned, with `none` for -1. The list holds the wakeups in order.
pub data Stretch : Type 0 where
  sleeps : ℕ → Chan → List Chan → Pipe → Stretch
  returns : Option ℕ → List Chan → Pipe → Stretch

abbrev pub pipe_of : Stretch → Pipe
pipe_of (sleeps i c w p) = p
pipe_of (returns r w p) = p

-- `pi->data[pi->nwrite++ % PIPESIZE] = ch`
pub store : Pipe → ℕ → Pipe
store p ch = record p {
  bytes = update p.bytes (p.nwrite % pipe_size) ch;
  nwrite = u32 (p.nwrite + 1);
}

-- `pi->nread++`, and the byte that is read before it.
pub advance : Pipe → Pipe
advance p = record p { nread = u32 (p.nread + 1) }

abbrev pub front : Pipe → ℕ
front p = p.bytes (p.nread % pipe_size)

abbrev pub is_full : Pipe → Bool
is_full p = p.nwrite == u32 (p.nread + pipe_size)

abbrev pub is_empty : Pipe → Bool
is_empty p = p.nread == p.nwrite

-- `copyin a` is the byte that `copyin` finds at the user address `a`, if it is mapped;
-- `killed i` is what `killed(pr)` answers when `i` bytes are moved.
module _ (copyin : ℕ → Option ℕ) (killed : ℕ → Bool) (addr : ℕ) where
  -- The loop with `rounds = n - i` bytes to go.
  pub write_loop : (rounds i : ℕ) → Pipe → Stretch
  write_loop zero i p = returns (some i) (at_nread ∷ []) p
  write_loop (suc rounds) i p =
      let stored : Stretch = elim (copyin (u64 (addr + i))) [
        | none ↦ returns (some i) (at_nread ∷ []) p
        | some ch ↦ write_loop rounds (i + 1) (store p ch)
      ] in
      if not p.readopen || killed i
      then returns none [] p
      else if is_full p
      then sleeps i at_nwrite (at_nread ∷ []) p
      else stored

  -- The stretch that begins with `i` of the `n` bytes moved: `i` is 0 at the call.
  pub pipewrite : (n i : ℕ) → Pipe → Stretch
  pipewrite n i p = write_loop (n - i) i p

-- What the copy loop of `piperead` leaves: the bytes that reached user memory, `i`, and the pipe.
pub record Copied : Type 0 where
  pub out : List ℕ
  pub count : ℕ
  pub pipe : Pipe

-- `copyout a b` tells whether `copyout` of the byte `b` to the user address `a` succeeds.
module _ (copyout : ℕ → ℕ → Bool) (addr : ℕ) where
  pub read_loop : (rounds i : ℕ) → Pipe → Copied
  read_loop zero i p = record { out = []; count = i; pipe = p }
  read_loop (suc rounds) i p =
      let rest = read_loop rounds (i + 1) (advance p) in
      if is_empty p
      then record { out = []; count = i; pipe = p }
      else if copyout (u64 (addr + i)) (front p)
      then record rest { out = front p ∷ rest.out }
      else record { out = []; count = i; pipe = advance p }

  pub piperead : Bool → ℕ → Pipe → List ℕ × Stretch
  piperead killed n p =
      let c = read_loop n 0 p in
      if is_empty p && p.writeopen
      then (if killed then ([], returns none [] p) else ([], sleeps 0 at_nread [] p))
      else (c.out, returns (some c.count) (at_nwrite ∷ []) c.pipe)
