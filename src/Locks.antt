-- ===== src/Locks.antt =====
-- kernel/spinlock.c on one CPU, and kernel/sleeplock.c. The fields are those of `struct cpu`, the
-- interrupt flag, and of `struct spinlock`, whose `cpu` is the number of a CPU.
pub mod Nesting
mod Tests
use csse332_project.Base.{
  ℕ, zero, suc, ◌+◌, ◌-◌, Bool, true, false, not, ◌&&◌, ◌||◌, Option, none, some, ◌==◌, ltb,
  if◌then◌else◌, Outcome, ok, panic, spin, ◌>>=◌,
}

pub record Cpu : Type 0 where
  pub id : ℕ
  pub intr : Bool  -- interrupts are enabled
  pub noff : ℕ
  pub intena : Bool

pub record Spinlock : Type 0 where
  pub locked : Bool
  pub cpu : Option ℕ

pub initlock : Spinlock
initlock = record { locked = false; cpu = none }

pub push_off : Cpu → Cpu
push_off c = record c {
  intr = false;
  intena = if c.noff == 0 then c.intr else c.intena;
  noff = c.noff + 1;
}

pub pop_off : Cpu → Outcome Cpu
pop_off c =
    let less = record c { noff = c.noff - 1 } in
    if c.intr
    then panic "pop_off - interruptible"
    else if ltb c.noff 1
    then panic "pop_off"
    else ok (if less.noff == 0 && c.intena then record less { intr = true } else less)

abbrev same_cpu : Option ℕ → ℕ → Bool
same_cpu none i = false
same_cpu (some j) i = j == i

pub holding : Cpu → Spinlock → Bool
holding c lk = lk.locked && same_cpu lk.cpu c.id

-- `spin` where another CPU holds the lock: it never returns here, since no other CPU runs.
pub acquire : Cpu → Spinlock → Outcome (Cpu × Spinlock)
acquire c lk =
    if holding (push_off c) lk
    then panic "acquire"
    else if lk.locked
    then spin
    else ok (push_off c, record { locked = true; cpu = some c.id })

pub release : Cpu → Spinlock → Outcome (Cpu × Spinlock)
release c lk =
    if not (holding c lk)
    then panic "release"
    else pop_off c >>= λ c'. ok (c', record { locked = false; cpu = none })

-- `struct sleeplock`, without the spinlock `lk` that protects it: each call below holds it from the
-- first line to the last, but for the sleep.
pub record Sleeplock : Type 0 where
  pub locked : Bool
  pub pid : ℕ

pub initsleeplock : Sleeplock
initsleeplock = record { locked = false; pid = 0 }

-- `none` where the caller sleeps on the lock, to try again.
pub acquiresleep : (pid : ℕ) → Sleeplock → Option Sleeplock
acquiresleep pid lk = if lk.locked then none else some (record { locked = true; pid = pid })

-- Sleepers are woken.
unfoldable pub releasesleep : Sleeplock → Sleeplock
releasesleep lk = record { locked = false; pid = 0 }

unfoldable pub holdingsleep : (pid : ℕ) → Sleeplock → Bool
holdingsleep pid lk = lk.locked && (lk.pid == pid)
