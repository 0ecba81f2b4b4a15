-- ===== src/Locks/Nesting.antt =====
-- kernel/spinlock.c: nested `push_off` and `pop_off`, and `acquire` and `release` together.
use csse332_project.Base.{
  ℕ, zero, suc, ◌+◌, ◌≡◌, refl, ap, ◌∙◌, ◌≢◌, ◌⊎◌, true, false, none, some, ◌==◌, if◌then◌else◌,
  Outcome, ok, panic, spin, ◌>>=◌, arith, ne→==, ==_self,
}
use csse332_project.Locks.{Cpu, Spinlock, push_off, pop_off, holding, acquire, release}

pub push_times : ℕ → Cpu → Cpu
push_times zero c = c
push_times (suc n) c = push_times n (push_off c)

pub pop_times : ℕ → Cpu → Outcome Cpu
pop_times zero c = ok c
pop_times (suc n) c = pop_off c >>= pop_times n

-- Interrupts are off while the count is positive.
pub record IsNested (c : Cpu) : Type 0 where
  pub masked : (c.noff ≡ 0) ⊎ (c.intr ≡ false)

-- The CPU after `n` pushes.
abbrev deeper : ℕ → Cpu → Cpu
deeper n c = record {
  id = c.id;
  intr = if n == 0 then c.intr else false;
  noff = c.noff + n;
  intena = if n == 0 then c.intena else if c.noff == 0 then c.intr else c.intena;
}

push_times-deeper : (n : ℕ) (c : Cpu) → push_times n c ≡ deeper n c
unfolding push_times push_off
push_times-deeper zero c = ground arith
push_times-deeper (suc n) c = ground (arith, push_times-deeper n (push_off c))

-- The CPU after as many pops as pushes.
abbrev settled : Cpu → Cpu
settled c = record c { intena = if c.noff == 0 then c.intr else c.intena }

pop_off-deeper_one : (c : Cpu) → IsNested c → pop_off (deeper 1 c) ≡ ok (settled c)
unfolding pop_off
pop_off-deeper_one c v = ground (arith, v.masked)

pop_off-deeper : (n : ℕ) (c : Cpu) → pop_off (deeper (suc (suc n)) c) ≡ ok (deeper (suc n) c)
unfolding pop_off
pop_off-deeper n c = ground arith

pop_times-deeper :
    (n : ℕ) (c : Cpu) → IsNested c → pop_times (suc n) (deeper (suc n) c) ≡ ok (settled c)
unfolding pop_times
pop_times-deeper zero c v = rw (pop_off-deeper_one c v) refl
pop_times-deeper (suc n) c v = rw (pop_off-deeper n c) (pop_times-deeper n c v)

deeper-masked : (n : ℕ) (c : Cpu) → (deeper (suc n) c).intr ≡ false
deeper-masked n c = ground arith

-- From a CPU on which interrupts are off where the count is not 0: after one or more calls of
-- push_off interrupts are off, and as many calls of pop_off restore the interrupt flag and the
-- count. The saved flag is then the interrupt flag of the start, or the one saved before where the
-- count was not 0.
pub pop_times-push_times :
    (n : ℕ) (c : Cpu)
    → IsNested c
    → ((push_times (suc n) c).intr ≡ false)
      × (pop_times (suc n) (push_times (suc n) c)
          ≡ ok (record c { intena = if c.noff == 0 then c.intr else c.intena }))
pop_times-push_times n c v = (
  ap (λ d. d.intr) (push_times-deeper (suc n) c) ∙ deeper-masked n c,
  ap (pop_times (suc n)) (push_times-deeper (suc n) c) ∙ pop_times-deeper n c v,
)

push_pop : (c : Cpu) → IsNested c → pop_off (push_off c) ≡ ok (settled c)
unfolding push_off pop_off
push_pop c v = ground (arith, v.masked)

-- On a CPU on which interrupts are off where the count is not 0: a free lock is taken with
-- interrupts off; then its owner's acquire panics, another CPU's acquire spins and its release
-- panics, and the owner's release frees the lock and restores the interrupt flag and the count.
pub acquire-release :
    (c d : Cpu) (lk : Spinlock)
    → IsNested c
    → lk.locked ≡ false
    → c.id ≢ d.id
    → let held : Spinlock = record { locked = true; cpu = some c.id } in
      (acquire c lk ≡ ok (push_off c, held))
      × ((push_off c).intr ≡ false)
      × (acquire (push_off c) held ≡ panic "acquire")
      × (acquire d held ≡ spin)
      × (release d held ≡ panic "release")
      × (release (push_off c) held
          ≡ ok (
            record c { intena = if c.noff == 0 then c.intr else c.intena },
            record { locked = false; cpu = none },
          ))
unfolding acquire release holding push_off
acquire-release c d lk v free other =
    let mine : (c.id == c.id) ≡ true = ==_self c.id in
    let theirs : (c.id == d.id) ≡ false = ne→== c.id d.id other in
    (
      rw free refl,
      refl,
      rw mine refl,
      rw theirs refl,
      rw theirs refl,
      rw mine (ap (λ r. r >>= λ c'. ok (c', record { locked = false; cpu = none })) (push_pop c v)),
    )
