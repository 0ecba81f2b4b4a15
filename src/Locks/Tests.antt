-- ===== src/Locks/Tests.antt =====
-- The theorems on locks at concrete CPUs.
use csse332_project.Base.{◌≡◌, refl, inl, inr, true, false, none, some, arith, ok, panic, spin}
use csse332_project.Locks.{Cpu, Spinlock, push_off, acquire, release}
use csse332_project.Locks.Nesting.{
  push_times, pop_times, pop_times-push_times, acquire-release, IsNested,
}

-- Interrupts are on and no lock is held.
abbrev outer : Cpu
outer = record { id = 0; intr = true; noff = 0; intena = false }

-- Inside two critical sections.
abbrev inner : Cpu
inner = record { id = 1; intr = false; noff = 2; intena = true }

outer-IsNested : IsNested outer
outer-IsNested = record { masked = inl refl }

inner-IsNested : IsNested inner
inner-IsNested = record { masked = inr refl }

pop_times-push_times_example :
    ((push_times 3 outer).intr ≡ false)
    × (pop_times 3 (push_times 3 outer)
        ≡ ok (record { id = 0; intr = true; noff = 0; intena = true }))
pop_times-push_times_example = pop_times-push_times 2 outer outer-IsNested

abbrev owned : Spinlock
owned = record { locked = true; cpu = some 1 }

acquire-release_example :
    (acquire inner (record { locked = false; cpu = none }) ≡ ok (push_off inner, owned))
    × ((push_off inner).intr ≡ false)
    × (acquire (push_off inner) owned ≡ panic "acquire")
    × (acquire outer owned ≡ spin)
    × (release outer owned ≡ panic "release")
    × (release (push_off inner) owned ≡ ok (inner, record { locked = false; cpu = none }))
acquire-release_example =
    acquire-release inner outer (record { locked = false; cpu = none }) inner-IsNested refl
      (ground arith)
