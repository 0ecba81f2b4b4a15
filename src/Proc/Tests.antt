-- ===== src/Proc/Tests.antt =====
-- Concrete runs over the process table, and the theorems at concrete tables.
use csse332_project.Base.{
  ℕ, ◌≡◌, refl, Bool, true, none, some, Option, List, [], ◌∷◌, ok, inr, get_elem?,
}
use csse332_project.Proc.{held_here, Proc, at, wakeup, kill, runnable}
use csse332_project.Proc.Samples.{blank, init_proc, sleeper, dead, three}
use csse332_project.Proc.Table.{AllFree, wakeup_lem, kill_lem}
use csse332_project.Proc.Alloc.{Pages, Made, setup, setup-Made, freeproc}
use csse332_project.Proc.Life.{reaped, wait_scan}
use csse332_project.Proc.Wait.{wait_scan_lem}

three-free : (me : Option ℕ) → AllFree me 0 three
three-free me = (inr refl, (inr refl, (inr refl, tt)))

wakeup_lem_example :
    (ps : List Proc) × (wakeup (some 0) (at 77) three ≡ ok ps)
    × (get_elem? ps 1 ≡ some (record sleeper { state = runnable }))
wakeup_lem_example = wakeup_lem (some 0) (at 77) three 1 (three-free (some 0))

kill_lem_example :
    kill 2 three
    ≡ ok (init_proc ∷ record sleeper { killed = true; state = runnable } ∷ dead ∷ [], true)
kill_lem_example = kill_lem 2 three (three-free none)

wait_scan_lem_example :
    wait_scan (λ x. true) 0 three
    ≡ ok (reaped 3 5 (init_proc ∷ sleeper ∷ (freeproc dead).0 ∷ []) [])
unfolding freeproc
wait_scan_lem_example = wait_scan_lem (λ x. true) 0 three (three-free none)

-- The third allocation fails.
abbrev no_table : Pages
no_table = record { frame_page = 4096; stack_page = 8192; table = 0 }

setup-Made_example :
    (q : Proc) × (b : Bool) × (freed : List ℕ) × (setup 99 4096 no_table 7
        (record blank { lock = held_here })
      ≡ ok (q, b, freed))
    × Made (record blank { lock = held_here }) no_table 7 q b freed
setup-Made_example =
    setup-Made 99 4096 no_table 7 (record blank { lock = held_here }) refl
      (record { no_frame = refl; no_stack = refl; no_table = refl })

-- A process in an unused slot is found by pid 0: it is marked as killed, and the flag outlives
-- `allocproc`.
kill_of_zero : kill 0 (blank ∷ []) ≡ ok (record blank { killed = true } ∷ [], true)
unfolding kill
kill_of_zero = refl
