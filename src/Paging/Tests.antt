-- ===== src/Paging/Tests.antt =====
-- copyin on a range across two pages.
use csse332_project.Base.{
  ℕ, zero, suc, ◌+◌, ◌%◌, ◌<◌, ◌≡◌, ◌≢◌, refl, Bool, true, false, ◌==◌, if◌then◌else◌, Outcome, ok,
  arith,
}
use csse332_project.Strings.{Memory}
use csse332_project.Paging.{Vm}
use csse332_project.Paging.Walk.{walk_loop, walkaddr}
use csse332_project.Paging.Walk.Lookup.{with_memory}
use csse332_project.Paging.Copy.{copyin, copyin_loop}
use csse332_project.Paging.Copy.Copyin.{IsCopied, copyin-IsCopied, frame_of, physical}

-- A root at 4096 that maps page 0 to 20480 and page 1 to 36864.
abbrev two_pages : ℕ → ℕ → ℕ
two_pages t i =
    if t == 4096
    then (if i == 0 then 2049 else 0)
    else if t == 8192
    then (if i == 0 then 3073 else 0)
    else if t == 12288
    then (if i == 0 then 5151 else if i == 1 then 9247 else 0)
    else 0

abbrev vm : Vm
vm = record {
  kmem = record { freelist = 0; next = λ p. 0; junk = λ p. 0 };
  tables = two_pages;
  memory = λ a. a % 251;
}

apart_pages :
    (i j : ℕ)
    → i < 4
    → j < 4
    → frame_of 4096 vm (4094 + i) ≢ 0
    → physical 4096 vm (4094 + i) ≢ 50000 + j
unfolding walkaddr walk_loop
apart_pages zero j li lj nz e = omega arith
apart_pages (suc zero) j li lj nz e = omega arith
apart_pages (suc (suc zero)) j li lj nz e = omega arith
apart_pages (suc (suc (suc zero))) j li lj nz e = omega arith
apart_pages (suc (suc (suc (suc i)))) j li lj nz e = omega arith

copyin-IsCopied_example :
    (r : Memory × Bool) × (copyin 4096 50000 4094 4 vm ≡ ok (with_memory r.0 vm, r.1))
    × IsCopied 4096 vm 50000 4094 4 vm.memory r.0 r.1
copyin-IsCopied_example = copyin-IsCopied 4096 vm 50000 4094 4 (record { apart = apart_pages })

abbrev is_done : Outcome (Vm × Bool) → Bool
is_done (ok (vm', done)) = done
is_done other = false

copyin_mapped : is_done (copyin 4096 50000 4094 4 vm) ≡ true
unfolding copyin copyin_loop walkaddr walk_loop
copyin_mapped = refl

copyin_unmapped : is_done (copyin 4096 50000 8190 4 vm) ≡ false
unfolding copyin copyin_loop walkaddr walk_loop
copyin_unmapped = refl
