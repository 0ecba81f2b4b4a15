-- ===== src/Paging/Copy.antt =====
-- kernel/vm.c: copyout, copyin and copyinstr. Each loop has fuel of one more than
-- the bytes to move. true is 0, and false is -1.
pub mod Copyin
use csse332_project.Base.{
  ℕ, zero, suc, ◌+◌, ◌-◌, ◌*◌, ◌/◌, ◌%◌, Bool, true, false, ◌==◌, ltb, if◌then◌else◌, update,
  Outcome, ok, spin,
}
use csse332_project.Strings.{Memory, memmove}
use csse332_project.Pages.{page_size}
use csse332_project.Paging.{Vm, round_down}
use csse332_project.Paging.Walk.{walkaddr}

-- `n`: the bytes from `va` to the end of its page, `len` at most.
abbrev pub in_page : (va len : ℕ) → ℕ
in_page va len = let n = page_size - (va - round_down va) in if ltb len n then len else n

abbrev pub move_bytes : (dst src n : ℕ) → Vm → Vm
move_bytes dst src n vm = record vm { memory = memmove dst src n vm.memory }

pub copyout_loop : (fuel root dstva src len : ℕ) → Vm → Outcome (Vm × Bool)
copyout_loop zero root dstva src len vm = spin
copyout_loop (suc fuel) root dstva src len vm =
    let va0 = round_down dstva in
    let pa0 = walkaddr root va0 vm in
    let n = in_page dstva len in
    let vm' = move_bytes (pa0 + (dstva - va0)) src n vm in
    let rest = copyout_loop fuel root (va0 + page_size) (src + n) (len - n) vm' in
    if len == 0 then ok (vm, true) else if pa0 == 0 then ok (vm, false) else rest

pub copyout : (root dstva src len : ℕ) → Vm → Outcome (Vm × Bool)
copyout root dstva src len vm = copyout_loop (suc len) root dstva src len vm

unfoldable pub copyin_loop : (fuel root dst srcva len : ℕ) → Vm → Outcome (Vm × Bool)
copyin_loop zero root dst srcva len vm = spin
copyin_loop (suc fuel) root dst srcva len vm =
    let va0 = round_down srcva in
    let pa0 = walkaddr root va0 vm in
    let n = in_page srcva len in
    let vm' = move_bytes dst (pa0 + (srcva - va0)) n vm in
    let rest = copyin_loop fuel root (dst + n) (va0 + page_size) (len - n) vm' in
    if len == 0 then ok (vm, true) else if pa0 == 0 then ok (vm, false) else rest

unfoldable pub copyin : (root dst srcva len : ℕ) → Vm → Outcome (Vm × Bool)
copyin root dst srcva len vm = copyin_loop (suc len) root dst srcva len vm

-- The inner loop of copyinstr: the memory, and whether the NUL was met.
pub string_loop : (n dst p : ℕ) → Memory → Memory × Bool
string_loop zero dst p mem = (mem, false)
string_loop (suc n) dst p mem =
    let rest = string_loop n (dst + 1) (p + 1) (update mem dst (mem p)) in
    if mem p == 0 then (update mem dst 0, true) else rest

pub copyinstr_loop : (fuel root dst srcva max : ℕ) → Vm → Outcome (Vm × Bool)
copyinstr_loop zero root dst srcva max vm = spin
copyinstr_loop (suc fuel) root dst srcva max vm =
    let va0 = round_down srcva in
    let pa0 = walkaddr root va0 vm in
    let n = in_page srcva max in
    let r = string_loop n dst (pa0 + (srcva - va0)) vm.memory in
    let vm' : Vm = record vm { memory = r.0 } in
    let rest = copyinstr_loop fuel root (dst + n) (va0 + page_size) (max - n) vm' in
    if max == 0
    then ok (vm, false)
    else if pa0 == 0
    then ok (vm, false)
    else if r.1
    then ok (vm', true)
    else rest

pub copyinstr : (root dst srcva max : ℕ) → Vm → Outcome (Vm × Bool)
copyinstr root dst srcva max vm = copyinstr_loop (suc max) root dst srcva max vm
