-- ===== src/Paging/Spaces.antt =====
-- kernel/proc.c and kernel/memlayout.h: what processes do with their address spaces; proc_mapstacks,
-- proc_pagetable, proc_freepagetable, growproc, either_copyout and either_copyin.
use csse332_project.Base.{
  ℕ, zero, suc, ◌+◌, ◌-◌, ◌*◌, ◌^◌, Bool, true, false, List, [], ◌∷◌, ◌++◌, ◌==◌, ltb,
  if◌then◌else◌, u64, Outcome, ok, panic, ◌>>=◌,
}
use csse332_project.Strings.{memmove}
use csse332_project.Pages.{kalloc, page_size}
use csse332_project.Paging.{Vm, max_va}
use csse332_project.Paging.Walk.{mappages, kvmmap, uvmunmap}
use csse332_project.Paging.User.{uvmcreate, uvmalloc, uvmdealloc, uvmfree}
use csse332_project.Paging.Copy.{copyout, copyin}
use csse332_project.Proc.{Proc}

-- `TRAMPOLINE`, `TRAPFRAME`, `SIGNALRET` and `SIGNALSTACK`
abbrev pub trampoline_va : ℕ
trampoline_va = max_va - page_size

abbrev pub trapframe_va : ℕ
trapframe_va = trampoline_va - page_size

abbrev pub signalret_va : ℕ
signalret_va = trapframe_va - page_size

abbrev pub signalstack_va : ℕ
signalstack_va = signalret_va - page_size

-- `KSTACK`
abbrev pub kstack_va : ℕ → ℕ
kstack_va p = trampoline_va - (p + 1) * 2 * page_size

-- The loop of proc_mapstacks with `rounds` processes to go; 6 is PTE_R|PTE_W.
pub mapstacks_loop : (rounds p root : ℕ) → Vm → Outcome Vm
mapstacks_loop zero p root vm = ok vm
mapstacks_loop (suc rounds) p root vm =
    let r = kalloc vm.kmem in
    let mapped : Outcome Vm =
      (kvmmap root (kstack_va p) (r.1) page_size 6 (record vm { kmem = r.0 })
        >>= mapstacks_loop rounds (suc p) root) in
    if r.1 == 0 then panic "kalloc" else mapped

-- `NPROC` is 64.
pub proc_mapstacks : (root : ℕ) → Vm → Outcome Vm
proc_mapstacks root vm = mapstacks_loop 64 0 root vm

-- uvmunmap of one page of each address, in order; the pages stay.
pub unmap_each : (end root : ℕ) → List ℕ → Vm → Outcome Vm
unmap_each end root [] vm = ok vm
unmap_each end root (va ∷ vas) vm = uvmunmap end root va 1 false vm >>= unmap_each end root vas

-- The four pages in order: the address, the page, and the permissions. What is mapped already,
-- `undo`, is unmapped on failure, and the table freed: 0.
pub map_each : (end root : ℕ) → (undo : List ℕ) → List (ℕ × ℕ × ℕ) → Vm → Outcome (Vm × ℕ)
map_each end root undo [] vm = ok (vm, root)
map_each end root undo ((va, pa, perm) ∷ pages) vm =
    mappages root va page_size pa perm vm >>= λ (vm1, mapped).
    let back : Outcome (Vm × ℕ) =
      (unmap_each end root undo vm1 >>= uvmfree end root 0 >>= λ vm2. ok (vm2, 0)) in
    if mapped then map_each end root (undo ++ (va ∷ [])) pages vm1 else back

-- `trampoline` and `signalret` are the addresses of the code in assembly; 10 is PTE_R|PTE_X, 6
-- PTE_R|PTE_W, and 16 PTE_U.
pub proc_pagetable : (end trampoline signalret : ℕ) → Proc → Vm → Outcome (Vm × ℕ)
proc_pagetable end trampoline signalret p vm =
    let r = uvmcreate vm in
    let pages : List (ℕ × ℕ × ℕ) =
      (trampoline_va, trampoline, 10)
      ∷ (trapframe_va, p.trapframe, 6)
      ∷ (signalret_va, signalret, 26)
      ∷ (signalstack_va, p.signaling.stack, 22)
      ∷ [] in
    if r.1 == 0 then ok (r.0, 0) else map_each end (r.1) [] pages (r.0)

pub proc_freepagetable : (end root sz : ℕ) → Vm → Outcome Vm
proc_freepagetable end root sz vm =
    unmap_each end root (trampoline_va ∷ trapframe_va ∷ signalret_va ∷ signalstack_va ∷ []) vm
    >>= uvmfree end root sz

-- `n` is the bit pattern of an int; `sz + n` wraps around. The Boolean is false for -1. 4 is PTE_W.
pub growproc : (end n : ℕ) → Proc → Vm → Outcome (Vm × Proc × Bool)
growproc end n p vm =
    let grown : Outcome (Vm × Proc × Bool) =
      (uvmalloc end p.pagetable p.sz (u64 (p.sz + n)) 4 vm >>= λ (vm', sz).
      if sz == 0 then ok (vm', p, false) else ok (vm', record p { sz = sz }, true)) in
    let shrunk : Outcome (Vm × Proc × Bool) =
      (uvmdealloc end p.pagetable p.sz (u64 (p.sz + (2 ^ 64 - 2 ^ 32) + n)) vm >>= λ (vm', sz).
      ok (vm', record p { sz = sz }, true)) in
    if n == 0 then ok (vm, p, true) else if ltb n (2 ^ 31) then grown else shrunk

-- The page table of the process that runs is `root`; false is -1.
pub either_copyout : (root : ℕ) → (user_dst : Bool) → (dst src len : ℕ) → Vm → Outcome (Vm × Bool)
either_copyout root user_dst dst src len vm =
    if user_dst
    then copyout root dst src len vm
    else ok (record vm { memory = memmove dst src len vm.memory }, true)

pub either_copyin :
    (root : ℕ) → (dst : ℕ) → (user_src : Bool) → (src len : ℕ) → Vm → Outcome (Vm × Bool)
either_copyin root dst user_src src len vm =
    if user_src
    then copyin root dst src len vm
    else ok (record vm { memory = memmove dst src len vm.memory }, true)
