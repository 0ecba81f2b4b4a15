-- ===== src/Paging/Walk.antt =====
-- kernel/vm.c: walk, walkaddr, mappages and uvmunmap.
pub mod Lookup
use csse332_project.Base.{
  ℕ, zero, suc, ◌+◌, ◌-◌, ◌*◌, ◌/◌, ◌%◌, Bool, true, false, not, ◌&&◌, ◌||◌, Option, none, some,
  ◌==◌, ltb, leb, if◌then◌else◌, update, u64, sub64, Outcome, ok, panic, spin, ◌>>=◌,
}
use csse332_project.Pages.{Kmem, kfree, page_size}
use csse332_project.Paging.{
  Vm, max_va, round_down, px, is_valid, is_user, pte_to_pa, pa_to_pte, pte_flags, with_valid,
  set_entry, alloc_zeroed,
}

-- The loop of walk from level `level` down to 1, at `table`: the table of level 0, none where walk
-- reports 0.
unfoldable pub walk_loop : (level : ℕ) → (alloc : Bool) → (table va : ℕ) → Vm → Vm × Option ℕ
walk_loop zero alloc table va vm = (vm, some table)
walk_loop (suc level) alloc table va vm =
    let i = px (suc level) va in
    let pte = vm.tables table i in
    let r = alloc_zeroed vm in
    let down = walk_loop level alloc (pte_to_pa pte) va vm in
    let fresh = walk_loop level alloc r.1 va (set_entry table i (pa_to_pte r.1 + 1) (r.0)) in
    if is_valid pte
    then down
    else if not alloc
    then (vm, none)
    else if r.1 == 0
    then (r.0, none)
    else fresh

-- The page and the index of the entry.
pub walk : (alloc : Bool) → (root va : ℕ) → Vm → Outcome (Vm × Option (ℕ × ℕ))
walk alloc root va vm =
    let r = walk_loop 2 alloc root va vm in
    if leb max_va va
    then panic "walk"
    else ok (r.0, elim (r.1) [ none ↦ none | some t ↦ some (t, px 0 va) ])

-- walkaddr checks the address before it calls walk, which allocates nothing here.
unfoldable pub walkaddr : (root va : ℕ) → Vm → ℕ
walkaddr root va vm =
    let found : ℕ = elim (walk_loop 2 false root va vm).1 [
      | none ↦ 0
      | some t ↦
          let pte = vm.tables t (px 0 va) in
          if not (is_valid pte) then 0 else if not (is_user pte) then 0 else pte_to_pa pte
    ] in
    if leb max_va va then 0 else found

-- The loop of mappages, on fuel; false for -1.
pub map_loop : (fuel : ℕ) → (root a last pa perm : ℕ) → Vm → Outcome (Vm × Bool)
map_loop zero root a last pa perm vm = spin
map_loop (suc fuel) root a last pa perm vm = walk true root a vm >>= λ (vm1, found). elim found [
  | none ↦ ok (vm1, false)
  | some (t, i) ↦
      let vm2 = set_entry t i (pa_to_pte pa + with_valid perm) vm1 in
      let rest = map_loop fuel root (u64 (a + page_size)) last (u64 (pa + page_size)) perm vm2 in
      if is_valid (vm1.tables t i)
      then panic "mappages: remap"
      else if a == last
      then ok (vm2, true)
      else rest
]

-- `perm` has flags only.
pub mappages : (root va size pa perm : ℕ) → Vm → Outcome (Vm × Bool)
mappages root va size pa perm vm =
    let a = round_down va in
    let last = round_down (u64 (va + size - 1)) in
    if size == 0
    then panic "mappages: size"
    else map_loop (suc (sub64 last a / page_size)) root a last pa perm vm

pub kvmmap : (root va pa size perm : ℕ) → Vm → Outcome Vm
kvmmap root va pa size perm vm =
    mappages root va size pa perm vm >>= λ (vm', done). if done then ok vm' else panic "kvmmap"

-- The loop of uvmunmap with `rounds` pages to go; `end` is the first address behind the kernel.
pub unmap_loop : (end root rounds a : ℕ) → (do_free : Bool) → Vm → Outcome Vm
unmap_loop end root zero a do_free vm = ok vm
unmap_loop end root (suc rounds) a do_free vm = walk false root a vm >>= λ (vm1, found).
    elim found [
      | none ↦ panic "uvmunmap: walk"
      | some (t, i) ↦
          let pte = vm1.tables t i in
          let freed : Outcome Vm =
            if do_free
            then (kfree end (pte_to_pa pte) vm1.kmem >>= λ k. ok (record vm1 { kmem = k }))
            else ok vm1 in
          let rest : Outcome Vm =
            (freed >>= λ vm2.
            unmap_loop end root rounds (u64 (a + page_size)) do_free (set_entry t i 0 vm2)) in
          if not (is_valid pte)
          then panic "uvmunmap: not mapped"
          else if pte_flags pte == 1
          then panic "uvmunmap: not a leaf"
          else rest
    ]

pub uvmunmap : (end root va npages : ℕ) → (do_free : Bool) → Vm → Outcome Vm
uvmunmap end root va npages do_free vm =
    if not (va % page_size == 0)
    then panic "uvmunmap: not aligned"
    else unmap_loop end root npages va do_free vm
