-- ===== src/Paging/Walk/Lookup.antt =====
-- walkaddr, whatever stands in memory.
use csse332_project.Base.{
  ℕ, zero, suc, ◌≡◌, refl, ap, false, not, leb, if◌then◌else◌, Option, none, some, inl, inr,
  Bool-cases,
}
use csse332_project.Strings.{Memory}
use csse332_project.Paging.{Vm, max_va, px, is_valid, is_user, pte_to_pa}
use csse332_project.Paging.Walk.{walk_loop, walkaddr}

abbrev pub with_memory : Memory → Vm → Vm
with_memory mem vm = record vm { memory = mem }

walk_loop-with_memory :
    (level table va : ℕ) (mem : Memory) (vm : Vm)
    → (walk_loop level false table va (with_memory mem vm)).1
      ≡ (walk_loop level false table va vm).1
unfolding walk_loop
walk_loop-with_memory zero table va mem vm = refl
walk_loop-with_memory (suc level) table va mem vm =
    let pte : ℕ = vm.tables table (px (suc level) va) in
    elim (Bool-cases (is_valid pte)) [
      | inl valid ↦ rw valid (walk_loop-with_memory level (pte_to_pa pte) va mem vm)
      | inr other ↦ rw other refl
    ]

abbrev leaf : (va : ℕ) → Vm → Option ℕ → ℕ
leaf va vm found = if leb max_va va then 0 else elim found [
  | none ↦ 0
  | some t ↦
      let pte = vm.tables t (px 0 va) in
      if not (is_valid pte) then 0 else if not (is_user pte) then 0 else pte_to_pa pte
]

pub walkaddr-with_memory :
    (root va : ℕ) (mem : Memory) (vm : Vm)
    → walkaddr root va (with_memory mem vm) ≡ walkaddr root va vm
unfolding walkaddr
walkaddr-with_memory root va mem vm = ap (leaf va vm) (walk_loop-with_memory 2 root va mem vm)
