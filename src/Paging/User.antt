-- ===== src/Paging/User.antt =====
-- kernel/vm.c: the address spaces of processes. Permissions are sums of different flags.
use csse332_project.Base.{
  ℕ, zero, suc, ◌+◌, ◌-◌, ◌/◌, Bool, true, false, not, ◌&&◌, none, some, ◌==◌, ltb, leb,
  if◌then◌else◌, Outcome, ok, panic, spin, fault, ◌>>=◌,
}
use csse332_project.Strings.{memmove}
use csse332_project.Pages.{kalloc, kfree, page_size, round_up}
use csse332_project.Paging.{
  Vm, is_valid, is_user, is_branch, pte_to_pa, pte_flags, set_entry, alloc_zeroed,
}
use csse332_project.Paging.Walk.{walk, mappages, uvmunmap}

pub uvmcreate : Vm → Vm × ℕ
uvmcreate vm = alloc_zeroed vm

-- The result of mappages is not looked at; memset of a page at 0 faults. 30 is PTE_W|PTE_R|PTE_X|PTE_U.
pub uvmfirst : (root src sz : ℕ) → Vm → Outcome Vm
uvmfirst root src sz vm =
    let r = alloc_zeroed vm in
    if leb page_size sz
    then panic "uvmfirst: more than a page"
    else if r.1 == 0
    then fault
    else mappages root 0 page_size (r.1) 30 (r.0) >>= λ (vm', mapped).
        ok (record vm' { memory = memmove (r.1) src sz vm'.memory })

-- The number of pages is an int; no address space has 2 ^ 31 pages.
pub uvmdealloc : (end root oldsz newsz : ℕ) → Vm → Outcome (Vm × ℕ)
uvmdealloc end root oldsz newsz vm =
    let npages = (round_up oldsz - round_up newsz) / page_size in
    if leb oldsz newsz
    then ok (vm, oldsz)
    else if ltb (round_up newsz) (round_up oldsz)
    then (uvmunmap end root (round_up newsz) npages true vm >>= λ vm'. ok (vm', newsz))
    else ok (vm, newsz)

-- uvmalloc's way back: 0.
abbrev pub give_back : (end root a oldsz : ℕ) → Vm → Outcome (Vm × ℕ)
give_back end root a oldsz vm = uvmdealloc end root a oldsz vm >>= λ (vm', sz). ok (vm', 0)

-- The loop of uvmalloc with `rounds` pages to go; `oldsz` is rounded. 18 is PTE_R|PTE_U.
pub grow_loop : (rounds end root a oldsz newsz xperm : ℕ) → Vm → Outcome (Vm × ℕ)
grow_loop zero end root a oldsz newsz xperm vm = ok (vm, newsz)
grow_loop (suc rounds) end root a oldsz newsz xperm vm =
    let r = alloc_zeroed vm in
    if r.1 == 0
    then give_back end root a oldsz (r.0)
    else mappages root a page_size (r.1) (18 + xperm) (r.0) >>= λ (vm1, mapped).
        if mapped
        then grow_loop rounds end root (a + page_size) oldsz newsz xperm vm1
        else (kfree end (r.1) vm1.kmem >>= λ k.
            give_back end root a oldsz (record vm1 { kmem = k }))

pub uvmalloc : (end root oldsz newsz xperm : ℕ) → Vm → Outcome (Vm × ℕ)
uvmalloc end root oldsz newsz xperm vm =
    let a = round_up oldsz in
    let rounds = (newsz - a + page_size - 1) / page_size in
    if ltb newsz oldsz then ok (vm, oldsz) else grow_loop rounds end root a a newsz xperm vm

-- The loop of freewalk with `rounds` entries to go; `walk_child` is its recursive call.
pub entries_loop : (walk_child : ℕ → Vm → Outcome Vm) → (rounds i table : ℕ) → Vm → Outcome Vm
entries_loop walk_child zero i table vm = ok vm
entries_loop walk_child (suc rounds) i table vm =
    let pte = vm.tables table i in
    let child : Outcome Vm =
      (walk_child (pte_to_pa pte) vm >>= λ vm'.
      entries_loop walk_child rounds (suc i) table (set_entry table i 0 vm')) in
    let rest = entries_loop walk_child rounds (suc i) table vm in
    if is_valid pte && is_branch pte
    then child
    else if is_valid pte
    then panic "freewalk: leaf"
    else rest

-- `levels` bounds the tables on a way down: three of them in an address space.
pub freewalk : (levels end table : ℕ) → Vm → Outcome Vm
freewalk zero end table vm = spin
freewalk (suc levels) end table vm = entries_loop (freewalk levels end) 512 0 table vm >>= λ vm'.
    (kfree end table vm'.kmem >>= λ k. ok (record vm' { kmem = k }))

pub uvmfree : (end root sz : ℕ) → Vm → Outcome Vm
uvmfree end root sz vm =
    (if ltb 0 sz then uvmunmap end root 0 (round_up sz / page_size) true vm else ok vm)
    >>= freewalk 3 end root

-- `err` of uvmcopy: false is -1.
abbrev pub undo_copy : (end new i : ℕ) → Vm → Outcome (Vm × Bool)
undo_copy end new i vm = uvmunmap end new 0 (i / page_size) true vm >>= λ vm'. ok (vm', false)

-- The loop of uvmcopy with `rounds` pages to go; kalloc's junk is overwritten.
pub copy_loop : (rounds end old new i : ℕ) → Vm → Outcome (Vm × Bool)
copy_loop zero end old new i vm = ok (vm, true)
copy_loop (suc rounds) end old new i vm = walk false old i vm >>= λ (vm1, found). elim found [
  | none ↦ panic "uvmcopy: pte should exist"
  | some (t, j) ↦
      let pte = vm1.tables t j in
      let r = kalloc vm1.kmem in
      let vm2 : Vm = record vm1 {
        kmem = r.0;
        memory = memmove (r.1) (pte_to_pa pte) page_size vm1.memory;
      } in
      let mapped : Outcome (Vm × Bool) =
        (mappages new i page_size (r.1) (pte_flags pte) vm2 >>= λ (vm3, done).
        if done
        then copy_loop rounds end old new (i + page_size) vm3
        else (kfree end (r.1) vm3.kmem >>= λ k. undo_copy end new i (record vm3 { kmem = k }))) in
      if not (is_valid pte)
      then panic "uvmcopy: page not present"
      else if r.1 == 0
      then undo_copy end new i (record vm1 { kmem = r.0 })
      else mapped
]

pub uvmcopy : (end old new sz : ℕ) → Vm → Outcome (Vm × Bool)
uvmcopy end old new sz vm = copy_loop ((sz + page_size - 1) / page_size) end old new 0 vm

pub uvmclear : (root va : ℕ) → Vm → Outcome Vm
uvmclear root va vm = walk false root va vm >>= λ (vm', found). elim found [
  | none ↦ panic "uvmclear"
  | some (t, i) ↦
      let pte = vm'.tables t i in ok (set_entry t i (if is_user pte then pte - 16 else pte) vm')
]
