-- ===== src/Paging.antt =====
-- kernel/vm.c and the page table entries of kernel/riscv.h. A page table is 512 words at the address of
-- its page. A pointer to an entry is the page and the index. Pages that hold tables are not those
-- that hold the memory of processes: `tables` and `memory` are separate.
pub mod Walk
pub mod User
pub mod Copy
pub mod Spaces
mod Tests
use csse332_project.Base.{
  ℕ, zero, suc, ◌+◌, ◌-◌, ◌*◌, ◌/◌, ◌%◌, ◌^◌, Bool, true, false, not, ◌&&◌, ◌||◌, Option, none,
  some, ◌==◌, ltb, leb, if◌then◌else◌, update, u64, Outcome, ok, panic, spin, fault, ◌>>=◌,
}
use csse332_project.Strings.{Memory}
use csse332_project.Pages.{Kmem, kalloc, kfree, page_size, round_up}

pub record Vm : Type 0 where
  pub kmem : Kmem
  pub tables : ℕ → ℕ → ℕ
  pub memory : Memory

-- `MAXVA`
abbrev pub max_va : ℕ
max_va = 2 ^ 38

-- `PGROUNDDOWN`
abbrev pub round_down : ℕ → ℕ
round_down a = a / page_size * page_size

-- `PX`
abbrev pub px : (level va : ℕ) → ℕ
px level va = va / (page_size * 512 ^ level) % 512

-- `*pte & PTE_V`, `*pte & PTE_U` and `(pte & (PTE_R|PTE_W|PTE_X)) == 0`
abbrev pub is_valid : ℕ → Bool
is_valid pte = pte % 2 == 1

abbrev pub is_user : ℕ → Bool
is_user pte = pte / 16 % 2 == 1

abbrev pub is_branch : ℕ → Bool
is_branch pte = pte / 2 % 8 == 0

-- `PTE2PA` and `PA2PTE`
abbrev pub pte_to_pa : ℕ → ℕ
pte_to_pa pte = u64 (pte / 1024 * page_size)

abbrev pub pa_to_pte : ℕ → ℕ
pa_to_pte pa = pa / page_size * 1024

-- `PTE_FLAGS`
abbrev pub pte_flags : ℕ → ℕ
pte_flags pte = pte % 1024

-- `perm | PTE_V`
abbrev pub with_valid : ℕ → ℕ
with_valid perm = perm / 2 * 2 + 1

abbrev pub set_entry : (table i pte : ℕ) → Vm → Vm
set_entry table i pte vm = record vm {
  tables = update vm.tables table (update (vm.tables table) i pte);
}

-- `kalloc` and `memset` of the page to 0, as a table and as bytes.
abbrev pub alloc_zeroed : Vm → Vm × ℕ
alloc_zeroed vm =
    let r = kalloc vm.kmem in
    if r.1 == 0 then (record vm { kmem = r.0 }, 0) else (
      record {
        kmem = r.0;
        tables = update vm.tables r.1 (λ i. 0);
        memory = λ a. if leb r.1 a && ltb a (r.1 + page_size) then 0 else vm.memory a;
      },
      r.1,
    )
