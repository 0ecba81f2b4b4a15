-- ===== src/Pages.antt =====
-- kernel/kalloc.c. The free list runs through the free pages themselves: the first word of a free
-- page is the address of the next, 0 at the end. `next` is that word of each page.
pub mod Chain
mod Tests
use csse332_project.Base.{
  ℕ, zero, suc, ◌+◌, ◌-◌, ◌*◌, ◌/◌, ◌%◌, ◌^◌, Bool, true, false, not, ◌||◌, ltb, leb, ◌==◌,
  if◌then◌else◌, update, Outcome, ok, panic, ◌>>=◌,
}

abbrev pub page_size : ℕ
page_size = 4096

-- `PHYSTOP`
abbrev pub phystop : ℕ
phystop = 0x80000000 + 128 * 1024 * 1024

-- Bytes 0 to 7 of a page are `next`; of the rest only the junk that fills it is kept.
pub record Kmem : Type 0 where
  pub freelist : ℕ
  pub next : ℕ → ℕ
  pub junk : ℕ → ℕ

-- `end` is the first address behind the kernel.
pub kfree : (end pa : ℕ) → Kmem → Outcome Kmem
kfree end pa k =
    if not (pa % page_size == 0) || (ltb pa end || leb phystop pa)
    then panic "kfree"
    else ok
        (record { freelist = pa; next = update k.next pa k.freelist; junk = update k.junk pa 1 })

-- The address of a page, 0 if there is none. The page that is handed out is filled with 5s, its
-- first word too.
pub kalloc : Kmem → Kmem × ℕ
kalloc k =
    let r = k.freelist in
    if r == 0 then (k, 0) else (
      record {
        freelist = k.next r;
        next = update k.next r 0x0505050505050505;
        junk = update k.junk r 5;
      },
      r,
    )

-- The loop of `freerange` with `rounds` pages to go.
pub free_pages : (end rounds p : ℕ) → Kmem → Outcome Kmem
free_pages end zero p k = ok k
free_pages end (suc rounds) p k = kfree end p k >>= free_pages end rounds (p + page_size)

-- `PGROUNDUP`
abbrev pub round_up : ℕ → ℕ
round_up a = (a + page_size - 1) / page_size * page_size

pub freerange : (end pa_start pa_end : ℕ) → Kmem → Outcome Kmem
freerange end pa_start pa_end k =
    free_pages end ((pa_end - round_up pa_start) / page_size) (round_up pa_start) k

pub kinit : (end : ℕ) → Kmem → Outcome Kmem
kinit end k = freerange end end phystop k
