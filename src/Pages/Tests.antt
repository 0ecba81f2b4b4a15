-- ===== src/Pages/Tests.antt =====
-- The theorems on the page allocator at concrete free lists.
use csse332_project.Base.{ℕ, ◌-◌, ◌/◌, ◌≡◌, refl, arith, List, [], ◌∷◌, ok, if◌then◌else◌, ◌==◌}
use csse332_project.Pages.{Kmem, kinit, page_size, phystop, round_up}
use csse332_project.Pages.Chain.{IsFreeList, IsChain, kinit-stacked, stacked}

abbrev free_pair : List ℕ
free_pair = 0x80005000 ∷ 0x80003000 ∷ []

-- The pages at 0x80005000 and 0x80003000 are free.
abbrev two_free : Kmem
two_free = record {
  freelist = 0x80005000;
  next = λ p. if p == 0x80005000 then 0x80003000 else 0;
  junk = λ p. 1;
}

two_free-IsFreeList : IsFreeList two_free free_pair
unfolding IsFreeList IsChain
two_free-IsFreeList = (refl, omega arith, (omega arith, tt), (refl, omega arith, tt, refl))

abbrev no_free : Kmem
no_free = record two_free { freelist = 0 }

kinit-stacked_example :
    (k' : Kmem) × (kinit 0x87ffd123 no_free ≡ ok k')
    × IsFreeList k' (stacked ((phystop - round_up 0x87ffd123) / page_size) (round_up 0x87ffd123) [])
kinit-stacked_example = kinit-stacked 0x87ffd123 no_free refl (omega arith) (omega arith)
