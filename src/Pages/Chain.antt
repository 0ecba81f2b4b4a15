-- ===== src/Pages/Chain.antt =====
-- The free list as a list of distinct pages, and what the operations do to it.
use csse332_project.Base.{
  ℕ, zero, suc, ◌+◌, ◌-◌, ◌*◌, ◌/◌, ◌%◌, ◌≤◌, ◌<◌, ◌≡◌, refl, sym, subst, ◌≢◌, ◌⊎◌, inl, inr, Bool,
  not, ◌||◌, ltb, leb, ◌==◌, update, update_self, update_ne, ok, panic, arith, List, [], ◌∷◌, All,
  ne→==, Bool-cases,
}
use csse332_project.Pages.{
  Kmem, kfree, kalloc, free_pages, freerange, kinit, page_size, phystop, round_up,
}

-- The pages that are reached from `p` through `next`.
unfoldable pub IsChain : (ℕ → ℕ) → ℕ → List ℕ → Type 0
IsChain next p [] = p ≡ 0
IsChain next p (q ∷ qs) = (p ≡ q) × (q ≢ 0) × All (λ r. r ≢ q) qs × IsChain next (next q) qs

unfoldable pub IsFreeList : Kmem → List ℕ → Type 0
IsFreeList k qs = IsChain k.next k.freelist qs

-- A page that kfree accepts.
pub record IsPage (end pa : ℕ) : Type 0 where
  pub aligned : pa % page_size ≡ 0
  pub above : end ≤ pa
  pub below : pa < phystop

-- A write to a page outside the list leaves the list.
IsChain-update :
    (next : ℕ → ℕ) (pa v p : ℕ) (qs : List ℕ)
    → All (λ r. r ≢ pa) qs
    → IsChain next p qs
    → IsChain (update next pa v) p qs
unfolding IsChain
IsChain-update next pa v p [] out c = c
IsChain-update next pa v p (q ∷ qs) out c = (
  c.0,
  c.1,
  c.2,
  subst (λ t. IsChain (update next pa v) t qs) (sym (update_ne next pa q v (λ e. out.0 (sym e))))
      (IsChain-update next pa v (next q) qs out.1 c.3),
)

kfree_ok :
    (end pa : ℕ) (k : Kmem)
    → IsPage end pa
    → kfree end pa k
      ≡ ok (record { freelist = pa; next = update k.next pa k.freelist; junk = update k.junk pa 1 })
unfolding kfree
kfree_ok end pa k h = ground (arith, h.aligned, h.above, h.below)

kfree_front :
    (k : Kmem) (pa : ℕ) (qs : List ℕ)
    → IsFreeList k qs
    → All (λ r. r ≢ pa) qs
    → pa ≢ 0
    → IsFreeList
        (record { freelist = pa; next = update k.next pa k.freelist; junk = update k.junk pa 1 })
        (pa ∷ qs)
unfolding IsFreeList IsChain
kfree_front k pa qs c out nz = (
  refl,
  nz,
  out,
  subst (λ t. IsChain (update k.next pa k.freelist) t qs) (sym (update_self k.next pa k.freelist))
      (IsChain-update k.next pa k.freelist k.freelist qs out c),
)

-- The test of kfree.
abbrev refused : (end pa : ℕ) → Bool
refused end pa = not (pa % page_size == 0) || (ltb pa end || leb phystop pa)

-- From the list that a static variable starts with, 0, and with a kernel that ends behind 0, kfree
-- of a page outside the free list puts it in front; of an address that is not of a page between the
-- kernel's end and PHYSTOP, it panics.
kfree_lem :
    (end pa : ℕ) (k : Kmem) (qs : List ℕ)
    → 0 < end
    → IsFreeList k qs
    → All (λ r. r ≢ pa) qs
    → (IsPage end pa × ((k' : Kmem) × (kfree end pa k ≡ ok k') × IsFreeList k' (pa ∷ qs)))
      ⊎ (¬ IsPage end pa × (kfree end pa k ≡ panic "kfree"))
unfolding kfree
kfree_lem end pa k qs pos c out = elim (Bool-cases (refused end pa)) [
  | inl bad ↦ inr ((λ h. ground (arith, h.aligned, h.above, h.below)), rw bad refl)
  | inr good ↦
      let page : IsPage end pa = record {
        aligned = ground arith;
        above = ground arith;
        below = ground arith;
      } in
      inl (
        page,
        (
          record { freelist = pa; next = update k.next pa k.freelist; junk = update k.junk pa 1 },
          rw good refl,
          kfree_front k pa qs c out (omega (arith, page.above)),
        ),
      )
]

-- kalloc hands out the first free page and takes it off the list; with no free page it reports 0
-- and changes nothing.
kalloc_lem :
    (k : Kmem) (qs : List ℕ)
    → IsFreeList k qs
    → ((qs ≡ []) × (kalloc k ≡ (k, 0)))
      ⊎ ((q : ℕ) × (rest : List ℕ) × (qs ≡ q ∷ rest)
          × ((kalloc k).1 ≡ q)
          × (q ≢ 0)
          × IsFreeList (kalloc k).0 rest
          × All (λ r. r ≢ q) rest)
unfolding IsFreeList IsChain kalloc
kalloc_lem k [] c = inl (refl, rw c refl)
kalloc_lem k (q ∷ rest) c =
    rw (c.0, ne→== q 0 c.1)
      (inr (
        q,
        rest,
        refl,
        refl,
        c.1,
        IsChain-update k.next q 0x0505050505050505 (k.next q) rest c.2 c.3,
        c.2,
      ))

-- `rounds` pages from `p` on, the last one first, before `qs`.
pub stacked : (rounds p : ℕ) → List ℕ → List ℕ
stacked zero p qs = qs
stacked (suc n) p qs = stacked n (p + page_size) (p ∷ qs)

All-imp {κ κ'} :
    {P : ℕ → Type κ} {Q : ℕ → Type κ'} → ((r : ℕ) → P r → Q r) → (qs : List ℕ) → All P qs → All Q qs
All-imp f [] h = tt
All-imp f (q ∷ qs) h = (f q h.0, All-imp f qs h.1)

free_pages-stacked :
    (end rounds p : ℕ) (k : Kmem) (qs : List ℕ)
    → 0 < p
    → end ≤ p
    → p % page_size ≡ 0
    → p + rounds * page_size ≤ phystop
    → All (λ r. r < p) qs
    → IsFreeList k qs
    → (k' : Kmem) × (free_pages end rounds p k ≡ ok k') × IsFreeList k' (stacked rounds p qs)
unfolding free_pages stacked
free_pages-stacked end zero p k qs pos lo al hi below c = (k, refl, c)
free_pages-stacked end (suc n) p k qs pos lo al hi below c =
    let r : (k' : Kmem) × (kfree end p k ≡ ok k') × IsFreeList k' (p ∷ qs) = (
      _,
      kfree_ok end p k (record { aligned = al; above = lo; below = omega arith }),
      kfree_front k p qs c (All-imp (λ r h. omega arith) qs below) (omega arith),
    ) in
    let s : (k' : Kmem) × (free_pages end n (p + page_size) r.0 ≡ ok k')
        × IsFreeList k' (stacked n (p + page_size) (p ∷ qs)) =
      free_pages-stacked end n (p + page_size) r.0 (p ∷ qs) (omega arith) (omega arith)
        (omega arith) (omega arith) (omega arith, All-imp (λ r h. omega arith) qs below) r.2 in
    (s.0, rw r.1 s.1, s.2)

start-IsFreeList : (k : Kmem) → k.freelist ≡ 0 → IsFreeList k []
unfolding IsFreeList IsChain
start-IsFreeList k e = e

-- From the list that a static variable starts with, 0, and with a kernel that ends behind 0 and,
-- rounded up to a page, not behind PHYSTOP, kinit does not panic, and the free list then has every
-- whole page from the kernel's end up to PHYSTOP once, the highest first.
pub kinit-stacked :
    (end : ℕ) (k : Kmem)
    → k.freelist ≡ 0
    → 0 < end
    → round_up end ≤ phystop
    → (k' : Kmem) × (kinit end k ≡ ok k')
      × IsFreeList k' (stacked ((phystop - round_up end) / page_size) (round_up end) [])
unfolding kinit freerange
kinit-stacked end k z pos h =
    free_pages-stacked end ((phystop - round_up end) / page_size) (round_up end) k [] (omega arith)
      (omega arith) (omega arith) (omega arith) tt (start-IsFreeList k z)
