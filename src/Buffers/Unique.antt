-- ===== src/Buffers/Unique.antt =====
-- bget of kernel/bio.c: the buffers that hold a block.
use csse332_project.Base.{
  ℕ, ◌+◌, ◌^◌, ◌≤◌, ◌<◌, ◌≡◌, ◌≢◌, refl, ◌⊎◌, inl, inr, Bool, true, not, ◌&&◌, none, some, List, [],
  ◌∷◌, ◌==◌, if◌then◌else◌, All, u32, ok, panic, arith, Bool-cases, Option-cases, subst, ==→eq,
}
use csse332_project.Buffers.{Buf, Found, find_cached, recycle, recycled, holds_block, bget}

abbrev tally : Bool → ℕ
tally b = if b then 1 else 0

-- The number of buffers that hold a block, and of those among them that are in use.
unfoldable pub cached : (d n : ℕ) → List Buf → ℕ
cached d n [] = 0
cached d n (b ∷ bs) = tally (holds_block d n b) + cached d n bs

pub in_use : (d n : ℕ) → List Buf → ℕ
in_use d n [] = 0
in_use d n (b ∷ bs) = tally (holds_block d n b && not (b.refcnt == 0)) + in_use d n bs

find_absent :
    (dev blockno : ℕ) (bs : List Buf)
    → find_cached dev blockno bs ≡ none
    → cached dev blockno bs ≡ 0
unfolding find_cached cached
find_absent dev blockno [] h = refl
find_absent dev blockno (b ∷ bs) h = elim (Bool-cases (holds_block dev blockno b)) [
  | inl hit ↦ absurd (ground arith)
  | inr miss ↦ elim (Option-cases (find_cached dev blockno bs)) [
    | inl e ↦ rw miss (omega (arith, find_absent dev blockno bs e))
    | inr s ↦ absurd (ground arith)
  ]
]

-- The count in a buffer has room for one more user.
pub record IsSmall (b : Buf) : Type 0 where
  pub small : b.refcnt + 1 < 2 ^ 32

-- What bget keeps of a block, and what it puts into use.
pub record Keeps (dev blockno d n : ℕ) (bs bs' : List Buf) : Type 0 where
  pub kept : in_use d n bs ≤ in_use d n bs'
  pub taken : 0 < in_use dev blockno bs'

-- A find in front, and one behind.
bump-Keeps :
    (dev blockno d n : ℕ) (b : Buf) (bs : List Buf)
    → IsSmall b
    → holds_block dev blockno b ≡ true
    → Keeps dev blockno d n (b ∷ bs) (record b { refcnt = u32 (b.refcnt + 1) } ∷ bs)
      × (cached d n (record b { refcnt = u32 (b.refcnt + 1) } ∷ bs) ≡ cached d n (b ∷ bs))
unfolding cached in_use
bump-Keeps dev blockno d n b bs s hit =
    (record { kept = ground (arith, s.small); taken = ground (arith, s.small) }, refl)

cons-Keeps :
    (dev blockno d n : ℕ) (b : Buf) (bs bs' : List Buf)
    → Keeps dev blockno d n bs bs'
    → Keeps dev blockno d n (b ∷ bs) (b ∷ bs')
unfolding in_use
cons-Keeps dev blockno d n b bs bs' k = record {
  kept = omega (arith, k.kept);
  taken = omega (arith, k.taken);
}

find_cached-Keeps :
    (dev blockno d n : ℕ) (bs : List Buf) (f : Found)
    → All IsSmall bs
    → find_cached dev blockno bs ≡ some f
    → Keeps dev blockno d n bs f.bufs × (cached d n f.bufs ≡ cached d n bs)
unfolding find_cached cached
find_cached-Keeps dev blockno d n [] f s h = cc
find_cached-Keeps dev blockno d n (b ∷ bs) f s h = elim (Bool-cases (holds_block dev blockno b)) [
  | inl hit ↦
      let g : record b { refcnt = u32 (b.refcnt + 1) } ∷ bs ≡ f.bufs = ground arith in
      subst (λ l. Keeps dev blockno d n (b ∷ bs) l × (cached d n l ≡ cached d n (b ∷ bs))) g
        (bump-Keeps dev blockno d n b bs s.0 hit)
  | inr miss ↦ elim (Option-cases (find_cached dev blockno bs)) [
    | inl e ↦ absurd (ground arith)
    | inr r ↦
        let ih : Keeps dev blockno d n bs (r.0).bufs × (cached d n (r.0).bufs ≡ cached d n bs) =
          find_cached-Keeps dev blockno d n bs r.0 s.1 r.1 in
        let g : b ∷ (r.0).bufs ≡ f.bufs = ground (arith, r.1) in
        subst (λ l. Keeps dev blockno d n (b ∷ bs) l × (cached d n l ≡ cached d n (b ∷ bs))) g
          (cons-Keeps dev blockno d n b bs (r.0).bufs ih.0, omega (arith, ih.1))
  ]
]

-- Recycling puts the block into a buffer that is not in use.
recycle_front :
    (dev blockno d n : ℕ) (b : Buf) (bs : List Buf)
    → b.refcnt ≡ 0
    → Keeps dev blockno d n (b ∷ bs) (recycled dev blockno b ∷ bs)
      × (cached d n (recycled dev blockno b ∷ bs)
          ≤ cached d n (b ∷ bs) + tally ((dev == d) && (blockno == n)))
unfolding cached in_use
recycle_front dev blockno d n b bs z =
    (record { kept = ground arith; taken = ground arith }, ground arith)

evict-Keeps :
    (dev blockno d n : ℕ) (bs : List Buf) (f : Found)
    → recycle dev blockno bs ≡ some f
    → Keeps dev blockno d n bs f.bufs
      × (cached d n f.bufs ≤ cached d n bs + tally ((dev == d) && (blockno == n)))
unfolding recycle cached
evict-Keeps dev blockno d n [] f h = cc
evict-Keeps dev blockno d n (b ∷ bs) f h = elim (Option-cases (recycle dev blockno bs)) [
  | inl e ↦ elim (Bool-cases (b.refcnt == 0)) [
    | inl free ↦
        let g : recycled dev blockno b ∷ bs ≡ f.bufs = ground (arith, e) in
        subst
          (λ l.
            Keeps dev blockno d n (b ∷ bs) l
            × (cached d n l ≤ cached d n (b ∷ bs) + tally ((dev == d) && (blockno == n))))
          g (recycle_front dev blockno d n b bs (==→eq b.refcnt 0 free))
    | inr busy ↦ absurd (ground (arith, e))
  ]
  | inr r ↦
      let ih : Keeps dev blockno d n bs (r.0).bufs
          × (cached d n (r.0).bufs ≤ cached d n bs + tally ((dev == d) && (blockno == n))) =
        evict-Keeps dev blockno d n bs r.0 r.1 in
      let g : b ∷ (r.0).bufs ≡ f.bufs = ground (arith, r.1) in
      subst
        (λ l.
          Keeps dev blockno d n (b ∷ bs) l
          × (cached d n l ≤ cached d n (b ∷ bs) + tally ((dev == d) && (blockno == n))))
        g (cons-Keeps dev blockno d n b bs (r.0).bufs ih.0, omega (arith, ih.1))
]

recycle-none :
    (dev blockno : ℕ) (bs : List Buf) → recycle dev blockno bs ≡ none → All (λ b. b.refcnt ≢ 0) bs
unfolding recycle
recycle-none dev blockno [] h = tt
recycle-none dev blockno (b ∷ bs) h = elim (Option-cases (recycle dev blockno bs)) [
  | inl e ↦ (λ z. ground (arith, e), recycle-none dev blockno bs e)
  | inr r ↦ absurd (ground (arith, r.1))
]

-- Where no count is at its last value, bget panics only if every buffer is in use; else the block
-- that it is asked for is in a buffer in use, no block that was in at most one buffer is in two,
-- and no block leaves a buffer in use.
pub bget_lem :
    (dev blockno d n : ℕ) (bs : List Buf)
    → All IsSmall bs
    → cached d n bs ≤ 1
    → ((bget dev blockno bs ≡ panic "bget: no buffers") × All (λ b. b.refcnt ≢ 0) bs)
      ⊎ ((f : Found) × (bget dev blockno bs ≡ ok f)
          × (cached d n f.bufs ≤ 1)
          × (in_use d n bs ≤ in_use d n f.bufs)
          × (0 < in_use dev blockno f.bufs))
unfolding bget
bget_lem dev blockno d n bs s one = elim (Option-cases (find_cached dev blockno bs)) [
  | inr r ↦
      let k : Keeps dev blockno d n bs (r.0).bufs × (cached d n (r.0).bufs ≡ cached d n bs) =
        find_cached-Keeps dev blockno d n bs r.0 s r.1 in
      inr (r.0, ground (arith, r.1), omega (arith, k.1), k.0.kept, k.0.taken)
  | inl e ↦ elim (Option-cases (recycle dev blockno bs)) [
    | inl full ↦ inl (ground (arith, e, full), recycle-none dev blockno bs full)
    | inr r ↦
        let k : Keeps dev blockno d n bs (r.0).bufs
            × (cached d n (r.0).bufs ≤ cached d n bs + tally ((dev == d) && (blockno == n))) =
          evict-Keeps dev blockno d n bs r.0 r.1 in
        inr (
          r.0,
          ground (arith, e, r.1),
          fresh r.0 k.1 (find_absent dev blockno bs e),
          k.0.kept,
          k.0.taken,
        )
  ]
]
  where
    fresh :
        (f : Found)
        → cached d n f.bufs ≤ cached d n bs + tally ((dev == d) && (blockno == n))
        → cached dev blockno bs ≡ 0
        → cached d n f.bufs ≤ 1
    fresh f h z = elim (Bool-cases ((dev == d) && (blockno == n))) [
      | inl same ↦
          let absent : cached d n bs ≡ 0 = ground arith in
          let t : tally ((dev == d) && (blockno == n)) ≡ 1 = rw same refl in omega arith
      | inr other ↦ let t : tally ((dev == d) && (blockno == n)) ≡ 0 = rw other refl in omega arith
    ]
