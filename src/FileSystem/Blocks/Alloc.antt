-- ===== src/FileSystem/Blocks/Alloc.antt =====
-- kernel/fs.c: what balloc and bfree do to the bitmap and to the blocks.
use csse332_project.Base.{
  ℕ, zero, suc, ◌+◌, ◌-◌, ◌*◌, ◌/◌, ◌%◌, ◌^◌, min, ◌≤◌, ◌<◌, ◌≡◌, refl, sym, ap, ◌∙◌, subst, ◌⊎◌,
  inl, inr, true, false, none, some, ◌==◌, dec_lt, if◌then◌else◌, update_ne, ok, panic, arith,
  Bool-cases, Option-cases, ==→eq, ==→ne, ne→==, ==_self,
}
use csse332_project.FileSystem.{Block, Superblock, Fs, log_block}
use csse332_project.FileSystem.Blocks.{
  is_marked, mark, unmark, find_free, bzero, bitmap_block, taken, balloc_loop, balloc, bfree,
  is_used, bits_per_block,
}
use csse332_project.FileSystem.Blocks.Bits.{is_marked-mark, is_marked-unmark}

-- The bits from `lo` up to `hi` are set.
pub record AllMarked (bytes : Block) (lo hi : ℕ) : Type 0 where
  pub marked : (c : ℕ) → lo ≤ c → c < hi → is_marked bytes c ≡ true

find_free-none :
    (rounds bi : ℕ) (bytes : Block)
    → find_free rounds bi bytes ≡ none
    → AllMarked bytes bi (bi + rounds)
unfolding find_free
find_free-none zero bi bytes h = record { marked = λ c lo hi. absurd (omega arith) }
find_free-none (suc n) bi bytes h = elim (Bool-cases (is_marked bytes bi)) [
  | inl set ↦
      let rest : AllMarked bytes (bi + 1) (bi + 1 + n) =
        find_free-none n (bi + 1) bytes (ground arith) in
      record {
        marked = λ c lo hi. elim (Bool-cases (bi == c)) [
          | inl same ↦ subst (λ i. is_marked bytes i ≡ true) (==→eq bi c same) set
          | inr other ↦ rest.marked c (omega (arith, ==→ne bi c other)) (omega arith)
        ];
      }
  | inr clear ↦ absurd (ground arith)
]

find_free-some :
    (rounds bi r : ℕ) (bytes : Block)
    → find_free rounds bi bytes ≡ some r
    → (bi ≤ r) × (r < bi + rounds) × (is_marked bytes r ≡ false) × AllMarked bytes bi r
unfolding find_free
find_free-some zero bi r bytes h = cc
find_free-some (suc n) bi r bytes h = elim (Bool-cases (is_marked bytes bi)) [
  | inl set ↦
      let rest : (bi + 1 ≤ r)
          × (r < bi + 1 + n)
          × (is_marked bytes r ≡ false)
          × AllMarked bytes (bi + 1) r =
        find_free-some n (bi + 1) r bytes (ground arith) in
      (
        omega (arith, rest.0),
        omega (arith, rest.1),
        rest.2,
        record {
          marked = λ c lo hi. elim (Bool-cases (bi == c)) [
            | inl same ↦ subst (λ i. is_marked bytes i ≡ true) (==→eq bi c same) set
            | inr other ↦ rest.3.marked c (omega (arith, ==→ne bi c other)) hi
          ];
        },
      )
  | inr clear ↦
      let e : bi ≡ r = ground arith in
      (
        omega arith,
        omega arith,
        subst (λ i. is_marked bytes i ≡ false) e clear,
        record { marked = λ c lo hi. absurd (omega arith) },
      )
]

module _ (sb : Superblock) where
  pub record AllUsed (fs : Fs) (lo hi : ℕ) : Type 0 where
    pub used : (c : ℕ) → lo ≤ c → c < hi → is_used sb fs c ≡ true

  -- The file system once balloc has handed out block `r`.
  abbrev pub claimed : ℕ → Fs → Fs
  claimed r fs =
      bzero r
        (log_block (bitmap_block sb r) (mark (fs.disk (bitmap_block sb r)) (r % bits_per_block)) fs)

  -- What balloc does from block `b` on.
  pub IsAlloc : Fs → (b : ℕ) → Fs × ℕ → Type 0
  IsAlloc fs b out =
      ((out ≡ (fs, 0)) × AllUsed fs b sb.size)
      ⊎ ((b ≤ out.1)
          × (out.1 < sb.size)
          × (is_used sb fs out.1 ≡ false)
          × AllUsed fs b out.1
          × (out.0 ≡ claimed out.1 fs))

  -- The bits of one bitmap block are the blocks from `b` on.
  used_of_marked :
      (fs : Fs) (b n : ℕ)
      → b % bits_per_block ≡ 0
      → n ≤ bits_per_block
      → AllMarked (fs.disk (bitmap_block sb b)) 0 n
      → AllUsed fs b (b + n)
  used_of_marked fs b n al le h = record {
    used = λ c lo hi.
        let e : c / bits_per_block ≡ b / bits_per_block = omega arith in
        let d : c % bits_per_block ≡ c - b = omega arith in
        rw (e, d) (h.marked (c - b) (omega arith) (omega arith));
  }

  join_used : (fs : Fs) (lo mid hi : ℕ) → AllUsed fs lo mid → AllUsed fs mid hi → AllUsed fs lo hi
  join_used fs lo mid hi l h = record {
    used = λ c p q. elim (dec_lt c mid) [
      | yes below ↦ l.used c p below
      | no above ↦ h.used c (omega arith) q
    ];
  }

  -- A find behind a full bitmap block.
  IsAlloc-behind :
      (fs : Fs) (b : ℕ) (out : Fs × ℕ)
      → AllUsed fs b (b + min bits_per_block (sb.size - b))
      → IsAlloc fs (b + bits_per_block) out
      → IsAlloc fs b out
  unfolding IsAlloc
  IsAlloc-behind fs b out l (inl (e, h)) = inl (
    e,
    record {
      used = λ c p q. elim (dec_lt c (b + min bits_per_block (sb.size - b))) [
        | yes below ↦ l.used c p below
        | no above ↦ h.used c (omega arith) q
      ];
    },
  )
  IsAlloc-behind fs b out l (inr (lo, hi, free, h, e)) = inr (
    omega arith,
    hi,
    free,
    record {
      used = λ c p q. elim (dec_lt c (b + min bits_per_block (sb.size - b))) [
        | yes below ↦ l.used c p below
        | no above ↦ h.used c (omega arith) q
      ];
    },
    e,
  )

  IsAlloc-end : (fs : Fs) (b : ℕ) → sb.size ≤ b → IsAlloc fs b (fs, 0)
  unfolding IsAlloc
  IsAlloc-end fs b h = inl (refl, record { used = λ c p q. absurd (omega arith) })

  IsAlloc-here :
      (fs : Fs) (b bi : ℕ)
      → b % bits_per_block ≡ 0
      → bi < min bits_per_block (sb.size - b)
      → is_marked (fs.disk (bitmap_block sb b)) bi ≡ false
      → AllMarked (fs.disk (bitmap_block sb b)) 0 bi
      → IsAlloc fs b (taken sb b bi fs, b + bi)
  unfolding IsAlloc
  IsAlloc-here fs b bi al lt free h =
      let e : (b + bi) / bits_per_block ≡ b / bits_per_block = omega arith in
      let d : (b + bi) % bits_per_block ≡ bi = omega arith in
      inr (
        omega arith,
        omega arith,
        rw (e, d) free,
        used_of_marked fs b bi al (omega arith) h,
        rw (e, d) refl,
      )

  balloc_loop-IsAlloc :
      (rounds b : ℕ) (fs : Fs)
      → b % bits_per_block ≡ 0
      → sb.size ≤ b + rounds * bits_per_block
      → IsAlloc fs b (balloc_loop sb rounds b fs)
  unfolding balloc_loop
  balloc_loop-IsAlloc zero b fs al h = IsAlloc-end fs b (omega arith)
  balloc_loop-IsAlloc (suc n) b fs al h =
      elim (Option-cases
        (find_free (min bits_per_block (sb.size - b)) 0 (fs.disk (bitmap_block sb b)))) [
          | inl full ↦
              rw (full, balloc_loop)
                (IsAlloc-behind fs b (balloc_loop sb n (b + bits_per_block) fs)
                  (used_of_marked fs b (min bits_per_block (sb.size - b)) al (omega arith) (
                    let z : 0 + min bits_per_block (sb.size - b)
                        ≡ min bits_per_block (sb.size - b) =
                      omega arith in
                    subst (AllMarked (fs.disk (bitmap_block sb b)) 0) z (
                      find_free-none (min bits_per_block (sb.size - b)) 0
                        (fs.disk (bitmap_block sb b)) full)))
                  (balloc_loop-IsAlloc n (b + bits_per_block) fs (omega arith) (omega arith)))
          | inr (bi, e) ↦
              let f : (0 ≤ bi)
                  × (bi < 0 + min bits_per_block (sb.size - b))
                  × (is_marked (fs.disk (bitmap_block sb b)) bi ≡ false)
                  × AllMarked (fs.disk (bitmap_block sb b)) 0 bi =
                find_free-some (min bits_per_block (sb.size - b)) 0 bi (fs.disk (bitmap_block sb b))
                  e in
              rw (e, balloc_loop) (IsAlloc-here fs b bi al (omega (arith, f.1)) f.2 f.3)
        ]

  -- The first block behind the bitmap.
  abbrev pub data_start : ℕ
  data_start = sb.bmapstart + (sb.size + bits_per_block - 1) / bits_per_block

  -- mkfs marks every block up to the end of the bitmap.
  pub record IsLaidOut (fs : Fs) : Type 0 where
    pub reserved : AllUsed fs 0 data_start
    pub nonempty : 0 < sb.size
    pub fits : sb.size < 2 ^ 32

  pub claimed_used :
      (fs : Fs) (r c : ℕ)
      → data_start ≤ r
      → c < sb.size
      → is_used sb (claimed r fs) c ≡ (if r == c then true else is_used sb fs c)
  unfolding bzero
  claimed_used fs r c lo hi = elim (Bool-cases (bitmap_block sb r == bitmap_block sb c)) [
    | inl same ↦
        rw (ne→== r (bitmap_block sb c) (omega arith), same)
          (ground (
            arith,
            is_marked-mark (fs.disk (bitmap_block sb r)) (r % bits_per_block) (c % bits_per_block),
            ap fs.disk (==→eq (bitmap_block sb r) (bitmap_block sb c) same),
          ))
    | inr other ↦
        rw (ne→== r (bitmap_block sb c) (omega arith), other)
          (ground (arith, ==→ne (bitmap_block sb r) (bitmap_block sb c) other))
  ]

  -- What balloc may return, seen at a block `c`.
  abbrev pub Allocates : Fs → (c : ℕ) → Fs × ℕ → Type 0
  Allocates fs c out =
      ((out ≡ (fs, 0)) × AllUsed fs 0 sb.size)
      ⊎ ((data_start ≤ out.1)
          × (out.1 < sb.size)
          × (is_used sb fs out.1 ≡ false)
          × AllUsed fs 0 out.1
          × (is_used sb (out.0) c ≡ (if out.1 == c then true else is_used sb fs c))
          × ((out.0).disk out.1 ≡ (λ i. 0))
          × ((c ≡ out.1) ⊎ (c ≡ bitmap_block sb out.1) ⊎ ((out.0).disk c ≡ fs.disk c)))

  claimed_elsewhere :
      (fs : Fs) (r c : ℕ) → (c ≡ r) ⊎ (c ≡ bitmap_block sb r) ⊎ ((claimed r fs).disk c ≡ fs.disk c)
  unfolding bzero
  claimed_elsewhere fs r c = elim (Bool-cases (r == c)) [
    | inl same ↦ inl (sym (==→eq r c same))
    | inr other ↦ inr (elim (Bool-cases (bitmap_block sb r == c)) [
      | inl bits ↦ inl (sym (==→eq (bitmap_block sb r) c bits))
      | inr away ↦ inr (rw (other, away) refl)
    ])
  ]

  claimed_zero : (fs : Fs) (r : ℕ) → (claimed r fs).disk r ≡ (λ i. 0)
  unfolding bzero
  claimed_zero fs r = rw (==_self r) refl

  Allocates-of :
      (fs : Fs) (c : ℕ) (out : Fs × ℕ)
      → IsLaidOut fs
      → c < sb.size
      → IsAlloc fs 0 out
      → Allocates fs c out
  unfolding IsAlloc
  Allocates-of fs c out laid small (inl h) = inl h
  Allocates-of fs c out laid small (inr (lo, hi, free, below, e)) =
      let behind : data_start ≤ out.1 = elim (dec_lt out.1 data_start) [
        | yes inside ↦
            let u : is_used sb fs out.1 ≡ true = laid.reserved.used out.1 (omega arith) inside in
            absurd (ground arith)
        | no outside ↦ omega arith
      ] in
      inr (
        behind,
        hi,
        free,
        below,
        ap (λ f. is_used sb f c) e ∙ claimed_used fs out.1 c behind small,
        ap (λ f. f.disk out.1) e ∙ claimed_zero fs out.1,
        (elim (claimed_elsewhere fs out.1 c) [
          | inl here ↦ inl here
          | inr (inl bits) ↦ inr (inl bits)
          | inr (inr same) ↦ inr (inr (ap (λ f. f.disk c) e ∙ same))
        ]),
      )

  -- On a disk that is laid out, balloc reports 0 and changes nothing only if every block is used. Else
  -- it hands out the first block that is not, behind the bitmap, marks it and no other, fills it with
  -- zeros, and changes no block but it and the block of its bit.
  pub balloc-Allocates :
      (fs : Fs) (c : ℕ) → IsLaidOut fs → c < sb.size → Allocates fs c (balloc sb fs)
  unfolding balloc
  balloc-Allocates fs c laid small = Allocates-of fs c (balloc sb fs) laid small (
      balloc_loop-IsAlloc ((sb.size + bits_per_block - 1) / bits_per_block) 0 fs refl (omega arith))

  -- bfree panics on a block that is free, and else clears its bit and no other, and changes no block
  -- but that of the bit.
  pub bfree_lem :
      (fs : Fs) (b c : ℕ)
      → ((is_used sb fs b ≡ false) × (bfree sb b fs ≡ panic "freeing free block"))
        ⊎ ((is_used sb fs b ≡ true)
            × ((fs' : Fs) × (bfree sb b fs ≡ ok fs')
                × (is_used sb fs' c ≡ (if b == c then false else is_used sb fs c))
                × ((c ≡ bitmap_block sb b) ⊎ (fs'.disk c ≡ fs.disk c))))
  unfolding bfree
  bfree_lem fs b c = elim (Bool-cases (is_used sb fs b)) [
    | inr free ↦ inl (free, rw free refl)
    | inl used ↦ inr (used, (released, rw used refl, cleared, elsewhere))
  ]
    where
      released : Fs
      released =
          log_block (bitmap_block sb b) (unmark (fs.disk (bitmap_block sb b)) (b % bits_per_block))
            fs

      cleared : is_used sb released c ≡ (if b == c then false else is_used sb fs c)
      cleared = elim (Bool-cases (bitmap_block sb b == bitmap_block sb c)) [
        | inl same ↦ rw same (
            ground (
              arith,
              is_marked-unmark (fs.disk (bitmap_block sb b)) (b % bits_per_block)
                  (c % bits_per_block),
              ap fs.disk (==→eq (bitmap_block sb b) (bitmap_block sb c) same),
            ))
        | inr other ↦ rw other (ground (arith, ==→ne (bitmap_block sb b) (bitmap_block sb c) other))
      ]

      elsewhere : (c ≡ bitmap_block sb b) ⊎ (released.disk c ≡ fs.disk c)
      elsewhere = elim (Bool-cases (bitmap_block sb b == c)) [
        | inl same ↦ inl (sym (==→eq (bitmap_block sb b) c same))
        | inr other ↦ inr (
            update_ne fs.disk (bitmap_block sb b) c
              (unmark (fs.disk (bitmap_block sb b)) (b % bits_per_block))
              (==→ne (bitmap_block sb b) c other))
      ]
