-- ===== src/FileSystem/Table/Unique.antt =====
-- kernel/fs.c: iget, and the entries that an inode has in the table.
use csse332_project.Base.{
  ℕ, zero, suc, ◌+◌, ◌^◌, ◌≤◌, ◌<◌, ◌≡◌, ◌≢◌, refl, sym, ap, subst, ◌∙◌, ◌⊎◌, inl, inr, Bool, true,
  false, ◌&&◌, Option, none, some, List, [], ◌∷◌, ◌==◌, if◌then◌else◌, All, get_elem?, Outcome, ok,
  panic, arith, Bool-cases, ==→eq, ==→ne,
}
use csse332_project.FileSystem.{Inode}
use csse332_project.FileSystem.Table.{
  Slot, cached, empty, full, remember, iget_scan, is_for, is_held, add_ref, recycled, modify, iget,
}

abbrev tally : Bool → ℕ
tally b = if b then 1 else 0

-- The entries in use for an inode.
unfoldable pub entries : (d n : ℕ) → List Inode → ℕ
entries d n [] = 0
entries d n (ip ∷ ips) = tally (is_for d n ip) + entries d n ips

entries-modify :
    (d n k : ℕ) (f : Inode → Inode) (ips : List Inode) (ip : Inode)
    → get_elem? ips k ≡ some ip
    → entries d n (modify k f ips) + tally (is_for d n ip)
      ≡ entries d n ips + tally (is_for d n (f ip))
unfolding entries modify
entries-modify d n k f [] ip h = cc
entries-modify d n zero f (jp ∷ ips) ip h = let e : jp ≡ ip = cc in rw e (omega arith)
entries-modify d n (suc k) f (jp ∷ ips) ip h = omega (arith, entries-modify d n k f ips ip h)

get_elem?-modify :
    (k : ℕ) (f : Inode → Inode) (ips : List Inode) (ip : Inode)
    → get_elem? ips k ≡ some ip
    → get_elem? (modify k f ips) k ≡ some (f ip)
unfolding modify
get_elem?-modify k f [] ip h = cc
get_elem?-modify zero f (jp ∷ ips) ip h = let e : jp ≡ ip = cc in rw e refl
get_elem?-modify (suc k) f (jp ∷ ips) ip h = get_elem?-modify k f ips ip h

-- What the scan from entry `i` on finds, with the free entry `first` remembered.
pub Finds : (dev inum i : ℕ) → Option ℕ → List Inode → Slot → Type 0
Finds dev inum i first ips (cached j) =
    (k : ℕ) × (ip : Inode) × (j ≡ i + k) × (get_elem? ips k ≡ some ip) × (is_for dev inum ip ≡ true)
Finds dev inum i first ips (empty j) =
    (entries dev inum ips ≡ 0)
    × ((first ≡ some j)
        ⊎ ((k : ℕ) × (ip : Inode) × (j ≡ i + k) × (get_elem? ips k ≡ some ip) × (ip.ref ≡ 0)))
Finds dev inum i first ips full =
    (first ≡ none) × All (λ ip. ip.ref ≢ 0) ips × (entries dev inum ips ≡ 0)

-- The remembered entry is an old one or this one.
remember_cases :
    (first : Option ℕ) (i j : ℕ) (ip : Inode)
    → remember first i ip ≡ some j
    → (first ≡ some j) ⊎ ((j ≡ i) × (ip.ref ≡ 0))
remember_cases none i j ip h = elim (Bool-cases (ip.ref == 0)) [
  | inl z ↦ inr (ground arith, ==→eq ip.ref 0 z)
  | inr nz ↦ absurd (ground arith)
]
remember_cases (some e) i j ip h = inl h

remember-none :
    (first : Option ℕ) (i : ℕ) (ip : Inode)
    → remember first i ip ≡ none
    → (first ≡ none) × (ip.ref ≢ 0)
remember-none none i ip h = elim (Bool-cases (ip.ref == 0)) [
  | inl z ↦ absurd (ground arith)
  | inr nz ↦ (refl, ==→ne ip.ref 0 nz)
]
remember-none (some e) i ip h = cc

Finds-behind :
    (dev inum i : ℕ) (first : Option ℕ) (ip : Inode) (ips : List Inode) (s : Slot)
    → is_for dev inum ip ≡ false
    → Finds dev inum (i + 1) (remember first i ip) ips s
    → Finds dev inum i first (ip ∷ ips) s
unfolding Finds entries
Finds-behind dev inum i first ip ips (cached j) miss (k, jp, e, g, h) =
    (suc k, jp, omega arith, g, h)
Finds-behind dev inum i first ip ips (empty j) miss (z, inl r) = (
  ground arith,
  elim (remember_cases first i j ip r) [
    | inl old ↦ inl old
    | inr (e, free) ↦ inr (zero, ip, omega arith, refl, free)
  ],
)
Finds-behind dev inum i first ip ips (empty j) miss (z, inr (k, jp, e, g, free)) =
    (ground arith, inr (suc k, jp, omega arith, g, free))
Finds-behind dev inum i first ip ips full miss (f, a, z) =
    let r : (first ≡ none) × (ip.ref ≢ 0) = remember-none first i ip f in
    (r.0, (r.1, a), ground arith)

iget_scan-Finds :
    (dev inum i : ℕ) (first : Option ℕ) (ips : List Inode)
    → Finds dev inum i first ips (iget_scan dev inum i first ips)
unfolding iget_scan Finds entries
iget_scan-Finds dev inum i none [] = (refl, tt, refl)
iget_scan-Finds dev inum i (some e) [] = (refl, inl refl)
iget_scan-Finds dev inum i first (ip ∷ ips) = elim (Bool-cases (is_for dev inum ip)) [
  | inl hit ↦ rw hit (zero, ip, omega arith, refl, hit)
  | inr miss ↦ rw miss (
      Finds-behind dev inum i first ip ips (iget_scan dev inum (i + 1) (remember first i ip) ips)
        miss (iget_scan-Finds dev inum (i + 1) (remember first i ip) ips))
]

-- The reference count has room for one more.
pub record IsSmall (ip : Inode) : Type 0 where
  pub small : ip.ref + 1 < 2 ^ 31

All-at :
    (ips : List Inode) (k : ℕ) (ip : Inode)
    → All IsSmall ips
    → get_elem? ips k ≡ some ip
    → IsSmall ip
All-at [] k ip a h = cc
All-at (jp ∷ ips) zero ip a h = let e : jp ≡ ip = cc in subst IsSmall e a.0
All-at (jp ∷ ips) (suc k) ip a h = All-at ips k ip a.1 h

is_for-add_ref :
    (d n : ℕ) (ip : Inode)
    → IsSmall ip
    → is_held ip ≡ true
    → is_for d n (add_ref ip) ≡ is_for d n ip
is_for-add_ref d n ip s h =
    let up : is_held (add_ref ip) ≡ true = ground (arith, s.small) in rw (up, h) refl

is_for-recycled :
    (dev inum d n : ℕ) (ip : Inode)
    → is_for d n (recycled dev inum ip) ≡ ((dev == d) && (inum == n))
is_for-recycled dev inum d n ip = refl

free_entry : (d n : ℕ) (ip : Inode) → ip.ref ≡ 0 → is_for d n ip ≡ false
free_entry d n ip z = ground arith

-- The reference that is counted: one more of an entry in use for the inode, or the first of a free one,
-- with no entry in use for the inode, which has still to be read.
pub record Counts (dev inum : ℕ) (ips : List Inode) (i : ℕ) (ip : Inode) : Type 0 where
  pub old : Inode
  pub at_i : get_elem? ips i ≡ some old
  pub counted :
      ((is_for dev inum old ≡ true) × (ip ≡ record old { ref = old.ref + 1 }))
      ⊎ ((old.ref ≡ 0)
          × (entries dev inum ips ≡ 0)
          × (ip ≡ record old { dev = dev; inum = inum; ref = 1; valid = false }))

-- What iget may return, seen at the inode `n` of device `d`.
abbrev pub Gets : (dev inum d n : ℕ) → List Inode → Outcome (List Inode × ℕ) → Type 0
Gets dev inum d n ips out =
    ((out ≡ panic "iget: no inodes") × All (λ ip. ip.ref ≢ 0) ips × (entries dev inum ips ≡ 0))
    ⊎ ((ips' : List Inode) × (i : ℕ) × (ip : Inode) × (out ≡ ok (ips', i))
        × (get_elem? ips' i ≡ some ip)
        × (is_for dev inum ip ≡ true)
        × (entries d n ips' ≤ 1)
        × (entries d n ips ≤ entries d n ips')
        × Counts dev inum ips i ip)

abbrev pick : (dev inum : ℕ) → List Inode → Slot → Outcome (List Inode × ℕ)
pick dev inum ips s = elim s [
  | cached i ↦ ok (modify i add_ref ips, i)
  | empty i ↦ ok (modify i (recycled dev inum) ips, i)
  | full ↦ panic "iget: no inodes"
]

same_inode :
    (dev inum d n : ℕ) (ips : List Inode)
    → ((dev == d) && (inum == n)) ≡ true
    → entries dev inum ips ≡ 0
    → entries d n ips ≡ 0
same_inode dev inum d n ips same z =
    let e : dev ≡ d = ground arith in
    let f : inum ≡ n = ground arith in
    ap (λ a. entries a n ips) (sym e) ∙ ap (λ b. entries dev b ips) (sym f) ∙ z

pick-Gets :
    (dev inum d n : ℕ) (ips : List Inode) (s : Slot)
    → All IsSmall ips
    → entries d n ips ≤ 1
    → Finds dev inum 0 none ips s
    → Gets dev inum d n ips (pick dev inum ips s)
unfolding Finds
pick-Gets dev inum d n ips (cached j) a one (k, ip, e, g, h) =
    let here : get_elem? ips j ≡ some ip = ap (get_elem? ips) (omega (arith, e)) ∙ g in
    let small : IsSmall ip = All-at ips j ip a here in
    let held : is_held ip ≡ true = ground arith in
    let same : entries d n (modify j add_ref ips) + tally (is_for d n ip)
        ≡ entries d n ips + tally (is_for d n (add_ref ip)) =
      entries-modify d n j add_ref ips ip here in
    let equal : is_for d n (add_ref ip) ≡ is_for d n ip = is_for-add_ref d n ip small held in
    let count : entries d n (modify j add_ref ips) ≡ entries d n ips =
      omega (arith, same, ap tally equal) in
    inr (
      modify j add_ref ips,
      j,
      add_ref ip,
      refl,
      get_elem?-modify j add_ref ips ip here,
      is_for-add_ref dev inum ip small held ∙ h,
      omega (arith, count),
      omega (arith, count),
      record {
        old = ip;
        at_i = here;
        counted = inl (h, ap (λ (r : ℕ). record ip { ref = r }) (omega (arith, small.small)));
      },
    )
pick-Gets dev inum d n ips (empty j) a one (z, inl no_first) = cc
pick-Gets dev inum d n ips (empty j) a one (z, inr (k, ip, e, g, free)) =
    let here : get_elem? ips j ≡ some ip = ap (get_elem? ips) (omega (arith, e)) ∙ g in
    let change : entries d n (modify j (recycled dev inum) ips) + tally (is_for d n ip)
        ≡ entries d n ips + tally (is_for d n (recycled dev inum ip)) =
      entries-modify d n j (recycled dev inum) ips ip here in
    let unused : is_for d n ip ≡ false = free_entry d n ip free in
    inr (
      modify j (recycled dev inum) ips,
      j,
      recycled dev inum ip,
      refl,
      get_elem?-modify j (recycled dev inum) ips ip here,
      ground arith,
      elim (Bool-cases ((dev == d) && (inum == n))) [
        | inl same ↦
            let absent : entries d n ips ≡ 0 = same_inode dev inum d n ips same z in
            ground (arith, change)
        | inr other ↦ ground (arith, change)
      ],
      ground (arith, change),
      record { old = ip; at_i = here; counted = inr (free, z, refl) },
    )
pick-Gets dev inum d n ips full a one (f, busy, z) = inl (refl, busy, z)

-- With counts that have room: iget panics only where every entry is in use, none of them for the
-- inode. Else it returns an entry in use for the inode, with one reference more, or one that was
-- free, with its first reference and to be read from the disk; no inode that had at most one entry
-- in use has two, and none that had one loses it.
pub iget-Gets :
    (dev inum d n : ℕ) (ips : List Inode)
    → All IsSmall ips
    → entries d n ips ≤ 1
    → Gets dev inum d n ips (iget dev inum ips)
unfolding iget
iget-Gets dev inum d n ips a one =
    pick-Gets dev inum d n ips (iget_scan dev inum 0 none ips) a one
      (iget_scan-Finds dev inum 0 none ips)
