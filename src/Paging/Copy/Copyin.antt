-- ===== src/Paging/Copy/Copyin.antt =====
-- copyin, page by page.
use csse332_project.Base.{
  ℕ, zero, suc, ◌+◌, ◌-◌, ◌%◌, ◌≤◌, ◌<◌, ◌≡◌, ◌≢◌, ◌⊎◌, refl, sym, ap, subst, ◌∙◌, Bool, true,
  false, ◌==◌, ltb, if◌then◌else◌, ok, arith, Bool-cases, ==→eq, ==→ne, inl, inr, dec_lt, ltb→lt,
  ltb→ge,
}
use csse332_project.Strings.{Memory, memmove}
use csse332_project.Strings.Moves.{within, memmove-within}
use csse332_project.Pages.{page_size}
use csse332_project.Paging.{Vm, round_down}
use csse332_project.Paging.Walk.{walkaddr}
use csse332_project.Paging.Walk.Lookup.{with_memory, walkaddr-with_memory}
use csse332_project.Paging.Copy.{in_page, copyin_loop, copyin}

module _ (root : ℕ) (vm : Vm) where
  -- The page frame of a user address, 0 if it has none.
  abbrev pub frame_of : (va : ℕ) → ℕ
  frame_of va = walkaddr root (round_down va) vm

  -- The physical address of a user address.
  abbrev pub physical : (va : ℕ) → ℕ
  physical va = frame_of va + va % page_size

  -- No byte of the destination is one that the mapped part of the source range has.
  pub record IsApart (dst srcva len : ℕ) : Type 0 where
    pub apart :
        (i j : ℕ) → i < len → j < len → frame_of (srcva + i) ≢ 0 → physical (srcva + i) ≢ dst + j

  -- What copyin leaves of memory, with its result.
  pub record IsCopied (dst srcva len : ℕ) (mem mem' : Memory) (done : Bool) : Type 0 where
    pub mapped : done ≡ true → (i : ℕ) → i < len → frame_of (srcva + i) ≢ 0
    pub failed : done ≡ false → (i : ℕ) × (i < len) × (frame_of (srcva + i) ≡ 0)
    pub copied :
        done ≡ true
        → (a : ℕ)
        → mem' a ≡ (if within dst len a then mem (physical (srcva + (a - dst))) else mem a)
    pub kept : (a : ℕ) → within dst len a ≡ false → mem' a ≡ mem a

  in_page_bounds :
      (va len : ℕ)
      → (in_page va len ≤ len)
        × (va % page_size + in_page va len ≤ page_size)
        × (0 < len → 0 < in_page va len)
  in_page_bounds va len = elim (Bool-cases (ltb len (page_size - (va - round_down va)))) [
    | inl short ↦
        let lt : len < page_size - (va - round_down va) =
          ltb→lt len (page_size - (va - round_down va)) short in
        rw short (omega arith, omega arith, λ h. h)
    | inr long ↦
        let ge : page_size - (va - round_down va) ≤ len =
          ltb→ge len (page_size - (va - round_down va)) long in
        rw long (ge, omega arith, λ h. omega arith)
  ]

  in_page_end :
      (va len : ℕ) → (len - in_page va len ≡ 0) ⊎ (round_down va + page_size ≡ va + in_page va len)
  in_page_end va len = elim (Bool-cases (ltb len (page_size - (va - round_down va)))) [
    | inl short ↦ inl (rw short (omega arith))
    | inr long ↦ inr (rw long (omega arith))
  ]

  same_page :
      (va n i : ℕ) → va % page_size + n ≤ page_size → i < n → round_down (va + i) ≡ round_down va
  same_page va n i le lt = omega arith

  same_offset :
      (va n i : ℕ)
      → va % page_size + n ≤ page_size
      → i < n
      → (va + i) % page_size ≡ va - round_down va + i
  same_offset va n i le lt = omega arith

  -- The memory after one round.
  abbrev round_memory : (dst srcva n : ℕ) → Memory → Memory
  round_memory dst srcva n mem =
      memmove dst (walkaddr root (round_down srcva) vm + (srcva - round_down srcva)) n mem

  round_copies :
      (dst srcva n a : ℕ) (mem : Memory)
      → srcva % page_size + n ≤ page_size
      → round_memory dst srcva n mem a
        ≡ (if within dst n a then mem (physical (srcva + (a - dst))) else mem a)
  round_copies dst srcva n a mem le = elim (Bool-cases (within dst n a)) [
    | inr out ↦ (memmove-within dst p n mem a).0 ∙ rw out refl
    | inl inside ↦ (memmove-within dst p n mem a).0 ∙ rw inside (ap mem (here (ground arith)))
  ]
    where
      p : ℕ
      p = walkaddr root (round_down srcva) vm + (srcva - round_down srcva)

      here : a - dst < n → p + (a - dst) ≡ physical (srcva + (a - dst))
      here lt =
          let e : round_down (srcva + (a - dst)) ≡ round_down srcva =
            same_page srcva n (a - dst) le lt in
          let o : (srcva + (a - dst)) % page_size ≡ srcva - round_down srcva + (a - dst) =
            same_offset srcva n (a - dst) le lt in
          rw (e, o) (omega arith)

  -- With the rest of the range copied behind one round.
  copied_next :
      (dst srcva n len a : ℕ) (mem mem' : Memory)
      → n ≤ len
      → srcva % page_size + n ≤ page_size
      → IsApart dst srcva len
      → ((i : ℕ) → i < len → frame_of (srcva + i) ≢ 0)
      → mem' a ≡ (
          if within (dst + n) (len - n) a
          then round_memory dst srcva n mem (physical (srcva + n + (a - (dst + n))))
          else round_memory dst srcva n mem a)
      → mem' a ≡ (if within dst len a then mem (physical (srcva + (a - dst))) else mem a)
  copied_next dst srcva n len a mem mem' lt le off mapped e = elim (dec_lt a (dst + n)) [
    | yes low ↦ e ∙ rw (before low) (round_copies dst srcva n a mem le ∙ ground arith)
    | no high ↦ elim (Bool-cases (within (dst + n) (len - n) a)) [
      | inr out ↦ e ∙ rw out (round_copies dst srcva n a mem le ∙ ground arith)
      | inl inside ↦
          let x : ℕ = srcva + (a - dst) in
          let lx : a - dst < len = ground arith in
          let far : within dst n (physical x) ≡ false = outside (a - dst) lx in
          let ex : srcva + n + (a - (dst + n)) ≡ x = omega arith in
          e
          ∙ rw (inside, ex)
              ((memmove-within dst
                  (walkaddr root (round_down srcva) vm + (srcva - round_down srcva)) n mem
                  (physical x)).0
                ∙ rw far (whole inside))
    ]
  ]
    where
      before : a < dst + n → within (dst + n) (len - n) a ≡ false
      before low = ground arith

      outside : (i : ℕ) → i < len → within dst n (physical (srcva + i)) ≡ false
      outside i li = elim (Bool-cases (within dst n (physical (srcva + i)))) [
        | inr out ↦ out
        | inl inside ↦ absurd (
            off.apart i (physical (srcva + i) - dst) li (ground arith) (mapped i li) (ground arith))
      ]

      whole :
          within (dst + n) (len - n) a ≡ true
          → mem (physical (srcva + (a - dst)))
            ≡ (if within dst len a then mem (physical (srcva + (a - dst))) else mem a)
      whole inside = ground arith

  -- Nothing is copied from where the range ends.
  from_end :
      (dst s s' len : ℕ) (mem mem' : Memory) (done : Bool)
      → (len ≡ 0) ⊎ (s ≡ s')
      → IsCopied dst s len mem mem' done
      → IsCopied dst s' len mem mem' done
  from_end dst s s' len mem mem' done (inr e) q = subst (λ t. IsCopied dst t len mem mem' done) e q
  from_end dst s s' len mem mem' done (inl z) q = record {
    mapped = λ d i l. absurd (omega arith);
    failed = λ d.
        let f : (i : ℕ) × (i < len) × (frame_of (s + i) ≡ 0) = q.failed d in
        absurd (omega (arith, z, f.1));
    copied =
        λ d a. let out : within dst len a ≡ false = ground (arith, z) in q.kept a out ∙ rw out refl;
    kept = q.kept;
  }

  IsCopied-next :
      (dst srcva n len : ℕ) (mem mem' : Memory) (done : Bool)
      → n ≤ len
      → srcva % page_size + n ≤ page_size
      → IsApart dst srcva len
      → walkaddr root (round_down srcva) vm ≢ 0
      → IsCopied (dst + n) (srcva + n) (len - n) (round_memory dst srcva n mem) mem' done
      → IsCopied dst srcva len mem mem' done
  IsCopied-next dst srcva n len mem mem' done lt le off nz q = record {
    mapped = mapped;
    failed = λ d.
        let f : (i : ℕ) × (i < len - n) × (frame_of (srcva + n + i) ≡ 0) = q.failed d in
        (n + f.0, omega (arith, f.1), ap frame_of (omega arith) ∙ f.2);
    copied = λ d a. copied_next dst srcva n len a mem mem' lt le off (mapped d) (q.copied d a);
    kept = λ a out. q.kept a (ground arith) ∙ round_copies dst srcva n a mem le ∙ ground arith;
  }
    where
      mapped : done ≡ true → (i : ℕ) → i < len → frame_of (srcva + i) ≢ 0
      mapped d i li = elim (dec_lt i n) [
        | yes low ↦ subst (λ p. walkaddr root p vm ≢ 0) (sym (same_page srcva n i le low)) nz
        | no high ↦ subst (λ s. frame_of s ≢ 0) (later high) (q.mapped d (i - n) (omega arith))
      ]
        where
          later : ¬ (i < n) → srcva + n + (i - n) ≡ srcva + i
          later high = omega arith

  IsApart-next :
      (dst srcva s n len : ℕ)
      → n ≤ len
      → (len - n ≡ 0) ⊎ (s ≡ srcva + n)
      → IsApart dst srcva len
      → IsApart (dst + n) s (len - n)
  IsApart-next dst srcva s n len le (inl z) off = record {
    apart = λ i j li lj. absurd (omega arith);
  }
  IsApart-next dst srcva s n len le (inr e) off = record {
    apart = λ i j li lj nz same.
        let x : s + i ≡ srcva + (n + i) = omega arith in
        off.apart (n + i) (n + j) (omega arith) (omega arith) (subst (λ t. frame_of t ≢ 0) x nz)
          (sym (ap physical x) ∙ same ∙ omega arith);
  }

  loop-IsCopied :
      (fuel dst srcva len : ℕ) (mem : Memory)
      → len < fuel
      → IsApart dst srcva len
      → (r : Memory × Bool) × (copyin_loop fuel root dst srcva len (with_memory mem vm)
          ≡ ok (with_memory r.0 vm, r.1))
        × IsCopied dst srcva len mem r.0 r.1
  unfolding copyin_loop
  loop-IsCopied zero dst srcva len mem lt off = absurd (omega arith)
  loop-IsCopied (suc fuel) dst srcva len mem lt off = elim (Bool-cases (len == 0)) [
    | inl stop ↦
        let z : len ≡ 0 = ==→eq len 0 stop in
        (
          (mem, true),
          rw stop refl,
          record {
            mapped = λ d i l. absurd (omega arith);
            failed = λ d. ground (arith, d);
            copied = λ d a. ground (arith, z);
            kept = λ a out. refl;
          },
        )
    | inr more ↦
        let pos : 0 < len = omega (arith, ==→ne len 0 more) in
        let n : ℕ = in_page srcva len in
        let b : (n ≤ len) × (srcva % page_size + n ≤ page_size) × (0 < len → 0 < n) =
          in_page_bounds srcva len in
        let we : walkaddr root (round_down srcva) (with_memory mem vm)
            ≡ walkaddr root (round_down srcva) vm =
          walkaddr-with_memory root (round_down srcva) mem vm in
        elim (Bool-cases (walkaddr root (round_down srcva) vm == 0)) [
          | inl z ↦ (
            (mem, false),
            rw (more, we, z) refl,
            record {
              mapped = λ d i l. ground (arith, d);
              failed = λ d. (
                0,
                pos,
                ap frame_of (omega arith) ∙ ==→eq (walkaddr root (round_down srcva) vm) 0 z,
              );
              copied = λ d a. ground (arith, d);
              kept = λ a out. refl;
            },
          )
          | inr nz ↦
              let s : ℕ = round_down srcva + page_size in
              let m1 : Memory = round_memory dst srcva n mem in
              let at_end : (len - n ≡ 0) ⊎ (s ≡ srcva + n) = in_page_end srcva len in
              let ih : (r : Memory × Bool) × (copyin_loop fuel root (dst + n) s (len - n)
                      (with_memory m1 vm)
                    ≡ ok (with_memory r.0 vm, r.1))
                  × IsCopied (dst + n) s (len - n) m1 r.0 r.1 =
                loop-IsCopied fuel (dst + n) s (len - n) m1 (omega (arith, b.2 pos, b.0))
                  (IsApart-next dst srcva s n len b.0 at_end off) in
              (
                ih.0,
                rw (more, we, nz) ih.1,
                IsCopied-next dst srcva n len mem (ih.0).0 (ih.0).1 b.0 b.1 off
                    (==→ne (walkaddr root (round_down srcva) vm) 0 nz)
                    (from_end (dst + n) s (srcva + n) (len - n) m1 (ih.0).0 (ih.0).1 at_end ih.2),
              )
        ]
  ]

  -- copyin from `srcva` to `dst`, where the destination is no part of the mapped source: with 0
  -- every page of the source range is mapped for the user, and the destination has its bytes in
  -- order, page by page from where the page table puts them; with -1 some page is not. Nothing
  -- outside of the destination changes, and copyin always returns.
  pub copyin-IsCopied :
      (dst srcva len : ℕ)
      → IsApart dst srcva len
      → (r : Memory × Bool) × (copyin root dst srcva len vm ≡ ok (with_memory r.0 vm, r.1))
        × IsCopied dst srcva len vm.memory r.0 r.1
  unfolding copyin
  copyin-IsCopied dst srcva len off =
      loop-IsCopied (suc len) dst srcva len vm.memory (omega arith) off
