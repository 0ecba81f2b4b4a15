-- ===== src/Strings/Moves.antt =====
-- `memset` and `memmove`, overlap included.
use csse332_project.Base.{
  ℕ, zero, suc, ◌+◌, ◌-◌, ◌%◌, ◌≤◌, ◌≡◌, ◌⊎◌, inl, inr, Bool, true, false, ◌&&◌, ltb, leb, ◌==◌,
  if◌then◌else◌, update, arith, subst, ltb→lt, ltb→ge, ==→eq, Bool-cases, dec_lt,
}
use csse332_project.Strings.{Memory, memset, memset_loop, memmove, user_memmove, copy_up, copy_down}

-- The address lies in the `n` bytes from `dst` on.
abbrev pub within : (dst n a : ℕ) → Bool
within dst n a = leb dst a && ltb a (dst + n)

memset_loop-within :
    (dst c rounds i : ℕ) (m : Memory) (a : ℕ)
    → memset_loop dst c rounds i m a ≡ (if within (dst + i) rounds a then c % 256 else m a)
unfolding memset_loop
memset_loop-within dst c zero i m a = ground arith
memset_loop-within dst c (suc rounds) i m a =
    ground (arith, memset_loop-within dst c rounds (i + 1) (update m (dst + i) (c % 256)) a)

-- Each later read is of a byte that has not been overwritten.
copy_up-within :
    (dst src rounds i : ℕ) (m : Memory) (a : ℕ)
    → (dst ≤ src) ⊎ (src + i + rounds ≤ dst + i)
    → copy_up dst src rounds i m a
      ≡ (if within (dst + i) rounds a then m (src + (a - dst)) else m a)
unfolding copy_up
copy_up-within dst src zero i m a h = ground arith
copy_up-within dst src (suc rounds) i m a h = ground (
  arith,
  copy_up-within dst src rounds (i + 1) (update m (dst + i) (m (src + i))) a (omega arith),
)

copy_down-within :
    (dst src rounds : ℕ) (m : Memory) (a : ℕ)
    → src ≤ dst
    → copy_down dst src rounds m a ≡ (if within dst rounds a then m (src + (a - dst)) else m a)
unfolding copy_down
copy_down-within dst src zero m a h = ground arith
copy_down-within dst src (suc rounds) m a h =
    ground (arith, copy_down-within dst src rounds (update m (dst + rounds) (m (src + rounds))) a h)

-- `memset` sets the `n` bytes from `dst` on to the low byte of `c`, and no other byte.
memset-within :
    (dst c n : ℕ) (m : Memory) (a : ℕ)
    → memset dst c n m a ≡ (if within dst n a then c % 256 else m a)
unfolding memset
memset-within dst c n m a = ground (arith, memset_loop-within dst c n 0 m a)

-- `memmove` copies: each of the `n` bytes from `dst` on is the byte that stood at its place from
-- `src` on before the call, also where the two ranges overlap, and no other byte changes. The
-- kernel's version and the user library's agree.
pub memmove-within :
    (dst src n : ℕ) (m : Memory) (a : ℕ)
    → (memmove dst src n m a ≡ (if within dst n a then m (src + (a - dst)) else m a))
      × (user_memmove dst src n m a ≡ (if within dst n a then m (src + (a - dst)) else m a))
unfolding memmove user_memmove
memmove-within dst src n m a = (kernel, user)
  where
    up :
        (dst ≤ src) ⊎ (src + n ≤ dst)
        → copy_up dst src n 0 m a ≡ (if within dst n a then m (src + (a - dst)) else m a)
    up h =
        let e : dst + 0 ≡ dst = omega arith in
        subst (λ d. copy_up dst src n 0 m a ≡ (if within d n a then m (src + (a - dst)) else m a)) e
          (copy_up-within dst src n 0 m a (omega arith))

    nothing : n ≡ 0 → m a ≡ (if within dst n a then m (src + (a - dst)) else m a)
    nothing h = ground arith

    apart : (ltb src dst && ltb dst (src + n)) ≡ false → (dst ≤ src) ⊎ (src + n ≤ dst)
    apart h = elim (dec_lt src dst) [ yes p ↦ inr (ground arith) | no p ↦ inl (omega arith) ]

    below : (ltb src dst && ltb dst (src + n)) ≡ true → src ≤ dst
    below h = ground arith

    kernel :
        (if n == 0
            then m
            else if ltb src dst && ltb dst (src + n)
            then copy_down dst src n m
            else copy_up dst src n 0 m)
          a
        ≡ (if within dst n a then m (src + (a - dst)) else m a)
    kernel = elim (Bool-cases (n == 0)) [
      | inl z ↦ rw z (nothing (==→eq n 0 z))
      | inr nz ↦ elim (Bool-cases (ltb src dst && ltb dst (src + n))) [
        | inl o ↦ rw (nz, o) (copy_down-within dst src n m a (below o))
        | inr o ↦ rw (nz, o) (up (apart o))
      ]
    ]

    user :
        (if ltb dst src then copy_up dst src n 0 m else copy_down dst src n m) a
        ≡ (if within dst n a then m (src + (a - dst)) else m a)
    user = elim (Bool-cases (ltb dst src)) [
      | inl o ↦ rw o (up (inl (omega (arith, ltb→lt dst src o))))
      | inr o ↦ rw o (copy_down-within dst src n m a (ltb→ge dst src o))
    ]
