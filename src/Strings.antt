-- ===== src/Strings.antt =====
-- kernel/string.c and the string functions of user/ulib.c, over a memory from addresses to bytes.
-- Addresses do not wrap. An `int` result is its 32-bit pattern; a count `n` that the source takes as
-- an `int` is 0 here where it is negative.
pub mod Moves
pub mod Copies
mod Tests
use csse332_project.Base.{
  ℕ, zero, suc, ◌+◌, ◌-◌, ◌*◌, ◌%◌, ◌^◌, Bool, true, false, not, ◌&&◌, Option, none, some, ltb, leb,
  ◌==◌, if◌then◌else◌, update, sub32, u32,
}

abbrev pub Memory : Type 0
Memory = ℕ → ℕ

-- A loop over `cdst[i] = c`, with `rounds` to go.
pub memset_loop : (dst c rounds i : ℕ) → Memory → Memory
memset_loop dst c zero i m = m
memset_loop dst c (suc rounds) i m = memset_loop dst c rounds (i + 1) (update m (dst + i) (c % 256))

pub memset : (dst c n : ℕ) → Memory → Memory
memset dst c n m = memset_loop dst c n 0 m

pub memcmp : (s1 s2 n : ℕ) → Memory → ℕ
memcmp s1 s2 zero m = 0
memcmp s1 s2 (suc n) m =
    let rest = memcmp (s1 + 1) (s2 + 1) n m in if m s1 == m s2 then rest else sub32 (m s1) (m s2)

-- `*d++ = *s++`, with `rounds` to go from offset `i` on.
pub copy_up : (dst src rounds i : ℕ) → Memory → Memory
copy_up dst src zero i m = m
copy_up dst src (suc rounds) i m = copy_up dst src rounds (i + 1) (update m (dst + i) (m (src + i)))

-- `*--d = *--s`, down to offset 0.
pub copy_down : (dst src rounds : ℕ) → Memory → Memory
copy_down dst src zero m = m
copy_down dst src (suc rounds) m =
    copy_down dst src rounds (update m (dst + rounds) (m (src + rounds)))

pub memmove : (dst src n : ℕ) → Memory → Memory
memmove dst src n m =
    if n == 0
    then m
    else if ltb src dst && ltb dst (src + n)
    then copy_down dst src n m
    else copy_up dst src n 0 m

-- user/ulib.c has its own.
pub user_memmove : (dst src n : ℕ) → Memory → Memory
user_memmove dst src n m = if ltb dst src then copy_up dst src n 0 m else copy_down dst src n m

pub strncmp : (p q n : ℕ) → Memory → ℕ
strncmp p q zero m = 0
strncmp p q (suc n) m =
    let rest = strncmp (p + 1) (q + 1) n m in
    if not (m p == 0) && (m p == m q) then rest else sub32 (m p) (m q)

-- The second loop of `strncpy`.
pub zero_fill : (s n : ℕ) → Memory → Memory
zero_fill s zero m = m
zero_fill s (suc n) m = zero_fill (s + 1) n (update m s 0)

pub strncpy : (s t n : ℕ) → Memory → Memory
strncpy s t zero m = m
strncpy s t (suc n) m =
    let m' = update m s (m t) in
    let rest = strncpy (s + 1) (t + 1) n m' in if m t == 0 then zero_fill (s + 1) n m' else rest

-- The loop of `safestrcpy`, which copies `n` bytes at most, and the final NUL.
pub safe_loop : (s t n : ℕ) → Memory → Memory
safe_loop s t zero m = update m s 0
safe_loop s t (suc n) m =
    let m' = update m s (m t) in
    let rest = safe_loop (s + 1) (t + 1) n m' in if m t == 0 then update m' (s + 1) 0 else rest

pub safestrcpy : (s t n : ℕ) → Memory → Memory
safestrcpy s t n m = if n == 0 then m else safe_loop s t (n - 1) m

-- The loops of `strlen`, `strchr`, `strcmp`, `strcpy` and `atoi` end at a NUL, and run on fuel.
pub strlen : (fuel s n : ℕ) → Memory → Option ℕ
strlen zero s n m = none
strlen (suc fuel) s n m =
    let rest = strlen fuel s (n + 1) m in if m (s + n) == 0 then some n else rest

-- The address of the first `c`; 0 if there is none.
pub strchr : (fuel s c : ℕ) → Memory → Option ℕ
strchr zero s c m = none
strchr (suc fuel) s c m =
    let rest = strchr fuel (s + 1) c m in
    if m s == 0 then some 0 else if m s == c then some s else rest

pub strcmp : (fuel p q : ℕ) → Memory → Option ℕ
strcmp zero p q m = none
strcmp (suc fuel) p q m =
    let rest = strcmp fuel (p + 1) (q + 1) m in
    if not (m p == 0) && (m p == m q) then rest else some (sub32 (m p) (m q))

pub strcpy : (fuel s t : ℕ) → Memory → Option Memory
strcpy zero s t m = none
strcpy (suc fuel) s t m =
    let rest = strcpy fuel (s + 1) (t + 1) (update m s (m t)) in
    if m t == 0 then some (update m s (m t)) else rest

abbrev pub is_digit : ℕ → Bool
is_digit c = leb b'0' c && leb c b'9'

-- The sum wraps at 32 bits.
pub atoi : (fuel s n : ℕ) → Memory → Option ℕ
atoi zero s n m = none
atoi (suc fuel) s n m =
    let rest = atoi fuel (s + 1) (u32 (n * 10 + m s - b'0')) m in
    if is_digit (m s) then rest else some n
