-- ===== src/Strings/Copies.antt =====
-- The copies of strings of kernel/string.c.
use csse332_project.Base.{
  ℕ, zero, suc, ◌+◌, ◌-◌, ◌≤◌, ◌<◌, ◌≡◌, sym, ap, ◌∙◌, ◌≢◌, ◌⊎◌, inl, inr, false, some, ◌==◌,
  update, update_self, update_ne, arith, Bool-cases, ne→==,
}
use csse332_project.Strings.{Memory, safe_loop, safestrcpy, strlen}

safe_loop_out : (s t n : ℕ) (m : Memory) (a : ℕ) → (a < s) ⊎ (s + n < a) → safe_loop s t n m a ≡ m a
unfolding safe_loop
safe_loop_out s t zero m a h = update_ne m s a 0 (omega arith)
safe_loop_out s t (suc n) m a h = elim (Bool-cases (m t == 0)) [
  | inl nul ↦
      rw nul (
        update_ne (update m s (m t)) (s + 1) a 0 (omega arith)
        ∙ update_ne m s a (m t) (omega arith))
  | inr more ↦ rw more (
      safe_loop_out (s + 1) (t + 1) n (update m s (m t)) a (omega arith)
      ∙ update_ne m s a (m t) (omega arith))
]

-- Where the string that is written ends.
safe_loop_ends : (s t n : ℕ) (m : Memory) → (j : ℕ) × (j ≤ n) × (safe_loop s t n m (s + j) ≡ 0)
unfolding safe_loop
safe_loop_ends s t zero m = (
  0,
  omega arith,
  (let e : s ≡ s + 0 = omega arith in ap (update m s 0) (sym e)) ∙ update_self m s 0,
)
safe_loop_ends s t (suc n) m = elim (Bool-cases (m t == 0)) [
  | inl nul ↦ (1, omega arith, rw nul (update_self (update m s (m t)) (s + 1) 0))
  | inr more ↦
      let r : (j : ℕ) × (j ≤ n) × (safe_loop (s + 1) (t + 1) n (update m s (m t)) (s + 1 + j) ≡ 0) =
        safe_loop_ends (s + 1) (t + 1) n (update m s (m t)) in
      let e : s + suc r.0 ≡ s + 1 + r.0 = omega arith in
      (
        suc r.0,
        omega (arith, r.1),
        rw more (ap (safe_loop (s + 1) (t + 1) n (update m s (m t))) e ∙ r.2),
      )
]

-- `safestrcpy` with room for `n` bytes, one at least, writes none outside them, whatever the source
-- holds, and leaves a NUL among them.
pub safestrcpy_bounds :
    (s t n : ℕ) (m : Memory) (a : ℕ)
    → 0 < n
    → (a < s) ⊎ (s + n ≤ a)
    → (safestrcpy s t n m a ≡ m a) × ((j : ℕ) × (j < n) × (safestrcpy s t n m (s + j) ≡ 0))
unfolding safestrcpy
safestrcpy_bounds s t n m a h out =
    let e : (n == 0) ≡ false = ne→== n 0 (omega arith) in
    let r : (j : ℕ) × (j ≤ n - 1) × (safe_loop s t (n - 1) m (s + j) ≡ 0) =
      safe_loop_ends s t (n - 1) m in
    (rw e (safe_loop_out s t (n - 1) m a (omega arith)), (r.0, omega (arith, r.1), rw e r.2))

strlen_from :
    (fuel s k n : ℕ) (m : Memory)
    → m (s + (k + n)) ≡ 0
    → ((j : ℕ) → n ≤ j → j < k + n → m (s + j) ≢ 0)
    → k < fuel
    → strlen fuel s n m ≡ some (k + n)
unfolding strlen
strlen_from zero s k n m z nz f = absurd (omega arith)
strlen_from (suc fuel) s zero n m z nz f =
    let e : 0 + n ≡ n = omega arith in
    let z' : m (s + n) ≡ 0 = ap (λ i. m (s + i)) (sym e) ∙ z in rw z' (ap (λ i. some i) (sym e))
strlen_from (suc fuel) s (suc k) n m z nz f =
    let e : suc k + n ≡ k + (n + 1) = omega arith in
    rw (ne→== (m (s + n)) 0 (nz n (omega arith) (omega arith))) (
      strlen_from fuel s k (n + 1) m (ap (λ i. m (s + i)) (sym e) ∙ z)
        (λ j lo hi. nz j (omega arith) (omega arith)) (omega arith)
      ∙ ap (λ i. some i) (sym e))

-- `strlen` returns the number of bytes before the first NUL, in one round more than that.
strlen_lem :
    (fuel s k : ℕ) (m : Memory)
    → m (s + k) ≡ 0
    → ((j : ℕ) → j < k → m (s + j) ≢ 0)
    → k < fuel
    → strlen fuel s 0 m ≡ some k
strlen_lem fuel s k m z nz f =
    let e : k + 0 ≡ k = omega arith in
    strlen_from fuel s k 0 m (ap (λ i. m (s + i)) e ∙ z) (λ j lo hi. nz j (omega arith)) f
    ∙ ap (λ i. some i) e
