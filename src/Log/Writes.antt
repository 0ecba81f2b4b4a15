-- ===== src/Log/Writes.antt =====
-- A list of disk writes, what it does to a disk, and the lists that the loops of the log make.
use csse332_project.Base.{
  ℕ, zero, suc, ◌+◌, ◌≤◌, ◌<◌, ◌≡◌, refl, sym, ap, ◌∙◌, ◌≢◌, ◌⊎◌, inl, inr, List, [], ◌∷◌, ◌++◌,
  arith, length, take, update, update_self, update_ne, ℕ_discrete,
}
use csse332_project.Log.{Block}

-- The disk after the writes `ws`.
unfoldable pub replay : List (ℕ × Block) → (ℕ → Block) → ℕ → Block
replay [] d = d
replay ((b, v) ∷ ws) d = replay ws (update d b v)

pub replay-append :
    (xs ys : List (ℕ × Block)) (d : ℕ → Block) → replay (xs ++ ys) d ≡ replay ys (replay xs d)
unfolding replay
replay-append [] ys d = refl
replay-append ((b, v) ∷ xs) ys d = replay-append xs ys (update d b v)

-- Value `v t` at block `at t`, for `rounds` values of `t` from `tail` on.
unfoldable pub writes : (at : ℕ → ℕ) (v : ℕ → Block) (tail rounds : ℕ) → List (ℕ × Block)
writes at v tail zero = []
writes at v tail (suc rounds) = (at tail, v tail) ∷ writes at v (tail + 1) rounds

-- No two of the first `n` rounds write to one block.
abbrev pub Apart : (ℕ → ℕ) → ℕ → Type 0
Apart at n = (i j : ℕ) → i < j → j < n → at i ≢ at j

module _ (at : ℕ → ℕ) (v : ℕ → Block) where
  pub length-writes : (tail rounds : ℕ) → length (writes at v tail rounds) ≡ rounds
  unfolding writes
  length-writes tail zero = refl
  length-writes tail (suc rounds) = ap suc (length-writes (tail + 1) rounds)

  pub take-writes :
      (k tail rounds : ℕ) → k ≤ rounds → take k (writes at v tail rounds) ≡ writes at v tail k
  unfolding writes
  take-writes zero tail rounds h = refl
  take-writes (suc k) tail zero h = absurd (omega arith)
  take-writes (suc k) tail (suc rounds) h =
      ap (λ l. (at tail, v tail) ∷ l) (take-writes k (tail + 1) rounds (omega arith))

  pub replay-writes_out :
      (tail rounds : ℕ) (d : ℕ → Block) (b : ℕ)
      → ((t : ℕ) → tail ≤ t → t < tail + rounds → at t ≢ b)
      → replay (writes at v tail rounds) d b ≡ d b
  unfolding writes replay
  replay-writes_out tail zero d b out = refl
  replay-writes_out tail (suc rounds) d b out =
      replay-writes_out (tail + 1) rounds (update d (at tail) (v tail)) b
        (λ t lo hi. out t (omega arith) (omega arith))
      ∙ update_ne d (at tail) b (v tail) (out tail (omega arith) (omega arith))

  pub replay-writes_in :
      (tail rounds : ℕ) (d : ℕ → Block) (t : ℕ)
      → tail ≤ t
      → t < tail + rounds
      → Apart at (tail + rounds)
      → replay (writes at v tail rounds) d (at t) ≡ v t
  unfolding writes replay
  replay-writes_in tail zero d t lo hi apart = absurd (omega arith)
  replay-writes_in tail (suc rounds) d t lo hi apart = elim (ℕ_discrete tail t) [
    | yes e ↦
        replay-writes_out (tail + 1) rounds (update d (at tail) (v tail)) (at t)
          (λ s above below q. apart t s (omega arith) (omega arith) (sym q))
        ∙ ap (λ s. update d (at s) (v s) (at t)) e
        ∙ update_self d (at t) (v t)
    | no ne ↦
        replay-writes_in (tail + 1) rounds (update d (at tail) (v tail)) t (omega arith)
          (omega arith) (λ i j lt below. apart i j lt (omega arith))
  ]

-- Whether a block is among the first `n` of a list of block numbers.
pub find_index :
    (at : ℕ → ℕ) (n b : ℕ) → ((i : ℕ) × (i < n) × (at i ≡ b)) ⊎ ((i : ℕ) → i < n → at i ≢ b)
find_index at zero b = inr (λ i h. absurd (omega arith))
find_index at (suc n) b = elim (find_index at n b) [
  | inl found ↦ inl (found.0, omega arith, found.2)
  | inr out ↦ elim (ℕ_discrete (at n) b) [
    | yes e ↦ inl (n, omega arith, e)
    | no ne ↦ inr (λ i h. elim (ℕ_discrete i n) [
      | yes q ↦ λ e. ne (ap at (sym q) ∙ e)
      | no q ↦ out i (omega arith)
    ])
  ]
]

module _ {ℓ} {A : Type ℓ} where
  pub take-append_of_le : (k : ℕ) (xs ys : List A) → k ≤ length xs → take k (xs ++ ys) ≡ take k xs
  take-append_of_le zero xs ys h = refl
  take-append_of_le (suc k) [] ys h = absurd (omega arith)
  take-append_of_le (suc k) (x ∷ xs) ys h =
      ap (λ l. x ∷ l) (take-append_of_le k xs ys (omega arith))

  pub take-append_of_ge :
      (m : ℕ) (xs ys : List A) → take (length xs + m) (xs ++ ys) ≡ xs ++ take m ys
  take-append_of_ge m [] ys = let e : 0 + m ≡ m = omega arith in ap (λ k. take k ys) e
  take-append_of_ge m (x ∷ xs) ys =
      let e : suc (length xs) + m ≡ suc (length xs + m) = omega arith in
      ap (λ k. take k (x ∷ (xs ++ ys))) e ∙ ap (λ l. x ∷ l) (take-append_of_ge m xs ys)
