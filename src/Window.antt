-- ===== src/Window.antt =====
-- The items of a circular buffer: `size` slots, `n` items from the slot `start % size` on. Shared by
-- the pipe, the console's input, the serial port's output and the signal queues.
use csse332_project.Base.{
  ℕ, zero, suc, ◌+◌, ◌%◌, ◌<◌, ◌≡◌, refl, sym, ap₂, ◌∙◌, ap, ◌≢◌, List, [], ◌∷◌, ◌++◌, arith,
  length, update, update_ne,
}
use native.Mathlib.Nat.{mod-add-mod, add-zero}

module _ {ℓ} {A : Type ℓ} where
  abbrev pub window : (ℕ → A) → ℕ → ℕ → ℕ → List A
  window buf size start zero = []
  window buf size start (suc n) = buf (start % size) ∷ window buf size (start + 1) n

  pub length-window : (buf : ℕ → A) (size start n : ℕ) → length (window buf size start n) ≡ n
  length-window buf size start zero = refl
  length-window buf size start (suc n) = ap suc (length-window buf size (start + 1) n)

  -- The last item of a window that is one longer.
  pub window-snoc :
      (buf : ℕ → A) (size start n : ℕ)
      → window buf size start (suc n) ≡ window buf size start n ++ buf ((start + n) % size) ∷ []
  window-snoc buf size start zero = ap (λ k. buf (k % size) ∷ []) (sym (add-zero start))
  window-snoc buf size start (suc n) =
      ap (λ l. buf (start % size) ∷ l)
        (window-snoc buf size (start + 1) n
          ∙ ap (λ k. window buf size (start + 1) n ++ buf (k % size) ∷ []) (omega arith))

  -- A write outside the window leaves it.
  pub window-update :
      (buf : ℕ → A) (size i : ℕ) (v : A) (start n : ℕ)
      → ((j : ℕ) → j < n → (start + j) % size ≢ i)
      → window (update buf i v) size start n ≡ window buf size start n
  window-update buf size i v start zero out = refl
  window-update buf size i v start (suc n) out =
      ap₂ ◌∷◌
        (update_ne buf i (start % size) v
          (λ e. out 0 (omega arith) (ap (λ k. k % size) (add-zero start) ∙ sym e)))
        (window-update buf size i v (start + 1) n
          (λ j h e. out (suc j) (omega arith) (ap (λ k. k % size) (omega arith) ∙ e)))

  -- A counter may wrap at a multiple of the size.
  pub window_mod :
      (buf : ℕ → A) (size start start' n : ℕ)
      → start % size ≡ start' % size
      → window buf size start n ≡ window buf size start' n
  window_mod buf size start start' zero e = refl
  window_mod buf size start start' (suc n) e = ap₂ ◌∷◌ (ap buf e) (
      window_mod buf size (start + 1) (start' + 1) n
        (sym (mod-add-mod start size 1) ∙ ap (λ k. (k + 1) % size) e ∙ mod-add-mod start' size 1))
