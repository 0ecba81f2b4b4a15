-- ===== src/Uart/Fifo.antt =====
-- The transmit buffer of kernel/uart.c as a queue.
use csse332_project.Base.{
  ℕ, zero, suc, ◌+◌, ◌%◌, ◌^◌, ◌≤◌, ◌<◌, ◌≡◌, refl, sym, ap, ap₂, ◌∙◌, ◌⊎◌, inl, inr, Bool, false,
  List, [], ◌∷◌, ◌++◌, ◌==◌, update, update_self, u64, sub64, arith, Bool-cases, ne→==, ==→ne,
}
use csse332_project.Window.{window, window-snoc, window-update, window_mod}
use csse332_project.Uart.{
  Uart, Sent, sleeps, returns, store, advance, start_loop, uartstart, uartputc, tx_size,
}

abbrev pub count : Uart → ℕ
count u = sub64 u.w u.r

-- The characters that wait, oldest first.
abbrev pub waiting : Uart → List ℕ
waiting u = window u.buf tx_size u.r (count u)

pub record IsFifo (u : Uart) : Type 0 where
  pub w_fits : u.w < 2 ^ 64
  pub r_fits : u.r < 2 ^ 64
  pub bounded : count u ≤ tx_size

store-IsFifo : (u : Uart) (c : ℕ) → IsFifo u → count u < tx_size → IsFifo (store u c)
unfolding store
store-IsFifo u c v h = omega arith

waiting-store :
    (u : Uart) (c : ℕ)
    → IsFifo u
    → count u < tx_size
    → waiting (store u c) ≡ waiting u ++ c % 256 ∷ []
unfolding store
waiting-store u c v h =
    ap (window written tx_size u.r) more
    ∙ window-snoc written tx_size u.r (count u)
    ∙ ap₂ (λ xs b. xs ++ b ∷ [])
        (window-update u.buf tx_size (u.w % tx_size) (c % 256) u.r (count u) (λ j lt. omega arith))
        (ap written (omega arith) ∙ update_self u.buf (u.w % tx_size) (c % 256))
  where
    more : count (store u c) ≡ suc (count u)
    more = omega arith

    written : ℕ → ℕ
    written = update u.buf (u.w % tx_size) (c % 256)

advance-IsFifo :
    (u : Uart) (n : ℕ) → IsFifo u → count u ≡ suc n → IsFifo (advance u) × (count (advance u) ≡ n)
unfolding advance
advance-IsFifo u n v h = omega arith

waiting-advance :
    (u : Uart) (n : ℕ)
    → IsFifo u
    → count u ≡ suc n
    → waiting u ≡ u.buf (u.r % tx_size) ∷ window u.buf tx_size (u64 (u.r + 1)) n
waiting-advance u n v h =
    ap (window u.buf tx_size u.r) h
    ∙ ap (λ l. u.buf (u.r % tx_size) ∷ l)
        (window_mod u.buf tx_size (u.r + 1) (u64 (u.r + 1)) n (omega arith))

waiting-rest :
    (u : Uart) (n : ℕ)
    → count (advance u) ≡ n
    → window u.buf tx_size (u64 (u.r + 1)) n ≡ waiting (advance u)
unfolding advance
waiting-rest u n h = ap (window u.buf tx_size (u64 (u.r + 1))) (sym h)

-- What the loop sends, and what then waits.
start_loop-waiting :
    (idle : ℕ → Bool) (n i : ℕ) (u : Uart)
    → IsFifo u
    → count u ≡ n
    → let s = start_loop idle n i u in (waiting u ≡ s.out ++ waiting s.uart) × IsFifo s.uart
unfolding start_loop
start_loop-waiting idle zero i u v h = (refl, v)
start_loop-waiting idle (suc n) i u v h =
    let a : IsFifo (advance u) × (count (advance u) ≡ n) = advance-IsFifo u n v h in
    let rest : Sent = start_loop idle n (i + 1) (advance u) in
    let ih : (waiting (advance u) ≡ rest.out ++ waiting rest.uart) × IsFifo rest.uart =
      start_loop-waiting idle n (i + 1) (advance u) a.0 a.1 in
    rw (ne→== u.w u.r (omega arith)) (elim (Bool-cases (idle i)) [
      | inl go ↦ rw go (
        waiting-advance u n v h ∙ ap (λ l. u.buf (u.r % tx_size) ∷ l) (waiting-rest u n a.1 ∙ ih.0),
        ih.1,
      )
      | inr busy ↦ rw busy (refl, v)
    ])

-- A stretch of uartputc outside a panic, on a buffer of at most 32 characters: it sleeps exactly if
-- 32 characters wait; else it returns, the characters that it sends and those that then wait are,
-- in order, those that waited and the new one, and at most 32 wait.
pub uartputc-IsFifo :
    (idle : ℕ → Bool) (c : ℕ) (u : Uart)
    → IsFifo u
    → ((count u ≡ tx_size) × (uartputc idle false c u ≡ sleeps))
      ⊎ ((count u < tx_size)
          × ((s : Sent) × (uartputc idle false c u ≡ returns s)
              × (s.out ++ waiting s.uart ≡ waiting u ++ c % 256 ∷ [])
              × IsFifo s.uart))
unfolding uartputc uartstart
uartputc-IsFifo idle c u v = elim (Bool-cases (u.w == u64 (u.r + tx_size))) [
  | inl full ↦ inl (ground arith, rw full refl)
  | inr room ↦
      let less : count u < tx_size = omega (arith, ==→ne u.w (u64 (u.r + tx_size)) room) in
      let r : (waiting (store u c)
            ≡ (uartstart idle (store u c)).out ++ waiting (uartstart idle (store u c)).uart)
          × IsFifo (uartstart idle (store u c)).uart =
        start_loop-waiting idle (count (store u c)) 0 (store u c) (store-IsFifo u c v less) refl in
      inr
        (less, (uartstart idle (store u c), rw room refl, sym r.0 ∙ waiting-store u c v less, r.1))
]
