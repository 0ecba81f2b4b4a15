-- ===== src/Uart.antt =====
-- kernel/uart.c, the transmit buffer: uartputc fills it, uartstart sends from it, and both counters
-- are free-running 64-bit words.
pub mod Fifo
mod Tests
use csse332_project.Base.{
  ℕ, zero, suc, ◌+◌, ◌-◌, ◌%◌, ◌^◌, Bool, true, false, List, [], ◌∷◌, ◌==◌, if◌then◌else◌, update,
  u64, sub64,
}

abbrev pub tx_size : ℕ
tx_size = 32

pub record Uart : Type 0 where
  pub buf : ℕ → ℕ
  pub w : ℕ
  pub r : ℕ

-- `uart_tx_buf[uart_tx_w % UART_TX_BUF_SIZE] = c; uart_tx_w += 1`
pub store : Uart → ℕ → Uart
store u c = record u { buf = update u.buf (u.w % tx_size) (c % 256); w = u64 (u.w + 1) }

-- `uart_tx_r += 1`
pub advance : Uart → Uart
advance u = record u { r = u64 (u.r + 1) }

-- What a loop has written to the transmit register, in order, and the buffer.
pub record Sent : Type 0 where
  pub out : List ℕ
  pub uart : Uart

-- How a stretch of uartputc ends, from its call or a wakeup on.
pub data Put : Type 0 where
  spins : Put  -- after a panic
  sleeps : Put
  returns : Sent → Put

-- `idle i` is bit LSR_TX_IDLE of the line status register once `i` characters are sent.
module _ (idle : ℕ → Bool) where
  -- The loop of uartstart with `rounds` characters in the buffer.
  pub start_loop : (rounds i : ℕ) → Uart → Sent
  start_loop zero i u = record { out = []; uart = u }
  start_loop (suc rounds) i u =
      let rest = start_loop rounds (i + 1) (advance u) in
      if u.w == u.r
      then record { out = []; uart = u }
      else if idle i
      then record { out = u.buf (u.r % tx_size) ∷ rest.out; uart = rest.uart }
      else record { out = []; uart = u }

  pub uartstart : Uart → Sent
  uartstart u = start_loop (sub64 u.w u.r) 0 u

  pub uartputc : (panicked : Bool) → ℕ → Uart → Put
  uartputc panicked c u =
      if panicked
      then spins
      else if u.w == u64 (u.r + tx_size)
      then sleeps
      else returns (uartstart (store u c))
