-- ===== src/Uart/Tests.antt =====
-- The theorem on the transmit buffer where its counters wrap.
use csse332_project.Base.{◌+◌, ◌^◌, ◌-◌, ◌<◌, ◌≡◌, ◌⊎◌, arith, [], ◌∷◌, ◌++◌, false, ltb}
use csse332_project.Uart.{Uart, Sent, sleeps, returns, uartputc, tx_size}
use csse332_project.Uart.Fifo.{IsFifo, waiting, count, uartputc-IsFifo}

-- Three characters wait.
abbrev three_wait : Uart
three_wait = record { buf = λ i. 65 + i; w = 1; r = 2 ^ 64 - 2 }

three_wait-IsFifo : IsFifo three_wait
three_wait-IsFifo = record { w_fits = omega arith; r_fits = omega arith; bounded = omega arith }

-- The line takes two characters.
uartputc-IsFifo_example :
    ((count three_wait ≡ tx_size) × (uartputc (λ i. ltb i 2) false b'z' three_wait ≡ sleeps))
    ⊎ ((count three_wait < tx_size)
        × ((s : Sent) × (uartputc (λ i. ltb i 2) false b'z' three_wait ≡ returns s)
            × (s.out ++ waiting s.uart ≡ waiting three_wait ++ b'z' ∷ [])
            × IsFifo s.uart))
uartputc-IsFifo_example = uartputc-IsFifo (λ i. ltb i 2) b'z' three_wait three_wait-IsFifo
