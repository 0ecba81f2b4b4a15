-- ===== src/Signals.antt =====
-- Signals: kernel/signal.h, the signal functions at the end of kernel/proc.c, and the part of
-- `scheduler` that raises the alarm. A queue is a ring of 512 slots with a read index, a write
-- index and a count.
pub mod Handle
pub mod Queue
pub mod Drain
pub mod Alarms
mod Tests
use csse332_project.Base.{
  ℕ, zero, suc, ◌+◌, ◌-◌, ◌*◌, ◌/◌, ◌%◌, ◌^◌, Bool, true, false, not, ◌&&◌, ◌||◌, Option, none,
  some, List, [], ◌∷◌, ◌++◌, ltb, leb, ◌==◌, if◌then◌else◌, update, u32, u64, sub64, Outcome, ok,
  panic, spin, fault, ◌>>=◌, get_elem?, set,
}
use csse332_project.Proc.{Signal, Signaling, Proc, acquire, release}

abbrev pub max_signals : ℕ
max_signals = 512

-- `enum signal_type`
abbrev pub signal_alarm : ℕ
signal_alarm = 0

abbrev pub signal_message : ℕ
signal_message = 1

abbrev pub catchable_count : ℕ
catchable_count = 2

abbrev pub signal_kill : ℕ
signal_kill = 3

-- `(signal_handler_t)(-1)` and `(signal_handler_t)(-2)`
abbrev pub handler_ignore : ℕ
handler_ignore = 2 ^ 64 - 1

abbrev pub handler_terminate : ℕ
handler_terminate = 2 ^ 64 - 2

-- Returns the new signaling state and the result.
pub set_signal_handler : (type handler : ℕ) → Signaling → Signaling × ℕ
set_signal_handler type handler s =
    if leb catchable_count type
    then (s, 1)
    else (record s { handlers = update s.handlers type handler }, 0)

-- The loop of `send_signal` over the table: the last process with the pid.
pub scan_pid : ℕ → ℕ → Option ℕ → List Proc → Option ℕ
scan_pid pid i found [] = found
scan_pid pid i found (p ∷ ps) = scan_pid pid (i + 1) (if p.pid == pid then some i else found) ps

pub enqueue : Signal → Signaling → Signaling
enqueue sig s = record s {
  queue = update s.queue s.write sig;
  write = (s.write + 1) % max_signals;
  count = s.count + 1;
}

-- What `send_signal` does to the receiver, and its result; `own` is `sender_pid == receiver_pid`.
-- On a full queue it returns with the lock that it took.
pub receive : Bool → Signal → Proc → Outcome (Proc × ℕ)
receive own sig p = do
  q ← if own then ok p else acquire p
  let r : Proc = record q { signaling = enqueue sig q.signaling }
  if ltb (q.signaling.count + 1) max_signals
      then ((if own then ok r else release r) >>= λ r'. ok (r', 0))
      else ok (q, 1)

-- An index that `scan_pid` finds lies in the table.
pub send_signal : Signal → (receiver_pid : ℕ) → List Proc → Outcome (List Proc × ℕ)
send_signal sig receiver_pid ps = elim (scan_pid receiver_pid 0 none ps) [
  | none ↦ ok (ps, 2)
  | some i ↦ elim (get_elem? ps i) [
    | none ↦ fault
    | some p ↦ receive (sig.sender_pid == receiver_pid) sig p >>= λ (q, r). ok (set ps i q, r)
  ]
]

-- `queue[read]`, and the queue without it.
abbrev pub oldest : Signaling → Signal
oldest s = s.queue s.read

pub dequeue : Signaling → Signaling
dequeue s = record s { read = (s.read + 1) % max_signals; count = s.count - 1 }

-- `alarm` on a process at the tick count `ticks`, with what it returns: `seconds * 10` is computed
-- in 32 bits.
pub alarm : (seconds ticks : ℕ) → Proc → Outcome (Proc × ℕ)
alarm seconds ticks p = do
  q ← acquire p
  let deadline : ℕ = u64 (ticks + u32 (seconds * 10))
  let again : Proc = record q { alarm_set = not (seconds == 0); cycles_at_alarm = deadline }
  let first : Proc = record q { alarm_set = true; cycles_at_alarm = deadline }
  r ← release (if q.alarm_set then again else first)
  ok (r, if q.alarm_set then u32 (sub64 q.cycles_at_alarm ticks / 10) else 0)

-- The test in `scheduler`: whether it sends the alarm to a process at `ticks`.
abbrev pub alarm_due : ℕ → Proc → Bool
alarm_due ticks p = p.alarm_set && leb ticks p.cycles_at_alarm

-- What `scheduler` then does to the table, with the lock of process `i`, which is `p`, held.
pub raise_alarm : ℕ → ℕ → Proc → List Proc → Outcome (List Proc)
raise_alarm ticks i p ps =
    let off : Proc = record p { alarm_set = false } in
    let sig : Signal = record { type = signal_alarm; sender_pid = p.pid; payload = 0 } in
    if alarm_due ticks p then (send_signal sig p.pid (set ps i off) >>= λ (qs, r). ok qs) else ok ps
