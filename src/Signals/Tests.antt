-- ===== src/Signals/Tests.antt =====
-- Concrete runs of the signal functions, and the theorems at concrete processes.
use csse332_project.Base.{ℕ, ◌-◌, ◌^◌, ◌≡◌, refl, true, false, [], ◌∷◌, ok, fault, arith, update}
use csse332_project.Proc.{unheld, Proc, Kernel, Signal, Signaling, running}
use csse332_project.Proc.Samples.{blank, quiet, no_signal}
use csse332_project.Signals.{enqueue, receive, send_signal, scan_pid, alarm, alarm_due}
use csse332_project.Signals.Queue.{pending, IsQueue, receive-pending}
use csse332_project.Signals.Handle.{handle_signals}
use csse332_project.Signals.Drain.{IsCalm, rested, handle_signals_drains, negative_type_faults}
use csse332_project.Signals.Alarms.{alarm_fires_early}

abbrev message : Signal
message = record { type = 1; sender_pid = 9; payload = 42 }

-- One message waits in the last slot: the next goes to slot 0.
abbrev one_waits : Signaling
one_waits = record quiet { queue = update (λ _. no_signal) 511 message; read = 511; count = 1 }

abbrev busy : Proc
busy = record blank { state = running; pid = 4; signaling = one_waits }

one_waits-IsQueue : IsQueue one_waits
one_waits-IsQueue = omega arith

receive-pending_example :
    (q : Proc) × (receive false no_signal busy ≡ ok (q, 0))
    × (pending q.signaling ≡ message ∷ no_signal ∷ [])
    × IsQueue q.signaling
    × (q.lock ≡ unheld)
receive-pending_example = receive-pending false no_signal busy refl one_waits-IsQueue (omega arith)

-- The alarm for 3 seconds at tick 100 is due at tick 101, and no longer at tick 131.
alarm_fires_early_example :
    (q : Proc) × (r : ℕ) × (alarm 3 100 blank ≡ ok (q, r)) × (alarm_due 101 q ≡ true)
alarm_fires_early_example =
    alarm_fires_early 3 100 101 blank refl (omega arith) (omega arith) (omega arith)

abbrev kernel_of : Proc → Kernel
kernel_of p = record { proc = p ∷ []; nextpid = 5; initproc = 1; ticks = 0; closed = []; put = [] }

busy-IsCalm : IsCalm busy
busy-IsCalm = record { queue = one_waits-IsQueue; ignored = (refl, tt); alive = refl }

handle_signals_drains_example :
    handle_signals 2 4096 (λ i k. ok k) 0 (kernel_of busy) ≡ ok (kernel_of (rested busy), false)
handle_signals_drains_example =
    handle_signals_drains 2 4096 (λ i k. ok k) 0 (kernel_of busy) refl busy-IsCalm (omega arith)

-- The type is -1.
abbrev hostile : Proc
hostile = record busy {
  signaling = record one_waits {
    queue = λ _. record { type = 2 ^ 32 - 1; sender_pid = 9; payload = 0 };
  };
}

negative_type_faults_example : handle_signals 2 4096 (λ i k. ok k) 0 (kernel_of hostile) ≡ fault
negative_type_faults_example =
    negative_type_faults 1 4096 (λ i k. ok k) 0 (kernel_of hostile) refl (omega arith) (omega arith)

-- A signal for pid 0 goes to an unused slot.
sent_to_unused :
    send_signal message 0 (blank ∷ [])
    ≡ ok (record blank { signaling = enqueue message quiet } ∷ [], 0)
unfolding send_signal scan_pid receive
sent_to_unused = refl
