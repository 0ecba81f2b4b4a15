-- ===== src/Signals/Handle.antt =====
-- `handle_signals` of kernel/proc.c: what the scheduler does with the queued signals of the process
-- that it has chosen, whose lock it holds. The contents of the stack pages, which it copies and
-- clears, are not modelled.
use csse332_project.Base.{
  ℕ, zero, suc, ◌+◌, ◌-◌, ◌*◌, ◌^◌, Bool, true, false, ◌||◌, ltb, leb, ◌==◌, if◌then◌else◌, u32,
  u64, sub64, Outcome, ok, fault, spin, ◌>>=◌, set,
}
use csse332_project.Proc.{
  Proc, Kernel, Signal, Trapframe, Context, running, is_runnable, is_sleeping, is_zombie,
}
use csse332_project.Proc.Life.{fetch, exit_from_signal}
use csse332_project.Signals.{
  catchable_count, signal_kill, handler_ignore, handler_terminate, dequeue, oldest,
}

-- The constants of kernel/memlayout.h.
abbrev page_size : ℕ
page_size = 4096

abbrev signalret : ℕ
signalret = 2 ^ 38 - 3 * 4096

abbrev signalstack : ℕ
signalstack = 2 ^ 38 - 4 * 4096

-- -1 as an `int`.
abbrev pub minus_one : ℕ
minus_one = 2 ^ 32 - 1

abbrev pub put : ℕ → Proc → Kernel → Kernel
put i p k = record k { proc = set k.proc i p }

-- What the process had before its signals were handled.
pub record Saved : Type 0 where
  pub tf : Trapframe
  pub ctx : Context
  pub old_kstack : ℕ

-- The trapframe with which a custom handler starts.
abbrev pub handler_frame : ℕ → Signal → Trapframe → Trapframe
handler_frame handler sig tf = record {
  epc = handler;
  ra = signalret;
  sp = signalstack + page_size;
  gp = tf.gp;
  a0 = u64 (sig.sender_pid * 2 ^ 32) + sig.type;
  a1 = sig.payload;
  others = λ _. 0;
}

-- `kstack` is the scheduler's own page; `run i k` is the kernel when the process `i`, to which
-- `swtch` went in the kernel `k`, comes back to the scheduler.
-- `p->signaling.handlers[type]`, an array of one handler for each catchable type.
unfoldable pub read_handler : Proc → ℕ → Outcome ℕ
read_handler p type = if ltb type catchable_count then ok (p.signaling.handlers type) else fault

module _ (kstack : ℕ) (run : ℕ → Kernel → Outcome Kernel) (i : ℕ) (old : Saved) where
  -- A custom handler, with its result.
  unfoldable pub call_handler : Signal → ℕ → Proc → Kernel → Outcome (Kernel × ℕ)
  call_handler sig handler p k = do
    let sent : Proc = record p {
      context = record (p.context) { sp = u64 (kstack + sub64 p.context.sp old.old_kstack) };
      frame = handler_frame handler sig old.tf;
    }
    k1 ← run i (put i sent k)
    q ← fetch i k1.proc
    let result : ℕ =
        if is_runnable q.state then u32 q.frame.a0 else if is_sleeping q.state then minus_one else 0
    let back : Proc = record q {
      state = if is_runnable q.state then running else q.state;
      context = old.ctx;
    }
    ok (put i back k1, result)

  -- The result of one signal; the type is compared as an int.
  unfoldable pub dispatch : Signal → Proc → Kernel → Outcome (Kernel × ℕ)
  dispatch sig p k =
      let caught : ℕ → Outcome (Kernel × ℕ) = λ handler.
        (if handler == handler_ignore
          then ok (k, 0)
          else if handler == handler_terminate
          then ok (k, minus_one)
          else call_handler sig handler p k) in
      if leb (2 ^ 31) sig.type || ltb sig.type catchable_count
      then (read_handler p sig.type >>= caught)
      else if sig.type == signal_kill
      then ok (k, minus_one)
      else ok (k, 0)

  -- The end of a round: a result that is not zero terminates the process; the flag tells whether
  -- the loop stops.
  unfoldable pub after_signal : ℕ → Kernel → Outcome (Kernel × Bool)
  after_signal result k = do
    k1 ← if result == 0 then ok k else exit_from_signal result i k
    p ← fetch i k1.proc
    ok (k1, p.killed || is_zombie p.state)

  -- The loop on fuel; a handler may queue more signals. Running out of fuel is `spin`.
  unfoldable pub handle_loop : ℕ → Kernel → Outcome (Kernel × Bool)
  handle_loop zero k = spin
  handle_loop (suc fuel) k = fetch i k.proc >>= λ p.
      let sig = oldest p.signaling in
      let p1 : Proc = record p { signaling = dequeue p.signaling } in
      let round : Outcome (Kernel × Bool) =
        (dispatch sig p1 (put i p1 k) >>= λ (k1, result). after_signal result k1) in
      let more : Outcome (Kernel × Bool) =
        (round >>= λ (k2, killed). (elim killed [
          | true ↦ ok (k2, true)
          | false ↦ handle_loop fuel k2
        ])) in
      if ltb 0 p.signaling.count then more else ok (k, false)

-- The flag tells that the process can no longer run.
unfoldable pub handle_signals :
    (fuel kstack : ℕ) → (ℕ → Kernel → Outcome Kernel) → ℕ → Kernel → Outcome (Kernel × Bool)
handle_signals fuel kstack run i k = do
  p ← fetch i k.proc
  let enter : Proc = record p { signaling = record (p.signaling) { in_handler = true } }
  let old : Saved = record { tf = p.frame; ctx = p.context; old_kstack = p.kstack }
  let handled : Outcome (Kernel × Bool) = do
    (k1, killed) ← handle_loop kstack run i old fuel (put i (record enter { kstack = kstack }) k)
    q ← fetch i k1.proc
    ok (put i (record q { frame = old.tf; kstack = old.old_kstack }) k1, killed)
  (k2, killed) ← if p.signaling.count == 0 then ok (put i enter k, false) else handled
  r ← fetch i k2.proc
  ok (put i (record r { signaling = record (r.signaling) { in_handler = false } }) k2, killed)
