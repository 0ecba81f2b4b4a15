-- ===== src/Signals/Drain.antt =====
-- `handle_signals` where no queued signal calls a handler or ends the process.
use csse332_project.Base.{
  ℕ, zero, suc, ◌+◌, ◌-◌, ◌%◌, ◌^◌, ◌≤◌, ◌<◌, ◌≡◌, refl, sym, ap, ap₂, ◌∙◌, inl, inr, Bool, true,
  false, not, ◌||◌, some, List, ◌∷◌, ltb, leb, ◌==◌, if◌then◌else◌, Outcome, ok, fault, get_elem?,
  set, All, arith, subst, Bool-cases, get_elem?-set-some, set-get_elem?, set-set, lt→ltb, ge→ltb,
  leb_of_le, ne→==,
}
use csse332_project.Proc.{Proc, Kernel, Signal, Signaling, is_zombie}
use csse332_project.Proc.Life.{fetch, fetch-get_elem?}
use csse332_project.Signals.{
  catchable_count, signal_kill, handler_ignore, dequeue, oldest, max_signals,
}
use csse332_project.Signals.Queue.{pending, IsQueue, dequeue-IsQueue, pending-dequeue}
use csse332_project.Signals.Handle.{
  Saved, put, read_handler, dispatch, after_signal, handle_loop, handle_signals,
}

-- A signal that is ignored: a catchable one whose handler says so, or one of no known type.
abbrev pub harmless : (ℕ → ℕ) → Signal → Bool
harmless handlers sig =
    if leb (2 ^ 31) sig.type
    then false
    else if ltb sig.type catchable_count
    then handlers sig.type == handler_ignore
    else not (sig.type == signal_kill)

-- The process with its queue emptied.
abbrev pub drained : Proc → Proc
drained p = record p {
  signaling = record (p.signaling) {
    read = (p.signaling.read + p.signaling.count) % max_signals;
    count = 0;
  };
}

-- A process whose waiting signals are all harmless, and that may run.
pub record IsCalm (p : Proc) : Type 0 where
  pub queue : IsQueue p.signaling
  pub ignored : All (λ s. harmless p.signaling.handlers s ≡ true) (pending p.signaling)
  pub alive : (p.killed || is_zombie p.state) ≡ false

abbrev popped : Proc → Proc
popped p = record p { signaling = dequeue p.signaling }

handlers-dequeue : (s : Signaling) → (dequeue s).handlers ≡ s.handlers
unfolding dequeue
handlers-dequeue s = refl

count-dequeue : (s : Signaling) → (dequeue s).count ≡ s.count - 1
unfolding dequeue
count-dequeue s = refl

popped-IsCalm : {p : Proc} → IsCalm p → 0 < p.signaling.count → IsCalm (popped p)
popped-IsCalm {p} c h = record {
  queue = dequeue-IsQueue c.queue h;
  ignored =
      subst (λ f. All (λ s. harmless f s ≡ true) (pending (dequeue p.signaling)))
        (sym (handlers-dequeue p.signaling)) (all_ignored).1;
  alive = c.alive;
}
  where
    all_ignored :
        All
          (λ s. harmless p.signaling.handlers s ≡ true)
          (oldest p.signaling ∷ pending (dequeue p.signaling))
    all_ignored =
        subst (All (λ s. harmless p.signaling.handlers s ≡ true)) (pending-dequeue c.queue h)
          c.ignored

first_harmless :
    {p : Proc}
    → IsCalm p
    → 0 < p.signaling.count
    → harmless p.signaling.handlers (oldest p.signaling) ≡ true
first_harmless {p} c h =
    (subst (All (λ s. harmless p.signaling.handlers s ≡ true)) (pending-dequeue c.queue h)
      c.ignored).0

drained_more :
    (p : Proc) → IsQueue p.signaling → 0 < p.signaling.count → drained (popped p) ≡ drained p
unfolding dequeue
drained_more p v h =
    let e : ((p.signaling.read + 1) % max_signals + (p.signaling.count - 1)) % max_signals
        ≡ (p.signaling.read + p.signaling.count) % max_signals =
      omega (arith, v.read_in) in
    ap (λ r. record p { signaling = record (p.signaling) { read = r; count = 0 } }) e

drained_empty : (p : Proc) → IsQueue p.signaling → p.signaling.count ≡ 0 → drained p ≡ p
drained_empty p v h =
    let e : (p.signaling.read + p.signaling.count) % max_signals ≡ p.signaling.read =
      omega (arith, v.read_in) in
    ap₂ (λ r c. record p { signaling = record (p.signaling) { read = r; count = c } }) e (sym h)

module _ (kstack : ℕ) (run : ℕ → Kernel → Outcome Kernel) (i : ℕ) (old : Saved) where
  dispatch-harmless :
      (sig : Signal) (p : Proc) (k : Kernel)
      → harmless p.signaling.handlers sig ≡ true
      → dispatch kstack run i old sig p k ≡ ok (k, 0)
  unfolding dispatch read_handler
  dispatch-harmless sig p k h = ground arith

  after_signal-calm :
      (p : Proc) (k : Kernel)
      → get_elem? k.proc i ≡ some p
      → (p.killed || is_zombie p.state) ≡ false
      → after_signal kstack run i old 0 k ≡ ok (k, false)
  unfolding after_signal
  after_signal-calm p k g e = rw (fetch-get_elem? i k.proc p g, e)

  loop_drains :
      (fuel : ℕ) (p : Proc) (k : Kernel)
      → get_elem? k.proc i ≡ some p
      → IsCalm p
      → p.signaling.count < fuel
      → handle_loop kstack run i old fuel k ≡ ok (put i (drained p) k, false)
  unfolding handle_loop
  loop_drains zero p k g c h = absurd (omega arith)
  loop_drains (suc fuel) p k g c h = elim (Bool-cases (ltb 0 p.signaling.count)) [
    | inr empty ↦
        rw (fetch-get_elem? i k.proc p g, empty)
          (ap (λ ps. ok (record k { proc = ps }, false))
            (sym (set-get_elem? k.proc i p g)
              ∙ ap (set k.proc i)
                  (sym (drained_empty p c.queue (none_left p.signaling.count empty)))))
    | inl more ↦
        let left : 0 < p.signaling.count = some_left p.signaling.count more in
        let k1 : Kernel = put i (popped p) k in
        let g1 : get_elem? k1.proc i ≡ some (popped p) = get_elem?-set-some k.proc i (popped p) g in
        let d : dispatch kstack run i old (oldest p.signaling) (popped p) k1 ≡ ok (k1, 0) =
          dispatch-harmless (oldest p.signaling) (popped p) k1 (
            subst (λ f. harmless f (oldest p.signaling) ≡ true) (sym (handlers-dequeue p.signaling))
              (first_harmless c left)) in
        rw (fetch-get_elem? i k.proc p g, more, d, after_signal-calm (popped p) k1 g1 c.alive)
          (loop_drains fuel (popped p) k1 g1 (popped-IsCalm c left) (fewer p left h)
            ∙ ap (λ ps. ok (record k { proc = ps }, false))
                (set-set k.proc i (popped p) (drained (popped p))
                  ∙ ap (set k.proc i) (drained_more p c.queue left)))
  ]
    where
      none_left : (n : ℕ) → ltb 0 n ≡ false → n ≡ 0
      none_left n e = ground arith

      some_left : (n : ℕ) → ltb 0 n ≡ true → 0 < n
      some_left n e = ground arith

      fewer :
          (q : Proc)
          → 0 < q.signaling.count
          → q.signaling.count < suc fuel
          → (popped q).signaling.count < fuel
      fewer q a b = omega (arith, count-dequeue q.signaling)

-- The process when `handle_signals` returns.
abbrev pub rested : Proc → Proc
rested p = record p {
  signaling = record (p.signaling) {
    read = (p.signaling.read + p.signaling.count) % max_signals;
    count = 0;
    in_handler = false;
  };
}

-- The process as `handle_signals` enters its loop, and as it leaves it.
abbrev entered : ℕ → Proc → Proc
entered kstack p = record p {
  signaling = record (p.signaling) { in_handler = true };
  kstack = kstack;
}

abbrev saved : Proc → Saved
saved p = record { tf = p.frame; ctx = p.context; old_kstack = p.kstack }

rested_empty :
    (p : Proc)
    → IsQueue p.signaling
    → p.signaling.count ≡ 0
    → record p { signaling = record (p.signaling) { in_handler = false } } ≡ rested p
rested_empty p v h =
    let e : p.signaling.read ≡ (p.signaling.read + p.signaling.count) % max_signals =
      omega (arith, v.read_in) in
    ap₂
      (λ r c. record p {
        signaling = record (p.signaling) { read = r; count = c; in_handler = false };
      })
      e h

rewrite_thrice : (k : Kernel) (i : ℕ) (a b c : Proc) → put i c (put i b (put i a k)) ≡ put i c k
rewrite_thrice k i a b c =
    ap (λ ps. record k { proc = ps }) (set-set (set k.proc i a) i b c ∙ set-set k.proc i a c)

entered-IsCalm : {p : Proc} (kstack : ℕ) → IsCalm p → IsCalm (entered kstack p)
entered-IsCalm kstack c = record {
  queue = omega (arith, c.queue);
  ignored = c.ignored;
  alive = c.alive;
}

fetch-set :
    (i : ℕ) (ps : List Proc) {p : Proc} (q : Proc)
    → get_elem? ps i ≡ some p
    → fetch i (set ps i q) ≡ ok q
fetch-set i ps q g = fetch-get_elem? i (set ps i q) q (get_elem?-set-some ps i q g)

-- Where every waiting signal is harmless and the process is neither killed nor a zombie,
-- `handle_signals` returns, if its loop has a round for each signal and one more: the queue is
-- empty, the process may run, and its trapframe, its stack and everything else are as they were.
pub handle_signals_drains :
    (fuel kstack : ℕ) (run : ℕ → Kernel → Outcome Kernel) (i : ℕ) (k : Kernel) {p : Proc}
    → get_elem? k.proc i ≡ some p
    → IsCalm p
    → p.signaling.count < fuel
    → handle_signals fuel kstack run i k ≡ ok (put i (rested p) k, false)
unfolding handle_signals
handle_signals_drains fuel kstack run i k {p} g c h = elim (Bool-cases (p.signaling.count == 0)) [
  | inl nothing ↦
      let calm : Proc = record p { signaling = record (p.signaling) { in_handler = true } } in
      rw (fetch-get_elem? i k.proc p g, nothing, fetch-set i k.proc calm g)
        (ap (λ ps. ok (record k { proc = ps }, false))
          (set-set k.proc i calm
              (record p { signaling = record (p.signaling) { in_handler = false } })
            ∙ ap (set k.proc i) (rested_empty p c.queue (no_signal p.signaling.count nothing))))
  | inr waiting ↦
      let start : Proc = entered kstack p in
      let k1 : Kernel = put i start k in
      let g1 : get_elem? k1.proc i ≡ some start = get_elem?-set-some k.proc i start g in
      let k2 : Kernel = put i (drained start) k1 in
      let g2 : get_elem? k2.proc i ≡ some (drained start) =
        get_elem?-set-some k1.proc i (drained start) g1 in
      let restored : Proc = record (drained start) { frame = p.frame; kstack = p.kstack } in
      rw
        (
          fetch-get_elem? i k.proc p g,
          waiting,
          loop_drains kstack run i (saved p) fuel start k1 g1 (entered-IsCalm kstack c) h,
          fetch-get_elem? i k2.proc (drained start) g2,
          fetch-set i k2.proc restored g2,
        )
        (ap (λ x. ok (x, false))
          (rewrite_thrice k1 i (drained start) restored (rested p)
            ∙ ap (λ ps. record k { proc = ps }) (set-set k.proc i start (rested p))))
]
  where
    no_signal : (n : ℕ) → (n == 0) ≡ true → n ≡ 0
    no_signal n e = ground arith

-- A waiting signal of a negative type that is the oldest of its queue passes the test for catchable
-- types, and handle_signals reads outside the array of handlers, whatever else waits.
pub negative_type_faults :
    (fuel kstack : ℕ) (run : ℕ → Kernel → Outcome Kernel) (i : ℕ) (k : Kernel) {p : Proc}
    → get_elem? k.proc i ≡ some p
    → 0 < p.signaling.count
    → 2 ^ 31 ≤ (oldest p.signaling).type
    → handle_signals (suc fuel) kstack run i k ≡ fault
unfolding handle_signals handle_loop dispatch read_handler
negative_type_faults fuel kstack run i k {p} g some_wait negative =
    let start : Proc = entered kstack p in
    rw (
      fetch-get_elem? i k.proc p g,
      ne→== p.signaling.count 0 (omega arith),
      fetch-set i k.proc start g,
      lt→ltb 0 p.signaling.count some_wait,
      leb_of_le (2 ^ 31) (oldest p.signaling).type negative,
      ge→ltb (oldest p.signaling).type catchable_count (omega (arith, negative)),
    )
