-- ===== src/Proc/Life.antt =====
-- `reparent`, `exit`, `exit_from_signal`, `wait`, `yield`, `sleep` and `sched` of kernel/proc.c.
-- `me` is the index of `myproc()`. `wait_lock` is not modelled: its holder runs alone here.
use csse332_project.Base.{
  ℕ, zero, suc, ◌+◌, ◌≡◌, Bool, true, false, not, ◌||◌, Option, none, some, List, [], ◌∷◌, ◌++◌,
  map, ◌==◌, if◌then◌else◌, Outcome, ok, panic, fault, ◌>>=◌, get_elem?, set, length,
}
use csse332_project.Proc.{
  Proc, Kernel, Chan, nowhere, at_proc, runnable, sleeping, zombie, is_running, is_zombie, is_me,
  acquire, release, wakeup,
}
use csse332_project.Proc.Alloc.{freeproc}

-- The process that a pointer names.
unfoldable pub fetch : ℕ → List Proc → Outcome Proc
fetch i ps = elim (get_elem? ps i) [ none ↦ fault | some p ↦ ok p ]

pub fetch-get_elem? :
    (i : ℕ) (ps : List Proc) (p : Proc) → get_elem? ps i ≡ some p → fetch i ps ≡ ok p
unfolding fetch
fetch-get_elem? i ps p e = rw (e, fetch)

abbrev opens : List (Option ℕ) → List ℕ
opens [] = []
opens (none ∷ fs) = opens fs
opens (some f ∷ fs) = f ∷ opens fs

abbrev one : Option ℕ → List ℕ
one none = []
one (some i) = i ∷ []

-- Close all open files, and let go of the directory.
pub close_all : ℕ → Proc → Kernel → Kernel
close_all i p k = record k {
  proc = set k.proc i (record p { ofile = map (λ f. none) p.ofile; cwd = none });
  closed = k.closed ++ opens p.ofile;
  put = k.put ++ one p.cwd;
}

-- The loop of `reparent` with `rounds` processes to go, from index `j` on.
pub reparent_from : (me p init rounds j : ℕ) → List Proc → Outcome (List Proc)
reparent_from me p init zero j ps = ok ps
reparent_from me p init (suc rounds) j ps = do
  pp ← fetch j ps
  ps' ←
      if is_me pp.parent p
      then wakeup (some me) (at_proc init) (set ps j (record pp { parent = some init }))
      else ok ps
  reparent_from me p init rounds (j + 1) ps'

pub reparent : (me p init : ℕ) → List Proc → Outcome (List Proc)
reparent me p init ps = reparent_from me p init (length ps) 0 ps

abbrev parent_chan : Option ℕ → Chan
parent_chan none = nowhere
parent_chan (some i) = at_proc i

-- What `exit` and `exit_from_signal` share, up to the wakeup of the parent.
pub leave : ℕ → Kernel → Outcome Kernel
leave me k = do
  p ← fetch me k.proc
  let k1 : Kernel = close_all me p k
  ps ← reparent me me k.initproc k1.proc
  q ← fetch me ps
  ps' ← wakeup (some me) (parent_chan q.parent) ps
  ok (record k1 { proc = ps' })

-- The kernel when `exit` enters the scheduler, with the lock of the process held.
pub exit : (status me : ℕ) → Kernel → Outcome Kernel
exit status me k = if me == k.initproc then panic "init exiting" else do
  k1 ← leave me k
  p ← fetch me k1.proc
  q ← acquire p
  ok (record k1 { proc = set k1.proc me (record q { xstate = status; state = zombie }) })

-- The scheduler holds the lock of the process already.
pub exit_from_signal : (status me : ℕ) → Kernel → Outcome Kernel
exit_from_signal status me k = if me == k.initproc then panic "init exiting" else do
  k1 ← leave me k
  p ← fetch me k1.proc
  ok (record k1 { proc = set k1.proc me (record p { xstate = status; state = zombie }) })

-- What one scan of `wait` over the table finds: a zombie child that it frees, with its pid, exit
-- status, and the pages freed; one whose status cannot be copied out; or none, with `havekids`.
pub data Scan : Type 0 where
  reaped : (pid xstate : ℕ) → List Proc → List ℕ → Scan
  bad_address : List Proc → Scan
  no_zombie : Bool → List Proc → Scan

abbrev pub behind : Proc → Scan → Scan
behind p (reaped pid x ps pages) = reaped pid x (p ∷ ps) pages
behind p (bad_address ps) = bad_address (p ∷ ps)
behind p (no_zombie b ps) = no_zombie b (p ∷ ps)

abbrev pub with_kid : Proc → Scan → Scan
with_kid p (no_zombie b ps) = no_zombie true (p ∷ ps)
with_kid p s = behind p s

-- `addr_ok x` tells whether the status `x` can be left at the caller's address: the address is 0,
-- or `copyout` succeeds.
module _ (addr_ok : ℕ → Bool) (me : ℕ) where
  unfoldable pub wait_scan : List Proc → Outcome Scan
  wait_scan [] = ok (no_zombie false [])
  wait_scan (pp ∷ ps) =
      let rest = wait_scan ps in
      let reap : Proc → Outcome Scan =
        λ q. release (freeproc q).0 >>= λ r. ok (reaped q.pid q.xstate (r ∷ ps) (freeproc q).1) in
      let refuse : Proc → Outcome Scan = λ q. release q >>= λ r. ok (bad_address (r ∷ ps)) in
      let pass : Proc → Outcome Scan = λ q. release q >>= λ r. rest >>= λ s. ok (with_kid r s) in
      let seen : Proc → Outcome Scan = λ q.
        (if is_zombie q.state then (if addr_ok q.xstate then reap q else refuse q) else pass q) in
      if is_me pp.parent me then (acquire pp >>= seen) else (rest >>= λ s. ok (behind pp s))

-- How a round of `wait` ends: it returns a pid, or -1, or sleeps on its own address.
pub data Waited : Type 0 where
  got : ℕ → List Proc → Waited
  failed : List Proc → Waited
  dozes : List Proc → Waited

-- `gone` is what `killed(p)` answers.
pub wait_round : (ℕ → Bool) → (me : ℕ) → (gone : Bool) → List Proc → Outcome Waited
wait_round addr_ok me gone ps = wait_scan addr_ok me ps >>= elim [
  | reaped pid x qs pages ↦ ok (got pid qs)
  | bad_address qs ↦ ok (failed qs)
  | no_zombie kids qs ↦ ok (if not kids || gone then failed qs else dozes qs)
]

-- The tests of `sched`: the lock is held by this CPU, `noff`, the state, the interrupt flag.
pub sched : (holding : Bool) (noff : ℕ) (interrupts : Bool) → Proc → Outcome Proc
sched holding noff interrupts p =
    if not holding
    then panic "sched p->lock"
    else if not (noff == 1)
    then panic "sched locks"
    else if is_running p.state
    then panic "sched running"
    else if interrupts
    then panic "sched interruptible"
    else ok p

-- The process as `yield` and `sleep` hand it to the scheduler.
pub yield_first : Proc → Outcome Proc
yield_first p = do q ← acquire p; ok (record q { state = runnable })

pub sleep_first : Chan → Proc → Outcome Proc
sleep_first c p = do q ← acquire p; ok (record q { chan = c; state = sleeping })

-- `sleep` after the scheduler comes back, with what it returns.
pub sleep_last : Proc → Outcome (Proc × Bool)
sleep_last p = do q ← release (record p { chan = nowhere }); ok (q, p.signaling.in_handler)
