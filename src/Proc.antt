-- ===== src/Proc.antt =====
-- kernel/proc.h and kernel/signal.h: a process, its signals, and the process table; and the
-- functions of kernel/proc.c that look one process up in the table. The table is the list `proc`,
-- and a pointer to a process is its index. A function runs here with no other CPU in between, on
-- locks as it finds them: `acquire` of a lock that another CPU holds never returns (`spin`).
pub mod Table
pub mod Samples
pub mod Life
pub mod Alloc
pub mod Wait
pub mod Fork
mod Tests
use csse332_project.Base.{
  ℕ, zero, suc, ◌+◌, Bool, true, false, not, ◌&&◌, ◌||◌, Option, none, some, List, [], ◌∷◌, ◌==◌,
  if◌then◌else◌, Outcome, ok, panic, spin, ◌>>=◌, u32,
}

-- `signal_t`. The type is an `int`, kept as its 32-bit pattern.
pub record Signal : Type 0 where
  pub type : ℕ
  pub sender_pid : ℕ
  pub payload : ℕ

-- `struct signaling`. A handler is a user address or one of two special values.
pub record Signaling : Type 0 where
  pub queue : ℕ → Signal
  pub handlers : ℕ → ℕ
  pub stack : ℕ
  pub read : ℕ
  pub write : ℕ
  pub count : ℕ
  pub in_handler : Bool

pub data ProcState : Type 0 where
  unused used sleeping runnable running zombie : ProcState

abbrev pub is_unused : ProcState → Bool
is_unused unused = true
is_unused _ = false

abbrev pub is_sleeping : ProcState → Bool
is_sleeping sleeping = true
is_sleeping _ = false

abbrev pub is_runnable : ProcState → Bool
is_runnable runnable = true
is_runnable _ = false

abbrev pub is_running : ProcState → Bool
is_running running = true
is_running _ = false

abbrev pub is_zombie : ProcState → Bool
is_zombie zombie = true
is_zombie _ = false

-- What a process sleeps on: nothing, the address of a process, or another address.
pub data Chan : Type 0 where
  nowhere : Chan
  at_proc : ℕ → Chan
  at : ℕ → Chan

abbrev pub same_chan : Chan → Chan → Bool
same_chan nowhere nowhere = true
same_chan (at_proc i) (at_proc j) = i == j
same_chan (at a) (at b) = a == b
same_chan _ _ = false

-- `struct trapframe`: the registers that the signal code sets, and the rest by their offset.
pub record Trapframe : Type 0 where
  pub epc : ℕ
  pub ra : ℕ
  pub sp : ℕ
  pub gp : ℕ
  pub a0 : ℕ
  pub a1 : ℕ
  pub others : ℕ → ℕ

-- `struct context`
pub record Context : Type 0 where
  pub ra : ℕ
  pub sp : ℕ
  pub saved : ℕ → ℕ

-- The lock of a process, as `holding` on this CPU sees it.
pub data Lock : Type 0 where
  unheld : Lock
  held_here : Lock
  held_elsewhere : Lock

-- `struct proc`. A null pointer to a page is 0; `frame` is what `trapframe` points to; `killed` and
-- `alarm_set` are flags.
pub record Proc : Type 0 where
  pub lock : Lock
  pub state : ProcState
  pub chan : Chan
  pub killed : Bool
  pub xstate : ℕ
  pub pid : ℕ
  pub signaling : Signaling
  pub alarm_set : Bool
  pub cycles_at_alarm : ℕ
  pub parent : Option ℕ
  pub kstack : ℕ
  pub sz : ℕ
  pub pagetable : ℕ
  pub trapframe : ℕ
  pub frame : Trapframe
  pub context : Context
  pub ofile : List (Option ℕ)
  pub cwd : Option ℕ
  pub name : List ℕ

abbrev pub acquire : Proc → Outcome Proc
acquire p = elim p.lock [
  | unheld ↦ ok (record p { lock = held_here })
  | held_here ↦ panic "acquire"
  | held_elsewhere ↦ spin
]

abbrev pub release : Proc → Outcome Proc
release p = elim p.lock [
  | unheld ↦ panic "release"
  | held_here ↦ ok (record p { lock = unheld })
  | held_elsewhere ↦ panic "release"
]

abbrev pub is_me : Option ℕ → ℕ → Bool
is_me none i = false
is_me (some m) i = m == i

-- The body of the loop of `wakeup`, under the lock.
abbrev pub woken : Chan → Proc → Proc
woken c p = if is_sleeping p.state && same_chan p.chan c then record p { state = runnable } else p

pub wake_one : Chan → Proc → Outcome Proc
wake_one c p = do q ← acquire p; release (woken c q)

-- `me` is `myproc()`, and `i` the index of the first process of the list.
pub wakeup_from : Option ℕ → Chan → ℕ → List Proc → Outcome (List Proc)
wakeup_from me c i [] = ok []
wakeup_from me c i (p ∷ ps) = do
  p' ← if is_me me i then ok p else wake_one c p
  ps' ← wakeup_from me c (i + 1) ps
  ok (p' ∷ ps')

pub wakeup : Option ℕ → Chan → List Proc → Outcome (List Proc)
wakeup me c ps = wakeup_from me c 0 ps

abbrev pub struck : Proc → Proc
struck p =
    if is_sleeping p.state
    then record p { killed = true; state = runnable }
    else record p { killed = true }

-- The flag tells whether `kill` returns 0, not -1.
pub kill : ℕ → List Proc → Outcome (List Proc × Bool)
kill pid [] = ok ([], false)
kill pid (p ∷ ps) = do
  q ← acquire p
  let hit : Outcome (List Proc × Bool) = (release (struck q) >>= λ r. ok (r ∷ ps, true))
  let rest : Outcome (List Proc × Bool) = do
    r ← release q
    (ps', found) ← kill pid ps
    ok (r ∷ ps', found)
  if q.pid == pid then hit else rest

pub setkilled : Proc → Outcome Proc
setkilled p = do q ← acquire p; release (record q { killed = true })

pub killed : Proc → Outcome (Proc × Bool)
killed p = do q ← acquire p; r ← release q; ok (r, q.killed)

-- The rest of the kernel's variables that these functions use; `fileclose` and `iput` are called on
-- the files and inodes of the two lists, in order.
pub record Kernel : Type 0 where
  pub proc : List Proc
  pub nextpid : ℕ
  pub initproc : ℕ
  pub ticks : ℕ
  pub closed : List ℕ
  pub put : List ℕ

pub allocpid : Kernel → Kernel × ℕ
allocpid k = (record k { nextpid = u32 (k.nextpid + 1) }, k.nextpid)
