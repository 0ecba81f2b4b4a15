-- ===== src/Console.antt =====
-- kernel/console.c, the input buffer: consoleintr appends and erases at `e`, commits lines at `w`,
-- and consoleread takes at `r`. The counters are free-running 32-bit words.
pub mod Typing
pub mod Reading
mod Tests
use csse332_project.Base.{
  ℕ, zero, suc, ◌+◌, ◌-◌, ◌%◌, ◌^◌, Bool, true, false, not, ◌&&◌, ◌||◌, Option, none, some, List,
  [], ◌∷◌, ◌++◌, ◌==◌, ltb, if◌then◌else◌, update, u32, u64, sub32,
}

abbrev pub input_size : ℕ
input_size = 128

-- `C('D')` and its kin
abbrev pub control : ℕ → ℕ
control x = x - b'@'

abbrev pub newline : ℕ
newline = 10

pub record Cons : Type 0 where
  pub buf : ℕ → ℕ
  pub r : ℕ
  pub w : ℕ
  pub e : ℕ

-- What an interrupt leaves: the characters that consputc sends, and whether readers are woken.
pub record Typed : Type 0 where
  pub cons : Cons
  pub echo : List ℕ
  pub woken : Bool

-- `consputc(BACKSPACE)`
abbrev pub rubout : List ℕ
rubout = 8 ∷ b' ' ∷ 8 ∷ []

abbrev pub quiet : Cons → Typed
quiet k = record { cons = k; echo = []; woken = false }

pub erase : Cons → Cons
erase k = record k { e = sub32 k.e 1 }

-- The loop of `C('U')`, with `rounds` characters behind `w`.
pub kill_line : (rounds : ℕ) → Cons → Typed
kill_line zero k = quiet k
kill_line (suc rounds) k =
    let rest = kill_line rounds (erase k) in
    if not (k.e == k.w) && not (k.buf (sub32 k.e 1 % input_size) == newline)
    then record rest { echo = rubout ++ rest.echo }
    else quiet k

-- `cons.buf[cons.e++ % INPUT_BUF_SIZE] = c`
pub put : Cons → ℕ → Cons
put k c = record k { buf = update k.buf (k.e % input_size) c; e = u32 (k.e + 1) }

-- A carriage return is read as a newline.
abbrev pub translate : ℕ → ℕ
translate c = if c == 13 then newline else c

-- The line is complete, or the buffer is full.
abbrev pub commits : Cons → ℕ → Bool
commits k c = (c == newline) || (c == control b'D') || (sub32 k.e k.r == input_size)

-- The `default` case, for a byte `c`.
pub type_char : Cons → ℕ → Typed
type_char k c =
    let t = translate c in
    let k' = put k t in
    if not (c == 0) && ltb (sub32 k.e k.r) input_size
    then record {
      cons = if commits k' t then record k' { w = k'.e } else k';
      echo = t ∷ [];
      woken = commits k' t;
    }
    else quiet k

-- `C('P')` prints the process list, which changes nothing here.
pub consoleintr : Cons → ℕ → Typed
consoleintr k c =
    if c == control b'P'
    then quiet k
    else if c == control b'U'
    then kill_line (sub32 k.e k.w) k
    else if (c == control b'H') || (c == 0x7f)
    then (if not (k.e == k.w)
        then record { cons = erase k; echo = rubout; woken = false }
        else quiet k)
    else type_char k c

-- How a stretch of consoleread ends: with the result, `none` for -1, or asleep with `n` bytes of
-- room left.
pub data End : Type 0 where
  returns : Option ℕ → End
  sleeps : (n : ℕ) → End

pub record Taken : Type 0 where
  pub out : List ℕ
  pub ends : End
  pub cons : Cons

-- `copyout a b` tells whether `either_copyout` of the byte `b` to `a` succeeds; `killed` is what
-- `killed(myproc())` answers.
module _ (copyout : ℕ → ℕ → Bool) (killed : Bool) (target : ℕ) where
  -- From the call, or a wakeup, on, with `n` bytes of room left.
  pub consoleread : (n dst : ℕ) → Cons → Taken
  consoleread zero dst k = record { out = []; ends = returns (some target); cons = k }
  consoleread (suc n) dst k =
      let c = k.buf (k.r % input_size) in
      let k' = record k { r = u32 (k.r + 1) } in
      let rest = consoleread n (u64 (dst + 1)) k' in
      if k.r == k.w
      then record { out = []; ends = if killed then returns none else sleeps (suc n); cons = k }
      else if c == control b'D'
      then record {
        out = [];
        ends = returns (some (target - suc n));
        cons = if ltb (suc n) target then k else k';
      }
      else if not (copyout dst c)
      then record { out = []; ends = returns (some (target - suc n)); cons = k' }
      else if c == newline
      then record { out = c ∷ []; ends = returns (some (target - n)); cons = k' }
      else record rest { out = c ∷ rest.out }

-- `copyin a` is the byte that `either_copyin` finds at `a`, if it is mapped. The bytes go to
-- uartputc; with them, the result.
pub consolewrite : (copyin : ℕ → Option ℕ) (src rounds i : ℕ) → List ℕ × ℕ
consolewrite copyin src zero i = ([], i)
consolewrite copyin src (suc rounds) i =
    let rest = consolewrite copyin src rounds (i + 1) in
    elim (copyin (u64 (src + i))) [ none ↦ ([], i) | some c ↦ (c ∷ rest.0, rest.1) ]
