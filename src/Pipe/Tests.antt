-- ===== src/Pipe/Tests.antt =====
-- Concrete runs of a pipe, and the theorems at concrete pipes.
use csse332_project.Base.{
  List, ℕ, ◌^◌, ◌-◌, ◌≤◌, ◌≡◌, refl, Bool, true, false, Option, some, none, [], ◌∷◌, ◌++◌, arith,
  ltb, if◌then◌else◌, length, update,
}
use csse332_project.Pipe.{
  Pipe, pipewrite, write_loop, piperead, read_loop, store, advance, pipe_of, returns, at_nread,
}
use csse332_project.Pipe.Contents.{IsValid, contents}
use csse332_project.Pipe.Write.{Wrote, pipewrite-Wrote}
use csse332_project.Pipe.System.{
  System, Received, Step, Reach, start, after_write, after_read, pipe_fifo,
}

abbrev zeros : ℕ → ℕ
zeros i = 0

-- The user's bytes are their addresses; from 104 on nothing is mapped.
abbrev user_bytes : ℕ → Option ℕ
user_bytes a = if ltb a 104 then some a else none

abbrev never : ℕ → Bool
never i = false

-- Both counters stand just below 2^32: the writes wrap.
abbrev near_wrap : Pipe
near_wrap = record {
  bytes = zeros;
  nread = 2 ^ 32 - 1;
  nwrite = 2 ^ 32 - 1;
  readopen = true;
  writeopen = true;
}

near_wrap-IsValid : IsValid near_wrap
near_wrap-IsValid = omega arith

wrapped_contents :
    contents (pipe_of (pipewrite user_bytes never 100 3 0 near_wrap)) ≡ 100 ∷ 101 ∷ 102 ∷ []
unfolding pipewrite write_loop store
wrapped_contents = refl

-- `copyin` fails at the fifth byte.
short_write :
    pipewrite user_bytes never 100 8 0 near_wrap
    ≡ returns (some 4) (at_nread ∷ []) (pipe_of (pipewrite user_bytes never 100 8 0 near_wrap))
unfolding pipewrite write_loop store
short_write = refl

pipewrite-Wrote_example :
    Wrote user_bytes never 100 3 0 near_wrap (pipewrite user_bytes never 100 3 0 near_wrap)
pipewrite-Wrote_example = pipewrite-Wrote user_bytes never 100 3 0 (omega arith) near_wrap-IsValid

abbrev all_copied : ℕ → ℕ → Bool
all_copied a b = true

-- Two bytes, 8 and 9, at the end of the buffer.
abbrev two_bytes : Pipe
two_bytes = record {
  bytes = update (update zeros 511 8) 0 9;
  nread = 511;
  nwrite = 513;
  readopen = true;
  writeopen = true;
}

read_two : (piperead all_copied 0 false 5 two_bytes).0 ≡ 8 ∷ 9 ∷ []
unfolding piperead read_loop advance
read_two = refl

-- The byte 8 leaves the pipe and reaches nobody.
byte_lost : contents (pipe_of (piperead (λ a b. false) 0 false 5 two_bytes).1) ≡ 9 ∷ []
unfolding piperead read_loop advance
byte_lost = refl

abbrev written : System
written = after_write user_bytes never 100 3 0 (start zeros)

abbrev read_back : System
read_back = after_read all_copied 0 2 false written

abbrev none_copied : ℕ → ℕ → Bool
none_copied a b = false

abbrev read_again : System
read_again = record (after_read none_copied 0 1 false read_back) { faults = 1 }

pipe_fifo_example :
    (taken : List ℕ) × (read_again.sent ≡ taken ++ contents read_again.pipe)
    × Received read_again taken
    × ((read_again.faults ≡ 0) → read_again.received ≡ taken)
    × (length (contents read_again.pipe) ≤ 512)
pipe_fifo_example = pipe_fifo {junk = zeros} (
    Reach.next
      (Reach.next (Reach.next Reach.begin (Step.write user_bytes never 100 3 0 (omega arith) refl))
        (Step.read all_copied 0 2 false (λ a b. refl) refl))
      (Step.fault none_copied 0 1 false refl))
