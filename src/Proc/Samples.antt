-- ===== src/Proc/Samples.antt =====
-- Small processes and tables for the tests.
use csse332_project.Base.{false, none, some, List, [], ◌∷◌, ◌^◌, ◌-◌}
use csse332_project.Proc.{
  unheld, Proc, Signal, Signaling, unused, sleeping, running, zombie, nowhere, at,
}

abbrev pub no_signal : Signal
no_signal = record { type = 0; sender_pid = 0; payload = 0 }

-- Both handlers ignore.
abbrev pub quiet : Signaling
quiet = record {
  queue = λ _. no_signal;
  handlers = λ _. 2 ^ 64 - 1;
  stack = 0;
  read = 0;
  write = 0;
  count = 0;
  in_handler = false;
}

abbrev pub blank : Proc
blank = record {
  lock = unheld;
  state = unused;
  chan = nowhere;
  killed = false;
  xstate = 0;
  pid = 0;
  signaling = quiet;
  alarm_set = false;
  cycles_at_alarm = 0;
  parent = none;
  kstack = 8192;
  sz = 0;
  pagetable = 0;
  trapframe = 0;
  frame = record { epc = 0; ra = 0; sp = 0; gp = 0; a0 = 0; a1 = 0; others = λ _. 0 };
  context = record { ra = 0; sp = 0; saved = λ _. 0 };
  ofile = [];
  cwd = none;
  name = [];
}

-- init, a sleeper with pid 2, and a zombie child of init with pid 3.
abbrev pub init_proc : Proc
init_proc = record blank { state = running; pid = 1 }

abbrev pub sleeper : Proc
sleeper = record blank { state = sleeping; chan = at 77; pid = 2; parent = some 0 }

abbrev pub dead : Proc
dead = record blank { state = zombie; pid = 3; xstate = 5; parent = some 0 }

abbrev pub three : List Proc
three = init_proc ∷ sleeper ∷ dead ∷ []
