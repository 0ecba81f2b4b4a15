-- ===== src/Proc/Alloc.antt =====
-- `allocproc` and `freeproc` of kernel/proc.c. What `kalloc` and `proc_pagetable` return is given;
-- the pages that go back to `kfree` and the page table to `proc_freepagetable` are listed.
use csse332_project.Base.{
  ℕ, ◌+◌, ◌-◌, ◌^◌, ◌≡◌, refl, sym, inl, inr, Bool, true, false, not, Option, none, some, List, [],
  ◌∷◌, ◌++◌, ◌==◌, if◌then◌else◌, Outcome, ok, fault, ◌>>=◌, get_elem?, set, arith, update,
  Bool-cases,
}
use csse332_project.Proc.{
  acquire, unheld, held_here, Proc, Kernel, unused, used, is_unused, nowhere, release, allocpid,
}

abbrev pub null : ℕ
null = 0

abbrev one_page : ℕ → List ℕ
one_page a = if a == null then [] else a ∷ []

-- The process, and what is freed: `trapframe`, `signaling.stack`, `pagetable`.
unfoldable pub freeproc : Proc → Proc × List ℕ
freeproc p = (
  record p {
    trapframe = null;
    signaling = record (p.signaling) { stack = null };
    pagetable = null;
    sz = 0;
    pid = 0;
    parent = none;
    name = [];
    chan = nowhere;
    killed = false;
    xstate = 0;
    state = unused;
  },
  one_page p.trapframe ++ (one_page p.signaling.stack ++ one_page p.pagetable),
)

-- The loop of `allocproc`: the index of the first unused process, whose lock it then holds.
pub find_unused : ℕ → List Proc → Outcome (Option ℕ)
find_unused i [] = ok none
find_unused i (p ∷ ps) =
    let rest = find_unused (i + 1) ps in
    acquire p >>= λ q. if is_unused q.state then ok (some i) else rest

-- What the allocations of one call return, 0 for none: the trapframe page, the page of the signal
-- stack, which is asked for only if the first is there, and the page table.
pub record Pages : Type 0 where
  pub frame_page : ℕ
  pub stack_page : ℕ
  pub table : ℕ

-- `alarm` and `message` are ignored by default.
abbrev default_handlers : (ℕ → ℕ) → ℕ → ℕ
default_handlers h = update (update h 0 (2 ^ 64 - 1)) 1 (2 ^ 64 - 1)

-- The new process with its trapframe, stack and page table.
abbrev with_pages : Pages → Proc → Proc
with_pages g p = record p {
  trapframe = g.frame_page;
  signaling = record (p.signaling) {
    stack = if g.frame_page == null then p.signaling.stack else g.stack_page;
  };
  pagetable =
      if g.frame_page == null
      then p.pagetable
      else if g.stack_page == null
      then p.pagetable
      else g.table;
}

-- `forkret` and the page size are those of the kernel's image.
module _ (forkret page_size : ℕ) where
  -- From `found:` on, at an unused process whose lock is held: the process, whether the call
  -- succeeds, and what is freed.
  pub setup : Pages → ℕ → Proc → Outcome (Proc × Bool × List ℕ)
  setup g pid p =
      let q : Proc = with_pages g (record p { pid = pid; state = used }) in
      let fail : Outcome (Proc × Bool × List ℕ) =
        (release (freeproc q).0 >>= λ r. ok (r, false, (freeproc q).1)) in
      if g.frame_page == null
      then fail
      else if g.stack_page == null
      then fail
      else if g.table == null
      then fail
      else ok (
        record q {
          context = record { ra = forkret; sp = q.kstack + page_size; saved = λ _. 0 };
          signaling = record (q.signaling) { handlers = default_handlers q.signaling.handlers };
        },
        true,
        [],
      )

-- The first `k` of the allocations that were made.
abbrev pub handed_out : Pages → List ℕ
handed_out g =
    if g.frame_page == null
    then []
    else if g.stack_page == null
    then g.frame_page ∷ []
    else if g.table == null
    then g.frame_page ∷ g.stack_page ∷ []
    else g.frame_page ∷ g.stack_page ∷ g.table ∷ []

-- A slot that nothing hangs from, as `freeproc` leaves it.
pub record IsBare (p : Proc) : Type 0 where
  pub no_frame : p.trapframe ≡ null
  pub no_stack : p.signaling.stack ≡ null
  pub no_table : p.pagetable ≡ null

pub freeproc-IsBare : (p : Proc) → IsBare (freeproc p).0
unfolding freeproc
freeproc-IsBare p = record { no_frame = refl; no_stack = refl; no_table = refl }

abbrev all_there : Pages → Bool
all_there g =
    if g.frame_page == null
    then false
    else if g.stack_page == null
    then false
    else not (g.table == null)

-- What a call leaves in the slot `p`, where `b` tells whether it succeeds.
pub record Made (p : Proc) (g : Pages) (pid : ℕ) (q : Proc) (b : Bool) (freed : List ℕ)
    : Type 0 where
  pub succeeds : b ≡ all_there g
  pub returned : freed ≡ (if b then [] else handed_out g)
  pub lock : q.lock ≡ (if b then held_here else unheld)
  pub slot : is_unused q.state ≡ not b
  pub id : q.pid ≡ (if b then pid else 0)
  pub struck : q.killed ≡ (if b then p.killed else false)
  pub signals : q.signaling.count ≡ p.signaling.count
  pub queue : q.signaling.queue ≡ p.signaling.queue
  pub timer : q.alarm_set ≡ p.alarm_set

-- The process at the failing and at the succeeding return.
abbrev started : Pages → ℕ → Proc → Proc
started g pid p = with_pages g (record p { pid = pid; state = used })

abbrev undone : Pages → ℕ → Proc → Proc
undone g pid p = record (freeproc (started g pid p)).0 { lock = unheld }

abbrev ready : ℕ → ℕ → Pages → ℕ → Proc → Proc
ready forkret page_size g pid p =
    let q : Proc = started g pid p in
    record q {
      context = record { ra = forkret; sp = q.kstack + page_size; saved = λ _. 0 };
      signaling = record (q.signaling) { handlers = default_handlers q.signaling.handlers };
    }

undone-Made :
    (g : Pages) (pid : ℕ) (p : Proc)
    → IsBare p
    → all_there g ≡ false
    → Made p g pid (undone g pid p) false (freeproc (started g pid p)).1
unfolding freeproc
undone-Made g pid p bare e = record {
  succeeds = sym e;
  returned = ground (arith, bare.no_frame, bare.no_stack, bare.no_table);
  lock = refl;
  slot = refl;
  id = refl;
  struck = refl;
  signals = refl;
  queue = refl;
  timer = refl;
}

ready-Made :
    (forkret page_size : ℕ) (g : Pages) (pid : ℕ) (p : Proc)
    → p.lock ≡ held_here
    → all_there g ≡ true
    → Made p g pid (ready forkret page_size g pid p) true []
ready-Made forkret page_size g pid p l e = record {
  succeeds = sym e;
  returned = refl;
  lock = l;
  slot = refl;
  id = refl;
  struck = refl;
  signals = refl;
  queue = refl;
  timer = refl;
}

setup_fails :
    (forkret page_size : ℕ) (g : Pages) (pid : ℕ) (p : Proc)
    → p.lock ≡ held_here
    → all_there g ≡ false
    → setup forkret page_size g pid p ≡ ok (undone g pid p, false, (freeproc (started g pid p)).1)
unfolding setup freeproc
setup_fails forkret page_size g pid p l e = ground arith

setup_works :
    (forkret page_size : ℕ) (g : Pages) (pid : ℕ) (p : Proc)
    → all_there g ≡ true
    → setup forkret page_size g pid p ≡ ok (ready forkret page_size g pid p, true, [])
unfolding setup freeproc
setup_works forkret page_size g pid p e = ground arith

-- `allocproc` at an unused slot from which nothing hangs succeeds exactly if all three allocations
-- do, and then keeps the slot's lock and gives it the pid. Otherwise it gives back exactly the
-- pages that it was given, and leaves the slot unused and unlocked. Either way the slot's queued
-- signals and its alarm are those of its last user, and on success so is its `killed` flag.
pub setup-Made :
    (forkret page_size : ℕ) (g : Pages) (pid : ℕ) (p : Proc)
    → p.lock ≡ held_here
    → IsBare p
    → (q : Proc) × (b : Bool) × (freed : List ℕ) × (setup forkret page_size g pid p
        ≡ ok (q, b, freed))
      × Made p g pid q b freed
setup-Made forkret page_size g pid p l bare = elim (Bool-cases (all_there g)) [
  | inr e ↦ (
    undone g pid p,
    false,
    (freeproc (started g pid p)).1,
    setup_fails forkret page_size g pid p l e,
    undone-Made g pid p bare e,
  )
  | inl e ↦ (
    ready forkret page_size g pid p,
    true,
    [],
    setup_works forkret page_size g pid p e,
    ready-Made forkret page_size g pid p l e,
  )
]

-- The index of the new process, if there is one, and what is freed.
pub allocproc : (forkret page_size : ℕ) → Pages → Kernel → Outcome (Kernel × Option ℕ × List ℕ)
allocproc forkret page_size g k = find_unused 0 k.proc >>= elim [
  | none ↦ ok (k, none, [])
  | some i ↦
      let (k', pid) = allocpid k in
      elim (get_elem? k.proc i) [
        | none ↦ fault
        | some p ↦
            setup forkret page_size g pid (record p { lock = held_here }) >>= λ (q, b, freed).
            ok (record k' { proc = set k.proc i q }, if b then some i else none, freed)
      ]
]
