-- ===== src/Pipe/System.antt =====
-- Any number of readers and writers of one pipe: their stretches, in any order.
use csse332_project.Base.{
  ℕ, zero, suc, ◌+◌, ◌≤◌, ◌≡◌, refl, Bool, true, false, Option, none, some, List, [], ◌∷◌, ◌++◌,
  append_assoc, arith, length, length-append, u64, sub32, subst, ◌⊎◌, inl, inr, ◌∙◌, ap, ap₂, sym,
}
use csse332_project.Pipe.{
  Pipe, Stretch, sleeps, returns, pipe_of, pipe_init, pipe_size, pipewrite, piperead, pipeclose,
}
use csse332_project.Pipe.Contents.{IsValid, contents, pipe_init-IsValid, length-contents}
use csse332_project.Pipe.Write.{Fetched, Wrote, pipewrite-Wrote}
use csse332_project.Pipe.Read.{Why, Result, item, piperead-Result}

-- The user's bytes from offset `i` on, `m` of them.
pub fetch_list : (ℕ → Option ℕ) → (addr i m : ℕ) → List ℕ
fetch_list copyin addr i zero = []
fetch_list copyin addr i (suc m) = elim (copyin (u64 (addr + i))) [
  | none ↦ []
  | some x ↦ x ∷ fetch_list copyin addr (i + 1) m
]

fetch_list-Fetched :
    (copyin : ℕ → Option ℕ) (addr i : ℕ) (xs : List ℕ)
    → Fetched copyin addr i xs
    → fetch_list copyin addr i (length xs) ≡ xs
unfolding fetch_list
fetch_list-Fetched copyin addr i [] f = refl
fetch_list-Fetched copyin addr i (x ∷ xs) f =
    rw f.0 (ap (λ l. x ∷ l) (fetch_list-Fetched copyin addr (i + 1) xs f.1))

-- `b` is `a` without `k` of its elements.
pub data Thins : ℕ → List ℕ → List ℕ → Type 0 where
  end : Thins 0 [] []
  keep : {k : ℕ} {a b : List ℕ} → (x : ℕ) → Thins k a b → Thins k (x ∷ a) (x ∷ b)
  drop : {k : ℕ} {a b : List ℕ} → (x : ℕ) → Thins k a b → Thins (suc k) (x ∷ a) b

Thins-append :
    {k j : ℕ} {a b c d : List ℕ} → Thins k a b → Thins j c d → Thins (k + j) (a ++ c) (b ++ d)
Thins-append {j = j} {c = c} {d = d} end u = subst (λ n. Thins n c d) (omega arith) u
Thins-append (keep x t) u = keep x (Thins-append t u)
Thins-append {j = j} {c = c} {d = d} (drop {k} {a} {b} x t) u =
    subst (λ n. Thins n (x ∷ a ++ c) (b ++ d)) (omega arith) (drop x (Thins-append t u))

Thins-refl : (a : List ℕ) → Thins 0 a a
Thins-refl [] = end
Thins-refl (x ∷ a) = keep x (Thins-refl a)

-- The pipe, all that writers have put into it, all that readers have got, and how many reads ran
-- with a `copyout` that may fail.
pub record System : Type 0 where
  pub pipe : Pipe
  pub sent : List ℕ
  pub received : List ℕ
  pub faults : ℕ

-- How many bytes a stretch of `pipewrite` stored.
abbrev pub stored : Pipe → Pipe → ℕ
stored p q = sub32 q.nwrite p.nwrite

abbrev pub after_write : (ℕ → Option ℕ) → (ℕ → Bool) → (addr n i : ℕ) → System → System
after_write copyin killed addr n i s =
    let q = pipe_of (pipewrite copyin killed addr n i s.pipe) in
    record s { pipe = q; sent = s.sent ++ fetch_list copyin addr i (stored s.pipe q) }

abbrev pub after_read : (ℕ → ℕ → Bool) → (addr n : ℕ) → Bool → System → System
after_read copyout addr n killed s =
    let (out, e) = piperead copyout addr killed n s.pipe in
    record s { pipe = pipe_of e; received = s.received ++ out }

-- In `read` every `copyout` succeeds, in `fault` any may fail.
pub data Step (s t : System) : Type 0 where
  write :
      (copyin : ℕ → Option ℕ) (killed : ℕ → Bool) (addr n i : ℕ)
      → i ≤ n
      → t ≡ after_write copyin killed addr n i s
      → Step s t
  read :
      (copyout : ℕ → ℕ → Bool) (addr n : ℕ) (killed : Bool)
      → ((a b : ℕ) → copyout a b ≡ true)
      → t ≡ after_read copyout addr n killed s
      → Step s t
  fault :
      (copyout : ℕ → ℕ → Bool) (addr n : ℕ) (killed : Bool)
      → t ≡ record (after_read copyout addr n killed s) { faults = suc s.faults }
      → Step s t
  close : (writable : Bool) → t ≡ record s { pipe = (pipeclose s.pipe writable).pipe } → Step s t

abbrev pub start : (ℕ → ℕ) → System
start junk = record { pipe = pipe_init junk; sent = []; received = []; faults = 0 }

pub data Reach (junk : ℕ → ℕ) : System → Type 0 where
  begin : Reach junk (start junk)
  next : {s t : System} → Reach junk s → Step s t → Reach junk t

-- The bytes received are those taken out of the pipe, less one at most for each fault.
abbrev pub Received : System → List ℕ → Type 0
Received s taken = (k : ℕ) × Thins k taken s.received × (k ≤ s.faults)

pub record Inv (s : System) : Type 0 where
  pub valid : IsValid s.pipe
  pub taken : List ℕ
  pub got : Received s taken
  pub fifo : s.sent ≡ taken ++ contents s.pipe

Inv-start : (junk : ℕ → ℕ) → Inv (start junk)
unfolding pipe_init
Inv-start junk = record {
  valid = pipe_init-IsValid junk;
  taken = [];
  got = (0, end, omega arith);
  fifo = refl;
}

stored-Wrote :
    (copyin : ℕ → Option ℕ) (killed : ℕ → Bool) (addr n i : ℕ) (p : Pipe) (e : Stretch)
    → IsValid p
    → (w : Wrote copyin killed addr n i p e) → stored p (pipe_of e) ≡ length w.sent
stored-Wrote copyin killed addr n i p e v w = omega (
  arith,
  w.reader,
  w.valid,
  length-contents p,
  length-contents (pipe_of e),
  ap length w.holds,
  length-append (contents p) w.sent,
)

Inv-write :
    (copyin : ℕ → Option ℕ) (killed : ℕ → Bool) (addr n i : ℕ) (s : System)
    → i ≤ n
    → Inv s
    → Inv (after_write copyin killed addr n i s)
Inv-write copyin killed addr n i s h inv = record {
  valid = w.valid;
  taken = inv.taken;
  got = inv.got;
  fifo = joined;
}
  where
    w : Wrote copyin killed addr n i s.pipe (pipewrite copyin killed addr n i s.pipe)
    w = pipewrite-Wrote copyin killed addr n i h inv.valid

    joined :
        (after_write copyin killed addr n i s).sent
        ≡ inv.taken ++ contents (pipe_of (pipewrite copyin killed addr n i s.pipe))
    joined =
        ap₂ ◌++◌ inv.fifo (
          ap (fetch_list copyin addr i) (stored-Wrote copyin killed addr n i s.pipe _ inv.valid w)
          ∙ fetch_list-Fetched copyin addr i w.sent w.fetched)
        ∙ append_assoc inv.taken (contents s.pipe) w.sent
        ∙ ap (λ l. inv.taken ++ l) (sym w.holds)

-- What a stretch of `piperead` does to the bytes: `lost` is taken out and not received.
record Kept (p : Pipe) (out : List ℕ) (e : Stretch) : Type 0 where
  valid : IsValid (pipe_of e)
  lost : Option ℕ
  split : contents p ≡ (out ++ item lost) ++ contents (pipe_of e)

-- With a working `copyout` nothing is lost.
abbrev Works : (ℕ → ℕ → Bool) → Option ℕ → Type 0
Works copyout lost = ((a b : ℕ) → copyout a b ≡ true) → lost ≡ none

Why-Works :
    (copyout : ℕ → ℕ → Bool) (addr n m : ℕ) (q : Pipe) (l : Option ℕ)
    → Why copyout addr n m q l
    → Works copyout l
Why-Works copyout addr n m q none y works = refl
Why-Works copyout addr n m q (some b) y works = cc (works (u64 (addr + m)) b)

Result-Kept :
    (copyout : ℕ → ℕ → Bool) (addr n : ℕ) (killed : Bool) (p : Pipe) (out : List ℕ) (e : Stretch)
    → IsValid p
    → Result copyout addr n killed p out e
    → (k : Kept p out e) × Works copyout k.lost
Result-Kept copyout addr n killed p out (sleeps i c w q) v r =
    rw (r.0, r.5) (record { valid = v; lost = none; split = refl }, λ works. refl)
Result-Kept copyout addr n killed p out (returns none w q) v r =
    rw (r.0, r.4) (record { valid = v; lost = none; split = refl }, λ works. refl)
Result-Kept copyout addr n killed p out (returns (some m) w q) v r =
    let t = r.2 in
    (
      record {
        valid = t.valid;
        lost = t.lost;
        split = t.split ∙ sym (append_assoc out (item t.lost) (contents q));
      },
      Why-Works copyout addr n m q t.lost t.why,
    )

Thins-item : (l : Option ℕ) → (k : ℕ) × Thins k (item l) [] × (k ≤ 1) × ((l ≡ none) → k ≡ 0)
Thins-item none = (0, end, omega arith, λ e. refl)
Thins-item (some b) = (1, drop b end, omega arith, λ e. cc e)

append-nil : (a : List ℕ) → a ++ [] ≡ a
append-nil [] = refl
append-nil (x ∷ a) = ap (λ l. x ∷ l) (append-nil a)

Thins-whole : {k : ℕ} {a b : List ℕ} → Thins k a b → k ≡ 0 → b ≡ a
Thins-whole end e = refl
Thins-whole (keep x t) e = ap (λ l. x ∷ l) (Thins-whole t e)
Thins-whole (drop x t) e = absurd (omega (arith, e))

-- What `out` and `lost` add to the bytes taken.
Thins-out :
    {k j : ℕ} {a b : List ℕ} (out lost : List ℕ)
    → Thins k a b
    → Thins j lost []
    → Thins (k + j) (a ++ (out ++ lost)) (b ++ out)
Thins-out {k} {j} {a} {b} out lost t u =
    let both : Thins (0 + j) (out ++ lost) (out ++ []) = Thins-append (Thins-refl out) u in
    let alone : 0 + j ≡ j = omega arith in
    Thins-append t (
      subst (λ l. Thins j (out ++ lost) l) (append-nil out)
        (subst (λ n. Thins n (out ++ lost) (out ++ [])) alone both))

-- A read with `f` faults counted before and `g` after it.
Inv-read :
    (copyout : ℕ → ℕ → Bool) (addr n : ℕ) (killed : Bool) (s : System) (g : ℕ)
    → Inv s
    → (((a b : ℕ) → copyout a b ≡ true) × (g ≡ s.faults)) ⊎ (g ≡ suc s.faults)
    → Inv (record (after_read copyout addr n killed s) { faults = g })
Inv-read copyout addr n killed s g inv h =
    let (k, works) =
      Result-Kept copyout addr n killed s.pipe _ _ inv.valid
        (piperead-Result copyout addr n killed inv.valid) in
    let out = (piperead copyout addr killed n s.pipe).0 in
    let (m, thin, few) = inv.got in
    let (j, one, most, nothing) = Thins-item k.lost in
    record {
      valid = k.valid;
      taken = inv.taken ++ (out ++ item k.lost);
      got = (
        m + j,
        Thins-out out (item k.lost) thin one,
        elim h [
          | inl (all, same) ↦ omega (arith, few, same, nothing (works all))
          | inr more ↦ omega (arith, few, most, more)
        ],
      );
      fifo =
          inv.fifo
          ∙ ap (λ l. inv.taken ++ l) k.split
          ∙ sym (append_assoc inv.taken (out ++ item k.lost) _);
    }

Inv-close :
    (writable : Bool) (s : System)
    → Inv s
    → Inv (record s { pipe = (pipeclose s.pipe writable).pipe })
unfolding pipeclose
Inv-close true s inv = record {
  valid = omega (arith, inv.valid);
  taken = inv.taken;
  got = inv.got;
  fifo = inv.fifo;
}
Inv-close false s inv = record {
  valid = omega (arith, inv.valid);
  taken = inv.taken;
  got = inv.got;
  fifo = inv.fifo;
}

Step-Inv : {s t : System} → Step s t → Inv s → Inv t
Step-Inv {s} (write copyin killed addr n i h e) inv =
    rw e (Inv-write copyin killed addr n i s h inv)
Step-Inv {s} (read copyout addr n killed works e) inv =
    rw e (Inv-read copyout addr n killed s s.faults inv (inl (works, refl)))
Step-Inv {s} (fault copyout addr n killed e) inv =
    rw e (Inv-read copyout addr n killed s (suc s.faults) inv (inr refl))
Step-Inv {s} (close writable e) inv = rw e (Inv-close writable s inv)

Reach-Inv : {junk : ℕ → ℕ} {s : System} → Reach junk s → Inv s
Reach-Inv {junk} begin = Inv-start junk
Reach-Inv (next r st) = Step-Inv st (Reach-Inv r)

-- A pipe is a queue: whatever the order in which readers, writers and closers run, what was written
-- is what was taken out followed by what the buffer still holds, which is 512 bytes at most. What
-- readers have got is what was taken out, in order, less at most one byte for each read in which a
-- copyout may have failed; with no such read it is all that was taken out.
pub pipe_fifo :
    {junk : ℕ → ℕ} {s : System}
    → Reach junk s
    → (taken : List ℕ) × (s.sent ≡ taken ++ contents s.pipe)
      × Received s taken
      × ((s.faults ≡ 0) → s.received ≡ taken)
      × (length (contents s.pipe) ≤ pipe_size)
pipe_fifo {s = s} r =
    let inv = Reach-Inv r in
    (
      inv.taken,
      inv.fifo,
      inv.got,
      λ z. Thins-whole ((inv.got).1) (omega (arith, (inv.got).2, z)),
      omega (arith, inv.valid, length-contents s.pipe),
    )
