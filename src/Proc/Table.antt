-- ===== src/Proc/Table.antt =====
-- `wakeup` and `kill` on the whole process table.
use csse332_project.Base.{
  ℕ, zero, suc, ◌+◌, ◌≡◌, refl, sym, ap, subst, ◌∙◌, ◌⊎◌, inl, inr, Bool, true, false, ◌&&◌, Option,
  none, some, List, [], ◌∷◌, ◌==◌, if◌then◌else◌, ok, get_elem?, Bool-cases, arith,
}
use mathlib.Core.Option
use csse332_project.Proc.{
  Lock, unheld, held_here, Proc, Chan, release, is_me, woken, wake_one, wakeup_from, wakeup, struck,
  kill, is_sleeping, same_chan, runnable,
}

-- Taking a free lock and releasing it again leaves the process as it was.
pub relocked : (p : Proc) → p.lock ≡ unheld → record p { lock = unheld } ≡ p
relocked p e = ap (λ b. record p { lock = b }) (sym e)

-- The locks of all processes but the caller's own are free; `i` is the first index.
abbrev pub AllFree : Option ℕ → ℕ → List Proc → Type 0
AllFree me i [] = Unit
AllFree me i (p ∷ ps) = ((is_me me i ≡ true) ⊎ (p.lock ≡ unheld)) × AllFree me (i + 1) ps

woken-locked : (c : Chan) (p : Proc) → (woken c p).lock ≡ p.lock
woken-locked c p = ground arith

wake_one-unlocked :
    (c : Chan) (p : Proc)
    → wake_one c (record p { lock = unheld }) ≡ ok (woken c (record p { lock = unheld }))
unfolding wake_one
wake_one-unlocked c p = elim (Bool-cases (is_sleeping p.state && same_chan p.chan c)) [
  | inl t ↦ rw t
  | inr f ↦ rw f
]

wake_one-free : (c : Chan) (p : Proc) → p.lock ≡ unheld → wake_one c p ≡ ok (woken c p)
wake_one-free c p e =
    subst (λ q. wake_one c q ≡ ok (woken c q)) (relocked p e) (wake_one-unlocked c p)

-- The table after a wakeup, process by process.
abbrev pub all_woken : Option ℕ → Chan → ℕ → List Proc → List Proc
all_woken me c i [] = []
all_woken me c i (p ∷ ps) = (if is_me me i then p else woken c p) ∷ all_woken me c (i + 1) ps

wakeup_from-free :
    (me : Option ℕ) (c : Chan) (i : ℕ) (ps : List Proc)
    → AllFree me i ps
    → wakeup_from me c i ps ≡ ok (all_woken me c i ps)
unfolding wakeup_from
wakeup_from-free me c i [] h = refl
wakeup_from-free me c i (p ∷ ps) h =
    let rest : wakeup_from me c (i + 1) ps ≡ ok (all_woken me c (i + 1) ps) =
      wakeup_from-free me c (i + 1) ps h.1 in
    elim (Bool-cases (is_me me i)) [
      | inl mine ↦ rw (mine, rest)
      | inr other ↦ rw (other, wake_one-free c p (free (is_me me i) p.lock h.0 other), rest)
    ]
  where
    free : (b : Bool) (l : Lock) → (b ≡ true) ⊎ (l ≡ unheld) → b ≡ false → l ≡ unheld
    free b l (inl d) e = absurd (ground (arith, d, e))
    free b l (inr d) e = d

get_elem?-all_woken :
    (me : Option ℕ) (c : Chan) (i : ℕ) (ps : List Proc) (j : ℕ)
    → get_elem? (all_woken me c i ps) j
      ≡ Option.map (λ p. if is_me me (i + j) then p else woken c p) (get_elem? ps j)
get_elem?-all_woken me c i [] j = refl
get_elem?-all_woken me c i (p ∷ ps) zero = let e : i + 0 ≡ i = omega arith in rw e
get_elem?-all_woken me c i (p ∷ ps) (suc j) =
    let e : i + suc j ≡ i + 1 + j = omega arith in rw e (get_elem?-all_woken me c (i + 1) ps j)

-- A process that a wakeup of channel `c` by `me` finds at index `j`: runnable if it slept on `c` and is
-- not the caller, and else as it was.
abbrev pub awake : Option ℕ → Chan → (j : ℕ) → Proc → Proc
awake me c j p = record p {
  state =
      if is_me me j
      then p.state
      else if is_sleeping p.state && same_chan p.chan c
      then runnable
      else p.state;
}

woken-awake :
    (me : Option ℕ) (c : Chan) (j : ℕ) (p : Proc)
    → (if is_me me j then p else woken c p) ≡ awake me c j p
woken-awake me c j p = elim (Bool-cases (is_me me j)) [
  | inl mine ↦ rw mine refl
  | inr other ↦ rw other (elim (Bool-cases (is_sleeping p.state && same_chan p.chan c)) [
    | inl hit ↦ rw hit refl
    | inr miss ↦ rw miss refl
  ])
]

map_awake :
    (me : Option ℕ) (c : Chan) (j : ℕ) (o : Option Proc)
    → Option.map (λ p. if is_me me j then p else woken c p) o ≡ Option.map (awake me c j) o
map_awake me c j none = refl
map_awake me c j (some p) = ap (λ q. some q) (woken-awake me c j p)

-- `wakeup` returns where the locks of the others are free, and then exactly those processes that
-- sleep on the channel, the caller left out, are made runnable; nothing else in the table changes.
pub wakeup_lem :
    (me : Option ℕ) (c : Chan) (ps : List Proc) (j : ℕ)
    → AllFree me 0 ps
    → (ps' : List Proc) × (wakeup me c ps ≡ ok ps')
      × (get_elem? ps' j ≡ Option.map (awake me c j) (get_elem? ps j))
unfolding wakeup
wakeup_lem me c ps j h = (
  all_woken me c 0 ps,
  wakeup_from-free me c 0 ps h,
  let e : 0 + j ≡ j = omega arith in
      subst
        (λ k.
          get_elem? (all_woken me c 0 ps) j
          ≡ Option.map (λ p. if is_me me k then p else woken c p) (get_elem? ps j))
        e (get_elem?-all_woken me c 0 ps j)
      ∙ map_awake me c j (get_elem? ps j),
)

-- The first process with a pid.
abbrev pub find_pid : ℕ → List Proc → Option ℕ
find_pid pid [] = none
find_pid pid (p ∷ ps) = if p.pid == pid then some 0 else Option.map suc (find_pid pid ps)

abbrev pub modify : (Proc → Proc) → ℕ → List Proc → List Proc
modify f i [] = []
modify f zero (p ∷ ps) = f p ∷ ps
modify f (suc i) (p ∷ ps) = p ∷ modify f i ps

-- Killed, and runnable if it slept.
abbrev pub marked : Proc → Proc
marked p = record p { killed = true; state = if is_sleeping p.state then runnable else p.state }

struck-marked : (p : Proc) → struck p ≡ marked p
struck-marked p = elim (Bool-cases (is_sleeping p.state)) [ inl t ↦ rw t refl | inr f ↦ rw f refl ]

-- What `kill` leaves, as told by the first process with the pid.
abbrev pub killed_at : Option ℕ → List Proc → List Proc × Bool
killed_at none ps = (ps, false)
killed_at (some i) ps = (modify marked i ps, true)

struck-unlocked :
    (p : Proc)
    → release (struck (record p { lock = held_here })) ≡ ok (marked (record p { lock = unheld }))
struck-unlocked p = elim (Bool-cases (is_sleeping p.state)) [
  | inl t ↦ rw t refl
  | inr f ↦ rw f refl
]

shift_killed :
    (o : Option ℕ) (p : Proc) (ps : List Proc)
    → let (ps', b) = killed_at o ps in (p ∷ ps', b) ≡ killed_at (Option.map suc o) (p ∷ ps)
shift_killed none p ps = refl
shift_killed (some i) p ps = refl

kill_cons :
    (pid : ℕ) (p : Proc) (ps : List Proc)
    → kill pid ps ≡ ok (killed_at (find_pid pid ps) ps)
    → let q = record p { lock = unheld } in
      kill pid (q ∷ ps) ≡ ok (killed_at (find_pid pid (q ∷ ps)) (q ∷ ps))
unfolding kill
kill_cons pid p ps ih = elim (Bool-cases (p.pid == pid)) [
  | inl hit ↦ rw (hit, struck-unlocked p)
  | inr miss ↦
      rw (miss, ih)
        (ap (λ r. ok r) (shift_killed (find_pid pid ps) (record p { lock = unheld }) ps))
]

kill_from :
    (pid i : ℕ) (ps : List Proc)
    → AllFree none i ps
    → kill pid ps ≡ ok (killed_at (find_pid pid ps) ps)
unfolding kill
kill_from pid i [] h = refl
kill_from pid i (p ∷ ps) h =
    let e : p.lock ≡ unheld = free p.lock h.0 in
    subst (λ q. kill pid (q ∷ ps) ≡ ok (killed_at (find_pid pid (q ∷ ps)) (q ∷ ps))) (relocked p e)
      (kill_cons pid p ps (kill_from pid (i + 1) ps h.1))
  where
    free : (l : Lock) → (false ≡ true) ⊎ (l ≡ unheld) → l ≡ unheld
    free l (inl d) = absurd (ground (arith, d))
    free l (inr d) = d

-- With the locks free `kill` marks the first process with the pid as killed, makes it runnable if
-- it sleeps, leaves the others and all locks alone, and reports 0; without such a process it
-- changes nothing and reports -1.
pub kill_lem :
    (pid : ℕ) (ps : List Proc)
    → AllFree none 0 ps
    → kill pid ps ≡ ok (killed_at (find_pid pid ps) ps)
kill_lem pid ps h = kill_from pid 0 ps h
