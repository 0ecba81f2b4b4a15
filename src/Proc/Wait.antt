-- ===== src/Proc/Wait.antt =====
-- `wait`: which child a scan of the table reaps.
use csse332_project.Base.{
  ℕ, zero, suc, ◌+◌, ◌≡◌, refl, ap, ◌⊎◌, Bool, true, false, ◌&&◌, ◌||◌, Option, none, some, List,
  [], ◌∷◌, ◌++◌, ◌==◌, if◌then◌else◌, Outcome, ok, Bool-cases, arith, subst, inl, inr,
}
use mathlib.Core.Option
use csse332_project.Proc.{Lock, unheld, Proc, is_me, is_zombie, unused, nowhere}
use csse332_project.Proc.Table.{AllFree, relocked}
use csse332_project.Proc.Alloc.{freeproc}
use csse332_project.Proc.Life.{Scan, reaped, no_zombie, behind, with_kid, wait_scan}

-- A zombie whose parent is `me`.
abbrev pub zombie_child : ℕ → Proc → Bool
zombie_child me p = is_me p.parent me && is_zombie p.state

abbrev pub first_zombie : ℕ → List Proc → Option ℕ
first_zombie me [] = none
first_zombie me (p ∷ ps) = if zombie_child me p then some 0 else Option.map suc (first_zombie me ps)

abbrev pub has_kid : ℕ → List Proc → Bool
has_kid me [] = false
has_kid me (p ∷ ps) = is_me p.parent me || has_kid me ps

-- An unused slot: of the process before only its lock, its signals but for the stack, its alarm, its
-- registers, its files and its directory are left.
abbrev pub freed : Proc → Proc
freed p = record p {
  state = unused;
  chan = nowhere;
  killed = false;
  xstate = 0;
  pid = 0;
  signaling = record (p.signaling) { stack = 0 };
  parent = none;
  sz = 0;
  pagetable = 0;
  trapframe = 0;
  name = [];
}

-- The pages of a process that are there: its trapframe, its signal stack and its page table.
abbrev pub pages_of : Proc → List ℕ
pages_of p =
    (if p.trapframe == 0 then [] else p.trapframe ∷ [])
    ++ ((if p.signaling.stack == 0 then [] else p.signaling.stack ∷ [])
        ++ (if p.pagetable == 0 then [] else p.pagetable ∷ []))

-- The pid, the status and the pages of process `i`, and the table with that process freed, if the
-- status can be left at the caller's address. The index is always in the table.
abbrev pub reap_at : (ℕ → Bool) → ℕ → List Proc → Scan
reap_at addr_ok i [] = reaped 0 0 [] []
reap_at addr_ok zero (p ∷ ps) =
    if addr_ok p.xstate
    then reaped p.pid p.xstate (freed p ∷ ps) (pages_of p)
    else Scan.bad_address (p ∷ ps)
reap_at addr_ok (suc i) (p ∷ ps) = behind p (reap_at addr_ok i ps)

abbrev pub scanned : (ℕ → Bool) → Option ℕ → Bool → List Proc → Scan
scanned addr_ok none kids ps = no_zombie kids ps
scanned addr_ok (some i) kids ps = reap_at addr_ok i ps

behind-scanned :
    (addr_ok : ℕ → Bool) (o : Option ℕ) (kids : Bool) (p : Proc) (ps : List Proc)
    → behind p (scanned addr_ok o kids ps) ≡ scanned addr_ok (Option.map suc o) kids (p ∷ ps)
behind-scanned addr_ok none kids p ps = refl
behind-scanned addr_ok (some i) kids p ps = refl

abbrev is_reaped : Scan → Bool
is_reaped (no_zombie _ _) = false
is_reaped _ = true

behind-reaped : (p : Proc) (s : Scan) → is_reaped s ≡ true → is_reaped (behind p s) ≡ true
behind-reaped p (reaped a b c d) e = refl
behind-reaped p (Scan.bad_address c) e = refl
behind-reaped p (no_zombie b c) e = cc

reap_at-reaped :
    (addr_ok : ℕ → Bool) (i : ℕ) (ps : List Proc) → is_reaped (reap_at addr_ok i ps) ≡ true
reap_at-reaped addr_ok i [] = refl
reap_at-reaped addr_ok zero (p ∷ ps) = elim (Bool-cases (addr_ok p.xstate)) [
  | inl good ↦ rw good refl
  | inr bad ↦ rw bad refl
]
reap_at-reaped addr_ok (suc i) (p ∷ ps) =
    behind-reaped p (reap_at addr_ok i ps) (reap_at-reaped addr_ok i ps)

with_kid-reaped : (p : Proc) (s : Scan) → is_reaped s ≡ true → with_kid p s ≡ behind p s
with_kid-reaped p (reaped a b c d) e = refl
with_kid-reaped p (Scan.bad_address c) e = refl
with_kid-reaped p (no_zombie b c) e = cc

with_kid-scanned :
    (addr_ok : ℕ → Bool) (o : Option ℕ) (kids : Bool) (p : Proc) (ps : List Proc)
    → with_kid p (scanned addr_ok o kids ps) ≡ scanned addr_ok (Option.map suc o) true (p ∷ ps)
with_kid-scanned addr_ok none kids p ps = refl
with_kid-scanned addr_ok (some i) kids p ps =
    with_kid-reaped p (reap_at addr_ok i ps) (reap_at-reaped addr_ok i ps)

module _ (addr_ok : ℕ → Bool) (me : ℕ) where
  abbrev scan : List Proc → Outcome Scan
  scan = wait_scan addr_ok me

  abbrev found : List Proc → Scan
  found ps = scanned addr_ok (first_zombie me ps) (has_kid me ps) ps

  scan_cons :
      (p : Proc) (ps : List Proc)
      → scan ps ≡ ok (found ps)
      → let q = record p { lock = unheld } in scan (q ∷ ps) ≡ ok (found (q ∷ ps))
  unfolding wait_scan freeproc
  scan_cons p ps ih = elim (Bool-cases (is_me p.parent me)) [
    | inr stranger ↦
        rw (stranger, ih)
          (ap (λ s. ok s)
            (behind-scanned addr_ok (first_zombie me ps) (has_kid me ps)
              (record p { lock = unheld }) ps))
    | inl kid ↦ elim (Bool-cases (is_zombie p.state)) [
      | inl dead ↦ elim (Bool-cases (addr_ok p.xstate)) [
        | inl good ↦ rw (kid, dead, good) refl
        | inr bad ↦ rw (kid, dead, bad) refl
      ]
      | inr alive ↦
          rw (kid, alive, ih)
            (ap (λ s. ok s)
              (with_kid-scanned addr_ok (first_zombie me ps) (has_kid me ps)
                (record p { lock = unheld }) ps))
    ]
  ]

  scan_from : (i : ℕ) (ps : List Proc) → AllFree none i ps → scan ps ≡ ok (found ps)
  unfolding wait_scan
  scan_from i [] h = refl
  scan_from i (p ∷ ps) h =
      let e : p.lock ≡ unheld = free p.lock h.0 in
      subst (λ q. scan (q ∷ ps) ≡ ok (found (q ∷ ps))) (relocked p e)
        (scan_cons p ps (scan_from (i + 1) ps h.1))
    where
      free : (l : Lock) → (false ≡ true) ⊎ (l ≡ unheld) → l ≡ unheld
      free l (inl d) = absurd (ground (arith, d))
      free l (inr d) = d

-- A scan of `wait`, with the locks free, finds the first zombie child in the table's order. If its
-- status can be left at the caller's address it frees the child and reports its pid, status and
-- pages, leaving every other process alone; if not it changes nothing and fails. Without a zombie
-- child it changes nothing and tells whether there is a child at all.
pub wait_scan_lem :
    (addr_ok : ℕ → Bool) (me : ℕ) (ps : List Proc)
    → AllFree none 0 ps
    → wait_scan addr_ok me ps ≡ ok (scanned addr_ok (first_zombie me ps) (has_kid me ps) ps)
wait_scan_lem addr_ok me ps h = scan_from addr_ok me 0 ps h
