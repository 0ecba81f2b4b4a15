-- ===== src/Pipe/Write.antt =====
-- `pipewrite`: which bytes a stretch puts into the pipe, and how it ends.
use csse332_project.Base.{
  ℕ, zero, suc, ◌+◌, ◌-◌, ◌≤◌, ◌<◌, ◌≡◌, refl, ◌⊎◌, inl, inr, Bool, true, false, Option, none, some,
  List, [], ◌∷◌, ◌++◌, append-nil, append_assoc, arith, length, u64, ◌∙◌, ap, sym, subst,
  Bool-cases, Option-cases, dec_lt, not, ◌||◌,
}
use csse332_project.Pipe.{
  Pipe, Stretch, sleeps, returns, at_nread, at_nwrite, pipe_of, pipe_size, store, is_full,
  write_loop, pipewrite,
}
use csse332_project.Pipe.Contents.{
  IsValid, contents, count, full_iff, not_full, store-IsValid, contents-store,
}

-- `xs` are the user's bytes from offset `i` on.
abbrev pub Fetched : (ℕ → Option ℕ) → ℕ → ℕ → List ℕ → Type 0
Fetched copyin addr i [] = Unit
Fetched copyin addr i (x ∷ xs) = (copyin (u64 (addr + i)) ≡ some x) × Fetched copyin addr (i + 1) xs

-- How a stretch of a write of `n` bytes may end when it has moved `m` of them.
abbrev pub Ended : (ℕ → Option ℕ) → (ℕ → Bool) → ℕ → ℕ → ℕ → Pipe → Stretch → Type 0
Ended copyin killed addr n m p (sleeps j c w q) =
    (j ≡ m)
    × (m < n)
    × (c ≡ at_nwrite)
    × (w ≡ at_nread ∷ [])
    × (count q ≡ pipe_size)
    × (p.readopen ≡ true)
    × (killed m ≡ false)
Ended copyin killed addr n m p (returns (some j) w q) =
    (j ≡ m)
    × (w ≡ at_nread ∷ [])
    × ((m ≡ n) ⊎ ((copyin (u64 (addr + m)) ≡ none) × (p.readopen ≡ true) × (killed m ≡ false)))
Ended copyin killed addr n m p (returns none w q) =
    (m < n) × (w ≡ []) × ((p.readopen ≡ false) ⊎ (killed m ≡ true))

module _ (copyin : ℕ → Option ℕ) (killed : ℕ → Bool) (addr n : ℕ) where
  -- The bytes `sent` went into the pipe behind those that it held.
  pub record Wrote (i : ℕ) (p : Pipe) (s : Stretch) : Type 0 where
    pub sent : List ℕ
    pub fetched : Fetched copyin addr i sent
    pub holds : contents (pipe_of s) ≡ contents p ++ sent
    pub valid : IsValid (pipe_of s)
    pub reader : (pipe_of s).nread ≡ p.nread
    pub ends : Ended copyin killed addr n (i + length sent) p s
    -- no byte goes into a pipe that nobody can read, or comes from a killed process
    pub allowed : (j : ℕ) → i ≤ j → j < i + length sent → (p.readopen ≡ true) × (killed j ≡ false)

  nothing_sent :
      (i : ℕ) (p : Pipe) (s : Stretch)
      → pipe_of s ≡ p
      → IsValid p
      → ((m : ℕ) → m ≡ i → Ended copyin killed addr n m p s)
      → Wrote i p s
  nothing_sent i p s e v end = record {
    sent = [];
    fetched = tt;
    holds = ap contents e ∙ sym (append-nil (contents p));
    valid = rw e v;
    reader = ap (λ q. q.nread) e;
    ends = end (i + 0) (omega arith);
    allowed = λ j lo hi. absurd (omega arith);
  }

  module _ (i : ℕ) (p : Pipe) (ch : ℕ) (s : Stretch) (v : IsValid p)
      (room : count p < pipe_size) where
    -- One byte goes in, and the rest of the stretch follows.
    one_sent :
        p.readopen ≡ true
        → killed i ≡ false
        → copyin (u64 (addr + i)) ≡ some ch
        → Wrote (i + 1) (store p ch) s
        → Wrote i p s
    unfolding store
    one_sent o a e w = record {
      sent = ch ∷ w.sent;
      fetched = (e, w.fetched);
      holds =
          w.holds
          ∙ ap (λ l. l ++ w.sent) (contents-store ch v room)
          ∙ append_assoc (contents p) (ch ∷ []) w.sent;
      valid = w.valid;
      reader = w.reader;
      ends = subst (λ m. Ended copyin killed addr n m (store p ch) s) shift w.ends;
      allowed = λ j lo hi. elim (dec_lt i j) [
        | yes later ↦ w.allowed j (omega arith) (omega arith)
        | no same ↦ let here : i ≡ j = omega arith in (o, subst (λ k. killed k ≡ false) here a)
      ];
    }
      where
        shift : i + 1 + length w.sent ≡ i + suc (length w.sent)
        shift = omega arith

  stopped : (a b : Bool) → (not a || b) ≡ true → (a ≡ false) ⊎ (b ≡ true)
  stopped a b h = ground arith

  going : (a b : Bool) → (not a || b) ≡ false → (a ≡ true) × (b ≡ false)
  going a b h = ground arith

  pub write_loop-Wrote :
      (rounds i : ℕ) (p : Pipe)
      → i + rounds ≡ n
      → IsValid p
      → Wrote i p (write_loop copyin killed addr rounds i p)
  unfolding write_loop
  write_loop-Wrote zero i p e v =
      nothing_sent i p (returns (some i) (at_nread ∷ []) p) refl v
        (λ m q. (sym q, refl, inl (omega arith)))
  write_loop-Wrote (suc rounds) i p e v = elim (Bool-cases (not p.readopen || killed i)) [
    | inl stop ↦ rw stop (
        nothing_sent i p (returns none [] p) refl v
          (λ m q. (omega arith, refl, rw q (stopped p.readopen (killed i) stop))))
    | inr go ↦
        let g : (p.readopen ≡ true) × (killed i ≡ false) = going p.readopen (killed i) go in
        elim (Bool-cases (is_full p)) [
          | inl full ↦
              rw (go, full)
                (nothing_sent i p (sleeps i at_nwrite (at_nread ∷ []) p) refl v
                  (λ m q. (sym q, omega arith, refl, refl, full_iff v full, g.0, rw q g.1)))
          | inr room ↦ elim (Option-cases (copyin (u64 (addr + i)))) [
            | inl fault ↦
                rw (go, room, fault)
                  (nothing_sent i p (returns (some i) (at_nread ∷ []) p) refl v
                    (λ m q. (sym q, refl, inr (rw q fault, g.0, rw q g.1))))
            | inr (ch, found) ↦
                rw (go, room, found)
                  (one_sent i p ch _ v (not_full v room) g.0 g.1 found (
                    write_loop-Wrote rounds (i + 1) (store p ch) (omega arith)
                      (store-IsValid ch v (not_full v room)).0))
          ]
        ]
  ]

-- A stretch of `pipewrite` on a valid pipe, begun with `i` of `n` bytes moved, appends, in order,
-- exactly the user's bytes from offset `i` on that it moved, never exceeds the buffer, and ends in
-- one of these ways: it sleeps on `nwrite` with the buffer full and the readers woken; it returns
-- `n`; it returns short where `copyin` fails; or it returns -1 where bytes are left and the read
-- end is closed or the process is killed. It moves a byte, sleeps or returns short only while the
-- read end is open and the process is not killed.
pub pipewrite-Wrote :
    (copyin : ℕ → Option ℕ) (killed : ℕ → Bool) (addr n i : ℕ) {p : Pipe}
    → i ≤ n
    → IsValid p
    → Wrote copyin killed addr n i p (pipewrite copyin killed addr n i p)
unfolding pipewrite
pipewrite-Wrote copyin killed addr n i {p} h v =
    write_loop-Wrote copyin killed addr n (n - i) i p (omega arith) v
