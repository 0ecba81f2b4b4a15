-- ===== src/Pipe/Read.antt =====
-- `piperead`: which bytes a stretch takes out of the pipe, and how it ends.
use csse332_project.Base.{
  ℕ, zero, suc, ◌+◌, ◌<◌, ◌≡◌, refl, ◌⊎◌, inl, inr, Bool, true, false, Option, none, some, List, [],
  ◌∷◌, ◌++◌, arith, length, u64, ◌∙◌, ap, Bool-cases, ◌&&◌,
}
use csse332_project.Pipe.{
  Pipe, Stretch, sleeps, returns, at_nread, at_nwrite, advance, front, is_empty, read_loop,
  piperead,
}
use csse332_project.Pipe.Contents.{
  IsValid, contents, count, empty_count, nonempty_count, advance-IsValid, contents-advance,
}

-- A byte that left the pipe and did not reach the user.
abbrev pub item : Option ℕ → List ℕ
item none = []
item (some b) = b ∷ []

abbrev pub Why : (ℕ → ℕ → Bool) → ℕ → ℕ → ℕ → Pipe → Option ℕ → Type 0
Why copyout addr n m q none = (m ≡ n) ⊎ (count q ≡ 0)
Why copyout addr n m q (some b) = copyout (u64 (addr + m)) b ≡ false

module _ (copyout : ℕ → ℕ → Bool) (addr n : ℕ) where
  -- `out` reached the user, starting at offset `i`.
  pub record Took (i : ℕ) (p : Pipe) (out : List ℕ) (m : ℕ) (q : Pipe) : Type 0 where
    pub lost : Option ℕ
    pub split : contents p ≡ out ++ (item lost ++ contents q)
    pub counted : m ≡ i + length out
    pub valid : IsValid q
    pub why : Why copyout addr n m q lost

  pub read_loop-Took :
      (rounds i : ℕ) (p : Pipe)
      → i + rounds ≡ n
      → IsValid p
      → let c = read_loop copyout addr rounds i p in Took i p c.out c.count c.pipe
  unfolding read_loop
  read_loop-Took zero i p e v = record {
    lost = none;
    split = refl;
    counted = omega arith;
    valid = v;
    why = inl (omega arith);
  }
  read_loop-Took (suc rounds) i p e v = elim (Bool-cases (is_empty p)) [
    | inl empty ↦ rw empty (record {
      lost = none;
      split = refl;
      counted = omega arith;
      valid = v;
      why = inr (empty_count v empty);
    })
    | inr more ↦
        let left : 0 < count p = nonempty_count v more in
        let here : contents p ≡ front p ∷ contents (advance p) = contents-advance v left in
        elim (Bool-cases (copyout (u64 (addr + i)) (front p))) [
          | inl done ↦
              let r : Took (i + 1) (advance p)
                  (read_loop copyout addr rounds (i + 1) (advance p)).out
                  (read_loop copyout addr rounds (i + 1) (advance p)).count
                  (read_loop copyout addr rounds (i + 1) (advance p)).pipe =
                read_loop-Took rounds (i + 1) (advance p) (omega arith)
                  (advance-IsValid v left).0 in
              rw (more, done)
                (record {
                  lost = r.lost;
                  split = here ∙ ap (λ l. front p ∷ l) r.split;
                  counted = omega (arith, r.counted);
                  valid = r.valid;
                  why = r.why;
                })
          | inr fault ↦
              rw (more, fault)
                (record {
                  lost = some (front p);
                  split = here;
                  counted = omega arith;
                  valid = (advance-IsValid v left).0;
                  why = fault;
                })
        ]
  ]

-- How a stretch of `piperead` ends, with `out` what reached the user.
abbrev pub Result : (ℕ → ℕ → Bool) → (addr n : ℕ) → Bool → Pipe → List ℕ → Stretch → Type 0
Result copyout addr n killed p out (sleeps i c w q) =
    (out ≡ []) × (count p ≡ 0) × (p.writeopen ≡ true) × (killed ≡ false) × (c ≡ at_nread) × (q ≡ p)
Result copyout addr n killed p out (returns none w q) =
    (out ≡ []) × (count p ≡ 0) × (p.writeopen ≡ true) × (killed ≡ true) × (q ≡ p)
Result copyout addr n killed p out (returns (some m) w q) =
    (w ≡ at_nwrite ∷ []) × ((0 < count p) ⊎ (p.writeopen ≡ false)) × Took copyout addr n 0 p out m q

-- Where the test of the wait loop fails.
no_wait :
    (p : Pipe)
    → IsValid p
    → (is_empty p && p.writeopen) ≡ false
    → (0 < count p) ⊎ (p.writeopen ≡ false)
no_wait p v h = elim (Bool-cases (is_empty p)) [
  | inr more ↦ inl (nonempty_count v more)
  | inl empty ↦ inr (ground arith)
]

and_parts : (a b : Bool) → (a && b) ≡ true → (a ≡ true) × (b ≡ true)
and_parts a b h = ground arith

pub piperead-Result :
    (copyout : ℕ → ℕ → Bool) (addr n : ℕ) (killed : Bool) {p : Pipe}
    → IsValid p
    → let (out, s) = piperead copyout addr killed n p in Result copyout addr n killed p out s
unfolding piperead
piperead-Result copyout addr n killed {p} v = elim (Bool-cases (is_empty p && p.writeopen)) [
  | inl wait ↦
      let parts : (is_empty p ≡ true) × (p.writeopen ≡ true) =
        and_parts (is_empty p) p.writeopen wait in
      elim (Bool-cases killed) [
        | inl k ↦ rw (wait, k) (refl, empty_count v parts.0, parts.1, refl, refl)
        | inr k ↦ rw (wait, k) (refl, empty_count v parts.0, parts.1, refl, refl, refl)
      ]
  | inr go ↦ rw go (refl, no_wait p v go, read_loop-Took copyout addr n n 0 p (omega arith) v)
]
