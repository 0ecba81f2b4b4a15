-- ===== src/Console/Reading.antt =====
-- consoleread of kernel/console.c: what it takes out of the input buffer.
use csse332_project.Base.{
  ℕ, zero, suc, ◌+◌, ◌-◌, ◌%◌, ◌≤◌, ◌≡◌, ◌≢◌, refl, ap, ◌∙◌, ◌<◌, true, inl, inr, Bool, false, none,
  some, List, [], ◌∷◌, ◌++◌, ◌==◌, ltb, if◌then◌else◌, u32, u64, sub32, arith, Bool-cases, ==→eq,
  ==→ne, length,
}
use csse332_project.Window.{window, window_mod}
use csse332_project.Console.{
  Cons, Taken, End, returns, sleeps, consoleread, input_size, control, newline,
}
use csse332_project.Console.Typing.{IsConsole, committed}

abbrev skip : Cons → Cons
skip k = record k { r = u32 (k.r + 1) }

skip-IsConsole : (k : Cons) → IsConsole k → k.r ≢ k.w → IsConsole (skip k)
skip-IsConsole k v h = omega arith

committed-skip :
    (k : Cons)
    → IsConsole k
    → k.r ≢ k.w
    → committed k ≡ k.buf (k.r % input_size) ∷ committed (skip k)
committed-skip k v h =
    ap (window k.buf input_size k.r) more
    ∙ ap (λ l. k.buf (k.r % input_size) ∷ l)
        (window_mod k.buf input_size (k.r + 1) (u32 (k.r + 1)) (sub32 k.w (u32 (k.r + 1)))
          (omega arith))
  where
    more : sub32 k.w k.r ≡ suc (sub32 k.w (u32 (k.r + 1)))
    more = omega arith

-- The address behind `out`, copied out from `dst` on.
abbrev pub behind : (dst : ℕ) → List ℕ → ℕ
behind dst [] = dst
behind dst (c ∷ out) = behind (u64 (dst + 1)) out

-- Every byte is accepted at its address, and none is a ^D.
abbrev pub Accepted : (ℕ → ℕ → Bool) → (dst : ℕ) → List ℕ → Type 0
Accepted copyout dst [] = Unit
Accepted copyout dst (c ∷ out) =
    (copyout dst c ≡ true) × (c ≢ control b'D') × Accepted copyout (u64 (dst + 1)) out

abbrev pub Unbroken : List ℕ → Type 0
Unbroken [] = Unit
Unbroken (c ∷ out) = (c ≢ newline) × Unbroken out

-- Why a stretch stops with room for `room` more of `target` bytes, to go to `at`: `out` is copied
-- out, `lost` is taken and not copied out, `left` stays committed.
pub data Stops (copyout : ℕ → ℕ → Bool) (killed : Bool) (target : ℕ) (out lost left : List ℕ)
    (room at : ℕ) (e : End) : Type 0 where
  filled :
      Unbroken out
      → lost ≡ []
      → room ≡ 0
      → e ≡ returns (some (target - room))
      → Stops copyout killed target out lost left room at e
  line :
      (body : List ℕ)
      → out ≡ body ++ (newline ∷ [])
      → Unbroken body
      → lost ≡ []
      → e ≡ returns (some (target - room))
      → Stops copyout killed target out lost left room at e
  fault :
      (c : ℕ)
      → Unbroken out
      → lost ≡ c ∷ []
      → c ≢ control b'D'
      → copyout at c ≡ false
      → e ≡ returns (some (target - room))
      → Stops copyout killed target out lost left room at e
  eof :
      Unbroken out
      → lost ≡ control b'D' ∷ []
      → target ≤ room
      → e ≡ returns (some (target - room))
      → Stops copyout killed target out lost left room at e
  later_eof :
      (rest : List ℕ)
      → Unbroken out
      → lost ≡ []
      → left ≡ control b'D' ∷ rest
      → room < target
      → e ≡ returns (some (target - room))
      → Stops copyout killed target out lost left room at e
  waits :
      Unbroken out
      → lost ≡ []
      → left ≡ []
      → 0 < room
      → e ≡ (if killed then returns none else sleeps room)
      → Stops copyout killed target out lost left room at e

-- What a stretch with room for `n` of `target` bytes, to go to `dst`, takes from `k`.
pub record IsTaken (copyout : ℕ → ℕ → Bool) (killed : Bool) (target n dst : ℕ) (k : Cons)
    (t : Taken) : Type 0 where
  pub valid : IsConsole t.cons
  pub lost : List ℕ
  -- in order: what is copied out, what is lost, what stays
  pub split : committed k ≡ t.out ++ (lost ++ committed t.cons)
  pub room : ℕ
  pub fits : length t.out + room ≡ n
  pub accepted : Accepted copyout dst t.out
  pub why : Stops copyout killed target t.out lost (committed t.cons) room (behind dst t.out) t.ends

module _ (copyout : ℕ → ℕ → Bool) (killed : Bool) (target : ℕ) where
  -- A stretch that stops at once, and takes nothing.
  stays :
      (n dst : ℕ) (k : Cons) (e : End)
      → IsConsole k
      → Stops copyout killed target [] [] (committed k) n dst e
      → IsTaken copyout killed target n dst k (record { out = []; ends = e; cons = k })
  stays n dst k e v why = record {
    valid = v;
    lost = [];
    split = refl;
    room = n;
    fits = omega arith;
    accepted = tt;
    why = why;
  }

  none_left : (k : Cons) → IsConsole k → k.r ≡ k.w → committed k ≡ []
  none_left k v same = ap (window k.buf input_size k.r) zero_left
    where
      zero_left : sub32 k.w k.r ≡ 0
      zero_left = omega arith

  lose :
      (n dst : ℕ) (k : Cons)
      → IsConsole k
      → k.r ≢ k.w
      → Stops copyout killed target []
          (k.buf (k.r % input_size) ∷ [])
          (committed (skip k))
          n
          dst
          (returns (some (target - n)))
      → IsTaken copyout killed target n dst k
          (record { out = []; ends = returns (some (target - n)); cons = skip k })
  lose n dst k v more why = record {
    valid = skip-IsConsole k v more;
    lost = k.buf (k.r % input_size) ∷ [];
    split = committed-skip k v more;
    room = n;
    fits = omega arith;
    accepted = tt;
    why = why;
  }

  more-Stops :
      {out lost left : List ℕ} {room at : ℕ} {e : End} (c : ℕ)
      → c ≢ newline
      → Stops copyout killed target out lost left room at e
      → Stops copyout killed target (c ∷ out) lost left room at e
  more-Stops c h (filled u l r e) = filled (h, u) l r e
  more-Stops c h (line body o u l e) = line (c ∷ body) (ap (λ o. c ∷ o) o) (h, u) l e
  more-Stops c h (fault b u l d f e) = fault b (h, u) l d f e
  more-Stops c h (eof u l r e) = eof (h, u) l r e
  more-Stops c h (later_eof rest u l f r e) = later_eof rest (h, u) l f r e
  more-Stops c h (waits u l f r e) = waits (h, u) l f r e

  module _ (n dst : ℕ) (k : Cons) (v : IsConsole k) (more : k.r ≢ k.w)
      (text : k.buf (k.r % input_size) ≢ control b'D')
      (moved : copyout dst (k.buf (k.r % input_size)) ≡ true) where
    copied :
        (t : Taken)
        → k.buf (k.r % input_size) ≢ newline
        → IsTaken copyout killed target n (u64 (dst + 1)) (skip k) t
        → IsTaken copyout killed target
            (suc n)
            dst
            k
            (record t { out = k.buf (k.r % input_size) ∷ t.out })
    copied t inside h = record {
      valid = h.valid;
      lost = h.lost;
      split = committed-skip k v more ∙ ap (λ l. k.buf (k.r % input_size) ∷ l) h.split;
      room = h.room;
      fits = omega (arith, h.fits);
      accepted = (moved, text, h.accepted);
      why = more-Stops (k.buf (k.r % input_size)) inside h.why;
    }

    line_end :
        k.buf (k.r % input_size) ≡ newline
        → IsTaken copyout killed target (suc n) dst k (record {
          out = k.buf (k.r % input_size) ∷ [];
          ends = returns (some (target - n));
          cons = skip k;
        })
    line_end nl = record {
      valid = skip-IsConsole k v more;
      lost = [];
      split = committed-skip k v more;
      room = n;
      fits = omega arith;
      accepted = (moved, text, tt);
      why = Stops.line [] (ap (λ c. c ∷ []) nl) tt refl refl;
    }

  -- A stretch of consoleread keeps the counters in order. What was committed is, in order, the bytes
  -- that it copies out, each at the address behind the one before, at most one byte that is lost, and
  -- what stays committed. It copies out no ^D and no newline but as its last byte. It returns the
  -- number of bytes read when there is no room left, after a newline, at a byte that cannot be copied
  -- out, which is lost, or at a ^D, which is lost when nothing has been read yet and else
  -- stays. Otherwise nothing stays committed, and it sleeps or, killed, reports -1.
  pub consoleread-IsTaken :
      (n dst : ℕ) (k : Cons)
      → IsConsole k
      → IsTaken copyout killed target n dst k (consoleread copyout killed target n dst k)
  unfolding consoleread
  consoleread-IsTaken zero dst k v =
      stays zero dst k (returns (some target)) v
        (Stops.filled tt refl refl (ap (λ m. returns (some m)) (omega arith)))
  consoleread-IsTaken (suc n) dst k v = elim (Bool-cases (k.r == k.w)) [
    | inl same ↦ rw same (
        stays (suc n) dst k _ v
          (Stops.waits tt refl (none_left k v (==→eq k.r k.w same)) (omega arith) refl))
    | inr apart ↦
        let more : k.r ≢ k.w = ==→ne k.r k.w apart in
        rw apart (elim (Bool-cases (k.buf (k.r % input_size) == control b'D')) [
          | inl ends ↦
              let is_eof : k.buf (k.r % input_size) ≡ control b'D' =
                ==→eq (k.buf (k.r % input_size)) (control b'D') ends in
              rw ends (elim (Bool-cases (ltb (suc n) target)) [
                | inl later ↦ rw later (
                    stays (suc n) dst k _ v (
                      Stops.later_eof (committed (skip k)) tt refl
                        (committed-skip k v more ∙ ap (λ c. c ∷ committed (skip k)) is_eof)
                        (ground arith) refl))
                | inr first ↦ rw first (
                    lose (suc n) dst k v more
                      (Stops.eof tt (ap (λ c. c ∷ []) is_eof) (ground arith) refl))
              ])
          | inr byte ↦
              let text : k.buf (k.r % input_size) ≢ control b'D' =
                ==→ne (k.buf (k.r % input_size)) (control b'D') byte in
              rw byte (elim (Bool-cases (copyout dst (k.buf (k.r % input_size)))) [
                | inr fails ↦
                    rw fails (lose (suc n) dst k v more (Stops.fault _ tt refl text fails refl))
                | inl moved ↦ rw moved (elim (Bool-cases (k.buf (k.r % input_size) == newline)) [
                  | inl nl ↦ rw nl (
                      line_end n dst k v more text moved
                        (==→eq (k.buf (k.r % input_size)) newline nl))
                  | inr inside ↦ rw inside (
                      copied n dst k v more text moved _
                        (==→ne (k.buf (k.r % input_size)) newline inside)
                        (consoleread-IsTaken n (u64 (dst + 1)) (skip k) (skip-IsConsole k v more)))
                ])
              ])
        ])
  ]
