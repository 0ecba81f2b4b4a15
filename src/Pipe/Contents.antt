-- ===== src/Pipe/Contents.antt =====
-- The bytes that a pipe holds, oldest first, and what one store and one fetch do to them, also
-- where the 32-bit counters wrap.
use csse332_project.Base.{
  ℕ, suc, ◌+◌, ◌%◌, ◌^◌, ◌≤◌, ◌<◌, ◌≡◌, ap, ◌∙◌, true, false, List, [], ◌∷◌, ◌++◌, arith, length,
  update, update_self, u32, sub32, ap₂,
}
use csse332_project.Window.{window, length-window, window-snoc, window-update, window_mod}
use csse332_project.Pipe.{Pipe, pipe_size, pipe_init, store, advance, front, is_full, is_empty}

-- The bytes written and not yet read; the counters are free-running.
abbrev pub count : Pipe → ℕ
count p = sub32 p.nwrite p.nread

abbrev pub contents : Pipe → List ℕ
contents p = window p.bytes pipe_size p.nread (count p)

pub record IsValid (p : Pipe) : Type 0 where
  pub read_fits : p.nread < 2 ^ 32
  pub write_fits : p.nwrite < 2 ^ 32
  pub bounded : count p ≤ pipe_size

pub length-contents : (p : Pipe) → length (contents p) ≡ count p
length-contents p = length-window p.bytes pipe_size p.nread (count p)

pub pipe_init-IsValid : (junk : ℕ → ℕ) → IsValid (pipe_init junk)
unfolding pipe_init
pipe_init-IsValid junk = omega arith

-- The test of pipewrite, which wraps at 2^32, is true exactly at 512 bytes.
pub full_iff : {p : Pipe} → IsValid p → is_full p ≡ true → count p ≡ pipe_size
full_iff v h = ground arith

pub not_full : {p : Pipe} → IsValid p → is_full p ≡ false → count p < pipe_size
not_full v h = ground arith

pub empty_count : {p : Pipe} → IsValid p → is_empty p ≡ true → count p ≡ 0
empty_count v h = ground arith

pub nonempty_count : {p : Pipe} → IsValid p → is_empty p ≡ false → 0 < count p
nonempty_count v h = ground arith

pub store-IsValid :
    {p : Pipe} (ch : ℕ)
    → IsValid p
    → count p < pipe_size
    → IsValid (store p ch) × (count (store p ch) ≡ count p + 1)
unfolding store
store-IsValid ch v h = omega arith

pub contents-store :
    {p : Pipe} (ch : ℕ)
    → IsValid p
    → count p < pipe_size
    → contents (store p ch) ≡ contents p ++ ch ∷ []
unfolding store
contents-store {p} ch v h =
    ap (window written pipe_size p.nread) more
    ∙ window-snoc written pipe_size p.nread (count p)
    ∙ ap₂ (λ xs b. xs ++ b ∷ [])
        (window-update p.bytes pipe_size (p.nwrite % pipe_size) ch p.nread (count p)
          (λ j lt. omega arith))
        (ap written (omega arith) ∙ update_self p.bytes (p.nwrite % pipe_size) ch)
  where
    more : count (store p ch) ≡ suc (count p)
    more = omega arith

    written : ℕ → ℕ
    written = update p.bytes (p.nwrite % pipe_size) ch

pub advance-IsValid :
    {p : Pipe} → IsValid p → 0 < count p → IsValid (advance p) × (count (advance p) + 1 ≡ count p)
unfolding advance
advance-IsValid v h = omega arith

pub contents-advance :
    {p : Pipe} → IsValid p → 0 < count p → contents p ≡ front p ∷ contents (advance p)
unfolding advance
contents-advance {p} v h =
    ap (window p.bytes pipe_size p.nread) more
    ∙ ap (λ l. front p ∷ l)
        (window_mod p.bytes pipe_size (p.nread + 1) (u32 (p.nread + 1)) (count (advance p))
          (omega arith))
  where
    more : count p ≡ suc (count (advance p))
    more = omega arith
