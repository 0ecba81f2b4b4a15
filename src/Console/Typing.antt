-- ===== src/Console/Typing.antt =====
-- What is typed, in the order of the input buffer, and what of it readers may take.
use csse332_project.Base.{
  ℕ, zero, suc, ◌+◌, ◌%◌, ◌^◌, ◌≤◌, ◌<◌, ◌≡◌, ◌≢◌, refl, ap, ap₂, ◌∙◌, ◌⊎◌, inl, inr, true, false,
  not, ◌&&◌, ◌||◌, List, [], ◌∷◌, ◌++◌, ◌==◌, ltb, update, update_self, u32, sub32, arith,
  Bool-cases, ==→ne, ne→==, ltb→lt, ltb→ge,
}
use csse332_project.Window.{window, window-snoc, window-update}
use csse332_project.Console.{
  Cons, Typed, quiet, erase, kill_line, put, translate, commits, type_char, consoleintr, input_size,
  control, newline,
}

-- All that is typed and not yet read, and of it what readers may take.
abbrev pub typed : Cons → List ℕ
typed k = window k.buf input_size k.r (sub32 k.e k.r)

abbrev pub committed : Cons → List ℕ
committed k = window k.buf input_size k.r (sub32 k.w k.r)

pub record IsConsole (k : Cons) : Type 0 where
  pub r_fits : k.r < 2 ^ 32
  pub w_fits : k.w < 2 ^ 32
  pub e_fits : k.e < 2 ^ 32
  pub ordered : sub32 k.w k.r ≤ sub32 k.e k.r
  pub bounded : sub32 k.e k.r ≤ input_size

erase-IsConsole : (k : Cons) → IsConsole k → k.e ≢ k.w → IsConsole (erase k)
unfolding erase
erase-IsConsole k v h = omega arith

put-IsConsole : (k : Cons) (c : ℕ) → IsConsole k → sub32 k.e k.r < input_size → IsConsole (put k c)
unfolding put
put-IsConsole k c v h = omega arith

kill_line-IsConsole : (n : ℕ) (k : Cons) → IsConsole k → IsConsole (kill_line n k).cons
unfolding kill_line
kill_line-IsConsole zero k v = v
kill_line-IsConsole (suc n) k v = elim (Bool-cases (k.e == k.w)) [
  | inl same ↦ rw same v
  | inr apart ↦ rw apart (elim (Bool-cases (k.buf (sub32 k.e 1 % input_size) == newline)) [
    | inl nl ↦ rw nl v
    | inr other ↦
        rw other (kill_line-IsConsole n (erase k) (erase-IsConsole k v (==→ne k.e k.w apart)))
  ])
]

typed-put :
    (k : Cons) (c : ℕ)
    → IsConsole k
    → sub32 k.e k.r < input_size
    → (typed (put k c) ≡ typed k ++ c ∷ []) × (committed (put k c) ≡ committed k)
unfolding put
typed-put k c v h = (
  ap (window written input_size k.r) more
      ∙ window-snoc written input_size k.r (sub32 k.e k.r)
      ∙ ap₂ (λ xs b. xs ++ b ∷ [])
          (window-update k.buf input_size (k.e % input_size) c k.r (sub32 k.e k.r)
            (λ j lt. omega arith))
          (ap written (omega arith) ∙ update_self k.buf (k.e % input_size) c),
  window-update k.buf input_size (k.e % input_size) c k.r (sub32 k.w k.r) (λ j lt. omega arith),
)
  where
    more : sub32 (u32 (k.e + 1)) k.r ≡ suc (sub32 k.e k.r)
    more = omega arith

    written : ℕ → ℕ
    written = update k.buf (k.e % input_size) c

commit-IsConsole : (k : Cons) → IsConsole k → IsConsole (record k { w = k.e })
commit-IsConsole k v = omega arith

-- What a typed character does, where the buffer is full and where it is not.
abbrev pub IsTyped : Cons → ℕ → Typed → Type 0
IsTyped k c y =
    ((sub32 k.e k.r ≡ input_size) × (y ≡ quiet k))
    ⊎ (IsConsole y.cons
        × (typed y.cons ≡ typed k ++ translate c ∷ [])
        × (y.echo ≡ translate c ∷ [])
        × (((y.woken ≡ true)
              × (committed y.cons ≡ typed y.cons)
              × ((translate c ≡ newline)
                  ⊎ (translate c ≡ control b'D')
                  ⊎ (sub32 y.cons.e y.cons.r ≡ input_size)))
            ⊎ ((y.woken ≡ false)
                × (committed y.cons ≡ committed k)
                × (translate c ≢ newline)
                × (translate c ≢ control b'D')
                × (sub32 y.cons.e y.cons.r < input_size))))

a_commit :
    (k : Cons) (t : ℕ)
    → commits k t ≡ true
    → (t ≡ newline) ⊎ (t ≡ control b'D') ⊎ (sub32 k.e k.r ≡ input_size)
a_commit k t h = ground arith

no_commit :
    (k : Cons) (t : ℕ)
    → commits k t ≡ false
    → (t ≢ newline) × (t ≢ control b'D') × (sub32 k.e k.r ≢ input_size)
no_commit k t h = ((λ e. ground arith), (λ e. ground arith), (λ e. ground arith))

type_char-IsTyped : (k : Cons) (c : ℕ) → IsConsole k → c ≢ 0 → IsTyped k c (type_char k c)
unfolding type_char
type_char-IsTyped k c v h0 = rw (ne→== c 0 h0) (elim (Bool-cases (ltb (sub32 k.e k.r) input_size)) [
  | inl room ↦
      let less : sub32 k.e k.r < input_size = ltb→lt (sub32 k.e k.r) input_size room in
      let valid : IsConsole (put k (translate c)) = put-IsConsole k (translate c) v less in
      let p : (typed (put k (translate c)) ≡ typed k ++ translate c ∷ [])
          × (committed (put k (translate c)) ≡ committed k) =
        typed-put k (translate c) v less in
      rw room (
        inr (elim (Bool-cases (commits (put k (translate c)) (translate c))) [
          | inl end ↦ rw end (
            commit-IsConsole (put k (translate c)) valid,
            p.0,
            refl,
            inl (refl, refl, a_commit (put k (translate c)) (translate c) end),
          )
          | inr going ↦
              let n : (translate c ≢ newline)
                  × (translate c ≢ control b'D')
                  × (sub32 (put k (translate c)).e (put k (translate c)).r ≢ input_size) =
                no_commit (put k (translate c)) (translate c) going in
              rw going
                (valid, p.0, refl, inr (refl, p.1, n.0, n.1, omega (arith, valid.bounded, n.2)))
        ]))
  | inr full ↦ rw full (inl (omega (arith, ltb→ge (sub32 k.e k.r) input_size full), refl))
])

-- A character other than 0 and the four control codes: with room in the buffer it is echoed and
-- appended, a carriage return as a newline; it commits all that is typed and wakes the readers exactly
-- if it is a newline or a ^D or takes the last free slot; in a full buffer it changes nothing.
pub consoleintr-IsTyped :
    (k : Cons) (c : ℕ)
    → IsConsole k
    → c ≢ 0
    → c ≢ control b'P'
    → c ≢ control b'U'
    → c ≢ control b'H'
    → c ≢ 0x7f
    → IsTyped k c (consoleintr k c)
unfolding consoleintr
consoleintr-IsTyped k c v h0 hP hU hH hD =
    rw
      (
        ne→== c (control b'P') hP,
        ne→== c (control b'U') hU,
        ne→== c (control b'H') hH,
        ne→== c 0x7f hD,
      )
      (type_char-IsTyped k c v h0)

type_char-IsConsole : (k : Cons) (c : ℕ) → IsConsole k → IsConsole (type_char k c).cons
unfolding type_char
type_char-IsConsole k c v = elim (Bool-cases (not (c == 0) && ltb (sub32 k.e k.r) input_size)) [
  | inl room ↦
      let valid : IsConsole (put k (translate c)) =
        put-IsConsole k (translate c) v (ground arith) in
      rw room (elim (Bool-cases (commits (put k (translate c)) (translate c))) [
        | inl end ↦ rw end (commit-IsConsole (put k (translate c)) valid)
        | inr going ↦ rw going valid
      ])
  | inr refused ↦ rw refused v
]

-- No interrupt, whatever the character, moves ordered counters out of order or past the buffer.
pub consoleintr-IsConsole : (k : Cons) (c : ℕ) → IsConsole k → IsConsole (consoleintr k c).cons
unfolding consoleintr
consoleintr-IsConsole k c v = elim (Bool-cases (c == control b'P')) [
  | inl p ↦ rw p v
  | inr hP ↦ rw hP (elim (Bool-cases (c == control b'U')) [
    | inl u ↦ rw u (kill_line-IsConsole (sub32 k.e k.w) k v)
    | inr hU ↦ rw hU (elim (Bool-cases ((c == control b'H') || (c == 0x7f))) [
      | inl h ↦ rw h (elim (Bool-cases (k.e == k.w)) [
        | inl same ↦ rw same v
        | inr apart ↦ rw apart (erase-IsConsole k v (==→ne k.e k.w apart))
      ])
      | inr other ↦ rw other (type_char-IsConsole k c v)
    ])
  ])
]
