-- ===== src/Grep/Meaning.antt =====
-- user/grep.c: the patterns parsed, the texts that they denote, and the matcher.
use csse332_project.Base.{
  ℕ, ◌≡◌, refl, sym, ap, subst, ◌↔◌, ◌⊎◌, inl, inr, Bool, true, ◌||◌, List, [], ◌∷◌, ◌++◌, ◌==◌,
  if◌then◌else◌, All, Bool-cases, ==→eq, arith,
}
use csse332_project.Grep.{accepts, is_end, matchstar, match_one, matchhere, match_any, match_line}

pub data Item : Type 0 where
  single : ℕ → Item  -- one character
  many : ℕ → Item  -- `c*`
  finish : Item  -- `$` at the end of the pattern

pub parse : List ℕ → List Item
parse [] = []
parse (c ∷ []) = if c == b'$' then finish ∷ [] else single c ∷ []
parse (c ∷ d ∷ re) =
    let rest = parse re in
    let next = parse (d ∷ re) in if d == b'*' then many c ∷ rest else single c ∷ next

-- A character of the text that `c` of the pattern stands for: any for `.`, else itself.
pub Stands : (c t : ℕ) → Type 0
Stands c t = (c ≡ b'.') ⊎ (c ≡ t)

-- The items denote texts that begin with `text`'s characters; `many c` any number of characters
-- that `c` stands for.
pub Denotes : List Item → List ℕ → Type 0
Denotes [] text = Unit
Denotes (single c ∷ is) text =
    (t : ℕ) × (rest : List ℕ) × (text ≡ t ∷ rest) × Stands c t × Denotes is rest
Denotes (many c ∷ is) text =
    (u : List ℕ) × (v : List ℕ) × (text ≡ u ++ v) × All (Stands c) u × Denotes is v
Denotes (finish ∷ is) text = text ≡ []

accepts-Stands : (c t : ℕ) → (accepts c t ≡ true) ↔ Stands c t
unfolding Stands
accepts-Stands c t = (
  (λ e. elim (Bool-cases (c == b'.')) [
    | inl dot ↦ inl (==→eq c b'.' dot)
    | inr other ↦ inr (ground arith)
  ]),
  (λ s. elim s [ inl dot ↦ ground arith | inr same ↦ ground arith ]),
)

-- The order of the two tests differs in matchstar.
star-Stands : (c t : ℕ) → (((t == c) || (c == b'.')) ≡ true) ↔ Stands c t
unfolding Stands
star-Stands c t = (
  (λ e. elim (Bool-cases (c == b'.')) [
    | inl dot ↦ inl (==→eq c b'.' dot)
    | inr other ↦ inr (ground arith)
  ]),
  (λ s. elim s [ inl dot ↦ ground arith | inr same ↦ ground arith ]),
)

-- A test that decides a predicate.
abbrev Decides : (List ℕ → Bool) → (List ℕ → Type 0) → Type 0
Decides f P = (text : List ℕ) → (f text ≡ true) ↔ P text

module _ (c : ℕ) (here : List ℕ → Bool) (is : List Item) (h : Decides here (Denotes is)) where
  star_sound :
      (text : List ℕ)
      → matchstar c here text ≡ true
      → (u : List ℕ) × (v : List ℕ) × (text ≡ u ++ v) × All (Stands c) u × Denotes is v
  unfolding matchstar
  star_sound [] e = ([], [], refl, tt, (h []).0 e)
  star_sound (t ∷ text) e = elim (Bool-cases (here (t ∷ text))) [
    | inl now ↦ ([], t ∷ text, refl, tt, (h (t ∷ text)).0 now)
    | inr later ↦ elim (Bool-cases ((t == c) || (c == b'.'))) [
      | inl go ↦
          let r : (u : List ℕ) × (v : List ℕ) × (text ≡ u ++ v) × All (Stands c) u × Denotes is v =
            star_sound text (ground arith) in
          (t ∷ r.0, r.1, ap (λ l. t ∷ l) r.2, ((star-Stands c t).0 go, r.3), r.4)
      | inr stop ↦ absurd (ground arith)
    ]
  ]

  star_complete :
      (u v text : List ℕ)
      → text ≡ u ++ v
      → All (Stands c) u
      → Denotes is v
      → matchstar c here text ≡ true
  unfolding matchstar
  star_complete [] v [] e s d = (h []).1 (subst (Denotes is) (sym e) d)
  star_complete [] v (t ∷ text) e s d = rw ((h (t ∷ text)).1 (subst (Denotes is) (sym e) d)) refl
  star_complete (x ∷ u) v [] e s d = absurd (ground arith)
  star_complete (x ∷ u) v (t ∷ text) e s d =
      let shorter : text ≡ u ++ v = cc in
      let more : matchstar c here text ≡ true = star_complete u v text shorter s.1 d in
      let same : x ≡ t = cc in
      let go : ((t == c) || (c == b'.')) ≡ true = (star-Stands c t).1 (subst (Stands c) same s.0) in
      elim (Bool-cases (here (t ∷ text))) [
        | inl now ↦ rw now refl
        | inr later ↦ rw (later, go) more
      ]

  one_sound :
      (text : List ℕ)
      → match_one c here text ≡ true
      → (t : ℕ) × (rest : List ℕ) × (text ≡ t ∷ rest) × Stands c t × Denotes is rest
  one_sound [] e = cc
  one_sound (t ∷ text) e = elim (Bool-cases (accepts c t)) [
    | inl go ↦ (t, text, refl, (accepts-Stands c t).0 go, (h text).0 (ground arith))
    | inr stop ↦ absurd (ground arith)
  ]

  one_complete :
      (text : List ℕ) (t : ℕ) (rest : List ℕ)
      → text ≡ t ∷ rest
      → Stands c t
      → Denotes is rest
      → match_one c here text ≡ true
  one_complete [] t rest e s d = cc
  one_complete (x ∷ text) t rest e s d =
      let same : t ≡ x = cc in
      let tail : rest ≡ text = cc in
      let go : accepts c x ≡ true = (accepts-Stands c x).1 (subst (Stands c) same s) in
      rw go ((h text).1 (subst (Denotes is) tail d))

end_decides : Decides is_end (Denotes (finish ∷ []))
unfolding Denotes
end_decides [] = ((λ e. refl), (λ e. refl))
end_decides (t ∷ text) = ((λ e. cc), (λ e. cc))

-- matchhere finds the pattern at the beginning of a text exactly if the text begins with one that
-- the pattern denotes; `$` at its end asks for the end of the text.
matchhere-Denotes : (re text : List ℕ) → (matchhere re text ≡ true) ↔ Denotes (parse re) text
unfolding matchhere parse Denotes
matchhere-Denotes [] text = ((λ e. tt), (λ d. refl))
matchhere-Denotes (c ∷ []) text = elim (Bool-cases (c == b'$')) [
  | inl dollar ↦ rw dollar (end_decides text)
  | inr other ↦ rw other (
    one_sound c (matchhere []) [] (matchhere-Denotes []) text,
    λ d. one_complete c (matchhere []) [] (matchhere-Denotes []) text d.0 d.1 d.2 d.3 d.4,
  )
]
matchhere-Denotes (c ∷ d ∷ re) text = elim (Bool-cases (d == b'*')) [
  | inl star ↦ rw star (
    star_sound c (matchhere re) (parse re) (matchhere-Denotes re) text,
    λ s. star_complete c (matchhere re) (parse re) (matchhere-Denotes re) s.0 s.1 text s.2 s.3 s.4,
  )
  | inr other ↦ rw other (
    one_sound c (matchhere (d ∷ re)) (parse (d ∷ re)) (matchhere-Denotes (d ∷ re)) text,
    λ s.
        one_complete c (matchhere (d ∷ re)) (parse (d ∷ re)) (matchhere-Denotes (d ∷ re)) text s.0
          s.1 s.2 s.3 s.4,
  )
]

any_sound :
    (re text : List ℕ)
    → match_any re text ≡ true
    → (u : List ℕ) × (v : List ℕ) × (text ≡ u ++ v) × Denotes (parse re) v
unfolding match_any
any_sound re [] e = ([], [], refl, (matchhere-Denotes re []).0 e)
any_sound re (t ∷ text) e = elim (Bool-cases (matchhere re (t ∷ text))) [
  | inl now ↦ ([], t ∷ text, refl, (matchhere-Denotes re (t ∷ text)).0 now)
  | inr later ↦
      let r : (u : List ℕ) × (v : List ℕ) × (text ≡ u ++ v) × Denotes (parse re) v =
        any_sound re text (ground arith) in
      (t ∷ r.0, r.1, ap (λ l. t ∷ l) r.2, r.3)
]

any_complete :
    (re u v text : List ℕ) → text ≡ u ++ v → Denotes (parse re) v → match_any re text ≡ true
unfolding match_any
any_complete re [] v [] e d = (matchhere-Denotes re []).1 (subst (Denotes (parse re)) (sym e) d)
any_complete re [] v (t ∷ text) e d =
    rw ((matchhere-Denotes re (t ∷ text)).1 (subst (Denotes (parse re)) (sym e) d)) refl
any_complete re (x ∷ u) v [] e d = absurd (ground arith)
any_complete re (x ∷ u) v (t ∷ text) e d =
    let shorter : text ≡ u ++ v = cc in
    let more : match_any re text ≡ true = any_complete re u v text shorter d in
    elim (Bool-cases (matchhere re (t ∷ text))) [
      | inl now ↦ rw now refl
      | inr later ↦ rw later more
    ]

-- match accepts a line exactly if the pattern denotes the beginning of one of its suffixes, the
-- empty one among them; after `^`, exactly if it denotes the beginning of the line.
pub match_line-Denotes :
    (c : ℕ) (re text : List ℕ)
    → ((match_line (b'^' ∷ re) text ≡ true) ↔ Denotes (parse re) text)
      × ((c ≡ b'^')
          ⊎ ((match_line (c ∷ re) text ≡ true)
              ↔ ((u : List ℕ) × (v : List ℕ) × (text ≡ u ++ v) × Denotes (parse (c ∷ re)) v)))
      × (match_line [] text ≡ true)
unfolding match_line matchhere
match_line-Denotes c re text =
    (matchhere-Denotes re text, free, any_complete [] [] text text refl empty)
  where
    empty : Denotes (parse []) text
    empty = (matchhere-Denotes [] text).0 refl

    free :
        (c ≡ b'^')
        ⊎ ((match_line (c ∷ re) text ≡ true)
            ↔ ((u : List ℕ) × (v : List ℕ) × (text ≡ u ++ v) × Denotes (parse (c ∷ re)) v))
    free = elim (Bool-cases (c == b'^')) [
      | inl caret ↦ inl (==→eq c b'^' caret)
      | inr other ↦
          inr (rw other (any_sound (c ∷ re) text, λ s. any_complete (c ∷ re) s.0 s.1 text s.2 s.3))
    ]
