-- ===== src/FileSystem/Paths/Elements.antt =====
-- kernel/fs.c: skipelem, and the elements of a path.
use csse332_project.Base.{
  ℕ, ◌≤◌, ◌<◌, ◌≡◌, refl, sym, ap, ◌∙◌, ◌⊎◌, inl, inr, true, false, Option, none, some, List, [],
  ◌∷◌, ◌==◌, if◌then◌else◌, take, length, arith, Bool-cases,
}
use csse332_project.FileSystem.Paths.{slash, skip_slashes, split_element, skipelem}
use csse332_project.FileSystem.Directory.{name_size}

-- A byte in front of the first element.
abbrev prepend : ℕ → List (List ℕ) → List (List ℕ)
prepend c [] = (c ∷ []) ∷ []
prepend c (e ∷ es) = (c ∷ e) ∷ es

-- The elements of a path: its longest runs of bytes other than `/`.
pub elements : List ℕ → List (List ℕ)
elements [] = []
elements (c ∷ []) = if c == slash then [] else (c ∷ []) ∷ []
elements (c ∷ d ∷ path) =
    let rest = elements (d ∷ path) in
    if c == slash then rest else if d == slash then (c ∷ []) ∷ rest else prepend c rest

elements-slash : (c : ℕ) (path : List ℕ) → (c == slash) ≡ true → elements (c ∷ path) ≡ elements path
unfolding elements
elements-slash c [] h = rw h refl
elements-slash c (d ∷ path) h = rw h refl

elements-skip_slashes : (path : List ℕ) → elements (skip_slashes path) ≡ elements path
unfolding skip_slashes
elements-skip_slashes [] = refl
elements-skip_slashes (c ∷ path) = elim (Bool-cases (c == slash)) [
  | inl s ↦ rw s (elements-skip_slashes path ∙ sym (elements-slash c path s))
  | inr o ↦ rw o refl
]

elements-split_element :
    (c : ℕ) (path : List ℕ)
    → (c == slash) ≡ false
    → elements (c ∷ path) ≡ (split_element (c ∷ path)).0 ∷ elements (split_element (c ∷ path)).1
unfolding elements split_element
elements-split_element c [] h = rw h refl
elements-split_element c (d ∷ path) h = elim (Bool-cases (d == slash)) [
  | inl s ↦ rw (h, s) refl
  | inr o ↦ rw h (rw o (ap (prepend c) (elements-split_element d path o) ∙ (rw o refl)))
]

-- What skipelem leaves: no slash in front, and less than the path.
pub record IsRest (path rest : List ℕ) : Type 0 where
  pub head : skip_slashes rest ≡ rest
  pub less : length rest < length path

skip_slashes_idem : (path : List ℕ) → skip_slashes (skip_slashes path) ≡ skip_slashes path
unfolding skip_slashes
skip_slashes_idem [] = refl
skip_slashes_idem (c ∷ path) = elim (Bool-cases (c == slash)) [
  | inl s ↦ rw s (skip_slashes_idem path)
  | inr o ↦ rw o (rw o refl)
]

skip_slashes-le : (path : List ℕ) → length (skip_slashes path) ≤ length path
unfolding skip_slashes
skip_slashes-le [] = omega arith
skip_slashes-le (c ∷ path) = ground (arith, skip_slashes-le path)

split_element-le : (path : List ℕ) → length (split_element path).1 ≤ length path
unfolding split_element
split_element-le [] = omega arith
split_element-le (c ∷ path) = ground (arith, split_element-le path)

split_element-lt :
    (c : ℕ) (path : List ℕ)
    → (c == slash) ≡ false
    → length (split_element (c ∷ path)).1 ≤ length path
unfolding split_element
split_element-lt c path h = rw h (split_element-le path)

skip_slashes-head :
    (path : List ℕ) (c : ℕ) (rest : List ℕ) → skip_slashes path ≡ c ∷ rest → (c == slash) ≡ false
unfolding skip_slashes
skip_slashes-head [] c rest h = cc
skip_slashes-head (d ∷ path) c rest h = elim (Bool-cases (d == slash)) [
  | inl s ↦ skip_slashes-head path c rest (ground arith)
  | inr o ↦ let e : d ≡ c = ground arith in ap (λ x. x == slash) (sym e) ∙ o
]

-- skipelem of what is left behind the slashes.
abbrev cut : List ℕ → Option (List ℕ × List ℕ)
cut [] = none
cut (c ∷ t) =
    some (take name_size ((split_element (c ∷ t)).0), skip_slashes ((split_element (c ∷ t)).1))

skipelem-cut : (path : List ℕ) → skipelem path ≡ cut (skip_slashes path)
unfolding skipelem
skipelem-cut path = same (skip_slashes path)
  where
    same :
        (s : List ℕ)
        → elim s as (λ x. Option (List ℕ × List ℕ)) [
          | [] ↦ none
          | c ∷ t ↦ some (take name_size ((split_element s).0), skip_slashes ((split_element s).1))
        ]
          ≡ cut s
    same [] = refl
    same (c ∷ t) = refl

-- skipelem reports the end exactly of a path without elements. Else it copies the first element, cut to
-- 14 bytes, and returns a shorter path of the others, which has no slash in front.
pub skipelem-elements :
    (path : List ℕ)
    → ((skipelem path ≡ none) × (elements path ≡ []))
      ⊎ ((element : List ℕ) × (rest : List ℕ) × (skipelem path
            ≡ some (take name_size element, rest))
          × (elements path ≡ element ∷ elements rest)
          × IsRest path rest)
unfolding elements
skipelem-elements path = go (skip_slashes path) refl
  where
    go :
        (s : List ℕ)
        → skip_slashes path ≡ s
        → ((skipelem path ≡ none) × (elements path ≡ []))
          ⊎ ((element : List ℕ) × (rest : List ℕ) × (skipelem path
                ≡ some (take name_size element, rest))
              × (elements path ≡ element ∷ elements rest)
              × IsRest path rest)
    go [] e = inl (skipelem-cut path ∙ ap cut e, sym (elements-skip_slashes path) ∙ ap elements e)
    go (c ∷ t) e =
        let head : (c == slash) ≡ false = skip_slashes-head path c t e in
        inr (
          (split_element (c ∷ t)).0,
          skip_slashes (split_element (c ∷ t)).1,
          skipelem-cut path ∙ ap cut e,
          sym (elements-skip_slashes path)
              ∙ ap elements e
              ∙ elements-split_element c t head
              ∙ ap (λ es. (split_element (c ∷ t)).0 ∷ es)
                  (sym (elements-skip_slashes (split_element (c ∷ t)).1)),
          record {
            head = skip_slashes_idem (split_element (c ∷ t)).1;
            less = omega (
              arith,
              split_element-lt c t head,
              skip_slashes-le (split_element (c ∷ t)).1,
              skip_slashes-le path,
              ap length e,
            );
          },
        )
