-- ===== src/Files/Handles/Counting.antt =====
-- The handles of a file, and what the functions of the table do to its count.
use csse332_project.Base.{
  ℕ, suc, ◌+◌, ◌≤◌, ◌<◌, ◌≡◌, ◌≢◌, ◌⊎◌, inl, inr, refl, sym, ap, subst, ◌∙◌, true, not, Option,
  none, some, List, [], ◌∷◌, ◌==◌, if◌then◌else◌, get_elem?, set, u32, sub32, Outcome, ok, panic,
  fault, ◌>>=◌, arith, Bool-cases, ==→eq, ==→ne, ne→==, ==_self, length, get_elem?-set_ne,
  get_elem?-set-some,
}
use csse332_project.Files.{File, fd_none, is_open, filealloc, filedup, drop_file, get_file}
use csse332_project.Files.Handles.{holders, remove, Handles, IsCounted}

pub holders-length : (i : ℕ) (hs : List ℕ) → holders i hs ≤ length hs
unfolding holders
holders-length i [] = omega arith
holders-length i (h ∷ hs) = ground (arith, holders-length i hs)

pub holders-remove_self :
    (i : ℕ) (hs : List ℕ) → 0 < holders i hs → holders i (remove i hs) + 1 ≡ holders i hs
unfolding holders remove
holders-remove_self i [] p = absurd (omega arith)
holders-remove_self i (h ∷ hs) p = elim (Bool-cases (h == i)) [
  | inl e ↦ rw e (omega arith)
  | inr o ↦
      let q : 0 < holders i hs = ground (arith, p, o) in
      rw o (rw o (omega (arith, holders-remove_self i hs q)))
]

pub holders-remove_ne : (i j : ℕ) (hs : List ℕ) → i ≢ j → holders j (remove i hs) ≡ holders j hs
unfolding holders remove
holders-remove_ne i j [] ne = refl
holders-remove_ne i j (h ∷ hs) ne = elim (Bool-cases (h == i)) [
  | inl e ↦ rw (e, ne→== h j (λ f. ne (sym (==→eq h i e) ∙ f))) (omega arith)
  | inr o ↦ rw o (ap (λ k. (if h == j then 1 else 0) + k) (holders-remove_ne i j hs ne))
]

pub length-remove : (i : ℕ) (hs : List ℕ) → length (remove i hs) ≤ length hs
unfolding remove
length-remove i [] = omega arith
length-remove i (h ∷ hs) = ground (arith, length-remove i hs)

-- filealloc takes the first entry without references, and changes no other; it fails with every entry
-- referenced.
pub filealloc-takes :
    (files : List File)
    → (filealloc files ≡ (files, none))
      ⊎ ((i : ℕ) × (f : File) × (filealloc files ≡ (set files i (record f { ref = 1 }), some i))
          × (get_elem? files i ≡ some f)
          × (f.ref ≡ 0))
unfolding filealloc
filealloc-takes [] = inl refl
filealloc-takes (f ∷ files) = elim (Bool-cases (f.ref == 0)) [
  | inl z ↦ inr (0, f, rw z refl, refl, ==→eq f.ref 0 z)
  | inr nz ↦ elim (filealloc-takes files) [
    | inl e ↦ inl (rw (nz, e) refl)
    | inr (i, g, e, at_i, z) ↦ inr (suc i, g, rw (nz, e) refl, at_i, z)
  ]
]

-- A table in which the entry `i` has changed.
pub IsCounted-set :
    (s : Handles) (i : ℕ) (f f' : File) (hs : List ℕ)
    → IsCounted s
    → get_elem? s.files i ≡ some f
    → f'.ref ≡ holders i hs
    → ((j : ℕ) → i ≢ j → holders j hs ≡ holders j s.held)
    → IsCounted (record { files = set s.files i f'; held = hs })
IsCounted-set s i f f' hs c at_i e others = record {
  counted = λ j g at_j. elim (Bool-cases (i == j)) [
    | inl same ↦
        let k : i ≡ j = ==→eq i j same in
        let there : get_elem? (set s.files i f') j ≡ some f' =
          subst (λ k. get_elem? (set s.files i f') k ≡ some f') k
            (get_elem?-set-some s.files i f' at_i) in
        let gf : g ≡ f' = let q : some g ≡ some f' = sym at_j ∙ there in cc in
        ap (λ h. h.ref) gf ∙ e ∙ ap (λ k. holders k hs) k
    | inr other ↦
        let ne : i ≢ j = ==→ne i j other in
        c.counted j g (sym (get_elem?-set_ne s.files i j f' ne) ∙ at_j) ∙ sym (others j ne)
  ];
  real = λ j p. elim (Bool-cases (i == j)) [
    | inl same ↦ (
      f',
      subst (λ k. get_elem? (set s.files i f') k ≡ some f') (==→eq i j same)
          (get_elem?-set-some s.files i f' at_i),
    )
    | inr other ↦
        let ne : i ≢ j = ==→ne i j other in
        let r : (g : File) × (get_elem? s.files j ≡ some g) =
          c.real j (subst (λ k. 0 < k) (others j ne) p) in
        (r.0, get_elem?-set_ne s.files i j f' ne ∙ r.1)
  ];
}

pub holders-cons_ne : (i j : ℕ) (hs : List ℕ) → i ≢ j → holders j (i ∷ hs) ≡ holders j hs
unfolding holders
holders-cons_ne i j hs ne = rw (ne→== i j ne) (omega arith)

pub holders-cons_self : (i : ℕ) (hs : List ℕ) → holders i (i ∷ hs) ≡ 1 + holders i hs
unfolding holders
holders-cons_self i hs = rw (==_self i) refl

pub get_file-some :
    (i : ℕ) (files : List File) (f : File) → get_elem? files i ≡ some f → get_file i files ≡ ok f
get_file-some i files f at_i =
    ap (λ o. elim o as (λ x. Outcome File) [ some g ↦ ok g | none ↦ fault ]) at_i

-- What filedup and drop_file do with the file.
abbrev raised : (i : ℕ) → List File → File → Outcome (List File)
raised i files f =
    if not (is_open f)
    then panic "filedup"
    else ok (set files i (record f { ref = u32 (f.ref + 1) }))

abbrev dropped : (i : ℕ) → List File → File → Outcome (List File × Option File)
dropped i files f =
    let f' = record f { ref = sub32 f.ref 1 } in
    if not (is_open f)
    then panic "fileclose"
    else if is_open f'
    then ok (set files i f', none)
    else ok (set files i (record f { ref = 0; type = fd_none }), some f')

pub filedup-open :
    (i : ℕ) (files : List File) (f : File)
    → get_elem? files i ≡ some f
    → is_open f ≡ true
    → filedup i files ≡ ok (set files i (record f { ref = u32 (f.ref + 1) }))
unfolding filedup
filedup-open i files f at_i up =
    ap (λ o. o >>= raised i files) (get_file-some i files f at_i) ∙ rw up refl

pub drop_file-open :
    (i : ℕ) (files : List File) (f : File)
    → get_elem? files i ≡ some f
    → is_open f ≡ true
    → drop_file i files ≡ (
        if is_open (record f { ref = sub32 f.ref 1 })
        then ok (set files i (record f { ref = sub32 f.ref 1 }), none)
        else ok (
          set files i (record f { ref = 0; type = fd_none }),
          some (record f { ref = sub32 f.ref 1 }),
        ))
unfolding drop_file
drop_file-open i files f at_i up =
    ap (λ o. o >>= dropped i files) (get_file-some i files f at_i) ∙ rw up refl
