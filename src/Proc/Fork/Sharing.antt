-- ===== src/Proc/Fork/Sharing.antt =====
-- The descriptors that fork shares between parent and child.
use csse332_project.Base.{
  ℕ, suc, ◌+◌, ◌^◌, ◌<◌, ◌≡◌, refl, sym, ap, subst, ◌∙◌, true, Option, none, some, List, [], ◌∷◌,
  ◌==◌, u32, get_elem?, set, ok, arith, inl, inr, Bool-cases, ==→eq, ==→ne, ==_self, length,
  get_elem?-set_ne, get_elem?-set-some,
}
use csse332_project.Files.{File, is_open}
use csse332_project.Files.Handles.{holders}
use csse332_project.Files.Handles.Counting.{filedup-open}
use csse332_project.Proc.Fork.{dup_files}

-- The files behind the descriptors.
abbrev pub described : List (Option ℕ) → List ℕ
described [] = []
described (none ∷ fds) = described fds
described (some f ∷ fds) = f ∷ described fds

-- As many descriptors as the parent has, all free.
abbrev pub IsBlank : (parent child : List (Option ℕ)) → Type 0
IsBlank [] [] = Unit
IsBlank (f ∷ parent) (none ∷ child) = IsBlank parent child
IsBlank parent child = ⊥

-- Every file of a descriptor is open, with room for `extra` more references.
pub record IsShareable (fds : List (Option ℕ)) (extra : ℕ) (files : List File) : Type 0 where
  pub opened :
      (i : ℕ)
      → 0 < holders i (described fds)
      → (f : File) × (get_elem? files i ≡ some f) × (0 < f.ref) × (f.ref + extra < 2 ^ 31)

-- The table after it: each file has a reference more for each descriptor, and nothing else changes.
pub record Duplicated (fds : List (Option ℕ)) (files files' : List File) : Type 0 where
  pub counted :
      (i : ℕ) (f : File)
      → get_elem? files i ≡ some f
      → get_elem? files' i ≡ some (record f { ref = f.ref + holders i (described fds) })

with_ref : (f : File) (n : ℕ) → n ≡ f.ref → some f ≡ some (record f { ref = n })
with_ref f n e = ap (λ k. some (record f { ref = k })) (sym e)

-- One more reference to file `i`.
abbrev pub raise : File → File
raise f = record f { ref = u32 (f.ref + 1) }

IsShareable-next :
    (f : ℕ) (parent : List (Option ℕ)) (files : List File) (g : File)
    → IsShareable (some f ∷ parent) (suc (length parent)) files
    → get_elem? files f ≡ some g
    → g.ref + suc (length parent) < 2 ^ 31
    → IsShareable parent (length parent) (set files f (raise g))
unfolding holders
IsShareable-next f parent files g s at_f small = record {
  opened = λ i p. elim (Bool-cases (f == i)) [
    | inl same ↦ (
      raise g,
      subst (λ k. get_elem? (set files f (raise g)) k ≡ some (raise g)) (==→eq f i same)
          (get_elem?-set-some files f (raise g) at_f),
      omega arith,
      omega arith,
    )
    | inr other ↦
        let r : (h : File) × (get_elem? files i ≡ some h)
            × (0 < h.ref)
            × (h.ref + suc (length parent) < 2 ^ 31) =
          s.opened i (ground (arith, p)) in
        (r.0, get_elem?-set_ne files f i (raise g) (==→ne f i other) ∙ r.1, r.2, omega (arith, r.3))
  ];
}

Duplicated-next :
    (f : ℕ) (parent : List (Option ℕ)) (files files' : List File) (g : File)
    → get_elem? files f ≡ some g
    → g.ref + 1 < 2 ^ 31
    → Duplicated parent (set files f (raise g)) files'
    → Duplicated (some f ∷ parent) files files'
unfolding holders
Duplicated-next f parent files files' g at_f small d = record {
  counted = λ i h at_i. elim (Bool-cases (f == i)) [
    | inl same ↦
        let e : f ≡ i = ==→eq f i same in
        let at_g : get_elem? files i ≡ some g = subst (λ k. get_elem? files k ≡ some g) e at_f in
        let q : some h ≡ some g = sym at_i ∙ at_g in
        let there : get_elem? (set files f (raise g)) i ≡ some (raise g) =
          subst (λ k. get_elem? (set files f (raise g)) k ≡ some (raise g)) e
            (get_elem?-set-some files f (raise g) at_f) in
        let hg : g ≡ h = cc in
        d.counted i (raise g) there
        ∙ subst
            (λ x.
              some (record g { ref = u32 (g.ref + 1) + holders i (described parent) })
              ≡ some (record x { ref = x.ref + holders i (f ∷ described parent) }))
            hg (ap (λ k. some (record g { ref = k })) (rw same (omega arith)))
    | inr other ↦
        d.counted i h (get_elem?-set_ne files f i (raise g) (==→ne f i other) ∙ at_i)
        ∙ ap (λ k. some (record h { ref = h.ref + k })) (rw other (omega arith))
  ];
}

-- With the parent's files open, and counts that fit an int, fork gives the child the parent's
-- descriptors in the same places, and each file one more reference for each of them; no other file
-- changes.
pub dup_files-Duplicated :
    (parent child : List (Option ℕ)) (files : List File)
    → IsBlank parent child
    → IsShareable parent (length parent) files
    → (files' : List File) × (dup_files parent child files ≡ ok (parent, files'))
      × Duplicated parent files files'
unfolding dup_files holders
dup_files-Duplicated [] [] files b s =
    (files, refl, record { counted = λ i f e. e ∙ with_ref f (f.ref + 0) (omega arith) })
dup_files-Duplicated [] (g ∷ child) files b s = elim b [ ]
dup_files-Duplicated (none ∷ parent) [] files b s = elim b [ ]
dup_files-Duplicated (none ∷ parent) (some g ∷ child) files b s = elim b [ ]
dup_files-Duplicated (some f ∷ parent) [] files b s = elim b [ ]
dup_files-Duplicated (some f ∷ parent) (some g ∷ child) files b s = elim b [ ]
dup_files-Duplicated (none ∷ parent) (none ∷ child) files b s =
    let fewer : IsShareable parent (length parent) files = record {
      opened = λ i p.
          let r : (h : File) × (get_elem? files i ≡ some h)
              × (0 < h.ref)
              × (h.ref + suc (length parent) < 2 ^ 31) =
            s.opened i p in
          (r.0, r.1, r.2, omega (arith, r.3));
    } in
    let ih : (files' : List File) × (dup_files parent child files ≡ ok (parent, files'))
        × Duplicated parent files files' =
      dup_files-Duplicated parent child files b fewer in
    (ih.0, rw ih.1 refl, record { counted = ih.2.counted })
dup_files-Duplicated (some f ∷ parent) (none ∷ child) files b s =
    let r : (g : File) × (get_elem? files f ≡ some g)
        × (0 < g.ref)
        × (g.ref + suc (length parent) < 2 ^ 31) =
      s.opened f (rw (==_self f) (omega arith)) in
    let g : File = r.0 in
    let small : g.ref + suc (length parent) < 2 ^ 31 = r.3 in
    let up : is_open g ≡ true = ground (arith, r.2, small) in
    let ih : (files' : List File) × (dup_files parent child (set files f (raise g))
          ≡ ok (parent, files'))
        × Duplicated parent (set files f (raise g)) files' =
      dup_files-Duplicated parent child (set files f (raise g)) b
        (IsShareable-next f parent files g s r.1 small) in
    (
      ih.0,
      rw (filedup-open f files g r.1 up, ih.1) refl,
      Duplicated-next f parent files ih.0 g r.1 (omega arith) ih.2,
    )
