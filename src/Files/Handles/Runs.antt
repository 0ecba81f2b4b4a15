-- ===== src/Files/Handles/Runs.antt =====
-- Runs of acts on the table of files.
use csse332_project.Base.{
  ℕ, suc, ◌+◌, ◌^◌, ◌≤◌, ◌<◌, ◌≡◌, inl, inr, refl, ap, ◌∙◌, true, false, none, some, List, [], ◌∷◌,
  ltb, get_elem?, set, u32, sub32, ok, ◌>>=◌, arith, Bool-cases, length, ltb→lt,
}
use csse332_project.Files.{File, fd_none, is_open, drop_file}
use csse332_project.Files.Handles.{
  holders, remove, Act, opens, duplicates, closes, Handles, act, run, IsCounted,
}
use csse332_project.Files.Handles.Counting.{
  holders-length, holders-remove_self, holders-remove_ne, length-remove, filealloc-takes,
  IsCounted-set, holders-cons_ne, holders-cons_self, filedup-open, drop_file-open,
}

-- What an act leaves.
pub record IsDone (a : Act) (s s' : Handles) : Type 0 where
  pub counted : IsCounted s'
  pub small : length s'.held ≤ suc (length s.held)

-- A process that opens, duplicates or closes files of which it has handles never makes filedup or
-- fileclose panic.
act-IsDone :
    (a : Act) (s : Handles)
    → IsCounted s
    → suc (length s.held) < 2 ^ 31
    → (s' : Handles) × (act a s ≡ ok s') × IsDone a s s'
unfolding act
act-IsDone opens s c small = elim (filealloc-takes s.files) [
  | inl e ↦ (s, rw e refl, record { counted = c; small = omega arith })
  | inr (i, f, e, at_i, z) ↦ (
    record { files = set s.files i (record f { ref = 1 }); held = i ∷ s.held },
    rw e refl,
    record {
      counted =
          IsCounted-set s i f (record f { ref = 1 }) (i ∷ s.held) c at_i
            (omega (arith, holders-cons_self i s.held, c.counted i f at_i, z))
            (λ j ne. holders-cons_ne i j s.held ne);
      small = omega arith;
    },
  )
]
act-IsDone (duplicates i) s c small = elim (Bool-cases (ltb 0 (holders i s.held))) [
  | inr none_held ↦ (s, rw none_held refl, record { counted = c; small = omega arith })
  | inl held ↦
      let r : (f : File) × (get_elem? s.files i ≡ some f) =
        c.real i (ltb→lt 0 (holders i s.held) held) in
      let f : File = r.0 in
      let n : f.ref ≡ holders i s.held = c.counted i f r.1 in
      let is_up : is_open f ≡ true = ground (arith, n, held, small, holders-length i s.held) in
      (
        record { files = set s.files i (record f { ref = u32 (f.ref + 1) }); held = i ∷ s.held },
        rw (held, filedup-open i s.files f r.1 is_up) refl,
        record {
          counted =
              IsCounted-set s i f (record f { ref = u32 (f.ref + 1) }) (i ∷ s.held) c r.1
                (omega (arith, holders-cons_self i s.held, n, small, holders-length i s.held))
                (λ j ne. holders-cons_ne i j s.held ne);
          small = omega arith;
        },
      )
]
act-IsDone (closes i) s c small = elim (Bool-cases (ltb 0 (holders i s.held))) [
  | inr none_held ↦ (s, rw none_held refl, record { counted = c; small = omega arith })
  | inl held ↦
      let p : 0 < holders i s.held = ltb→lt 0 (holders i s.held) held in
      let r : (f : File) × (get_elem? s.files i ≡ some f) = c.real i p in
      let f : File = r.0 in
      let n : f.ref ≡ holders i s.held = c.counted i f r.1 in
      let is_up : is_open f ≡ true = ground (arith, n, held, small, holders-length i s.held) in
      elim (Bool-cases (is_open (record f { ref = sub32 f.ref 1 }))) [
        | inl still ↦
            let f' : File = record f { ref = sub32 f.ref 1 } in
            (
              record { files = set s.files i f'; held = remove i s.held },
              rw (held, drop_file-open i s.files f r.1 is_up, still) refl,
              record {
                counted =
                    IsCounted-set s i f f' (remove i s.held) c r.1
                      (omega
                        (arith, holders-remove_self i s.held p, n, small, holders-length i s.held))
                      (λ j ne. holders-remove_ne i j s.held ne);
                small = omega (arith, length-remove i s.held);
              },
            )
        | inr last ↦
            let f' : File = record f { ref = 0; type = fd_none } in
            (
              record { files = set s.files i f'; held = remove i s.held },
              rw (held, drop_file-open i s.files f r.1 is_up, last) refl,
              record {
                counted =
                    IsCounted-set s i f f' (remove i s.held) c r.1
                      (ground (
                        arith,
                        holders-remove_self i s.held p,
                        n,
                        small,
                        holders-length i s.held,
                        last,
                      ))
                      (λ j ne. holders-remove_ne i j s.held ne);
                small = omega (arith, length-remove i s.held);
              },
            )
      ]
]

-- How the next close of a file with a handle ends: the last one releases what the file stands for.
pub record IsShared (s : Handles) (i : ℕ) : Type 0 where
  pub closes_last :
      holders i s.held ≡ 1
      → (files : List File) × (ff : File) × (drop_file i s.files ≡ ok (files, some ff))
  pub closes_early :
      1 < holders i s.held → (files : List File) × (drop_file i s.files ≡ ok (files, none))

counted-IsShared :
    (s : Handles) (i : ℕ)
    → IsCounted s
    → length s.held < 2 ^ 31
    → 0 < holders i s.held
    → IsShared s i
counted-IsShared s i c small p =
    let r : (f : File) × (get_elem? s.files i ≡ some f) = c.real i p in
    let f : File = r.0 in
    let n : f.ref ≡ holders i s.held = c.counted i f r.1 in
    let is_up : is_open f ≡ true = ground (arith, n, p, small, holders-length i s.held) in
    record {
      closes_last = λ one.
          let last : is_open (record f { ref = sub32 f.ref 1 }) ≡ false = ground (arith, n, one) in
          (
            set s.files i (record f { ref = 0; type = fd_none }),
            record f { ref = sub32 f.ref 1 },
            drop_file-open i s.files f r.1 is_up ∙ rw last refl,
          );
      closes_early = λ more.
          let still : is_open (record f { ref = sub32 f.ref 1 }) ≡ true =
            ground (arith, n, more, small, holders-length i s.held) in
          (
            set s.files i (record f { ref = sub32 f.ref 1 }),
            drop_file-open i s.files f r.1 is_up ∙ rw still refl,
          );
    }

-- What a run leaves: counts that agree with the handles, and files that close with their last handle.
pub record IsRun (s s' : Handles) : Type 0 where
  pub counted : IsCounted s'
  pub shared : (i : ℕ) → 0 < holders i s'.held → IsShared s' i

-- However processes open, duplicate and close files of which they have handles, neither filedup nor
-- fileclose panics, the reference count of each file is the number of its handles, and it is exactly
-- the close of the last handle that releases the file. The counts fit an int: there are fewer than
-- 2 ^ 31 acts and handles.
pub run-IsRun :
    (acts : List Act) (s : Handles)
    → IsCounted s
    → length acts + length s.held < 2 ^ 31
    → (s' : Handles) × (run acts s ≡ ok s') × IsRun s s'
unfolding run
run-IsRun [] s c small =
    (s, refl, record { counted = c; shared = λ i p. counted-IsShared s i c (omega arith) p })
run-IsRun (a ∷ acts) s c small =
    let d : (s1 : Handles) × (act a s ≡ ok s1) × IsDone a s s1 = act-IsDone a s c (omega arith) in
    let e : length d.0.held ≤ suc (length s.held) = d.2.small in
    let r : (s' : Handles) × (run acts d.0 ≡ ok s') × IsRun d.0 s' =
      run-IsRun acts d.0 d.2.counted (omega (arith, e)) in
    (r.0, ap (λ o. o >>= run acts) d.1 ∙ r.1, record { counted = r.2.counted; shared = r.2.shared })
