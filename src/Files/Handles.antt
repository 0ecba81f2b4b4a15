-- ===== src/Files/Handles.antt =====
-- The reference counts of the files: any number of processes open, duplicate and close files, each
-- only files of which it has a handle.
pub mod Counting
pub mod Runs
use csse332_project.Base.{
  ℕ, suc, ◌+◌, ◌^◌, ◌≤◌, ◌<◌, ◌≡◌, ◌≢◌, ◌⊎◌, inl, inr, refl, sym, ap, subst, ◌∙◌, true, false, not,
  Option, none, some, List, [], ◌∷◌, ◌==◌, ltb, if◌then◌else◌, get_elem?, set, u32, sub32, Outcome,
  ok, panic, fault, ◌>>=◌, arith, Bool-cases, ==→eq, ==→ne, ne→==, ==_self, length,
  get_elem?-set_ne, get_elem?-set-some, ltb→lt,
}
use csse332_project.Files.{File, fd_none, is_open, filealloc, filedup, drop_file, get_file}

-- How many handles of file `i` there are.
unfoldable pub holders : ℕ → List ℕ → ℕ
holders i [] = 0
holders i (h ∷ hs) = (if h == i then 1 else 0) + holders i hs

pub remove : ℕ → List ℕ → List ℕ
remove i [] = []
remove i (h ∷ hs) = let rest = remove i hs in if h == i then hs else h ∷ rest

-- What a process does with the table.
pub data Act : Type 0 where
  opens : Act
  duplicates closes : ℕ → Act

-- The table, and a handle for each reference.
pub record Handles : Type 0 where
  pub files : List File
  pub held : List ℕ

pub act : Act → Handles → Outcome Handles
act opens s =
    let r = filealloc s.files in
    ok (record { files = r.0; held = elim (r.1) [ none ↦ s.held | some i ↦ i ∷ s.held ] })
act (duplicates i) s =
    let r : Outcome Handles =
      (filedup i s.files >>= λ files. ok (record { files = files; held = i ∷ s.held })) in
    if ltb 0 (holders i s.held) then r else ok s
act (closes i) s =
    let r : Outcome Handles =
      (drop_file i s.files >>= λ (files, last).
      ok (record { files = files; held = remove i s.held })) in
    if ltb 0 (holders i s.held) then r else ok s

pub run : List Act → Handles → Outcome Handles
run [] s = ok s
run (a ∷ acts) s = act a s >>= run acts

-- Each file has as many references as handles, and no handle is of no file.
pub record IsCounted (s : Handles) : Type 0 where
  pub counted : (i : ℕ) (f : File) → get_elem? s.files i ≡ some f → f.ref ≡ holders i s.held
  pub real : (i : ℕ) → 0 < holders i s.held → (f : File) × (get_elem? s.files i ≡ some f)
