-- ===== src/Files/Tests.antt =====
-- Two handles of one file, and their closes.
use csse332_project.Base.{ℕ, zero, suc, ◌≡◌, false, some, List, [], ◌∷◌, get_elem?, ok, arith}
use csse332_project.Files.{File, fd_none}
use csse332_project.Files.Handles.{Act, opens, duplicates, closes, Handles, holders, run, IsCounted}
use csse332_project.Files.Handles.Runs.{IsRun, run-IsRun}

abbrev free_file : File
free_file = record {
  type = fd_none;
  ref = 0;
  readable = false;
  writable = false;
  pipe = 0;
  ip = 0;
  off = 0;
  major = 0;
}

abbrev two_free : Handles
two_free = record { files = free_file ∷ free_file ∷ []; held = [] }

abbrev acts : List Act
acts = opens ∷ duplicates 0 ∷ opens ∷ closes 0 ∷ []

two_free-counted :
    (i : ℕ) (f : File) → get_elem? two_free.files i ≡ some f → f.ref ≡ holders i two_free.held
unfolding holders
two_free-counted zero f h = let q : some free_file ≡ some f = h in cc
two_free-counted (suc zero) f h = let q : some free_file ≡ some f = h in cc
two_free-counted (suc (suc i)) f h = cc

two_free-IsCounted : IsCounted two_free
unfolding holders
two_free-IsCounted = record { counted = two_free-counted; real = λ i p. absurd (omega arith) }

run-IsRun_example : (s' : Handles) × (run acts two_free ≡ ok s') × IsRun two_free s'
run-IsRun_example = run-IsRun acts two_free two_free-IsCounted (omega arith)
