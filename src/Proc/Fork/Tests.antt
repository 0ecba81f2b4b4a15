-- ===== src/Proc/Fork/Tests.antt =====
-- fork's loop with one file behind two descriptors.
use csse332_project.Base.{
  ℕ, zero, suc, ◌+◌, ◌^◌, ◌<◌, ◌≡◌, refl, true, Option, none, some, List, [], ◌∷◌, get_elem?, ok,
  arith, length,
}
use csse332_project.Files.{File, fd_inode}
use csse332_project.Files.Handles.{holders}
use csse332_project.Proc.Fork.{dup_files}
use csse332_project.Proc.Fork.Sharing.{Duplicated, described, dup_files-Duplicated}

abbrev shared : File
shared = record {
  type = fd_inode;
  ref = 2;
  readable = true;
  writable = true;
  pipe = 0;
  ip = 3;
  off = 0;
  major = 0;
}

abbrev fds : List (Option ℕ)
fds = some 0 ∷ none ∷ some 0 ∷ []

abbrev slots : List (Option ℕ)
slots = none ∷ none ∷ none ∷ []

fds_open :
    (i : ℕ)
    → 0 < holders i (described fds)
    → (f : File) × (get_elem? (shared ∷ []) i ≡ some f)
      × (0 < f.ref)
      × (f.ref + length fds < 2 ^ 31)
unfolding holders
fds_open zero p = (shared, refl, omega arith, omega arith)
fds_open (suc i) p = absurd (ground (arith, p))

dup_files-Duplicated_example :
    (files' : List File) × (dup_files fds slots (shared ∷ []) ≡ ok (fds, files'))
    × Duplicated fds (shared ∷ []) files'
dup_files-Duplicated_example =
    dup_files-Duplicated fds slots (shared ∷ []) tt (record { opened = fds_open })
