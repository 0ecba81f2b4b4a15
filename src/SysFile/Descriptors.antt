-- ===== src/SysFile/Descriptors.antt =====
-- kernel/sysfile.c: file descriptors; argfd, fdalloc, sys_dup, sys_read, sys_write, sys_close and
-- sys_fstat.
use csse332_project.Base.{
  ℕ, suc, Bool, true, false, Option, none, some, List, [], ◌∷◌, get_elem?, set, Outcome, ok, ◌>>=◌,
}
use csse332_project.Strings.{Memory}
use csse332_project.FileSystem.{Block, Superblock}
use csse332_project.FileSystem.Inodes.{Stat}
use csse332_project.Files.{filedup}
use csse332_project.Files.Access.{Answer, returned, fileclose, filestat, fileread, filewrite}
use csse332_project.SysFile.{User}

-- The file of a descriptor; a negative `fd` is out of range too.
pub argfd : (fd : ℕ) → List (Option ℕ) → Option ℕ
argfd fd ofile = elim (get_elem? ofile fd) [ none ↦ none | some f ↦ f ]

abbrev further : Option ℕ → List (Option ℕ) × Option ℕ → List (Option ℕ) × Option ℕ
further f (ofile, none) = (f ∷ ofile, none)
further f (ofile, some fd) = (f ∷ ofile, some (suc fd))

-- The table and the descriptor.
pub fdalloc : (f : ℕ) → List (Option ℕ) → List (Option ℕ) × Option ℕ
fdalloc f [] = ([], none)
fdalloc f (none ∷ ofile) = (some f ∷ ofile, some 0)
fdalloc f (some g ∷ ofile) = further (some g) (fdalloc f ofile)

pub sys_dup : (fd : ℕ) → User → Outcome (User × Option ℕ)
sys_dup fd u = elim (argfd fd u.ofile) [
  | none ↦ ok (u, none)
  | some f ↦
      let r = fdalloc f u.ofile in
      elim (r.1) [
        | none ↦ ok (u, none)
        | some fd' ↦ filedup f u.world.files >>= λ files.
            ok (record u { world = record (u.world) { files = files }; ofile = r.0 }, some fd')
      ]
]

module _ (sb : Superblock) (pid : ℕ) where
  pub sys_close : (fd : ℕ) → User → Outcome (User × Bool)
  sys_close fd u = elim (argfd fd u.ofile) [
    | none ↦ ok (u, false)
    | some f ↦ fileclose sb pid f u.world >>= λ w.
        ok (record u { world = w; ofile = set u.ofile fd none }, true)
  ]

  pub sys_fstat : (copyout_stat : Stat → Bool) → (fd : ℕ) → User → Outcome (User × Bool)
  sys_fstat copyout_stat fd u = elim (argfd fd u.ofile) [
    | none ↦ ok (u, false)
    | some f ↦
        filestat sb pid copyout_stat f u.world >>= λ (w, done). ok (record u { world = w }, done)
  ]

  pub sys_read :
      (copyout : (dst : ℕ) → Block → (m : ℕ) → Memory → Memory × Bool)
      → (has_read : ℕ → Bool) → (fd addr n : ℕ) → User
      → Memory
      → Outcome (User × Memory × Answer)
  sys_read copyout has_read fd addr n u mem = elim (argfd fd u.ofile) [
    | none ↦ ok (u, mem, returned none)
    | some f ↦ fileread sb pid copyout has_read f addr n u.world mem >>= λ (w, mem', r).
        ok (record u { world = w }, mem', r)
  ]

  pub sys_write :
      (copyin : Block → (o src m : ℕ) → Block × Bool)
      → (has_write : ℕ → Bool) → (fd addr n : ℕ) → User
      → Outcome (User × Answer)
  sys_write copyin has_write fd addr n u = elim (argfd fd u.ofile) [
    | none ↦ ok (u, returned none)
    | some f ↦ filewrite sb pid copyin has_write f addr n u.world >>= λ (w, r).
        ok (record u { world = w }, r)
  ]
