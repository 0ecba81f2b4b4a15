-- ===== src/Proc/Fork.antt =====
-- fork of kernel/proc.c, with the address spaces, the files and the inodes. What the allocations of
-- allocproc return is given, as in Proc/Alloc, and what freeproc frees is listed.
pub mod Sharing
mod Tests
use csse332_project.Base.{
  ℕ, zero, suc, Bool, true, false, not, Option, none, some, List, [], ◌∷◌, ◌++◌, if◌then◌else◌,
  take, set, Outcome, ok, fault, ◌>>=◌,
}
use csse332_project.Pages.{page_size}
use csse332_project.Paging.{Vm}
use csse332_project.Paging.User.{uvmcopy}
use csse332_project.FileSystem.{Inode}
use csse332_project.FileSystem.Table.{idup}
use csse332_project.Files.{File, filedup}
use csse332_project.Proc.{Proc, Kernel, runnable, acquire, release}
use csse332_project.Proc.Life.{fetch}
use csse332_project.Proc.Alloc.{Pages, freeproc, allocproc}

-- `freed`: what freeproc gave back.
pub record Machine : Type 0 where
  pub kernel : Kernel
  pub vm : Vm
  pub files : List File
  pub inodes : List Inode
  pub freed : List ℕ

-- The loop over the descriptors: those of the parent, and of the child.
pub dup_files : (parent child : List (Option ℕ)) → List File → Outcome (List (Option ℕ) × List File)
dup_files [] child files = ok (child, files)
dup_files (f ∷ parent) [] files = fault
dup_files (none ∷ parent) (g ∷ child) files =
    dup_files parent child files >>= λ (rest, files'). ok (g ∷ rest, files')
dup_files (some f ∷ parent) (g ∷ child) files = filedup f files >>= λ files1.
    dup_files parent child files1 >>= λ (rest, files'). ok (some f ∷ rest, files')

-- The fields that fork copies; the name has 15 bytes at most.
pub inherit : (me : ℕ) → (ofile : List (Option ℕ)) → (p q : Proc) → Proc
inherit me ofile p q = record q {
  sz = p.sz;
  frame = record (p.frame) { a0 = 0 };
  ofile = ofile;
  cwd = p.cwd;
  name = take 15 p.name;
  parent = some me;
}

-- fork from the failed uvmcopy on.
pub fork_fails : (np : ℕ) → Proc → Machine → Outcome (Machine × Option ℕ)
fork_fails np q m =
    let r = freeproc q in
    release (r.0) >>= λ q'. ok (
      record m {
        kernel = record (m.kernel) { proc = set m.kernel.proc np q' };
        freed = m.freed ++ r.1;
      },
      none,
    )

-- fork from the copy of the descriptors on: the pid of the child.
pub fork_finishes : (me np : ℕ) → (p q : Proc) → Machine → Outcome (Machine × Option ℕ)
fork_finishes me np p q m = do
  (ofile, files) ← dup_files p.ofile q.ofile m.files
  inodes ← elim (p.cwd) as (λ c. Outcome (List Inode)) [
    | none ↦ fault
    | some i ↦ ok (idup i m.inodes)
  ]
  q1 ← release (inherit me ofile p q)
  q2 ← acquire q1
  q3 ← release (record q2 { state = runnable })
  ok (
    record m {
      kernel = record (m.kernel) { proc = set m.kernel.proc np q3 };
      files = files;
      inodes = inodes;
    },
    some q.pid,
  )

-- `end` is the first address behind the kernel, and `me` the process that calls; none is -1.
pub fork : (end forkret : ℕ) → Pages → (me : ℕ) → Machine → Outcome (Machine × Option ℕ)
fork end forkret g me m = do
  p ← fetch me m.kernel.proc
  (k1, made, freed) ← allocproc forkret page_size g m.kernel
  let m1 : Machine = record m { kernel = k1; freed = m.freed ++ freed }
  elim made as (λ o. Outcome (Machine × Option ℕ)) [
    | none ↦ ok (m1, none)
    | some np ↦ do
      q ← fetch np k1.proc
      (vm, copied) ← uvmcopy end p.pagetable q.pagetable p.sz m.vm
      let m2 : Machine = record m1 { vm = vm }
      let child : Outcome (Machine × Option ℕ) = fork_finishes me np p q m2
      if copied then child else fork_fails np q m2
  ]
