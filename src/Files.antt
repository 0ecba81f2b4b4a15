-- ===== src/Files.antt =====
-- kernel/file.c and kernel/file.h: the table of open files. A pointer to a file, a pipe or an inode is
-- its index. `ref` is the bit pattern of an int.
pub mod Access
pub mod Handles
mod Tests
use csse332_project.Base.{
  ℕ, zero, suc, ◌+◌, ◌-◌, ◌^◌, Bool, true, false, not, ◌&&◌, Option, none, some, List, [], ◌∷◌,
  ◌==◌, ltb, if◌then◌else◌, get_elem?, set, u32, sub32, Outcome, ok, panic, fault, ◌>>=◌,
}

pub data FileType : Type 0 where
  fd_none fd_pipe fd_inode fd_device : FileType

pub record File : Type 0 where
  pub type : FileType
  pub ref : ℕ
  pub readable : Bool
  pub writable : Bool
  pub pipe : ℕ
  pub ip : ℕ
  pub off : ℕ
  pub major : ℕ

-- `ref >= 1`, for an int.
abbrev pub is_open : File → Bool
is_open f = ltb 0 f.ref && ltb f.ref (2 ^ 31)

abbrev pub get_file : ℕ → List File → Outcome File
get_file i files = elim (get_elem? files i) [ some f ↦ ok f | none ↦ fault ]

abbrev behind : File → List File × Option ℕ → List File × Option ℕ
behind f (files, none) = (f ∷ files, none)
behind f (files, some i) = (f ∷ files, some (suc i))

-- The table, and the entry taken, none for 0.
pub filealloc : List File → List File × Option ℕ
filealloc [] = ([], none)
filealloc (f ∷ files) =
    let rest = filealloc files in
    if f.ref == 0 then (record f { ref = 1 } ∷ files, some 0) else behind f rest

pub filedup : ℕ → List File → Outcome (List File)
filedup i files = get_file i files >>= λ f.
    if not (is_open f)
    then panic "filedup"
    else ok (set files i (record f { ref = u32 (f.ref + 1) }))

-- The part of fileclose under the lock of the table: the file `ff`, if this was its last reference.
pub drop_file : ℕ → List File → Outcome (List File × Option File)
drop_file i files = get_file i files >>= λ f.
    let f' = record f { ref = sub32 f.ref 1 } in
    if not (is_open f)
    then panic "fileclose"
    else if is_open f'
    then ok (set files i f', none)
    else ok (set files i (record f { ref = 0; type = fd_none }), some f')
