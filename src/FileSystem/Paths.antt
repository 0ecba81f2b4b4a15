-- ===== src/FileSystem/Paths.antt =====
-- kernel/fs.c: paths; skipelem and namex. A path is the list of its bytes before the NUL.
pub mod Elements
use csse332_project.Base.{
  ℕ, zero, suc, ◌+◌, ◌-◌, Bool, true, false, not, ◌&&◌, Option, none, some, List, [], ◌∷◌, ◌==◌,
  ltb, leb, if◌then◌else◌, take, length, get_elem?, Outcome, ok, panic, spin, ◌>>=◌,
}
use csse332_project.FileSystem.{Superblock}
use csse332_project.FileSystem.Table.{Tree, fetch, iget, idup, ilock, iunlock, iput, iunlockput}
use csse332_project.FileSystem.Directory.{dirlookup, name_size, type_dir}

abbrev pub slash : ℕ
slash = b'/'

-- `while(*path == '/') path++`
pub skip_slashes : List ℕ → List ℕ
skip_slashes [] = []
skip_slashes (c ∷ path) = let rest = skip_slashes path in if c == slash then rest else c ∷ path

-- `while(*path != '/' && *path != 0) path++`: the bytes passed, and the rest.
pub split_element : List ℕ → List ℕ × List ℕ
split_element [] = ([], [])
split_element (c ∷ path) =
    let r = split_element path in if c == slash then ([], c ∷ path) else (c ∷ r.0, r.1)

-- The bytes of `name` before its NUL, or all 14 where it has none, and the rest of the path.
pub skipelem : List ℕ → Option (List ℕ × List ℕ)
skipelem path =
    let s = skip_slashes path in
    let r = split_element s in
    elim s [ [] ↦ none | c ∷ t ↦ some (take name_size (r.0), skip_slashes (r.1)) ]

-- A name as `name[DIRSIZ]`, filled up with NULs.
pub name_bytes : List ℕ → ℕ → ℕ
name_bytes name i = elim (get_elem? name i) [ none ↦ 0 | some c ↦ c ]

-- What namex returns: the inode, none for 0, and the last element that it copied.
pub record Named : Type 0 where
  pub inode : Option ℕ
  pub name : List ℕ
  pub tree : Tree

module _ (sb : Superblock) (pid : ℕ) where
  -- The loop of namex at the inode `i`; each element takes at least a byte of the path, so the fuel
  -- that namex gives is enough.
  pub walk_loop : (fuel : ℕ) → (parent : Bool) → List ℕ → (name : List ℕ) → ℕ → Tree → Outcome Named
  walk_loop zero parent path name i t = spin
  walk_loop (suc fuel) parent path name i t = elim (skipelem path) [
    | none ↦
        if parent
        then (iput sb pid i t >>= λ t1. ok (record { inode = none; name = name; tree = t1 }))
        else ok (record { inode = some i; name = name; tree = t })
    | some (element, rest) ↦ do
      t1 ← ilock sb pid i t
      ip ← fetch i t1
      let stop : Outcome Named =
          (iunlockput sb pid i t1 >>= λ t2. ok (record { inode = none; name = element; tree = t2 }))
      let early : Outcome Named =
          (iunlock sb pid i t1 >>= λ t2. ok (record { inode = some i; name = element; tree = t2 }))
      let further : Outcome Named =
          (dirlookup sb i (name_bytes element) t1 >>= λ (t2, found). elim found [
            | none ↦ iunlockput sb pid i t2 >>= λ t3.
                ok (record { inode = none; name = element; tree = t3 })
            | some (next, off) ↦
                iunlockput sb pid i t2 >>= λ t3. walk_loop fuel parent rest element next t3
          ])
      if not (ip.type == type_dir)
          then stop
          else if parent && length rest == 0
          then early
          else further
  ]

  -- `cwd` is the current directory; the root is inode 1 of device 1.
  pub namex : (cwd : ℕ) → (parent : Bool) → List ℕ → Tree → Outcome Named
  namex cwd parent path t = do
    (ips, i) ← elim path as (λ p. Outcome (List _ × ℕ)) [
      | [] ↦ ok (idup cwd t.inodes, cwd)
      | c ∷ rest ↦ if c == slash then iget 1 1 t.inodes else ok (idup cwd t.inodes, cwd)
    ]
    walk_loop (suc (length path)) parent path [] i (record t { inodes = ips })

  pub namei : (cwd : ℕ) → List ℕ → Tree → Outcome Named
  namei cwd path t = namex cwd false path t

  pub nameiparent : (cwd : ℕ) → List ℕ → Tree → Outcome Named
  nameiparent cwd path t = namex cwd true path t
