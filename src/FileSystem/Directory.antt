-- ===== src/FileSystem/Directory.antt =====
-- kernel/fs.c: directories; namecmp, dirlookup and dirlink. A `struct dirent` is 16 bytes: a `ushort`
-- and a name of at most 14 bytes.
use csse332_project.Base.{
  ℕ, zero, suc, ◌+◌, ◌-◌, ◌*◌, ◌/◌, ◌%◌, Bool, true, false, not, ◌&&◌, Option, none, some, ◌==◌,
  ltb, leb, if◌then◌else◌, u32, Outcome, ok, panic, spin, ◌>>=◌,
}
use Prim.Native.String.{String}
use csse332_project.Strings.{Memory, strncmp, strncpy}
use csse332_project.FileSystem.{Block, Superblock, Fs, Inode}
use csse332_project.FileSystem.Content.{readi, writei}
use csse332_project.FileSystem.Table.{Tree, fetch, put, iget, iput}

-- `DIRSIZ`
abbrev pub name_size : ℕ
name_size = 14

abbrev pub entry_size : ℕ
entry_size = 16

-- `T_DIR`
abbrev pub type_dir : ℕ
type_dir = 1

-- `memmove`, the copies of readi and writei where they copy in the kernel: the entry `de` lies at 0.
abbrev pub copy_to : ℕ → Block → ℕ → Memory → Memory × Bool
copy_to dst bytes m mem =
    ((λ a. if leb dst a && ltb a (dst + m) then bytes (a - dst) else mem a), true)

abbrev pub copy_from : Memory → Block → (o src m : ℕ) → Block × Bool
copy_from mem bytes o src m =
    ((λ j. if leb o j && ltb j (o + m) then mem (src + (j - o)) else bytes j), true)

-- The two names, one behind the other in one memory.
pub namecmp : (s t : ℕ → ℕ) → ℕ
namecmp s t =
    strncmp 0 name_size name_size (λ i. if ltb i name_size then s i else t (i - name_size))

abbrev pub entry_inum : Memory → ℕ
entry_inum de = de 0 + 256 * de 1

abbrev pub entry_name : Memory → ℕ → ℕ
entry_name de i = de (2 + i)

-- What a scan of the entries finds: the offset at which it stops, and the entry if it is the one
-- sought; with the inode and the file system, in which readi may have allocated blocks.
pub record Seen : Type 0 where
  pub off : ℕ
  pub hit : Option ℕ
  pub inode : Inode
  pub fs : Fs

module _ (sb : Superblock) where
  -- `readi(dp, 0, &de, off, sizeof(de))`, which panics unless it reads the whole entry.
  pub read_entry : String → (off : ℕ) → Inode → Fs → Outcome (Memory × Inode × Fs)
  read_entry message off dp fs = readi sb copy_to 0 off entry_size dp fs (λ a. 0) >>= λ r.
      elim (r.result) [
        | none ↦ panic message
        | some n ↦ if n == entry_size then ok (r.memory, r.inode, r.fs) else panic message
      ]

  -- The loop of dirlookup, on fuel.
  pub lookup_loop : (fuel : ℕ) → (name : ℕ → ℕ) → (off : ℕ) → Inode → Fs → Outcome Seen
  lookup_loop zero name off dp fs = spin
  lookup_loop (suc fuel) name off dp fs =
      let round : Outcome Seen =
        (read_entry "dirlookup read" off dp fs >>= λ (de, dp', fs').
        let rest = lookup_loop fuel name (u32 (off + entry_size)) dp' fs' in
        if entry_inum de == 0
        then rest
        else if namecmp name (entry_name de) == 0
        then ok (record { off = off; hit = some (entry_inum de); inode = dp'; fs = fs' })
        else rest) in
      if ltb off dp.size then round else ok (record { off = off; hit = none; inode = dp; fs = fs })

  -- The inode found, referenced, and the offset of its entry; `i` is the directory.
  pub dirlookup : (i : ℕ) → (name : ℕ → ℕ) → Tree → Outcome (Tree × Option (ℕ × ℕ))
  dirlookup i name t = fetch i t >>= λ dp.
      let found : Outcome (Tree × Option (ℕ × ℕ)) =
        (lookup_loop (suc dp.size) name 0 dp t.fs >>= λ s.
        let t' = put i s.inode (record t { fs = s.fs }) in
        elim (s.hit) [
          | none ↦ ok (t', none)
          | some inum ↦ iget dp.dev inum t'.inodes >>= λ (ips, k).
              ok (record t' { inodes = ips }, some (k, s.off))
        ]) in
      if not (dp.type == type_dir) then panic "dirlookup not DIR" else found

  -- The loop of dirlink: the offset of the first free entry, or the end.
  pub free_loop : (fuel off : ℕ) → Inode → Fs → Outcome Seen
  free_loop zero off dp fs = spin
  free_loop (suc fuel) off dp fs =
      let round : Outcome Seen =
        (read_entry "dirlink read" off dp fs >>= λ (de, dp', fs').
        let rest = free_loop fuel (off + entry_size) dp' fs' in
        if entry_inum de == 0
        then ok (record { off = off; hit = none; inode = dp'; fs = fs' })
        else rest) in
      if ltb off dp.size then round else ok (record { off = off; hit = none; inode = dp; fs = fs })

  -- The bytes of the new entry.
  abbrev pub new_entry : (name : ℕ → ℕ) (inum : ℕ) → Memory
  new_entry name inum a =
      if a == 0
      then inum % 256
      else if a == 1
      then inum / 256 % 256
      else strncpy 2 256 name_size (λ i. if leb 256 i then name (i - 256) else 0) a

  -- The Boolean is false for -1.
  pub dirlink : (pid i : ℕ) → (name : ℕ → ℕ) → (inum : ℕ) → Tree → Outcome (Tree × Bool)
  dirlink pid i name inum t = dirlookup i name t >>= λ (t1, found). elim found [
    | some (k, off) ↦ iput sb pid k t1 >>= λ t2. ok (t2, false)
    | none ↦ fetch i t1 >>= λ dp. free_loop (suc dp.size) 0 dp t1.fs >>= λ s.
        writei sb (copy_from (new_entry name inum)) 0 s.off entry_size s.inode s.fs >>= λ w. ok (
          put i w.inode (record t1 { fs = w.fs }),
          elim (w.result) [ none ↦ false | some n ↦ n == entry_size ],
        )
  ]
