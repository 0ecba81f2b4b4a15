-- ===== src/FileSystem/Content/Whole.antt =====
-- kernel/fs.c: writei and readi as wholes, on the bytes of a file.
use csse332_project.Base.{
  ℕ, ◌+◌, ◌-◌, ◌*◌, ◌≤◌, ◌<◌, ◌≡◌, ◌⊎◌, Bool, true, ltb, if◌then◌else◌, some,
}
use csse332_project.FileSystem.{Block, Superblock, Fs, Inode, max_file, block_size}
use csse332_project.FileSystem.Blocks.Alloc.{AllUsed}
use csse332_project.FileSystem.Content.{Wrote}
use csse332_project.FileSystem.Content.Map.{IsFile}
use csse332_project.FileSystem.Content.Bytes.{byte_at}
use csse332_project.Strings.{Memory}
use csse332_project.Strings.Moves.{within}
use csse332_project.FileSystem.Content.Writing.{IsCopyin, Fails}

module _ (sb : Superblock) (copyin : Block → (o src m : ℕ) → Block × Bool) (mem : Memory)
    (law : IsCopyin copyin mem) where
  -- What writei leaves.
  pub record IsWrite (off src n : ℕ) (ip : Inode) (fs : Fs) (w : Wrote) : Type 0 where
    pub count : ℕ
    pub result : w.result ≡ some count
    pub fits : count ≤ n
    pub short : (count ≡ n) ⊎ AllUsed sb w.fs 0 sb.size ⊎ Fails copyin (src + count)
    pub size : (w.inode).size ≡ (if ltb ip.size (off + count) then off + count else ip.size)
    pub file : IsFile sb w.inode w.fs
    pub byte :
        (x : ℕ)
        → x < max_file * block_size
        → (byte_at w.inode w.fs x
            ≡ (if within off count x then mem (src + (x - off)) else byte_at ip fs x))
          ⊎ (Fails copyin (src + count) × (within (off + count) (n - count) x ≡ true))

  -- The inode at the end of writei.
  abbrev resized : Wrote → Inode
  resized w = if ltb (w.inode).size w.off then record (w.inode) { size = w.off } else w.inode
