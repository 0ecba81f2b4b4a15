-- ===== src/FileSystem/Inodes.antt =====
-- kernel/fs.c: inodes on disk; iupdate, the part of ilock that reads one, and the scan of ialloc.
pub mod Codec
use csse332_project.Base.{
  ℕ, zero, suc, ◌+◌, ◌-◌, ◌*◌, ◌/◌, ◌%◌, Bool, true, false, ◌&&◌, Option, none, some, ◌==◌, ltb,
  leb, if◌then◌else◌, update,
}
use csse332_project.FileSystem.{
  Block, Superblock, Fs, Inode, log_block, word, set_word, half, set_half, byte_of, direct_count,
}

-- `IPB`
abbrev pub inodes_per_block : ℕ
inodes_per_block = 16

-- The byte at which `struct dinode` of an inode begins in its block, and the word.
abbrev pub inode_byte : ℕ → ℕ
inode_byte inum = 64 * (inum % inodes_per_block)

abbrev pub inode_word : ℕ → ℕ
inode_word inum = 16 * (inum % inodes_per_block)

-- `memmove` of `n` words.
abbrev pub set_words : Block → (i n : ℕ) → (ℕ → ℕ) → Block
set_words b i n f j =
    if leb i (j / 4) && ltb (j / 4) (i + n) then byte_of (f (j / 4 - i)) (j % 4) else b j

-- `dip->type = ip->type` and so on.
pub put_dinode : Inode → Block → Block
put_dinode ip b =
    let o = inode_byte ip.inum in
    let w = inode_word ip.inum in
    let b1 = set_half b o ip.type in
    let b2 = set_half b1 (o + 2) ip.major in
    let b3 = set_half b2 (o + 4) ip.minor in
    let b4 = set_half b3 (o + 6) ip.nlink in
    let b5 = set_word b4 (w + 2) ip.size in set_words b5 (w + 3) (direct_count + 1) ip.addrs

-- `ip->type = dip->type` and so on.
pub get_dinode : Block → Inode → Inode
get_dinode b ip =
    let o = inode_byte ip.inum in
    let w = inode_word ip.inum in
    record ip {
      type = half b o;
      major = half b (o + 2);
      minor = half b (o + 4);
      nlink = half b (o + 6);
      size = word b (w + 2);
      addrs = λ k. if ltb k (direct_count + 1) then word b (w + 3 + k) else ip.addrs k;
    }

-- `memset(dip, 0, sizeof(*dip)); dip->type = type`
pub new_dinode : (inum type : ℕ) → Block → Block
new_dinode inum type b =
    let o = inode_byte inum in set_half (λ j. if leb o j && ltb j (o + 64) then 0 else b j) o type

-- `struct stat`
pub record Stat : Type 0 where
  pub dev : ℕ
  pub ino : ℕ
  pub type : ℕ
  pub nlink : ℕ
  pub size : ℕ

pub stati : Inode → Stat
stati ip = record { dev = ip.dev; ino = ip.inum; type = ip.type; nlink = ip.nlink; size = ip.size }

module _ (sb : Superblock) where
  -- `IBLOCK`
  abbrev pub inode_block : ℕ → ℕ
  inode_block inum = inum / inodes_per_block + sb.inodestart

  unfoldable pub iupdate : Inode → Fs → Fs
  iupdate ip fs = log_block (inode_block ip.inum) (put_dinode ip (fs.disk (inode_block ip.inum))) fs

  -- What ilock does with an inode that is not valid.
  pub read_inode : Fs → Inode → Inode
  read_inode fs ip = record (get_dinode (fs.disk (inode_block ip.inum)) ip) { valid = true }

  -- The loop of ialloc from inode `inum` on: the inode that it allocates.
  pub ialloc_scan : (type rounds inum : ℕ) → Fs → Fs × Option ℕ
  ialloc_scan type zero inum fs = (fs, none)
  ialloc_scan type (suc rounds) inum fs =
      let b = inode_block inum in
      let bytes = fs.disk b in
      let rest = ialloc_scan type rounds (inum + 1) fs in
      if half bytes (inode_byte inum) == 0
      then (log_block b (new_dinode inum type bytes) fs, some inum)
      else rest
