-- ===== src/FileSystem.antt =====
-- kernel/fs.c and kernel/fs.h. A block is its bytes; `disk` is what bread finds, through the buffer
-- cache and the log, and `logged` the blocks given to log_write, the latest first. There is one
-- device, which functions on blocks do not name.
pub mod Blocks
pub mod Inodes
pub mod Content
pub mod Table
pub mod Directory
pub mod Paths
mod Tests
use csse332_project.Base.{
  ℕ, ◌+◌, ◌-◌, ◌*◌, ◌/◌, ◌%◌, ◌^◌, List, ◌∷◌, Bool, ◌==◌, if◌then◌else◌, update,
}
use csse332_project.Locks.{Sleeplock}

abbrev pub Block : Type 0
Block = ℕ → ℕ

abbrev pub block_size : ℕ
block_size = 1024

-- `NDIRECT` and `NINDIRECT`
abbrev pub direct_count : ℕ
direct_count = 12

abbrev pub indirect_count : ℕ
indirect_count = 256

-- `MAXFILE`
abbrev pub max_file : ℕ
max_file = 268

pub record Superblock : Type 0 where
  pub magic : ℕ
  pub size : ℕ
  pub nblocks : ℕ
  pub ninodes : ℕ
  pub nlog : ℕ
  pub logstart : ℕ
  pub inodestart : ℕ
  pub bmapstart : ℕ

pub record Fs : Type 0 where
  pub disk : ℕ → Block
  pub logged : List ℕ

-- `log_write(bp)` on the buffer of block `b` with these bytes.
abbrev pub log_block : ℕ → Block → Fs → Fs
log_block b bytes fs = record { disk = update fs.disk b bytes; logged = b ∷ fs.logged }

-- Byte `k` of a word, and the little-endian word `i` of a block.
abbrev pub byte_of : (w k : ℕ) → ℕ
byte_of w k =
    if k == 0
    then w % 256
    else if k == 1
    then w / 256 % 256
    else if k == 2
    then w / 65536 % 256
    else w / 16777216 % 256

abbrev pub word : Block → ℕ → ℕ
word b i = b (4 * i) + 256 * b (4 * i + 1) + 65536 * b (4 * i + 2) + 16777216 * b (4 * i + 3)

abbrev pub set_word : Block → ℕ → ℕ → Block
set_word b i w j = if j / 4 == i then byte_of w (j % 4) else b j

-- A `short` at a byte offset.
abbrev pub half : Block → ℕ → ℕ
half b o = b o + 256 * b (o + 1)

abbrev pub set_half : Block → ℕ → ℕ → Block
set_half b o h = update (update b o (h % 256)) (o + 1) (h / 256 % 256)

-- An inode in memory. `addrs` has `direct_count` direct blocks and the indirect one.
pub record Inode : Type 0 where
  pub dev : ℕ
  pub inum : ℕ
  pub ref : ℕ
  pub lock : Sleeplock
  pub valid : Bool
  pub type : ℕ
  pub major : ℕ
  pub minor : ℕ
  pub nlink : ℕ
  pub size : ℕ
  pub addrs : ℕ → ℕ
