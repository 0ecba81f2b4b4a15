-- ===== src/FileSystem/Blocks.antt =====
-- kernel/fs.c: the bitmap of free blocks; bzero, balloc and bfree.
pub mod Bits
pub mod Alloc
pub mod Fresh
use csse332_project.Base.{
  ℕ, zero, suc, ◌+◌, ◌-◌, ◌*◌, ◌/◌, ◌%◌, min, Bool, true, false, not, Option, none, some, ◌==◌, ltb,
  if◌then◌else◌, update, Outcome, ok, panic,
}
use csse332_project.FileSystem.{Block, Superblock, Fs, log_block}

-- `x & (1 << k)`, `x | (1 << k)` and `x & ~(1 << k)`
unfoldable pub test_bit : (x k : ℕ) → Bool
test_bit x zero = x % 2 == 1
test_bit x (suc k) = test_bit (x / 2) k

pub set_bit : (x k : ℕ) → ℕ
set_bit x zero = x / 2 * 2 + 1
set_bit x (suc k) = x % 2 + 2 * set_bit (x / 2) k

pub clear_bit : (x k : ℕ) → ℕ
clear_bit x zero = x / 2 * 2
clear_bit x (suc k) = x % 2 + 2 * clear_bit (x / 2) k

-- `BPB`
abbrev pub bits_per_block : ℕ
bits_per_block = 8192

abbrev pub is_marked : Block → ℕ → Bool
is_marked bytes bi = test_bit (bytes (bi / 8)) (bi % 8)

abbrev pub mark : Block → ℕ → Block
mark bytes bi = update bytes (bi / 8) (set_bit (bytes (bi / 8)) (bi % 8))

abbrev pub unmark : Block → ℕ → Block
unmark bytes bi = update bytes (bi / 8) (clear_bit (bytes (bi / 8)) (bi % 8))

-- The inner loop of balloc, from bit `bi` on, with `rounds` bits to go.
pub find_free : (rounds bi : ℕ) → Block → Option ℕ
find_free zero bi bytes = none
find_free (suc rounds) bi bytes =
    let later = find_free rounds (bi + 1) bytes in if is_marked bytes bi then later else some bi

pub bzero : ℕ → Fs → Fs
bzero bno fs = log_block bno (λ i. 0) fs

module _ (sb : Superblock) where
  -- `BBLOCK`
  abbrev pub bitmap_block : ℕ → ℕ
  bitmap_block b = b / bits_per_block + sb.bmapstart

  abbrev taken : (b bi : ℕ) → Fs → Fs
  taken b bi fs =
      bzero (b + bi) (log_block (bitmap_block b) (mark (fs.disk (bitmap_block b)) bi) fs)

  -- The outer loop, from block `b` on, with `rounds` bitmap blocks to go.
  pub balloc_loop : (rounds b : ℕ) → Fs → Fs × ℕ
  balloc_loop zero b fs = (fs, 0)
  balloc_loop (suc rounds) b fs =
      let rest = balloc_loop rounds (b + bits_per_block) fs in
      elim (find_free (min bits_per_block (sb.size - b)) 0 (fs.disk (bitmap_block b))) [
        | none ↦ rest
        | some bi ↦ (taken b bi fs, b + bi)
      ]

  -- 0 if no block is free.
  pub balloc : Fs → Fs × ℕ
  balloc fs = balloc_loop ((sb.size + bits_per_block - 1) / bits_per_block) 0 fs

  pub bfree : ℕ → Fs → Outcome Fs
  bfree b fs =
      let bytes = fs.disk (bitmap_block b) in
      if not (is_marked bytes (b % bits_per_block))
      then panic "freeing free block"
      else ok (log_block (bitmap_block b) (unmark bytes (b % bits_per_block)) fs)

  -- The bit of a block.
  abbrev pub is_used : Fs → ℕ → Bool
  is_used fs b = is_marked (fs.disk (bitmap_block b)) (b % bits_per_block)
