-- ===== src/FileSystem/Tests.antt =====
-- The theorems on the file system at a disk of ten blocks, with the bitmap in block 3.
use csse332_project.Base.{
  ℕ, zero, suc, ◌%◌, ◌≤◌, ◌<◌, ◌≡◌, ◌≢◌, ◌⊎◌, refl, arith, true, false, ◌==◌, ◌&&◌, if◌then◌else◌,
  ok, panic, some, none, List, [], ◌∷◌, take,
}
use csse332_project.Locks.{initsleeplock}
use csse332_project.Strings.{Memory}
use csse332_project.FileSystem.{Superblock, Fs, Inode}
use csse332_project.FileSystem.Blocks.{balloc, bfree, is_used, test_bit, bitmap_block}
use csse332_project.FileSystem.Blocks.Alloc.{IsLaidOut, Allocates, balloc-Allocates, bfree_lem}
use csse332_project.FileSystem.Inodes.{iupdate, read_inode}
use csse332_project.FileSystem.Inodes.Codec.{Agrees, read_inode-iupdate}
use csse332_project.FileSystem.Content.{Mapped, bmap}
use csse332_project.FileSystem.Content.Map.{IsFile, block_of}
use csse332_project.FileSystem.Content.Bmap.{IsMapped, bmap-IsMapped}
use csse332_project.FileSystem.Table.{iget}
use csse332_project.FileSystem.Table.Unique.{entries, Gets, iget-Gets}
use csse332_project.FileSystem.Directory.{name_size}
use csse332_project.FileSystem.Paths.{skipelem}
use csse332_project.FileSystem.Paths.Elements.{elements, IsRest, skipelem-elements}

abbrev small_disk : Superblock
small_disk = record {
  magic = 0x10203040;
  size = 10;
  nblocks = 6;
  ninodes = 4;
  nlog = 0;
  logstart = 2;
  inodestart = 2;
  bmapstart = 3;
}

-- Blocks 0 to 3 are used.
abbrev fresh_fs : Fs
fresh_fs = record { disk = λ b i. if b == 3 && i == 0 then 15 else 0; logged = [] }

first_used : (c : ℕ) → c < 4 → is_used small_disk fresh_fs c ≡ true
unfolding test_bit
first_used zero h = refl
first_used (suc zero) h = refl
first_used (suc (suc zero)) h = refl
first_used (suc (suc (suc zero))) h = refl
first_used (suc (suc (suc (suc c)))) h = absurd (omega arith)

fresh_fs-IsLaidOut : IsLaidOut small_disk fresh_fs
fresh_fs-IsLaidOut = record {
  reserved = record { used = λ c lo hi. first_used c hi };
  nonempty = omega arith;
  fits = omega arith;
}

balloc-Allocates_example : Allocates small_disk fresh_fs 5 (balloc small_disk fresh_fs)
balloc-Allocates_example = balloc-Allocates small_disk fresh_fs 5 fresh_fs-IsLaidOut (omega arith)

bfree_lem_example :
    ((is_used small_disk fresh_fs 3 ≡ false)
      × (bfree small_disk 3 fresh_fs ≡ panic "freeing free block"))
    ⊎ ((is_used small_disk fresh_fs 3 ≡ true)
        × ((fs' : Fs) × (bfree small_disk 3 fresh_fs ≡ ok fs')
            × (is_used small_disk fs' 2 ≡ (if 3 == 2 then false else is_used small_disk fresh_fs 2))
            × ((2 ≡ bitmap_block small_disk 3) ⊎ (fs'.disk 2 ≡ fresh_fs.disk 2))))
bfree_lem_example = bfree_lem small_disk fresh_fs 3 2

-- An empty file.
abbrev empty_file : Inode
empty_file = record {
  dev = 1;
  inum = 2;
  ref = 1;
  lock = initsleeplock;
  valid = true;
  type = 2;
  major = 0;
  minor = 0;
  nlink = 1;
  size = 0;
  addrs = λ k. 0;
}

no_blocks : (n : ℕ) → block_of empty_file fresh_fs n ≡ 0
no_blocks n = ground arith

empty_file-IsFile : IsFile small_disk empty_file fresh_fs
empty_file-IsFile = record {
  laid = fresh_fs-IsLaidOut;
  blocks = λ n ln nz. absurd (nz (no_blocks n));
  index = λ nz. absurd (nz refl);
  apart = λ n ln nz. absurd (nz (no_blocks n));
  distinct = λ n m ln lm nz e. absurd (nz (no_blocks n));
}

-- An indirect block.
bmap-IsMapped_example :
    (m : Mapped) × (bmap small_disk 20 empty_file fresh_fs ≡ ok m)
    × IsMapped small_disk empty_file fresh_fs 20 21 m
bmap-IsMapped_example =
    bmap-IsMapped small_disk 20 21 empty_file fresh_fs empty_file-IsFile (omega arith) (omega arith)

-- Each byte is its address.
abbrev bytes : Memory
bytes a = a % 256

read_inode-iupdate_example :
    ((empty_file.inum ≡ empty_file.inum)
      × Agrees 3
          (read_inode small_disk (iupdate small_disk empty_file fresh_fs) empty_file)
          empty_file)
    ⊎ ((empty_file.inum ≢ empty_file.inum)
        × Agrees 3
            (read_inode small_disk (iupdate small_disk empty_file fresh_fs) empty_file)
            (read_inode small_disk fresh_fs empty_file))
read_inode-iupdate_example =
    read_inode-iupdate small_disk empty_file empty_file fresh_fs 3
      (record {
        type = omega arith;
        major = omega arith;
        minor = omega arith;
        nlink = omega arith;
        size = omega arith;
        addr = omega arith;
      })
      (omega arith)

one_entry : entries 1 2 (empty_file ∷ []) ≤ 1
unfolding entries
one_entry = omega arith

iget-Gets_example : Gets 1 2 1 2 (empty_file ∷ []) (iget 1 2 (empty_file ∷ []))
iget-Gets_example =
    iget-Gets 1 2 1 2 (empty_file ∷ []) (record { small = omega arith }, tt) one_entry

-- "//a/b"
abbrev path : List ℕ
path = b'/' ∷ b'/' ∷ b'a' ∷ b'/' ∷ b'b' ∷ []

skipelem-elements_example :
    ((skipelem path ≡ none) × (elements path ≡ []))
    ⊎ ((element : List ℕ) × (rest : List ℕ) × (skipelem path ≡ some (take name_size element, rest))
        × (elements path ≡ element ∷ elements rest)
        × IsRest path rest)
skipelem-elements_example = skipelem-elements path
