-- ===== src/FileSystem/Content/Bytes.antt =====
-- A file as its bytes, under bmap and under a write to one of its blocks.
use csse332_project.Base.{
  ℕ, ◌/◌, ◌%◌, ◌≤◌, ◌<◌, ◌≡◌, ◌≢◌, refl, sym, ap, subst, ◌∙◌, ◌⊎◌, inl, inr, ◌==◌, ltb,
  if◌then◌else◌, update_ne, Bool-cases, ==→eq, ==→ne, ne→==, ==_self,
}
use csse332_project.FileSystem.{Block, Superblock, Fs, Inode, log_block, max_file, block_size}
use csse332_project.FileSystem.Blocks.Alloc.{data_start}
use csse332_project.FileSystem.Blocks.Fresh.{IsOwned, log-IsOwned, log-IsLaidOut}
use csse332_project.FileSystem.Content.{Mapped}
use csse332_project.FileSystem.Content.Map.{block_of, IsFile}
use csse332_project.FileSystem.Content.Bmap.{IsMapped}

-- A byte of a block; a block that is not allocated reads as zeros.
abbrev pub block_byte : (ℕ → Block) → (b o : ℕ) → ℕ
block_byte disk b o = if b == 0 then 0 else disk b o

-- Byte `x` of a file.
abbrev pub byte_at : Inode → Fs → ℕ → ℕ
byte_at ip fs x = block_byte fs.disk (block_of ip fs (x / block_size)) (x % block_size)

pub same_byte :
    (d d' : ℕ → Block) (b o : ℕ) → (b ≡ 0) ⊎ (d' b ≡ d b) → block_byte d' b o ≡ block_byte d b o
same_byte d d' b o (inl z) = rw z refl
same_byte d d' b o (inr e) = rw e refl

zero_byte : (d : ℕ → Block) (b o : ℕ) → d b ≡ (λ i. 0) → block_byte d b o ≡ 0
zero_byte d b o e = elim (Bool-cases (b == 0)) [ inl z ↦ rw z refl | inr nz ↦ rw (nz, e) refl ]

module _ (sb : Superblock) where
  pub byte_of_map :
      (ip : Inode) (fs : Fs) (bn n o : ℕ) (m : Mapped)
      → IsMapped sb ip fs bn n m
      → block_byte (m.fs).disk (block_of m.inode m.fs n) o ≡ block_byte fs.disk (block_of ip fs n) o
  byte_of_map ip fs bn n o m h =
      ap (λ b. block_byte (m.fs).disk b o) h.map ∙ elim (Bool-cases (n == bn)) [
        | inr other ↦ rw other (same_byte fs.disk (m.fs).disk (block_of ip fs n) o h.content)
        | inl same ↦
            let e : n ≡ bn = ==→eq n bn same in
            rw same (elim (h.zeros) [
              | inl old ↦
                  ap (λ b. block_byte (m.fs).disk b o) (old ∙ ap (block_of ip fs) (sym e))
                  ∙ same_byte fs.disk (m.fs).disk (block_of ip fs n) o h.content
              | inr (z, zeros) ↦
                  zero_byte (m.fs).disk m.addr o zeros
                  ∙ sym (ap (λ b. block_byte fs.disk b o) (ap (block_of ip fs) e ∙ z))
            ])
      ]

  -- A write to block `bn` of the file.
  pub record Rewrites (ip : Inode) (fs : Fs) (bn : ℕ) (bytes : Block) (fs' : Fs) : Type 0 where
    pub file : IsFile sb ip fs'
    pub at : block_of ip fs' bn ≡ block_of ip fs bn
    pub byte :
        (n o : ℕ)
        → n < max_file
        → block_byte fs'.disk (block_of ip fs' n) o
          ≡ (if n == bn then bytes o else block_byte fs.disk (block_of ip fs n) o)

  log_map :
      (ip : Inode) (fs : Fs) (b n : ℕ) (bytes : Block)
      → b ≢ ip.addrs 12
      → block_of ip (log_block b bytes fs) n ≡ block_of ip fs n
  log_map ip fs b n bytes ne = elim (Bool-cases (ltb n 12)) [
    | inl direct ↦ rw direct refl
    | inr behind ↦ rw (behind, ne→== b (ip.addrs 12) ne) refl
  ]

  log-IsFile :
      (ip : Inode) (fs : Fs) (b : ℕ) (bytes : Block)
      → IsFile sb ip fs
      → data_start sb ≤ b
      → b < sb.size
      → b ≢ ip.addrs 12
      → IsFile sb ip (log_block b bytes fs)
  log-IsFile ip fs b bytes f lo hi ne = record {
    laid = log-IsLaidOut sb fs b bytes lo hi f.laid;
    blocks = λ n ln nz.
        subst (IsOwned sb (log_block b bytes fs)) (sym (log_map ip fs b n bytes ne)) (
          log-IsOwned sb fs b (block_of ip fs n) bytes lo
            (f.blocks n ln (λ e. nz (log_map ip fs b n bytes ne ∙ e))));
    index = λ nz. log-IsOwned sb fs b (ip.addrs 12) bytes lo (f.index nz);
    apart = λ n ln nz e.
        f.apart n ln (λ e0. nz (log_map ip fs b n bytes ne ∙ e0))
          (sym (log_map ip fs b n bytes ne) ∙ e);
    distinct = λ n m ln lm nz e.
        f.distinct n m ln lm (λ e0. nz (log_map ip fs b n bytes ne ∙ e0))
          (sym (log_map ip fs b n bytes ne) ∙ (e ∙ log_map ip fs b m bytes ne));
  }

  pub rewrite-Rewrites :
      (ip : Inode) (fs : Fs) (bn : ℕ) (bytes : Block)
      → IsFile sb ip fs
      → bn < max_file
      → block_of ip fs bn ≢ 0
      → Rewrites ip fs bn bytes (log_block (block_of ip fs bn) bytes fs)
  rewrite-Rewrites ip fs bn bytes f lb nz = record {
    file = log-IsFile ip fs b bytes f own.behind own.inside ne;
    at = log_map ip fs b bn bytes ne;
    byte = λ n o ln.
        ap (λ c. block_byte written.disk c o) (log_map ip fs b n bytes ne)
        ∙ elim (Bool-cases (n == bn)) [
          | inl same ↦
              let e : block_of ip fs n ≡ b = ap (block_of ip fs) (==→eq n bn same) in
              rw same
                (ap (λ c. block_byte written.disk c o) e ∙ (rw (ne→== b 0 nz, ==_self b) refl))
          | inr other ↦ rw other (
              same_byte fs.disk written.disk (block_of ip fs n) o
                (elsewhere n ln (==→ne n bn other)))
        ];
  }
    where
      b : ℕ
      b = block_of ip fs bn

      written : Fs
      written = log_block b bytes fs

      own : IsOwned sb fs b
      own = f.blocks bn lb nz

      ne : b ≢ ip.addrs 12
      ne = f.apart bn lb nz

      elsewhere :
          (n : ℕ)
          → n < max_file
          → n ≢ bn
          → (block_of ip fs n ≡ 0) ⊎ (written.disk (block_of ip fs n) ≡ fs.disk (block_of ip fs n))
      elsewhere n ln h = elim (Bool-cases (b == block_of ip fs n)) [
        | inl same ↦ absurd (h (sym (f.distinct bn n lb ln nz (==→eq b (block_of ip fs n) same))))
        | inr other ↦
            inr (update_ne fs.disk b (block_of ip fs n) bytes (==→ne b (block_of ip fs n) other))
      ]
