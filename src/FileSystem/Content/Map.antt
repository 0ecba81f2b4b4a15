-- ===== src/FileSystem/Content/Map.antt =====
-- bmap of kernel/fs.c over the block map of a file.
use csse332_project.Base.{
  ℕ, ◌-◌, ◌≤◌, ◌<◌, ◌≡◌, ◌≢◌, refl, sym, ap, subst, ◌∙◌, ◌⊎◌, inl, inr, true, false, ◌==◌, ltb,
  if◌then◌else◌, update, update_self, update_ne, arith, Bool-cases, ==→eq, ==→ne, ne→==, ==_self,
  ltb→lt, ltb→ge, ge→ltb,
}
use csse332_project.FileSystem.{Block, Superblock, Fs, Inode, log_block, word, set_word, max_file}
use csse332_project.FileSystem.Blocks.{is_used}
use csse332_project.FileSystem.Blocks.Alloc.{IsLaidOut}
use csse332_project.FileSystem.Blocks.Fresh.{IsOwned, IsFresh, log-IsOwned, log-IsLaidOut}
use csse332_project.FileSystem.Inodes.Codec.{word-set_word}

-- Block `n` of a file, 0 if there is none.
abbrev pub block_of : Inode → Fs → ℕ → ℕ
block_of ip fs n =
    if ltb n 12
    then ip.addrs n
    else if ip.addrs 12 == 0
    then 0
    else word (fs.disk (ip.addrs 12)) (n - 12)

pub no_index : (ip : Inode) (fs : Fs) (n : ℕ) → 12 ≤ n → ip.addrs 12 ≡ 0 → block_of ip fs n ≡ 0
no_index ip fs n h z = ground arith

zeros_behind :
    (ip : Inode) (fs : Fs) (n : ℕ)
    → 12 ≤ n
    → fs.disk (ip.addrs 12) ≡ (λ i. 0)
    → block_of ip fs n ≡ 0
zeros_behind ip fs n h z = rw (ge→ltb n 12 h, z) (ground arith)

pub at_index :
    (ip : Inode) (fs : Fs) (n : ℕ)
    → 12 ≤ n
    → ip.addrs 12 ≢ 0
    → block_of ip fs n ≡ word (fs.disk (ip.addrs 12)) (n - 12)
at_index ip fs n h nz = rw (ge→ltb n 12 h, ne→== (ip.addrs 12) 0 nz) refl

module _ (sb : Superblock) where
  -- The blocks of a file are used and all different.
  pub record IsFile (ip : Inode) (fs : Fs) : Type 0 where
    pub laid : IsLaidOut sb fs
    pub blocks : (n : ℕ) → n < max_file → block_of ip fs n ≢ 0 → IsOwned sb fs (block_of ip fs n)
    pub index : ip.addrs 12 ≢ 0 → IsOwned sb fs (ip.addrs 12)
    pub apart : (n : ℕ) → n < max_file → block_of ip fs n ≢ 0 → block_of ip fs n ≢ ip.addrs 12
    pub distinct :
        (n m : ℕ)
        → n < max_file
        → m < max_file
        → block_of ip fs n ≢ 0
        → block_of ip fs n ≡ block_of ip fs m
        → n ≡ m

  -- How one step of bmap may change a file: block `bn` becomes `r`, and what is owned stays.
  pub record Grows (ip ip' : Inode) (fs fs' : Fs) (bn r : ℕ) : Type 0 where
    pub laid : IsLaidOut sb fs'
    pub free : is_used sb fs r ≡ false
    pub owned : IsOwned sb fs' r
    pub keeps : (c : ℕ) → IsOwned sb fs c → IsOwned sb fs' c
    pub index : ip'.addrs 12 ≡ ip.addrs 12
    pub blocks :
        (n : ℕ) → n < max_file → block_of ip' fs' n ≡ (if n == bn then r else block_of ip fs n)

  pub not_fresh : (fs : Fs) (r c : ℕ) → is_used sb fs r ≡ false → IsOwned sb fs c → c ≢ r
  not_fresh fs r c free own e =
      let clash : true ≡ false = sym own.used ∙ ap (is_used sb fs) e ∙ free in cc

  pub grow-IsFile :
      (ip ip' : Inode) (fs fs' : Fs) (bn r : ℕ)
      → bn < max_file
      → block_of ip fs bn ≡ 0
      → IsFile ip fs
      → Grows ip ip' fs fs' bn r
      → IsFile ip' fs'
  grow-IsFile ip ip' fs fs' bn r lt z f g = record {
    laid = g.laid;
    blocks = λ n ln nz. elim (Bool-cases (n == bn)) [
      | inl here ↦ subst (IsOwned sb fs') (sym (at n ln here)) g.owned
      | inr away ↦
          subst (IsOwned sb fs') (sym (off n ln away))
            (g.keeps (block_of ip fs n) (f.blocks n ln (λ e. nz (off n ln away ∙ e))))
    ];
    index = λ nz.
        subst (IsOwned sb fs') (sym g.index)
          (g.keeps (ip.addrs 12) (f.index (λ e. nz (g.index ∙ e))));
    apart = λ n ln nz e. elim (Bool-cases (n == bn)) [
      | inl here ↦
          let same : ip.addrs 12 ≡ r = sym g.index ∙ (sym e ∙ at n ln here) in
          not_fresh fs r (ip.addrs 12) g.free (f.index (λ zero12. positive (sym same ∙ zero12)))
            same
      | inr away ↦
          f.apart n ln (λ e0. nz (off n ln away ∙ e0)) (sym (off n ln away) ∙ (e ∙ g.index))
    ];
    distinct = λ n m ln lm nz e. elim (Bool-cases (n == bn)) [
      | inl nh ↦ elim (Bool-cases (m == bn)) [
        | inl mh ↦ ==→eq n bn nh ∙ sym (==→eq m bn mh)
        | inr ma ↦
            let same : block_of ip fs m ≡ r = sym (off m lm ma) ∙ (sym e ∙ at n ln nh) in
            absurd (
              not_fresh fs r (block_of ip fs m) g.free
                (f.blocks m lm (λ e0. positive (sym same ∙ e0))) same)
      ]
      | inr na ↦ elim (Bool-cases (m == bn)) [
        | inl mh ↦
            let same : block_of ip fs n ≡ r = sym (off n ln na) ∙ (e ∙ at m lm mh) in
            absurd (
              not_fresh fs r (block_of ip fs n) g.free
                (f.blocks n ln (λ e0. positive (sym same ∙ e0))) same)
        | inr ma ↦
            f.distinct n m ln lm (λ e0. nz (off n ln na ∙ e0))
              (sym (off n ln na) ∙ (e ∙ off m lm ma))
      ]
    ];
  }
    where
      positive : r ≢ 0
      positive = omega (arith, g.owned.behind, g.laid.nonempty)

      at : (n : ℕ) → n < max_file → (n == bn) ≡ true → block_of ip' fs' n ≡ r
      at n ln h = g.blocks n ln ∙ (rw h refl)

      off : (n : ℕ) → n < max_file → (n == bn) ≡ false → block_of ip' fs' n ≡ block_of ip fs n
      off n ln h = g.blocks n ln ∙ (rw h refl)

  -- The indirect block is allocated: all its words are 0.
  pub index-IsFile :
      (ip : Inode) (fs fs' : Fs) (r : ℕ)
      → ip.addrs 12 ≡ 0
      → IsFile ip fs
      → IsFresh sb fs fs' r
      → IsFile (record ip { addrs = update ip.addrs 12 r }) fs'
        × ((n : ℕ)
            → n < max_file
            → block_of (record ip { addrs = update ip.addrs 12 r }) fs' n ≡ block_of ip fs n)
  index-IsFile ip fs fs' r z f g = (file, same)
    where
      ip' : Inode
      ip' = record ip { addrs = update ip.addrs 12 r }

      direct_same : (n : ℕ) → n < 12 → block_of ip' fs' n ≡ block_of ip fs n
      direct_same n lt = ground arith

      zero_index : fs'.disk (ip'.addrs 12) ≡ (λ i. 0)
      zero_index = g.zeros

      same : (n : ℕ) → n < max_file → block_of ip' fs' n ≡ block_of ip fs n
      same n ln = elim (Bool-cases (ltb n 12)) [
        | inl direct ↦ direct_same n (ltb→lt n 12 direct)
        | inr behind ↦
            zeros_behind ip' fs' n (ltb→ge n 12 behind) zero_index
            ∙ sym (no_index ip fs n (ltb→ge n 12 behind) z)
      ]

      file : IsFile ip' fs'
      file = record {
        laid = g.laid;
        blocks = λ n ln nz.
            subst (IsOwned sb fs') (sym (same n ln))
              (g.keeps (block_of ip fs n) (f.blocks n ln (λ e. nz (same n ln ∙ e)))).0;
        index = λ nz. g.owned;
        apart = λ n ln nz e.
            not_fresh fs r (block_of ip fs n) g.free (f.blocks n ln (λ e0. nz (same n ln ∙ e0)))
              (sym (same n ln) ∙ e);
        distinct = λ n m ln lm nz e.
            f.distinct n m ln lm (λ e0. nz (same n ln ∙ e0)) (sym (same n ln) ∙ (e ∙ same m lm));
      }

  pub index_same :
      (ip ip' : Inode) (fs fs' : Fs) (n : ℕ)
      → 12 ≤ n
      → ip'.addrs 12 ≡ ip.addrs 12
      → (ip.addrs 12 ≡ 0) ⊎ (fs'.disk (ip.addrs 12) ≡ fs.disk (ip.addrs 12))
      → block_of ip' fs' n ≡ block_of ip fs n
  index_same ip ip' fs fs' n h e (inl none_there) =
      no_index ip' fs' n h (e ∙ none_there) ∙ sym (no_index ip fs n h none_there)
  index_same ip ip' fs fs' n h e (inr kept) = rw (ge→ltb n 12 h, e, kept) refl

  pub index_kept :
      (ip : Inode) (fs fs' : Fs)
      → IsFile ip fs
      → ((c : ℕ) → IsOwned sb fs c → IsOwned sb fs' c × (fs'.disk c ≡ fs.disk c))
      → (ip.addrs 12 ≡ 0) ⊎ (fs'.disk (ip.addrs 12) ≡ fs.disk (ip.addrs 12))
  index_kept ip fs fs' f keeps = elim (Bool-cases (ip.addrs 12 == 0)) [
    | inl z ↦ inl (==→eq (ip.addrs 12) 0 z)
    | inr nz ↦ inr (keeps (ip.addrs 12) (f.index (==→ne (ip.addrs 12) 0 nz))).1
  ]

  -- A direct block is allocated.
  pub direct-Grows :
      (ip : Inode) (fs fs' : Fs) (bn r : ℕ)
      → bn < 12
      → IsFile ip fs
      → IsFresh sb fs fs' r
      → Grows ip (record ip { addrs = update ip.addrs bn r }) fs fs' bn r
  direct-Grows ip fs fs' bn r lt f g = record {
    laid = g.laid;
    free = g.free;
    owned = g.owned;
    keeps = λ c own. (g.keeps c own).0;
    index = update_ne ip.addrs bn 12 r (omega arith);
    blocks = λ n ln. elim (Bool-cases (ltb n 12)) [
      | inl direct ↦ rw direct (ground arith)
      | inr behind ↦
          (index_same ip (record ip { addrs = update ip.addrs bn r }) fs fs' n (ltb→ge n 12 behind)
            (update_ne ip.addrs bn 12 r (omega arith)) (index_kept ip fs fs' f g.keeps))
          ∙ (rw (ne→== n bn (omega (arith, ltb→ge n 12 behind))) refl)
    ];
  }

  -- A word of the indirect block is allocated.
  pub word-Grows :
      (ip : Inode) (fs fs' : Fs) (bn r : ℕ)
      → 12 ≤ bn
      → bn < max_file
      → ip.addrs 12 ≢ 0
      → block_of ip fs bn ≡ 0
      → IsFile ip fs
      → IsFresh sb fs fs' r
      → Grows ip ip fs
          (log_block (ip.addrs 12) (set_word (fs'.disk (ip.addrs 12)) (bn - 12) r) fs')
          bn
          r
  word-Grows ip fs fs' bn r lo hi nz z f g = record {
    laid =
        log-IsLaidOut sb fs' (ip.addrs 12) bytes (index_owned.behind) (index_owned.inside) g.laid;
    free = g.free;
    owned = log-IsOwned sb fs' (ip.addrs 12) r bytes (index_owned.behind) g.owned;
    keeps =
        λ c own. log-IsOwned sb fs' (ip.addrs 12) c bytes (index_owned.behind) (g.keeps c own).0;
    index = refl;
    blocks = λ n ln. elim (Bool-cases (ltb n 12)) [
      | inl direct ↦ rw direct (rw (ne→== n bn (omega (arith, ltb→lt n 12 direct))) refl)
      | inr behind ↦ new_word n (ltb→ge n 12 behind)
    ];
  }
    where
      index_owned : IsOwned sb fs (ip.addrs 12)
      index_owned = f.index nz

      bytes : Block
      bytes = set_word (fs'.disk (ip.addrs 12)) (bn - 12) r

      written : Fs
      written = log_block (ip.addrs 12) bytes fs'

      new_word :
          (n : ℕ) → 12 ≤ n → block_of ip written n ≡ (if n == bn then r else block_of ip fs n)
      new_word n h =
          at_index ip written n h nz
          ∙ ap (λ b. word b (n - 12)) (update_self fs'.disk (ip.addrs 12) bytes)
          ∙ word-set_word (fs'.disk (ip.addrs 12)) (bn - 12) r (n - 12)
              (omega (arith, g.owned.inside, f.laid.fits))
          ∙ elim (Bool-cases (n == bn)) [
            | inl same ↦
                rw (same, ap (λ m. m - 12 == bn - 12) (==→eq n bn same), ==_self (bn - 12)) refl
            | inr other ↦
                rw (other, ne→== (n - 12) (bn - 12) (omega (arith, ==→ne n bn other)))
                  (ap (λ b. word b (n - 12)) (g.keeps (ip.addrs 12) index_owned).1
                    ∙ sym (at_index ip fs n h nz))
          ]
