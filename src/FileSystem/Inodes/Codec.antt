-- ===== src/FileSystem/Inodes/Codec.antt =====
-- kernel/fs.c: the bytes of an inode, as iupdate writes and ilock reads them.
use csse332_project.Base.{
  ℕ, ◌+◌, ◌-◌, ◌*◌, ◌/◌, ◌%◌, ◌^◌, ◌≤◌, ◌<◌, ◌≡◌, ◌≢◌, refl, sym, ap, subst, lt→ltb, ◌∙◌, ◌⊎◌, inl,
  inr, Bool-cases, ltb→lt, ne→==, ==→eq, ==→ne, ◌==◌, ltb, if◌then◌else◌, arith,
}
use csse332_project.FileSystem.{
  Block, Superblock, Fs, Inode, word, set_word, half, set_half, byte_of, direct_count,
}
use csse332_project.FileSystem.Inodes.{
  put_dinode, get_dinode, set_words, inode_byte, inode_word, iupdate, read_inode, inode_block,
}

-- The four shorts, and the words behind them.
abbrev heads : (o t m n l : ℕ) → Block → Block
heads o t m n l b = set_half (set_half (set_half (set_half b o t) (o + 2) m) (o + 4) n) (o + 6) l

abbrev tails : (w size : ℕ) → (ℕ → ℕ) → Block → Block
tails w size addrs b = set_words (set_word b (w + 2) size) (w + 3) (direct_count + 1) addrs

put_parts :
    (ip : Inode) (b : Block)
    → put_dinode ip b
      ≡ tails
          (inode_word ip.inum)
          ip.size
          ip.addrs
          (heads (inode_byte ip.inum) ip.type ip.major ip.minor ip.nlink b)
unfolding put_dinode
put_parts ip b = refl

heads_out : (o t m n l j : ℕ) (b : Block) → (j < o) ⊎ (o + 8 ≤ j) → heads o t m n l b j ≡ b j
heads_out o t m n l j b h = ground arith

tails_out :
    (w size j : ℕ) (addrs : ℕ → ℕ) (b : Block)
    → (j < 4 * w + 8) ⊎ (4 * w + 64 ≤ j)
    → tails w size addrs b j ≡ b j
tails_out w size j addrs b h = ground arith

put_outside :
    (ip : Inode) (b : Block) (j : ℕ)
    → (j < inode_byte ip.inum) ⊎ (inode_byte ip.inum + 64 ≤ j)
    → put_dinode ip b j ≡ b j
unfolding put_dinode
put_outside ip b j h = ground arith

half_low : (h : ℕ) → h < 2 ^ 16 → h % 256 + 256 * (h / 256 % 256) ≡ h
half_low h p = omega arith

heads_type : (o t m n l : ℕ) (b : Block) → t < 2 ^ 16 → half (heads o t m n l b) o ≡ t
heads_type o t m n l b h = ground (arith, half_low t h)

heads_major : (o t m n l : ℕ) (b : Block) → m < 2 ^ 16 → half (heads o t m n l b) (o + 2) ≡ m
heads_major o t m n l b h = ground (arith, half_low m h)

heads_minor : (o t m n l : ℕ) (b : Block) → n < 2 ^ 16 → half (heads o t m n l b) (o + 4) ≡ n
heads_minor o t m n l b h = ground (arith, half_low n h)

heads_nlink : (o t m n l : ℕ) (b : Block) → l < 2 ^ 16 → half (heads o t m n l b) (o + 6) ≡ l
heads_nlink o t m n l b h = ground (arith, half_low l h)

word_join :
    (v : ℕ)
    → v < 2 ^ 32
    → byte_of v 0 + 256 * byte_of v 1 + 65536 * byte_of v 2 + 16777216 * byte_of v 3 ≡ v
word_join v h = omega arith

-- The four bytes of a word.
pub record IsWord (b : Block) (i v : ℕ) : Type 0 where
  pub b0 : b (4 * i) ≡ byte_of v 0
  pub b1 : b (4 * i + 1) ≡ byte_of v 1
  pub b2 : b (4 * i + 2) ≡ byte_of v 2
  pub b3 : b (4 * i + 3) ≡ byte_of v 3

word_of : (b : Block) (i v : ℕ) → v < 2 ^ 32 → IsWord b i v → word b i ≡ v
word_of b i v h e = omega (arith, e.b0, e.b1, e.b2, e.b3, word_join v h)

word_cong :
    (b b' : Block) (i : ℕ)
    → ((j : ℕ) → 4 * i ≤ j → j < 4 * i + 4 → b j ≡ b' j)
    → word b i ≡ word b' i
word_cong b b' i e = omega (
  arith,
  e (4 * i) (omega arith) (omega arith),
  e (4 * i + 1) (omega arith) (omega arith),
  e (4 * i + 2) (omega arith) (omega arith),
  e (4 * i + 3) (omega arith) (omega arith),
)

-- The words of a block after one of them is set.
pub word-set_word :
    (b : Block) (i w k : ℕ)
    → w < 2 ^ 32
    → word (set_word b i w) k ≡ (if k == i then w else word b k)
word-set_word b i w k h = elim (Bool-cases (k == i)) [
  | inl same ↦
      let e : k ≡ i = ==→eq k i same in
      rw same (
        word_of (set_word b i w) k w h
          (record { b0 = ground arith; b1 = ground arith; b2 = ground arith; b3 = ground arith }))
  | inr other ↦
      let ne : k ≢ i = ==→ne k i other in
      rw other (word_cong (set_word b i w) b k (λ j lo hi. rw (ne→== (j / 4) i (omega arith)) refl))
]

tails_size :
    (w size : ℕ) (addrs : ℕ → ℕ) (b : Block)
    → size < 2 ^ 32
    → word (tails w size addrs b) (w + 2) ≡ size
tails_size w size addrs b h =
    word_of (tails w size addrs b) (w + 2) size h
      (record { b0 = ground arith; b1 = ground arith; b2 = ground arith; b3 = ground arith })

tails_addr :
    (w size k : ℕ) (addrs : ℕ → ℕ) (b : Block)
    → addrs k < 2 ^ 32
    → k < 13
    → word (tails w size addrs b) (w + 3 + k) ≡ addrs k
tails_addr w size k addrs b h lt = word_of (tails w size addrs b) (w + 3 + k) (addrs k) h (record {
  b0 = ground (arith, at);
  b1 = ground (arith, at);
  b2 = ground (arith, at);
  b3 = ground (arith, at);
})
  where
    at : addrs (w + 3 + k - (w + 3)) ≡ addrs k
    at = ap addrs (omega arith)

half_cong : (b b' : Block) (p : ℕ) → b p ≡ b' p → b (p + 1) ≡ b' (p + 1) → half b p ≡ half b' p
half_cong b b' p e f = omega (arith, e, f)

-- What stands on disk agrees, with the block number `k`.
pub record Agrees (k : ℕ) (a b : Inode) : Type 0 where
  pub type : a.type ≡ b.type
  pub major : a.major ≡ b.major
  pub minor : a.minor ≡ b.minor
  pub nlink : a.nlink ≡ b.nlink
  pub size : a.size ≡ b.size
  pub addr : a.addrs k ≡ b.addrs k

-- The fields fit their types.
pub record Fits (k : ℕ) (ip : Inode) : Type 0 where
  pub type : ip.type < 2 ^ 16
  pub major : ip.major < 2 ^ 16
  pub minor : ip.minor < 2 ^ 16
  pub nlink : ip.nlink < 2 ^ 16
  pub size : ip.size < 2 ^ 32
  pub addr : ip.addrs k < 2 ^ 32

-- A short of the record is one of the heads.
put_half :
    (ip : Inode) (b : Block) (d : ℕ)
    → d + 2 ≤ 8
    → half (put_dinode ip b) (inode_byte ip.inum + d)
      ≡ half
          (heads (inode_byte ip.inum) ip.type ip.major ip.minor ip.nlink b)
          (inode_byte ip.inum + d)
put_half ip b d h =
    ap (λ c. half c (inode_byte ip.inum + d)) (put_parts ip b)
    ∙ half_cong (tails w ip.size ip.addrs hd) hd (inode_byte ip.inum + d)
        (tails_out w ip.size (inode_byte ip.inum + d) ip.addrs hd (inl (omega arith)))
        (tails_out w ip.size (inode_byte ip.inum + d + 1) ip.addrs hd (inl (omega arith)))
  where
    w : ℕ
    w = inode_word ip.inum

    hd : Block
    hd = heads (inode_byte ip.inum) ip.type ip.major ip.minor ip.nlink b

get-put_same :
    (ip q : Inode) (b : Block) (k : ℕ)
    → Fits k ip
    → k < 13
    → q.inum ≡ ip.inum
    → Agrees k (get_dinode (put_dinode ip b) q) ip
unfolding get_dinode
get-put_same ip q b k f lt e = rw e (record {
  type = at_zero ∙ heads_type o ip.type ip.major ip.minor ip.nlink b f.type;
  major =
      put_half ip b 2 (omega arith) ∙ heads_major o ip.type ip.major ip.minor ip.nlink b f.major;
  minor =
      put_half ip b 4 (omega arith) ∙ heads_minor o ip.type ip.major ip.minor ip.nlink b f.minor;
  nlink =
      put_half ip b 6 (omega arith) ∙ heads_nlink o ip.type ip.major ip.minor ip.nlink b f.nlink;
  size = ap (λ c. word c (w + 2)) (put_parts ip b) ∙ tails_size w ip.size ip.addrs hd f.size;
  addr = rw (lt→ltb k 13 lt) (
      ap (λ c. word c (w + 3 + k)) (put_parts ip b) ∙ tails_addr w ip.size k ip.addrs hd f.addr lt);
})
  where
    o : ℕ
    o = inode_byte ip.inum

    w : ℕ
    w = inode_word ip.inum

    hd : Block
    hd = heads o ip.type ip.major ip.minor ip.nlink b

    at_zero : half (put_dinode ip b) o ≡ half hd o
    at_zero =
        let z : o + 0 ≡ o = omega arith in
        subst (λ j. half (put_dinode ip b) j ≡ half hd j) z (put_half ip b 0 (omega arith))

-- Bytes outside the place of an inode do not show in what is read of it.
get_cong :
    (b b' : Block) (q : Inode) (k : ℕ)
    → ((j : ℕ) → inode_byte q.inum ≤ j → j < inode_byte q.inum + 64 → b j ≡ b' j)
    → Agrees k (get_dinode b q) (get_dinode b' q)
unfolding get_dinode
get_cong b b' q k e = record {
  type = half_cong b b' o (e o (omega arith) (omega arith)) (e (o + 1) (omega arith) (omega arith));
  major =
      half_cong b b' (o + 2) (e (o + 2) (omega arith) (omega arith))
        (e (o + 2 + 1) (omega arith) (omega arith));
  minor =
      half_cong b b' (o + 4) (e (o + 4) (omega arith) (omega arith))
        (e (o + 4 + 1) (omega arith) (omega arith));
  nlink =
      half_cong b b' (o + 6) (e (o + 6) (omega arith) (omega arith))
        (e (o + 6 + 1) (omega arith) (omega arith));
  size = word_cong b b' (w + 2) (λ j lo hi. e j (omega arith) (omega arith));
  addr = elim (Bool-cases (ltb k 13)) [
    | inl lt ↦
        rw lt (
          word_cong b b' (w + 3 + k) (λ j lo hi. e j (omega arith) (omega (arith, ltb→lt k 13 lt))))
    | inr ge ↦ rw ge refl
  ];
}
  where
    o : ℕ
    o = inode_byte q.inum

    w : ℕ
    w = inode_word q.inum

module _ (sb : Superblock) where
  abbrev place : Inode → ℕ
  place ip = inode_block sb ip.inum

  -- The block of an inode after iupdate.
  after_update :
      (ip q : Inode) (fs : Fs)
      → ((place ip ≡ place q)
          × ((iupdate sb ip fs).disk (place q) ≡ put_dinode ip (fs.disk (place q))))
        ⊎ ((place ip ≢ place q) × ((iupdate sb ip fs).disk (place q) ≡ fs.disk (place q)))
  unfolding iupdate
  after_update ip q fs = elim (Bool-cases (place ip == place q)) [
    | inl same ↦
        let e : place ip ≡ place q = ==→eq (place ip) (place q) same in
        inl (e, rw same (ap (λ j. put_dinode ip (fs.disk j)) e))
    | inr other ↦ inr (==→ne (place ip) (place q) other, rw other refl)
  ]

  -- Reading an inode after iupdate of an inode whose fields fit their types gives, for the same inode
  -- number, the fields and block numbers that were written, and for another what it gave before.
  pub read_inode-iupdate :
      (ip q : Inode) (fs : Fs) (k : ℕ)
      → Fits k ip
      → k < 13
      → ((q.inum ≡ ip.inum) × Agrees k (read_inode sb (iupdate sb ip fs) q) ip)
        ⊎ ((q.inum ≢ ip.inum) × Agrees k (read_inode sb (iupdate sb ip fs) q) (read_inode sb fs q))
  unfolding read_inode
  read_inode-iupdate ip q fs k f lt = elim (Bool-cases (q.inum == ip.inum)) [
    | inl same ↦
        let e : q.inum ≡ ip.inum = ==→eq q.inum ip.inum same in
        inl (
          e,
          elim (after_update ip q fs) [
            | inl (here, d) ↦
                let g : Agrees k (get_dinode (put_dinode ip (fs.disk (place q))) q) ip =
                  get-put_same ip q (fs.disk (place q)) k f lt e in
                rw d (record {
                  type = g.type;
                  major = g.major;
                  minor = g.minor;
                  nlink = g.nlink;
                  size = g.size;
                  addr = g.addr;
                })
            | inr (away, d) ↦ absurd (away (ap (inode_block sb) (sym e)))
          ],
        )
    | inr other ↦
        let ne : q.inum ≢ ip.inum = ==→ne q.inum ip.inum other in
        inr (
          ne,
          elim (after_update ip q fs) [
            | inl (here, d) ↦
                let g : Agrees k (get_dinode (put_dinode ip (fs.disk (place q))) q)
                    (get_dinode (fs.disk (place q)) q) =
                  get_cong (put_dinode ip (fs.disk (place q))) (fs.disk (place q)) q k
                    (λ j lo hi. put_outside ip (fs.disk (place q)) j (omega (arith, ne, here))) in
                rw d (record {
                  type = g.type;
                  major = g.major;
                  minor = g.minor;
                  nlink = g.nlink;
                  size = g.size;
                  addr = g.addr;
                })
            | inr (away, d) ↦ rw d (record {
              type = refl;
              major = refl;
              minor = refl;
              nlink = refl;
              size = refl;
              addr = refl;
            })
          ],
        )
  ]
