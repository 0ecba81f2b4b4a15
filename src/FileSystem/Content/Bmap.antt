-- ===== src/FileSystem/Content/Bmap.antt =====
-- bmap, on every branch.
use csse332_project.Base.{
  ℕ, ◌-◌, ◌≤◌, ◌<◌, ◌≡◌, ◌≢◌, refl, sym, ap, subst, ◌∙◌, ◌⊎◌, inl, inr, Bool, true, false, ◌==◌,
  ltb, if◌then◌else◌, update, update_ne, ok, arith, Bool-cases, ==→eq, ==→ne, ltb→lt, ltb→ge,
  lt→ltb,
}
use csse332_project.FileSystem.{Block, Superblock, Fs, Inode, log_block, word, set_word, max_file}
use csse332_project.FileSystem.Blocks.{balloc}
use csse332_project.FileSystem.Blocks.Alloc.{IsLaidOut, AllUsed, balloc-Allocates}
use csse332_project.FileSystem.Blocks.Fresh.{IsOwned, IsFresh, balloc-IsFresh}
use csse332_project.FileSystem.Content.{Mapped, bmap_slot, bmap_word, bmap}
use csse332_project.FileSystem.Content.Map.{
  block_of, IsFile, Grows, at_index, no_index, not_fresh, grow-IsFile, index-IsFile, direct-Grows,
  word-Grows,
}

module _ (sb : Superblock) where
  -- What bmap leaves, seen at the block `n` of the file.
  pub record IsMapped (ip : Inode) (fs : Fs) (bn n : ℕ) (m : Mapped) : Type 0 where
    pub file : IsFile sb m.inode m.fs
    pub inum : (m.inode).inum ≡ ip.inum
    pub size : (m.inode).size ≡ ip.size
    pub map : block_of m.inode m.fs n ≡ (if n == bn then m.addr else block_of ip fs n)
    pub content :
        (block_of ip fs n ≡ 0) ⊎ ((m.fs).disk (block_of ip fs n) ≡ fs.disk (block_of ip fs n))
    pub short : (m.addr ≢ 0) ⊎ ((m.addr ≡ 0) × AllUsed sb m.fs 0 sb.size)
    pub zeros :
        (m.addr ≡ block_of ip fs bn) ⊎ ((block_of ip fs bn ≡ 0) × ((m.fs).disk m.addr ≡ (λ i. 0)))

  -- The block is there, or the disk is full.
  found-IsMapped :
      (ip : Inode) (fs fs' : Fs) (bn n a : ℕ)
      → IsFile sb ip fs
      → fs' ≡ fs
      → block_of ip fs bn ≡ a
      → (a ≢ 0) ⊎ ((a ≡ 0) × AllUsed sb fs 0 sb.size)
      → IsMapped ip fs bn n (record { addr = a; inode = ip; fs = fs' })
  found-IsMapped ip fs fs' bn n a f e at short = record {
    short = elim short [
      | inl nz ↦ inl nz
      | inr (z, all) ↦ inr (z, subst (λ s. AllUsed sb s 0 sb.size) (sym e) all)
    ];
    file = subst (IsFile sb ip) (sym e) f;
    inum = refl;
    size = refl;
    map = ap (λ s. block_of ip s n) e ∙ elim (Bool-cases (n == bn)) [
      | inl same ↦ rw same (ap (block_of ip fs) (==→eq n bn same) ∙ at)
      | inr other ↦ rw other refl
    ];
    content = inr (ap (λ s. s.disk (block_of ip fs n)) e);
    zeros = inl (sym at);
  }

  grown-IsMapped :
      (ip ip' : Inode) (fs fs' : Fs) (bn n r : ℕ)
      → IsFile sb ip fs
      → bn < max_file
      → n < max_file
      → block_of ip fs bn ≡ 0
      → ip'.inum ≡ ip.inum
      → ip'.size ≡ ip.size
      → Grows sb ip ip' fs fs' bn r
      → fs'.disk r ≡ (λ i. 0)
      → (block_of ip fs n ≡ 0) ⊎ (fs'.disk (block_of ip fs n) ≡ fs.disk (block_of ip fs n))
      → IsMapped ip fs bn n (record { addr = r; inode = ip'; fs = fs' })
  grown-IsMapped ip ip' fs fs' bn n r f lb ln z si ss g zeros kept = record {
    inum = si;
    size = ss;
    file = grow-IsFile sb ip ip' fs fs' bn r lb z f g;
    map = g.blocks n ln;
    content = kept;
    short = inl (omega (arith, g.owned.behind, f.laid.nonempty));
    zeros = inr (z, zeros);
  }

  kept_blocks :
      (ip : Inode) (fs fs' : Fs) (n : ℕ)
      → IsFile sb ip fs
      → n < max_file
      → ((c : ℕ) → IsOwned sb fs c → fs'.disk c ≡ fs.disk c)
      → (block_of ip fs n ≡ 0) ⊎ (fs'.disk (block_of ip fs n) ≡ fs.disk (block_of ip fs n))
  kept_blocks ip fs fs' n f ln keeps = elim (Bool-cases (block_of ip fs n == 0)) [
    | inl z ↦ inl (==→eq (block_of ip fs n) 0 z)
    | inr nz ↦ inr (keeps (block_of ip fs n) (f.blocks n ln (==→ne (block_of ip fs n) 0 nz)))
  ]

  balloc_full : (fs : Fs) → IsLaidOut sb fs → (balloc sb fs).1 ≡ 0 → (balloc sb fs).0 ≡ fs
  balloc_full fs laid z = elim (balloc-Allocates sb fs 0 laid laid.nonempty) [
    | inl (e, all) ↦ ap (λ o. o.0) e
    | inr (lo, hi, u, v, w, x, y) ↦ absurd (omega (arith, laid.nonempty, lo))
  ]

  all_used : (fs : Fs) → IsLaidOut sb fs → (balloc sb fs).1 ≡ 0 → AllUsed sb fs 0 sb.size
  all_used fs laid z = elim (balloc-Allocates sb fs 0 laid laid.nonempty) [
    | inl (e, all) ↦ all
    | inr (lo, hi, u, v, w, x, y) ↦ absurd (omega (arith, laid.nonempty, lo))
  ]

  direct-IsMapped :
      (bn n : ℕ) (ip : Inode) (fs : Fs)
      → IsFile sb ip fs
      → bn < 12
      → n < max_file
      → IsMapped ip fs bn n (bmap_slot sb bn ip fs)
  unfolding bmap_slot
  direct-IsMapped bn n ip fs f lb ln = elim (Bool-cases (ip.addrs bn == 0)) [
    | inr there ↦
        rw there
          (found-IsMapped ip fs fs bn n (ip.addrs bn) f refl at (inl (==→ne (ip.addrs bn) 0 there)))
    | inl hole ↦ elim (Bool-cases ((balloc sb fs).1 == 0)) [
      | inl full ↦
          rw (hole, full)
            (found-IsMapped ip fs ((balloc sb fs).0) bn n 0 f
              (balloc_full fs f.laid (==→eq (balloc sb fs).1 0 full))
              (at ∙ ==→eq (ip.addrs bn) 0 hole) (inr (refl, all_used fs f.laid (==→eq r 0 full))))
      | inr got ↦
          rw (hole, got)
            (grow (balloc-IsFresh sb fs f.laid (==→ne (balloc sb fs).1 0 got))
              (at ∙ ==→eq (ip.addrs bn) 0 hole))
    ]
  ]
    where
      r : ℕ
      r = (balloc sb fs).1

      at : block_of ip fs bn ≡ ip.addrs bn
      at = rw (lt→ltb bn 12 lb) refl

      grow :
          IsFresh sb fs ((balloc sb fs).0) r
          → block_of ip fs bn ≡ 0
          → IsMapped ip fs bn n (record {
            addr = r;
            inode = record ip { addrs = update ip.addrs bn r };
            fs = (balloc sb fs).0;
          })
      grow g z =
          grown-IsMapped ip (record ip { addrs = update ip.addrs bn r }) fs ((balloc sb fs).0) bn n
            r f (omega arith) ln z refl refl (direct-Grows sb ip fs ((balloc sb fs).0) bn r lb f g)
            g.zeros (kept_blocks ip fs ((balloc sb fs).0) n f ln (λ c own. (g.keeps c own).1))

  -- The same for a word of the indirect block.
  word-IsMapped :
      (bn n : ℕ) (ip : Inode) (fs : Fs)
      → IsFile sb ip fs
      → 12 ≤ bn
      → bn < max_file
      → n < max_file
      → ip.addrs 12 ≢ 0
      → IsMapped ip fs bn n (record {
        addr = (bmap_word sb (ip.addrs 12) (bn - 12) fs).1;
        inode = ip;
        fs = (bmap_word sb (ip.addrs 12) (bn - 12) fs).0;
      })
  unfolding bmap_word
  word-IsMapped bn n ip fs f lo lb ln nz = elim (Bool-cases (old == 0)) [
    | inr there ↦ rw there (found-IsMapped ip fs fs bn n old f refl at (inl (==→ne old 0 there)))
    | inl hole ↦ elim (Bool-cases (r == 0)) [
      | inl full ↦
          rw (hole, full)
            (found-IsMapped ip fs ((balloc sb fs).0) bn n 0 f
              (balloc_full fs f.laid (==→eq r 0 full)) (at ∙ ==→eq old 0 hole)
              (inr (refl, all_used fs f.laid (==→eq r 0 full))))
      | inr got ↦
          rw (hole, got)
            (grow (balloc-IsFresh sb fs f.laid (==→ne r 0 got)) (at ∙ ==→eq old 0 hole))
    ]
  ]
    where
      ind : ℕ
      ind = ip.addrs 12

      old : ℕ
      old = word (fs.disk ind) (bn - 12)

      r : ℕ
      r = (balloc sb fs).1

      fs1 : Fs
      fs1 = (balloc sb fs).0

      bytes : Block
      bytes = set_word (fs1.disk ind) (bn - 12) r

      at : block_of ip fs bn ≡ old
      at = at_index ip fs bn lo nz

      -- The indirect block is not the new one, nor one of the file's.
      away : (c : ℕ) → c ≢ ind → (log_block ind bytes fs1).disk c ≡ fs1.disk c
      away c ne = update_ne fs1.disk ind c bytes (λ e. ne (sym e))

      kept :
          IsFresh sb fs fs1 r
          → (block_of ip fs n ≡ 0)
            ⊎ ((log_block ind bytes fs1).disk (block_of ip fs n) ≡ fs.disk (block_of ip fs n))
      kept g = elim (Bool-cases (block_of ip fs n == 0)) [
        | inl z ↦ inl (==→eq (block_of ip fs n) 0 z)
        | inr b ↦
            let ne : block_of ip fs n ≢ 0 = ==→ne (block_of ip fs n) 0 b in
            inr (
              away (block_of ip fs n) (f.apart n ln ne)
              ∙ (g.keeps (block_of ip fs n) (f.blocks n ln ne)).1)
      ]

      grow :
          IsFresh sb fs fs1 r
          → block_of ip fs bn ≡ 0
          → IsMapped ip fs bn n (record { addr = r; inode = ip; fs = log_block ind bytes fs1 })
      grow g z =
          grown-IsMapped ip ip fs (log_block ind bytes fs1) bn n r f lb ln z refl refl
            (word-Grows sb ip fs fs1 bn r lo lb nz z f g)
            (away r (λ e. not_fresh sb fs r ind g.free (f.index nz) (sym e)) ∙ g.zeros) (kept g)

  -- A step before that leaves the block map.
  after-IsMapped :
      (ip ip1 : Inode) (fs fs1 : Fs) (bn n : ℕ) (m : Mapped)
      → ((k : ℕ) → k < max_file → block_of ip1 fs1 k ≡ block_of ip fs k)
      → bn < max_file
      → n < max_file
      → ip1.inum ≡ ip.inum
      → ip1.size ≡ ip.size
      → (block_of ip fs n ≡ 0) ⊎ (fs1.disk (block_of ip fs n) ≡ fs.disk (block_of ip fs n))
      → IsMapped ip1 fs1 bn n m
      → IsMapped ip fs bn n m
  after-IsMapped ip ip1 fs fs1 bn n m same lb ln si ss kept h = record {
    file = h.file;
    inum = h.inum ∙ si;
    size = h.size ∙ ss;
    map = h.map ∙ ap (λ b. if n == bn then m.addr else b) (same n ln);
    content = elim kept [
      | inl z ↦ inl z
      | inr k ↦ elim (h.content) [
        | inl z ↦ inl (sym (same n ln) ∙ z)
        | inr c ↦ inr (subst (λ b. (m.fs).disk b ≡ fs1.disk b) (same n ln) c ∙ k)
      ]
    ];
    short = h.short;
    zeros = elim (h.zeros) [
      | inl e ↦ inl (e ∙ same bn lb)
      | inr (z, k) ↦ inr (sym (same bn lb) ∙ z, k)
    ];
  }

  -- What bmap makes of the indirect block before it looks up the word.
  indirect-IsMapped :
      (bn n : ℕ) (ip : Inode) (fs : Fs)
      → IsFile sb ip fs
      → 12 ≤ bn
      → bn < max_file
      → n < max_file
      → let ind = bmap_slot sb 12 ip fs in
        let r = bmap_word sb ind.addr (bn - 12) ind.fs in
        IsMapped ip fs bn n (if ind.addr == 0 then ind else record ind { addr = r.1; fs = r.0 })
  unfolding bmap_slot
  indirect-IsMapped bn n ip fs f lo lb ln = elim (Bool-cases (ip.addrs 12 == 0)) [
    | inr there ↦
        rw there (rw there (word-IsMapped bn n ip fs f lo lb ln (==→ne (ip.addrs 12) 0 there)))
    | inl hole ↦ elim (Bool-cases (r == 0)) [
      | inl full ↦
          rw (hole, full)
            (found-IsMapped ip fs fs1 bn n 0 f (balloc_full fs f.laid (==→eq r 0 full))
              (no_index ip fs bn lo (==→eq (ip.addrs 12) 0 hole))
              (inr (refl, all_used fs f.laid (==→eq r 0 full))))
      | inr got ↦
          rw (hole, got)
            (rw got (
              grow (==→eq (ip.addrs 12) 0 hole) (==→ne r 0 got)
                (balloc-IsFresh sb fs f.laid (==→ne r 0 got))))
    ]
  ]
    where
      r : ℕ
      r = (balloc sb fs).1

      fs1 : Fs
      fs1 = (balloc sb fs).0

      ip1 : Inode
      ip1 = record ip { addrs = update ip.addrs 12 r }

      grow :
          ip.addrs 12 ≡ 0
          → r ≢ 0
          → IsFresh sb fs fs1 r
          → IsMapped ip fs bn n (record {
            addr = (bmap_word sb r (bn - 12) fs1).1;
            inode = ip1;
            fs = (bmap_word sb r (bn - 12) fs1).0;
          })
      grow z nz g =
          let h : IsFile sb ip1 fs1
              × ((k : ℕ) → k < max_file → block_of ip1 fs1 k ≡ block_of ip fs k) =
            index-IsFile sb ip fs fs1 r z f g in
          after-IsMapped ip ip1 fs fs1 bn n
            (record {
              addr = (bmap_word sb r (bn - 12) fs1).1;
              inode = ip1;
              fs = (bmap_word sb r (bn - 12) fs1).0;
            })
            h.1 lb ln refl refl (kept_blocks ip fs fs1 n f ln (λ c own. (g.keeps c own).1))
            (word-IsMapped bn n ip1 fs1 h.0 lo lb ln nz)

  either : (b : Bool) (x y : Mapped) → (if b then ok x else ok y) ≡ ok (if b then x else y)
  either true x y = refl
  either false x y = refl

  -- Below 268 blocks bmap returns; the file keeps its form; the block returned is block `bn` of the
  -- file, 0 if it had none and the disk is full, and zeros if it is new; and every other block
  -- stays where it is, with the bytes that it has.
  pub bmap-IsMapped :
      (bn n : ℕ) (ip : Inode) (fs : Fs)
      → IsFile sb ip fs
      → bn < max_file
      → n < max_file
      → (m : Mapped) × (bmap sb bn ip fs ≡ ok m) × IsMapped ip fs bn n m
  unfolding bmap
  bmap-IsMapped bn n ip fs f lb ln = elim (Bool-cases (ltb bn 12)) [
    | inl direct ↦ (
      bmap_slot sb bn ip fs,
      rw direct refl,
      direct-IsMapped bn n ip fs f (ltb→lt bn 12 direct) ln,
    )
    | inr behind ↦
        let lo : 12 ≤ bn = ltb→ge bn 12 behind in
        let small : ltb (bn - 12) 256 ≡ true = lt→ltb (bn - 12) 256 (omega arith) in
        let ind : Mapped = bmap_slot sb 12 ip fs in
        let r : Fs × ℕ = bmap_word sb ind.addr (bn - 12) ind.fs in
        (
          if ind.addr == 0 then ind else record ind { addr = r.1; fs = r.0 },
          rw (behind, small) (either (ind.addr == 0) ind (record ind { addr = r.1; fs = r.0 })),
          indirect-IsMapped bn n ip fs f lo lb ln,
        )
  ]
