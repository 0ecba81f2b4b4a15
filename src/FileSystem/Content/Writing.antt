-- ===== src/FileSystem/Content/Writing.antt =====
-- writei on the bytes of a file.
use csse332_project.Base.{
  ℕ, zero, suc, ◌+◌, ◌-◌, ◌*◌, ◌/◌, ◌%◌, min, ◌≤◌, ◌<◌, ◌≡◌, ◌≢◌, refl, sym, ap, subst, ◌∙◌, ◌⊎◌,
  inl, inr, Bool, true, false, ◌==◌, ltb, if◌then◌else◌, some, u32, ok, arith, Bool-cases, ==→eq,
  ==→ne, ne→==, ==_self, ltb→lt, ltb→ge, dec_lt, update, List,
}
use csse332_project.FileSystem.{Block, Superblock, Fs, Inode, log_block, max_file, block_size}
use csse332_project.FileSystem.Blocks.Alloc.{AllUsed}
use csse332_project.FileSystem.Blocks.Fresh.{IsOwned}
use csse332_project.FileSystem.Content.{Mapped, bmap, Wrote, write_loop}
use csse332_project.FileSystem.Content.Map.{block_of, IsFile}
use csse332_project.FileSystem.Content.Bmap.{IsMapped, bmap-IsMapped}
use csse332_project.FileSystem.Content.Bytes.{
  block_byte, byte_at, byte_of_map, Rewrites, rewrite-Rewrites,
}
use csse332_project.Strings.{Memory}
use csse332_project.Strings.Moves.{within}

ok_inj : {m m' : Mapped} → ok m ≡ ok m' → m ≡ m'
ok_inj e = cc

module _ (sb : Superblock) where
  -- One result of bmap, seen at every block.
  pub bmap_all :
      (bn : ℕ) (ip : Inode) (fs : Fs)
      → IsFile sb ip fs
      → bn < max_file
      → (m : Mapped) × (bmap sb bn ip fs ≡ ok m)
        × ((n : ℕ) → n < max_file → IsMapped sb ip fs bn n m)
  bmap_all bn ip fs f lb =
      let r : (m : Mapped) × (bmap sb bn ip fs ≡ ok m) × IsMapped sb ip fs bn bn m =
        bmap-IsMapped sb bn bn ip fs f lb lb in
      (
        r.0,
        r.1,
        λ n ln.
            let q : (m : Mapped) × (bmap sb bn ip fs ≡ ok m) × IsMapped sb ip fs bn n m =
              bmap-IsMapped sb bn n ip fs f lb ln in
            subst (IsMapped sb ip fs bn n) (ok_inj (sym q.1 ∙ r.1)) q.2,
      )

-- `m` bytes of the memory from `src` on, at byte `o` of a block.
abbrev pub patch : Memory → Block → (o src m : ℕ) → Block
patch mem bytes o src m j = if within o m j then mem (src + (j - o)) else bytes j

-- either_copyin: it copies, or fails and has changed no more than the destination.
pub record IsCopyin (copyin : Block → (o src m : ℕ) → Block × Bool) (mem : Memory) : Type 0 where
  pub copies :
      (bytes : Block) (o src m : ℕ)
      → (copyin bytes o src m).1 ≡ true
      → (copyin bytes o src m).0 ≡ patch mem bytes o src m
  pub fails :
      (bytes : Block) (o src m j : ℕ)
      → (copyin bytes o src m).1 ≡ false
      → within o m j ≡ false
      → (copyin bytes o src m).0 j ≡ bytes j

-- either_copyin fails from `src` on.
pub record Fails (copyin : Block → (o src m : ℕ) → Block × Bool) (src : ℕ) : Type 0 where
  pub bytes : Block
  pub o : ℕ
  pub m : ℕ
  pub failed : (copyin bytes o src m).1 ≡ false

-- What is logged is not part of the block map.
pub unlogged-IsFile :
    (sb : Superblock) (ip : Inode) (fs : Fs) (logged : List ℕ)
    → IsFile sb ip fs
    → IsFile sb ip (record fs { logged = logged })
unlogged-IsFile sb ip fs logged f = record {
  laid = record {
    reserved = record { used = λ c l r. f.laid.reserved.used c l r };
    nonempty = f.laid.nonempty;
    fits = f.laid.fits;
  };
  blocks = λ n ln nz. own (f.blocks n ln nz);
  index = λ nz. own (f.index nz);
  apart = f.apart;
  distinct = f.distinct;
}
  where
    own : {c : ℕ} → IsOwned sb fs c → IsOwned sb (record fs { logged = logged }) c
    own o = record { behind = o.behind; inside = o.inside; used = o.used }

module _ (sb : Superblock) (copyin : Block → (o src m : ℕ) → Block × Bool) (mem : Memory)
    (law : IsCopyin copyin mem) where
  within_block :
      (off k x : ℕ)
      → k ≤ block_size - off % block_size
      → x / block_size ≡ off / block_size
      → within (off % block_size) k (x % block_size) ≡ within off k x
  within_block off k x lk e = ground arith

  outside_block :
      (off k x : ℕ)
      → k ≤ block_size - off % block_size
      → x / block_size ≢ off / block_size
      → within off k x ≡ false
  outside_block off k x lk ne = ground arith

  patched :
      (off src k x : ℕ) (bytes : Block) (old : ℕ)
      → x / block_size ≡ off / block_size
      → k ≤ block_size - off % block_size
      → bytes (x % block_size) ≡ old
      → patch mem bytes (off % block_size) src k (x % block_size)
        ≡ (if within off k x then mem (src + (x - off)) else old)
  patched off src k x bytes old e lk same =
      rw (within_block off k x lk e) (elim (Bool-cases (within off k x)) [
        | inl inside ↦ rw inside (ap (λ d. mem (src + d)) (ground arith))
        | inr outside ↦ rw outside same
      ])

  -- One round: new bytes for the block that bmap found, seen at byte `x`.
  round_bytes :
      (off : ℕ) (ip : Inode) (fs : Fs) (m : Mapped) (bytes : Block)
      → ((n : ℕ) → n < max_file → IsMapped sb ip fs (off / block_size) n m)
      → off / block_size < max_file
      → m.addr ≢ 0
      → let fs' = log_block m.addr bytes m.fs in
        IsFile sb m.inode fs'
        × ((x : ℕ)
            → x < max_file * block_size
            → ((x / block_size ≡ off / block_size)
                × (byte_at m.inode fs' x ≡ bytes (x % block_size))
                × ((m.fs).disk m.addr (x % block_size) ≡ byte_at ip fs x))
              ⊎ ((x / block_size ≢ off / block_size) × (byte_at m.inode fs' x ≡ byte_at ip fs x)))
  round_bytes off ip fs m bytes h lb nz = (r.file, byte)
    where
      bn : ℕ
      bn = off / block_size

      fs' : Fs
      fs' = log_block m.addr bytes m.fs

      found : block_of m.inode m.fs bn ≡ m.addr
      found = (h bn lb).map ∙ (rw (==_self bn) refl)

      r : Rewrites sb m.inode m.fs bn bytes fs'
      r =
          subst (λ b. Rewrites sb m.inode m.fs bn bytes (log_block b bytes m.fs)) found
            (rewrite-Rewrites sb m.inode m.fs bn bytes (h bn lb).file lb (λ e. nz (sym found ∙ e)))

      before : (x : ℕ) → x < max_file * block_size → byte_at m.inode m.fs x ≡ byte_at ip fs x
      before x lx =
          byte_of_map sb ip fs bn (x / block_size) (x % block_size) m
            (h (x / block_size) (omega arith))

      here :
          (x : ℕ)
          → x < max_file * block_size
          → x / block_size ≡ bn
          → (m.fs).disk m.addr (x % block_size) ≡ byte_at ip fs x
      here x lx e =
          let there : block_byte (m.fs).disk m.addr (x % block_size)
              ≡ (m.fs).disk m.addr (x % block_size) =
            rw (ne→== m.addr 0 nz) refl in
          sym there
          ∙ ap (λ b. block_byte (m.fs).disk b (x % block_size))
              (sym found ∙ ap (block_of m.inode m.fs) (sym e))
          ∙ before x lx

      byte :
          (x : ℕ)
          → x < max_file * block_size
          → ((x / block_size ≡ bn)
              × (byte_at m.inode fs' x ≡ bytes (x % block_size))
              × ((m.fs).disk m.addr (x % block_size) ≡ byte_at ip fs x))
            ⊎ ((x / block_size ≢ bn) × (byte_at m.inode fs' x ≡ byte_at ip fs x))
      byte x lx = elim (Bool-cases (x / block_size == bn)) [
        | inl same ↦
            let e : x / block_size ≡ bn = ==→eq (x / block_size) bn same in
            inl (
              e,
              r.byte (x / block_size) (x % block_size) (omega arith) ∙ rw same refl,
              here x lx e,
            )
        | inr other ↦ inr (
          ==→ne (x / block_size) bn other,
          r.byte (x / block_size) (x % block_size) (omega arith) ∙ rw other (before x lx),
        )
      ]

  -- A round that copies `k` bytes.
  copied_bytes :
      (off src k : ℕ) (ip : Inode) (fs : Fs) (m : Mapped)
      → ((n : ℕ) → n < max_file → IsMapped sb ip fs (off / block_size) n m)
      → off / block_size < max_file
      → k ≤ block_size - off % block_size
      → m.addr ≢ 0
      → let fs' = log_block m.addr (patch mem ((m.fs).disk m.addr) (off % block_size) src k) m.fs in
        IsFile sb m.inode fs'
        × ((x : ℕ)
            → x < max_file * block_size
            → byte_at m.inode fs' x
              ≡ (if within off k x then mem (src + (x - off)) else byte_at ip fs x))
  copied_bytes off src k ip fs m h lb lk nz = (
    q.0,
    λ x lx. elim (q.1 x lx) [
      | inl (e, new, old) ↦
          new ∙ patched off src k x ((m.fs).disk m.addr) (byte_at ip fs x) e lk old
      | inr (ne, old) ↦ rw (outside_block off k x lk ne) old
    ],
  )
    where
      bytes : Block
      bytes = patch mem ((m.fs).disk m.addr) (off % block_size) src k

      q :
          IsFile sb m.inode (log_block m.addr bytes m.fs)
          × ((x : ℕ)
              → x < max_file * block_size
              → ((x / block_size ≡ off / block_size)
                  × (byte_at m.inode (log_block m.addr bytes m.fs) x ≡ bytes (x % block_size))
                  × ((m.fs).disk m.addr (x % block_size) ≡ byte_at ip fs x))
                ⊎ ((x / block_size ≢ off / block_size)
                    × (byte_at m.inode (log_block m.addr bytes m.fs) x ≡ byte_at ip fs x)))
      q = round_bytes off ip fs m bytes h lb nz

  -- A round that fails to copy `k` bytes, and logs nothing.
  failed_bytes :
      (off src k : ℕ) (ip : Inode) (fs : Fs) (m : Mapped)
      → ((n : ℕ) → n < max_file → IsMapped sb ip fs (off / block_size) n m)
      → off / block_size < max_file
      → k ≤ block_size - off % block_size
      → m.addr ≢ 0
      → (copyin ((m.fs).disk m.addr) (off % block_size) src k).1 ≡ false
      → let bytes = (copyin ((m.fs).disk m.addr) (off % block_size) src k).0 in
        let fs' = record (m.fs) { disk = update (m.fs).disk m.addr bytes } in
        IsFile sb m.inode fs'
        × ((x : ℕ)
            → x < max_file * block_size
            → within off k x ≡ false
            → byte_at m.inode fs' x ≡ byte_at ip fs x)
  failed_bytes off src k ip fs m h lb lk nz bad = (
    unlogged-IsFile sb m.inode (log_block m.addr bytes m.fs) (m.fs).logged q.0,
    λ x lx out. elim (q.1 x lx) [
      | inl (e, new, old) ↦
          new
          ∙ law.fails ((m.fs).disk m.addr) (off % block_size) src k (x % block_size) bad
              (within_block off k x lk e ∙ out)
          ∙ old
      | inr (ne, old) ↦ old
    ],
  )
    where
      bytes : Block
      bytes = (copyin ((m.fs).disk m.addr) (off % block_size) src k).0

      q :
          IsFile sb m.inode (log_block m.addr bytes m.fs)
          × ((x : ℕ)
              → x < max_file * block_size
              → ((x / block_size ≡ off / block_size)
                  × (byte_at m.inode (log_block m.addr bytes m.fs) x ≡ bytes (x % block_size))
                  × ((m.fs).disk m.addr (x % block_size) ≡ byte_at ip fs x))
                ⊎ ((x / block_size ≢ off / block_size)
                    × (byte_at m.inode (log_block m.addr bytes m.fs) x ≡ byte_at ip fs x)))
      q = round_bytes off ip fs m bytes h lb nz

  nothing_within : (off tot x : ℕ) → within off (tot - tot) x ≡ false
  nothing_within off tot x = ground arith

  -- What write_loop leaves, with `tot` of `n` bytes written at its start.
  pub record IsWritten (tot off src n : ℕ) (ip : Inode) (fs : Fs) (w : Wrote) : Type 0 where
    pub count : ℕ
    pub result : w.result ≡ some count
    pub grows : tot ≤ count
    pub fits : count ≤ n
    pub end : w.off ≡ off + (count - tot)
    pub file : IsFile sb w.inode w.fs
    pub inum : (w.inode).inum ≡ ip.inum
    pub size : (w.inode).size ≡ ip.size
    pub short : (count ≡ n) ⊎ AllUsed sb w.fs 0 sb.size ⊎ Fails copyin (src + (count - tot))
    -- as it should be, or in the part of the request that could not be copied
    pub byte :
        (x : ℕ)
        → x < max_file * block_size
        → (byte_at w.inode w.fs x
            ≡ (if within off (count - tot) x then mem (src + (x - off)) else byte_at ip fs x))
          ⊎ (Fails copyin (src + (count - tot))
              × (within (off + (count - tot)) (n - count) x ≡ true))

  IsWritten-stop :
      (tot off src n : ℕ) (ip : Inode) (fs : Fs) (m : Mapped)
      → ((i : ℕ) → i < max_file → IsMapped sb ip fs (off / block_size) i m)
      → off / block_size < max_file
      → tot ≤ n
      → m.addr ≡ 0
      → IsWritten tot off src n ip fs
          (record { result = some tot; off = off; inode = m.inode; fs = m.fs })
  IsWritten-stop tot off src n ip fs m h lb lt z = record {
    count = tot;
    result = refl;
    grows = omega arith;
    fits = lt;
    end = omega arith;
    file = (h 0 (omega arith)).file;
    inum = (h 0 (omega arith)).inum;
    size = (h 0 (omega arith)).size;
    short = elim ((h 0 (omega arith)).short) [
      | inl nz ↦ absurd (nz z)
      | inr (e, all) ↦ inr (inl all)
    ];
    byte = λ x lx. inl (
        rw (nothing_within off tot x) (
          byte_of_map sb ip fs (off / block_size) (x / block_size) (x % block_size) m
            (h (x / block_size) (omega arith))));
  }

  -- Two ranges, one behind the other.
  join_ranges :
      (off src tot k count x old : ℕ)
      → tot + k ≤ count
      → (if within (off + k) (count - (tot + k)) x
          then mem (src + k + (x - (off + k)))
          else if within off k x
          then mem (src + (x - off))
          else old)
        ≡ (if within off (count - tot) x then mem (src + (x - off)) else old)
  join_ranges off src tot k count x old h = elim (dec_lt x (off + k)) [
    | yes low ↦ ground arith
    | no high ↦ rw (ap mem (behind high)) (ground arith)
  ]
    where
      behind : ¬ (x < off + k) → src + k + (x - (off + k)) ≡ src + (x - off)
      behind high = omega arith

  IsWritten-next :
      (tot off src n k : ℕ) (ip : Inode) (fs : Fs) (m : Mapped) (fs' : Fs)
      → (m.inode).inum ≡ ip.inum
      → (m.inode).size ≡ ip.size
      → tot + k ≤ n
      → ((x : ℕ)
          → x < max_file * block_size
          → byte_at m.inode fs' x
            ≡ (if within off k x then mem (src + (x - off)) else byte_at ip fs x))
      → (w : Wrote) → IsWritten (tot + k) (off + k) (src + k) n m.inode fs' w
      → IsWritten tot off src n ip fs w
  IsWritten-next tot off src n k ip fs m fs' si ss le byte w h = record {
    count = h.count;
    result = h.result;
    grows = omega (arith, h.grows);
    fits = h.fits;
    end = omega (arith, h.end, h.grows);
    file = h.file;
    inum = h.inum ∙ si;
    size = h.size ∙ ss;
    short = elim (h.short) [
      | inl all ↦ inl all
      | inr (inl full) ↦ inr (inl full)
      | inr (inr bad) ↦ inr (inr (subst (Fails copyin) (behind src) bad))
    ];
    byte = λ x lx. elim (h.byte x lx) [
      | inr (bad, inside) ↦ inr (
        subst (Fails copyin) (behind src) bad,
        subst (λ o. within o (n - h.count) x ≡ true) (behind off) inside,
      )
      | inl e ↦ inl (
          e
          ∙ ap
              (λ v.
                if within (off + k) (h.count - (tot + k)) x
                then mem (src + k + (x - (off + k)))
                else v)
              (byte x lx)
          ∙ join_ranges off src tot k h.count x (byte_at ip fs x) h.grows)
    ];
  }
    where
      behind : (o : ℕ) → o + k + (h.count - (tot + k)) ≡ o + (h.count - tot)
      behind o = omega (arith, h.grows)

  IsWritten-fail :
      (tot off src n k : ℕ) (ip : Inode) (fs : Fs) (m : Mapped) (fs' : Fs)
      → (m.inode).inum ≡ ip.inum
      → (m.inode).size ≡ ip.size
      → tot + k ≤ n
      → IsFile sb m.inode fs'
      → Fails copyin src
      → ((x : ℕ)
          → x < max_file * block_size
          → within off k x ≡ false
          → byte_at m.inode fs' x ≡ byte_at ip fs x)
      → IsWritten tot off src n ip fs
          (record { result = some tot; off = off; inode = m.inode; fs = fs' })
  IsWritten-fail tot off src n k ip fs m fs' si ss le file bad byte = record {
    count = tot;
    result = refl;
    grows = omega arith;
    fits = omega arith;
    end = omega arith;
    file = file;
    inum = si;
    size = ss;
    short = inr (inr there);
    byte = λ x lx. elim (Bool-cases (within off k x)) [
      | inl inside ↦ inr (there, ground (arith, le))
      | inr out ↦ inl (rw (nothing_within off tot x) (byte x lx out))
    ];
  }
    where
      there : Fails copyin (src + (tot - tot))
      there = subst (Fails copyin) (omega arith) bad

  pub write_loop-IsWritten :
      (fuel tot off src n : ℕ) (ip : Inode) (fs : Fs)
      → n - tot < fuel
      → tot ≤ n
      → off + (n - tot) ≤ max_file * block_size
      → IsFile sb ip fs
      → (w : Wrote) × (write_loop sb copyin fuel tot off src n ip fs ≡ ok w)
        × IsWritten tot off src n ip fs w
  unfolding write_loop
  write_loop-IsWritten zero tot off src n ip fs lf lt lo f = absurd (omega arith)
  write_loop-IsWritten (suc fuel) tot off src n ip fs lf lt lo f = elim (Bool-cases (ltb tot n)) [
    | inr done ↦ (
      record { result = some tot; off = off; inode = ip; fs = fs },
      rw done refl,
      record {
        count = tot;
        result = refl;
        grows = omega arith;
        fits = lt;
        end = omega arith;
        file = f;
        inum = refl;
        size = refl;
        short = inl (omega (arith, ltb→ge tot n done));
        byte = λ x lx. inl (rw (nothing_within off tot x) refl);
      },
    )
    | inl more ↦
        let lt' : tot < n = ltb→lt tot n more in
        let b : (m : Mapped) × (bmap sb (off / block_size) ip fs ≡ ok m)
            × ((i : ℕ) → i < max_file → IsMapped sb ip fs (off / block_size) i m) =
          bmap_all sb (off / block_size) ip fs f (omega arith) in
        let m : Mapped = b.0 in
        let k : ℕ = min (n - tot) (block_size - off % block_size) in
        elim (Bool-cases (m.addr == 0)) [
          | inl z ↦ (
            record { result = some tot; off = off; inode = m.inode; fs = m.fs },
            rw (more, b.1, z) refl,
            IsWritten-stop tot off src n ip fs m b.2 (omega arith) lt (==→eq m.addr 0 z),
          )
          | inr nz ↦ elim (Bool-cases (copyin ((m.fs).disk m.addr) (off % block_size) src k).1) [
            | inr bad ↦
                let after : Block = (copyin ((m.fs).disk m.addr) (off % block_size) src k).0 in
                let fs' : Fs = record (m.fs) { disk = update (m.fs).disk m.addr after } in
                let q : IsFile sb m.inode fs'
                    × ((x : ℕ)
                        → x < max_file * block_size
                        → within off k x ≡ false
                        → byte_at m.inode fs' x ≡ byte_at ip fs x) =
                  failed_bytes off src k ip fs m b.2 (omega arith) (omega arith) (==→ne m.addr 0 nz)
                    bad in
                (
                  record { result = some tot; off = off; inode = m.inode; fs = fs' },
                  rw (more, b.1, nz, bad) refl,
                  IsWritten-fail tot off src n k ip fs m fs' (b.2 0 (omega arith)).inum
                      (b.2 0 (omega arith)).size (omega arith) q.0
                      (record {
                        bytes = (m.fs).disk m.addr;
                        o = off % block_size;
                        m = k;
                        failed = bad;
                      })
                      q.1,
                )
            | inl good ↦
                let fs' : Fs =
                  log_block m.addr (patch mem ((m.fs).disk m.addr) (off % block_size) src k) m.fs in
                let r : IsFile sb m.inode fs'
                    × ((x : ℕ)
                        → x < max_file * block_size
                        → byte_at m.inode fs' x
                          ≡ (if within off k x then mem (src + (x - off)) else byte_at ip fs x)) =
                  copied_bytes off src k ip fs m b.2 (omega arith) (omega arith)
                    (==→ne m.addr 0 nz) in
                let small : u32 (off + k) ≡ off + k = omega arith in
                let ih : (w : Wrote) × (write_loop sb copyin fuel (tot + k) (off + k) (src + k) n
                        m.inode fs'
                      ≡ ok w)
                    × IsWritten (tot + k) (off + k) (src + k) n m.inode fs' w =
                  write_loop-IsWritten fuel (tot + k) (off + k) (src + k) n m.inode fs'
                    (omega arith) (omega arith) (omega arith) r.0 in
                (
                  ih.0,
                  rw
                      (
                        more,
                        b.1,
                        nz,
                        good,
                        law.copies ((m.fs).disk m.addr) (off % block_size) src k good,
                      )
                      (subst
                        (λ o.
                          write_loop sb copyin fuel (tot + k) o (src + k) n m.inode fs' ≡ ok ih.0)
                        (sym small) ih.1),
                  IsWritten-next tot off src n k ip fs m fs' (b.2 0 (omega arith)).inum
                      (b.2 0 (omega arith)).size (omega arith) r.1 ih.0 ih.2,
                )
          ]
        ]
  ]
