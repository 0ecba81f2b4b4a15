-- ===== src/FileSystem/Content/Reading.antt =====
-- readi on the bytes of a file.
use csse332_project.Base.{
  ℕ, zero, suc, ◌+◌, ◌-◌, ◌*◌, ◌/◌, ◌%◌, min, ◌≤◌, ◌<◌, ◌≡◌, ◌≢◌, refl, sym, ap, subst, ◌∙◌, ◌⊎◌,
  inl, inr, Bool, true, false, ◌==◌, ltb, if◌then◌else◌, none, some, u32, ok, arith, Bool-cases,
  ==→eq, ==→ne, ne→==, ==_self, ltb→lt, ltb→ge, dec_lt,
}
use csse332_project.FileSystem.{Block, Superblock, Fs, Inode, max_file, block_size}
use csse332_project.FileSystem.Blocks.Alloc.{AllUsed}
use csse332_project.FileSystem.Content.{Mapped, bmap, Read, read_loop}
use csse332_project.FileSystem.Content.Map.{block_of, IsFile}
use csse332_project.FileSystem.Content.Bmap.{IsMapped}
use csse332_project.FileSystem.Content.Bytes.{block_byte, byte_at, byte_of_map}
use csse332_project.Strings.{Memory}
use csse332_project.Strings.Moves.{within}
use csse332_project.FileSystem.Content.Writing.{bmap_all}

-- `m` bytes put into memory at `dst`.
abbrev pub place : (dst : ℕ) → Block → (m : ℕ) → Memory → Memory
place dst bytes m mem a = if within dst m a then bytes (a - dst) else mem a

-- either_copyout: it copies, or fails and has changed no more than the destination.
pub record IsCopyout (copyout : (dst : ℕ) → Block → (m : ℕ) → Memory → Memory × Bool) : Type 0 where
  pub copies :
      (dst : ℕ) (bytes : Block) (m : ℕ) (mem : Memory)
      → (copyout dst bytes m mem).1 ≡ true
      → (copyout dst bytes m mem).0 ≡ place dst bytes m mem
  pub fails :
      (dst : ℕ) (bytes : Block) (m : ℕ) (mem : Memory) (a : ℕ)
      → (copyout dst bytes m mem).1 ≡ false
      → within dst m a ≡ false
      → (copyout dst bytes m mem).0 a ≡ mem a

-- either_copyout fails from `dst` on.
pub record Refuses (copyout : (dst : ℕ) → Block → (m : ℕ) → Memory → Memory × Bool) (dst : ℕ)
    : Type 0 where
  pub bytes : Block
  pub m : ℕ
  pub mem : Memory
  pub failed : (copyout dst bytes m mem).1 ≡ false

module _ (sb : Superblock) (copyout : (dst : ℕ) → Block → (m : ℕ) → Memory → Memory × Bool)
    (law : IsCopyout copyout) where
  -- What a read leaves, with `tot` of `n` bytes read at its start.
  pub record IsRead (tot off dst n : ℕ) (ip : Inode) (fs : Fs) (mem : Memory) (r : Read)
      : Type 0 where
    pub count : ℕ
    pub grows : tot ≤ count
    pub fits : count ≤ n
    pub file : IsFile sb r.inode r.fs
    pub size : (r.inode).size ≡ ip.size
    pub ends :
        ((r.result ≡ some count) × ((count ≡ n) ⊎ AllUsed sb r.fs 0 sb.size))
        ⊎ ((r.result ≡ none) × Refuses copyout (dst + (count - tot)))
    pub byte : (x : ℕ) → x < max_file * block_size → byte_at r.inode r.fs x ≡ byte_at ip fs x
    pub memory :
        (a : ℕ)
        → (r.memory a
            ≡ (if within dst (count - tot) a then byte_at ip fs (off + (a - dst)) else mem a))
          ⊎ (Refuses copyout (dst + (count - tot))
              × (within (dst + (count - tot)) (n - count) a ≡ true))

  nothing_within : (dst tot a : ℕ) → within dst (tot - tot) a ≡ false
  nothing_within dst tot a = ground arith

  IsRead-stop :
      (tot off dst n : ℕ) (ip : Inode) (fs : Fs) (mem : Memory) (m : Mapped)
      → ((i : ℕ) → i < max_file → IsMapped sb ip fs (off / block_size) i m)
      → tot ≤ n
      → m.addr ≡ 0
      → IsRead tot off dst n ip fs mem
          (record { result = some tot; inode = m.inode; fs = m.fs; memory = mem })
  IsRead-stop tot off dst n ip fs mem m h lt z = record {
    count = tot;
    grows = omega arith;
    fits = lt;
    file = (h 0 (omega arith)).file;
    size = (h 0 (omega arith)).size;
    ends = inl (
      refl,
      elim ((h 0 (omega arith)).short) [ inl nz ↦ absurd (nz z) | inr (e, all) ↦ inr all ],
    );
    byte = λ x lx.
        byte_of_map sb ip fs (off / block_size) (x / block_size) (x % block_size) m
          (h (x / block_size) (omega arith));
    memory = λ a. inl (rw (nothing_within dst tot a) refl);
  }

  -- What one round copies: `k` bytes of the block that bmap found.
  round_memory :
      (off dst k a : ℕ) (ip : Inode) (fs : Fs) (mem : Memory) (m : Mapped)
      → ((i : ℕ) → i < max_file → IsMapped sb ip fs (off / block_size) i m)
      → off / block_size < max_file
      → k ≤ block_size - off % block_size
      → m.addr ≢ 0
      → place dst (λ i. (m.fs).disk m.addr (off % block_size + i)) k mem a
        ≡ (if within dst k a then byte_at ip fs (off + (a - dst)) else mem a)
  round_memory off dst k a ip fs mem m h lb lk nz = elim (Bool-cases (within dst k a)) [
    | inr out ↦ rw out refl
    | inl inside ↦ rw inside (here (ground arith))
  ]
    where
      bn : ℕ
      bn = off / block_size

      x : ℕ
      x = off + (a - dst)

      found : block_of m.inode m.fs bn ≡ m.addr
      found = (h bn lb).map ∙ (rw (==_self bn) refl)

      here : a - dst < k → (m.fs).disk m.addr (off % block_size + (a - dst)) ≡ byte_at ip fs x
      here lt =
          let e : x / block_size ≡ bn = omega arith in
          let d : off % block_size + (a - dst) ≡ x % block_size = omega arith in
          let there : block_byte (m.fs).disk m.addr (x % block_size)
              ≡ (m.fs).disk m.addr (x % block_size) =
            rw (ne→== m.addr 0 nz) refl in
          ap ((m.fs).disk m.addr) d
          ∙ sym there
          ∙ ap (λ b. block_byte (m.fs).disk b (x % block_size))
              (sym found ∙ ap (block_of m.inode m.fs) (sym e))
          ∙ byte_of_map sb ip fs bn (x / block_size) (x % block_size) m
              (h (x / block_size) (omega arith))

  join_ranges :
      (off dst tot k count a old : ℕ) (f : ℕ → ℕ)
      → tot + k ≤ count
      → (if within (dst + k) (count - (tot + k)) a
          then f (off + k + (a - (dst + k)))
          else if within dst k a
          then f (off + (a - dst))
          else old)
        ≡ (if within dst (count - tot) a then f (off + (a - dst)) else old)
  join_ranges off dst tot k count a old f h = elim (dec_lt a (dst + k)) [
    | yes low ↦ ground arith
    | no high ↦ rw (ap f (behind high)) (ground arith)
  ]
    where
      behind : ¬ (a < dst + k) → off + k + (a - (dst + k)) ≡ off + (a - dst)
      behind high = omega arith

  read_next :
      (tot off dst n k : ℕ) (ip : Inode) (fs : Fs) (mem mem' : Memory) (m : Mapped)
      → off + (n - tot) ≤ max_file * block_size
      → ((i : ℕ) → i < max_file → IsMapped sb ip fs (off / block_size) i m)
      → off / block_size < max_file
      → tot + k ≤ n
      → ((a : ℕ) → mem' a ≡ (if within dst k a then byte_at ip fs (off + (a - dst)) else mem a))
      → (r : Read) → IsRead (tot + k) (off + k) (dst + k) n m.inode m.fs mem' r
      → IsRead tot off dst n ip fs mem r
  read_next tot off dst n k ip fs mem mem' m lo h lb le copied r q = record {
    count = q.count;
    grows = omega (arith, q.grows);
    fits = q.fits;
    file = q.file;
    size = q.size ∙ (h 0 (omega arith)).size;
    ends = elim (q.ends) [
      | inl done ↦ inl done
      | inr (failed, bad) ↦ inr (failed, subst (Refuses copyout) behind bad)
    ];
    byte = λ x lx. q.byte x lx ∙ same x lx;
    memory = λ a. elim (q.memory a) [
      | inr (bad, inside) ↦ inr (
        subst (Refuses copyout) behind bad,
        subst (λ d. within d (n - q.count) a ≡ true) behind inside,
      )
      | inl e ↦ inl (
          e
          ∙ later a
          ∙ ap
              (λ v.
                if within (dst + k) (q.count - (tot + k)) a
                then byte_at ip fs (off + k + (a - (dst + k)))
                else v)
              (copied a)
          ∙ join_ranges off dst tot k q.count a (mem a) (byte_at ip fs) q.grows)
    ];
  }
    where
      behind : dst + k + (q.count - (tot + k)) ≡ dst + (q.count - tot)
      behind = omega (arith, q.grows)

      same : (x : ℕ) → x < max_file * block_size → byte_at m.inode m.fs x ≡ byte_at ip fs x
      same x lx =
          byte_of_map sb ip fs (off / block_size) (x / block_size) (x % block_size) m
            (h (x / block_size) (omega arith))

      bound :
          (a : ℕ)
          → within (dst + k) (q.count - (tot + k)) a ≡ true
          → off + k + (a - (dst + k)) < max_file * block_size
      bound a inside = ground (arith, q.fits, q.grows)

      later :
          (a : ℕ)
          → (if within (dst + k) (q.count - (tot + k)) a
              then byte_at m.inode m.fs (off + k + (a - (dst + k)))
              else mem' a)
            ≡ (if within (dst + k) (q.count - (tot + k)) a
                then byte_at ip fs (off + k + (a - (dst + k)))
                else mem' a)
      later a = elim (Bool-cases (within (dst + k) (q.count - (tot + k)) a)) [
        | inr out ↦ rw out refl
        | inl inside ↦ rw inside (same (off + k + (a - (dst + k))) (bound a inside))
      ]

  IsRead-fail :
      (tot off dst n k : ℕ) (ip : Inode) (fs : Fs) (mem mem' : Memory) (m : Mapped)
      → ((i : ℕ) → i < max_file → IsMapped sb ip fs (off / block_size) i m)
      → tot + k ≤ n
      → Refuses copyout dst
      → ((a : ℕ) → within dst k a ≡ false → mem' a ≡ mem a)
      → IsRead tot off dst n ip fs mem
          (record { result = none; inode = m.inode; fs = m.fs; memory = mem' })
  IsRead-fail tot off dst n k ip fs mem mem' m h le bad kept = record {
    count = tot;
    grows = omega arith;
    fits = omega arith;
    file = (h 0 (omega arith)).file;
    size = (h 0 (omega arith)).size;
    ends = inr (refl, there);
    byte = λ x lx.
        byte_of_map sb ip fs (off / block_size) (x / block_size) (x % block_size) m
          (h (x / block_size) (omega arith));
    memory = λ a. elim (Bool-cases (within dst k a)) [
      | inl inside ↦ inr (there, ground (arith, le))
      | inr out ↦ inl (rw (nothing_within dst tot a) (kept a out))
    ];
  }
    where
      there : Refuses copyout (dst + (tot - tot))
      there = subst (Refuses copyout) (omega arith) bad

  pub read_loop-IsRead :
      (fuel tot off dst n : ℕ) (ip : Inode) (fs : Fs) (mem : Memory)
      → n - tot < fuel
      → tot ≤ n
      → off + (n - tot) ≤ max_file * block_size
      → IsFile sb ip fs
      → (r : Read) × (read_loop sb copyout fuel tot off dst n ip fs mem ≡ ok r)
        × IsRead tot off dst n ip fs mem r
  unfolding read_loop
  read_loop-IsRead zero tot off dst n ip fs mem lf lt lo f = absurd (omega arith)
  read_loop-IsRead (suc fuel) tot off dst n ip fs mem lf lt lo f = elim (Bool-cases (ltb tot n)) [
    | inr done ↦ (
      record { result = some tot; inode = ip; fs = fs; memory = mem },
      rw done refl,
      record {
        count = tot;
        grows = omega arith;
        fits = lt;
        file = f;
        size = refl;
        ends = inl (refl, inl (omega (arith, ltb→ge tot n done)));
        byte = λ x lx. refl;
        memory = λ a. inl (rw (nothing_within dst tot a) refl);
      },
    )
    | inl more ↦
        let lt' : tot < n = ltb→lt tot n more in
        let b : (m : Mapped) × (bmap sb (off / block_size) ip fs ≡ ok m)
            × ((i : ℕ) → i < max_file → IsMapped sb ip fs (off / block_size) i m) =
          bmap_all sb (off / block_size) ip fs f (omega arith) in
        let m : Mapped = b.0 in
        let k : ℕ = min (n - tot) (block_size - off % block_size) in
        elim (Bool-cases (m.addr == 0)) [
          | inl z ↦ (
            record { result = some tot; inode = m.inode; fs = m.fs; memory = mem },
            rw (more, b.1, z) refl,
            IsRead-stop tot off dst n ip fs mem m b.2 lt (==→eq m.addr 0 z),
          )
          | inr nz ↦
              let bytes : Block = λ i. (m.fs).disk m.addr (off % block_size + i) in
              elim (Bool-cases (copyout dst bytes k mem).1) [
                | inr bad ↦
                    let mem' : Memory = (copyout dst bytes k mem).0 in
                    (
                      record { result = none; inode = m.inode; fs = m.fs; memory = mem' },
                      rw (more, b.1, nz, bad) refl,
                      IsRead-fail tot off dst n k ip fs mem mem' m b.2 (omega arith)
                          (record { bytes = bytes; m = k; mem = mem; failed = bad })
                          (λ a out. law.fails dst bytes k mem a bad out),
                    )
                | inl good ↦
                    let mem' : Memory = place dst bytes k mem in
                    let small : u32 (off + k) ≡ off + k = omega arith in
                    let ih : (r : Read) × (read_loop sb copyout fuel (tot + k) (off + k) (dst + k) n
                            m.inode m.fs mem'
                          ≡ ok r)
                        × IsRead (tot + k) (off + k) (dst + k) n m.inode m.fs mem' r =
                      read_loop-IsRead fuel (tot + k) (off + k) (dst + k) n m.inode m.fs mem'
                        (omega arith) (omega arith) (omega arith) (b.2 0 (omega arith)).file in
                    (
                      ih.0,
                      rw (more, b.1, nz, good, law.copies dst bytes k mem good)
                          (subst
                            (λ o.
                              read_loop sb copyout fuel (tot + k) o (dst + k) n m.inode m.fs mem'
                              ≡ ok ih.0)
                            (sym small) ih.1),
                      read_next tot off dst n k ip fs mem mem' m lo b.2 (omega arith) (omega arith)
                          (λ a.
                            round_memory off dst k a ip fs mem m b.2 (omega arith) (omega arith)
                              (==→ne m.addr 0 nz))
                          ih.0 ih.2,
                    )
              ]
        ]
  ]
