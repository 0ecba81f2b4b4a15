-- ===== src/FileSystem/Content.antt =====
-- kernel/fs.c: the content of a file; bmap, itrunc, readi and writei.
pub mod Map
pub mod Bmap
pub mod Bytes
pub mod Writing
pub mod Reading
pub mod Whole
pub mod Roundtrip
use csse332_project.Base.{
  ℕ, zero, suc, ◌+◌, ◌-◌, ◌*◌, ◌/◌, ◌%◌, min, Bool, true, false, not, ◌&&◌, ◌||◌, Option, none,
  some, ◌==◌, ltb, leb, if◌then◌else◌, update, u32, Outcome, ok, panic, spin, ◌>>=◌,
}
use csse332_project.Strings.{Memory}
use csse332_project.FileSystem.{
  Block, Superblock, Fs, Inode, log_block, word, set_word, direct_count, indirect_count, max_file,
  block_size,
}
use csse332_project.FileSystem.Blocks.{balloc, bfree}
use csse332_project.FileSystem.Inodes.{iupdate}

-- A block number, with the inode and the file system after the call.
pub record Mapped : Type 0 where
  pub addr : ℕ
  pub inode : Inode
  pub fs : Fs

-- What readi leaves: the result, `none` for -1, and the memory that it copies to.
pub record Read : Type 0 where
  pub result : Option ℕ
  pub inode : Inode
  pub fs : Fs
  pub memory : Memory

-- What writei leaves; `result` is `none` for -1.
pub record Wrote : Type 0 where
  pub result : Option ℕ
  pub off : ℕ
  pub inode : Inode
  pub fs : Fs

module _ (sb : Superblock) where
  -- `ip->addrs[k]`, allocated if there is none.
  pub bmap_slot : (k : ℕ) → Inode → Fs → Mapped
  bmap_slot k ip fs =
      let r = balloc sb fs in
      if not (ip.addrs k == 0)
      then record { addr = ip.addrs k; inode = ip; fs = fs }
      else if r.1 == 0
      then record { addr = 0; inode = ip; fs = r.0 }
      else record { addr = r.1; inode = record ip { addrs = update ip.addrs k r.1 }; fs = r.0 }

  -- Word `k` of the indirect block `ind`, allocated if there is none. The buffer of `ind` was read
  -- before the call of balloc.
  pub bmap_word : (ind k : ℕ) → Fs → Fs × ℕ
  bmap_word ind k fs =
      let r = balloc sb fs in
      if not (word (fs.disk ind) k == 0)
      then (fs, word (fs.disk ind) k)
      else if r.1 == 0
      then (r.0, 0)
      else (log_block ind (set_word ((r.0).disk ind) k r.1) r.0, r.1)

  pub bmap : ℕ → Inode → Fs → Outcome Mapped
  bmap bn ip fs =
      let direct = bmap_slot bn ip fs in
      let ind = bmap_slot direct_count ip fs in
      let r = bmap_word ind.addr (bn - direct_count) ind.fs in
      if ltb bn direct_count
      then ok direct
      else if ltb (bn - direct_count) indirect_count
      then (if ind.addr == 0 then ok ind else ok (record ind { addr = r.1; fs = r.0 }))
      else panic "bmap: out of range"

  -- The first loop of itrunc.
  pub trunc_direct : (rounds i : ℕ) → Inode → Fs → Outcome (Inode × Fs)
  trunc_direct zero i ip fs = ok (ip, fs)
  trunc_direct (suc rounds) i ip fs =
      (if ip.addrs i == 0 then ok fs else bfree sb (ip.addrs i) fs) >>= λ fs'.
      trunc_direct rounds (i + 1) (record ip { addrs = update ip.addrs i 0 }) fs'

  -- The second, over the words of the indirect block.
  pub trunc_words : (rounds j : ℕ) → Block → Fs → Outcome Fs
  trunc_words zero j a fs = ok fs
  trunc_words (suc rounds) j a fs =
      (if word a j == 0 then ok fs else bfree sb (word a j) fs) >>= trunc_words rounds (j + 1) a

  pub itrunc : Inode → Fs → Outcome (Inode × Fs)
  itrunc ip fs = do
    (ip1, fs1) ← trunc_direct direct_count 0 ip fs
    let ind : ℕ = ip1.addrs direct_count
    fs2 ←
        if ind == 0
        then ok fs1
        else (trunc_words indirect_count 0 (fs1.disk ind) fs1 >>= bfree sb ind)
    let ip2 : Inode = record ip1 { addrs = update ip1.addrs direct_count 0; size = 0 }
    ok (ip2, iupdate sb ip2 fs2)

  -- `copyout dst bytes m` is `either_copyout` of `m` bytes, with whether it succeeds.
  module _ (copyout : (dst : ℕ) → Block → (m : ℕ) → Memory → Memory × Bool) where
    -- The loop of readi, on fuel: running out of it is `spin`.
    pub read_loop : (fuel tot off dst n : ℕ) → Inode → Fs → Memory → Outcome Read
    read_loop zero tot off dst n ip fs mem = spin
    read_loop (suc fuel) tot off dst n ip fs mem =
        let m = min (n - tot) (block_size - off % block_size) in
        let round : Outcome Read = do
          b ← bmap (off / block_size) ip fs
          let r : Memory × Bool = copyout dst (λ i. (b.fs).disk b.addr (off % block_size + i)) m mem
          let more : Outcome Read =
              read_loop fuel (tot + m) (u32 (off + m)) (dst + m) n b.inode b.fs (r.0)
          if b.addr == 0
              then ok (record { result = some tot; inode = b.inode; fs = b.fs; memory = mem })
              else if r.1
              then more
              else ok (record { result = none; inode = b.inode; fs = b.fs; memory = r.0 })
        in if ltb tot n
          then round
          else ok (record { result = some tot; inode = ip; fs = fs; memory = mem })

    pub readi : (dst off n : ℕ) → Inode → Fs → Memory → Outcome Read
    readi dst off n ip fs mem =
        let n' = if ltb ip.size (off + n) then ip.size - off else n in
        if ltb ip.size off || ltb (u32 (off + n)) off
        then ok (record { result = some 0; inode = ip; fs = fs; memory = mem })
        else read_loop (suc n') 0 off dst n' ip fs mem

  -- `copyin bytes o src m` is a block after `either_copyin` of `m` bytes to its byte `o`, with whether
  -- that succeeds.
  module _ (copyin : Block → (o src m : ℕ) → Block × Bool) where
    pub write_loop : (fuel tot off src n : ℕ) → Inode → Fs → Outcome Wrote
    write_loop zero tot off src n ip fs = spin
    write_loop (suc fuel) tot off src n ip fs =
        let m = min (n - tot) (block_size - off % block_size) in
        let round : Outcome Wrote = do
          b ← bmap (off / block_size) ip fs
          let r : Block × Bool = copyin ((b.fs).disk b.addr) (off % block_size) src m
          let more : Outcome Wrote =
              write_loop fuel (tot + m) (u32 (off + m)) (src + m) n b.inode
                (log_block b.addr (r.0) b.fs)
          if b.addr == 0
              then ok (record { result = some tot; off = off; inode = b.inode; fs = b.fs })
              else if r.1
              then more
              else ok (record {
                result = some tot;
                off = off;
                inode = b.inode;
                fs = record (b.fs) { disk = update (b.fs).disk b.addr (r.0) };
              })
        in if ltb tot n
          then round
          else ok (record { result = some tot; off = off; inode = ip; fs = fs })

    pub writei : (src off n : ℕ) → Inode → Fs → Outcome Wrote
    writei src off n ip fs =
        let written : Outcome Wrote = do
          w ← write_loop (suc n) 0 off src n ip fs
          let ip' : Inode =
              if ltb (w.inode).size w.off then record (w.inode) { size = w.off } else w.inode
          ok (record w { inode = ip'; fs = iupdate sb ip' w.fs })
        in if (ltb ip.size off || ltb (u32 (off + n)) off)
            || ltb (max_file * block_size) (u32 (off + n))
          then ok (record { result = none; off = off; inode = ip; fs = fs })
          else written
