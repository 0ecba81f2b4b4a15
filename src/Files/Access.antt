-- ===== src/Files/Access.antt =====
-- kernel/file.c: fileclose, filestat, fileread and filewrite on the pipes and the file system.
use csse332_project.Base.{
  ℕ, zero, suc, ◌+◌, ◌-◌, ◌*◌, ◌/◌, min, Bool, false, not, ◌||◌, Option, none, some, List, ◌∷◌,
  ◌==◌, ltb, leb, if◌then◌else◌, set, u32, update, Outcome, ok, panic, spin, fault, ◌>>=◌,
}
use csse332_project.Strings.{Memory}
use csse332_project.Pipe.{Pipe, pipeclose}
use csse332_project.FileSystem.{Block, Superblock, block_size}
use csse332_project.FileSystem.Inodes.{Stat, stati}
use csse332_project.FileSystem.Content.{readi, writei}
use csse332_project.FileSystem.Table.{Tree, fetch, put, ilock, iunlock, iput}
use csse332_project.Files.{File, fd_none, fd_pipe, fd_inode, fd_device, get_file, drop_file}
use csse332_project.Log.{max_op_blocks}

-- The calls of begin_op and end_op.
pub data LogCall : Type 0 where
  begins ends : LogCall

-- The files, the pipes, the inodes, and the calls of the log, the latest first. A pipe whose page
-- is free is none.
pub record World : Type 0 where
  pub files : List File
  pub pipes : ℕ → Option Pipe
  pub tree : Tree
  pub calls : List LogCall

-- Who reads and writes: the rest of the call is piperead or pipewrite of a pipe, or a function of a
-- device, or it has returned, with none for -1.
pub data Answer : Type 0 where
  on_pipe : ℕ → Answer
  on_device : ℕ → Answer
  returned : Option ℕ → Answer

abbrev pub call_log : LogCall → World → World
call_log c w = record w { calls = c ∷ w.calls }

-- `NDEV`
abbrev pub device_count : ℕ
device_count = 10

-- pipeclose on the pipe of a file.
pub close_pipe : (pipe : ℕ) → (writable : Bool) → World → Outcome World
close_pipe pipe writable w = elim (w.pipes pipe) [
  | none ↦ fault
  | some p ↦
      let c = pipeclose p writable in
      ok (record w { pipes = update w.pipes pipe (if c.freed then none else some c.pipe) })
]

module _ (sb : Superblock) (pid : ℕ) where
  -- What fileclose does with the file whose last reference is gone.
  pub release_file : File → World → Outcome World
  release_file ff w =
      let put_inode : Outcome World =
        (iput sb pid ff.ip w.tree >>= λ t.
        ok (call_log ends (record (call_log begins w) { tree = t }))) in
      elim (ff.type) [
        | fd_none ↦ ok w
        | fd_pipe ↦ close_pipe ff.pipe ff.writable w
        | fd_inode ↦ put_inode
        | fd_device ↦ put_inode
      ]

  pub fileclose : ℕ → World → Outcome World
  fileclose i w = drop_file i w.files >>= λ (files, last).
      let w' = record w { files = files } in
      elim last [ none ↦ ok w' | some ff ↦ release_file ff w' ]

  -- `copyout_stat` tells whether copyout of the struct to user memory succeeds. false is -1.
  pub filestat : (copyout_stat : Stat → Bool) → ℕ → World → Outcome (World × Bool)
  filestat copyout_stat i w = get_file i w.files >>= λ f.
      let stat_inode : Outcome (World × Bool) = do
        t1 ← ilock sb pid f.ip w.tree
        ip ← fetch f.ip t1
        t2 ← iunlock sb pid f.ip t1
        ok (record w { tree = t2 }, copyout_stat (stati ip))
      in elim (f.type) [
        | fd_none ↦ ok (w, false)
        | fd_pipe ↦ ok (w, false)
        | fd_inode ↦ stat_inode
        | fd_device ↦ stat_inode
      ]

  -- `has_read` tells which devices have a function to read; user memory is `mem`.
  module _ (copyout : (dst : ℕ) → Block → (m : ℕ) → Memory → Memory × Bool)
      (has_read : ℕ → Bool) where
    -- The branch of fileread on an inode.
    pub read_inode_file :
        (i addr n : ℕ) → File → World → Memory → Outcome (World × Memory × Option ℕ)
    read_inode_file i addr n f w mem = do
      t1 ← ilock sb pid f.ip w.tree
      ip ← fetch f.ip t1
      r ← readi sb copyout addr f.off n ip t1.fs mem
      let f' : File = elim (r.result) [ none ↦ f | some c ↦ record f { off = u32 (f.off + c) } ]
      t2 ← iunlock sb pid f.ip (put f.ip r.inode (record t1 { fs = r.fs }))
      ok (record w { files = set w.files i f'; tree = t2 }, r.memory, r.result)

    pub fileread : (i addr n : ℕ) → World → Memory → Outcome (World × Memory × Answer)
    fileread i addr n w mem = get_file i w.files >>= λ f.
        let on_type : Outcome (World × Memory × Answer) = elim (f.type) [
          | fd_none ↦ panic "fileread"
          | fd_pipe ↦ ok (w, mem, on_pipe f.pipe)
          | fd_device ↦
              if leb device_count f.major || not (has_read f.major)
              then ok (w, mem, returned none)
              else ok (w, mem, on_device f.major)
          | fd_inode ↦
              read_inode_file i addr n f w mem >>= λ (w', mem', r). ok (w', mem', returned r)
        ] in
        if f.readable then on_type else ok (w, mem, returned none)

  -- `max`, what one transaction writes at most.
  abbrev pub max_write : ℕ
  max_write = (max_op_blocks - 1 - 1 - 2) / 2 * block_size

  module _ (copyin : Block → (o src m : ℕ) → Block × Bool) (has_write : ℕ → Bool) where
    -- One transaction of filewrite: writei of `n` bytes, with its result.
    pub write_some : (i src n : ℕ) → World → Outcome (World × Option ℕ)
    write_some i src n w = do
      f ← get_file i w.files
      t1 ← ilock sb pid f.ip w.tree
      ip ← fetch f.ip t1
      r ← writei sb copyin src f.off n ip t1.fs
      let f' : File = elim (r.result) [ none ↦ f | some c ↦ record f { off = u32 (f.off + c) } ]
      t2 ← iunlock sb pid f.ip (put f.ip r.inode (record t1 { fs = r.fs }))
      ok (
        record w { files = set w.files i f'; tree = t2; calls = ends ∷ begins ∷ w.calls },
        r.result,
      )

    -- The loop with `done` bytes written, on fuel: what `i` is at its end.
    pub write_rounds : (fuel done i addr n : ℕ) → World → Outcome (World × ℕ)
    write_rounds zero done i addr n w = spin
    write_rounds (suc fuel) done i addr n w =
        let n1 = min (n - done) max_write in
        let round : Outcome (World × ℕ) =
          (write_some i (addr + done) n1 w >>= λ (w', r). elim r [
            | none ↦ ok (w', done)
            | some c ↦
                let more = write_rounds fuel (done + c) i addr n w' in
                if c == n1 then more else ok (w', done)
          ]) in
        if ltb done n then round else ok (w, done)

    -- `n` is not negative.
    pub filewrite : (i addr n : ℕ) → World → Outcome (World × Answer)
    filewrite i addr n w = get_file i w.files >>= λ f.
        let on_type : Outcome (World × Answer) = elim (f.type) [
          | fd_none ↦ panic "filewrite"
          | fd_pipe ↦ ok (w, on_pipe f.pipe)
          | fd_device ↦
              if leb device_count f.major || not (has_write f.major)
              then ok (w, returned none)
              else ok (w, on_device f.major)
          | fd_inode ↦ write_rounds (suc n) 0 i addr n w >>= λ (w', done).
              ok (w', returned (if done == n then some n else none))
        ] in
        if f.writable then on_type else ok (w, returned none)
