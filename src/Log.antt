-- ===== src/Log.antt =====
-- kernel/log.c. The log reads and writes blocks through the buffer cache (kernel/bio.c), which
-- stands here at its contract: `mem b` is what `bread` returns for block `b`, the cached copy or,
-- where none was made, the disk's; a change of the buffer changes `mem`, `bwrite` copies it to the
-- disk. A block is its 256 words; a disk write of one block is atomic. There is one device.
pub mod Writes
pub mod Loops
pub mod Recover
pub mod Commit
pub mod Atomic
pub mod Absorb
pub mod Reserve
mod Tests
use csse332_project.Base.{
  ℕ, zero, suc, ◌+◌, ◌-◌, ◌*◌, ◌^◌, Bool, true, false, ◌&&◌, ◌||◌, List, [], ◌∷◌, ◌++◌, ltb, leb,
  ◌==◌, if◌then◌else◌, update, u32, sub32, Outcome, ok, panic, ◌>>=◌,
}

abbrev pub log_size : ℕ
log_size = 30

abbrev pub max_op_blocks : ℕ
max_op_blocks = 10

abbrev pub Block : Type 0
Block = ℕ → ℕ

-- `struct logheader`
pub record LogHeader : Type 0 where
  pub n : ℕ
  pub block : ℕ → ℕ

-- `struct log`. `outstanding` is the bit pattern of an `int`: below 0 it has its top bit.
pub record Log : Type 0 where
  pub start : ℕ
  pub size : ℕ
  pub outstanding : ℕ
  pub committing : Bool
  pub lh : LogHeader

-- `pins` is what `bpin` and `bunpin` add to the `refcnt` of a block's buffer; `trace` lists the
-- disk writes, oldest first.
pub record Machine : Type 0 where
  pub disk : ℕ → Block
  pub mem : ℕ → Block
  pub pins : ℕ → ℕ
  pub trace : List (ℕ × Block)
  pub log : Log

-- `bwrite` on the buffer of block `b`
abbrev pub bwrite : ℕ → Machine → Machine
bwrite b m = record m { disk = update m.disk b (m.mem b); trace = m.trace ++ (b, m.mem b) ∷ [] }

-- `memmove(to->data, from->data, BSIZE)`
abbrev pub copy_block : (to from : ℕ) → Machine → Machine
copy_block to from m = record m { mem = update m.mem to (m.mem from) }

abbrev pub bpin : ℕ → Machine → Machine
bpin b m = record m { pins = update m.pins b (m.pins b + 1) }

abbrev pub bunpin : ℕ → Machine → Machine
bunpin b m = record m { pins = update m.pins b (m.pins b - 1) }

abbrev pub set_n : ℕ → Machine → Machine
set_n k m = record m { log = record (m.log) { lh = record { n = k; block = m.log.lh.block } } }

-- One round of `install_trans`.
pub install_one : Bool → ℕ → Machine → Machine
install_one recovering tail m =
    let to = m.log.lh.block tail in
    let m' = bwrite to (copy_block to (m.log.start + tail + 1) m) in
    if recovering then m' else bunpin to m'

pub install_loop : Bool → (rounds tail : ℕ) → Machine → Machine
install_loop recovering zero tail m = m
install_loop recovering (suc rounds) tail m =
    install_loop recovering rounds (tail + 1) (install_one recovering tail m)

pub install_trans : Bool → Machine → Machine
install_trans recovering m = install_loop recovering m.log.lh.n 0 m

-- `log.lh.block[i] = lh->block[i]`: word 0 of the header block is `n`.
pub read_entries : (rounds i : ℕ) → Block → (ℕ → ℕ) → ℕ → ℕ
read_entries zero i buf block = block
read_entries (suc rounds) i buf block =
    read_entries rounds (i + 1) buf (update block i (buf (i + 1)))

pub read_head : Machine → Machine
read_head m =
    let buf = m.mem m.log.start in
    record m {
      log = record (m.log) {
        lh = record { n = buf 0; block = read_entries (buf 0) 0 buf m.log.lh.block };
      };
    }

-- `hb->block[i] = log.lh.block[i]`
pub write_entries : (rounds i : ℕ) → (ℕ → ℕ) → Block → Block
write_entries zero i block buf = buf
write_entries (suc rounds) i block buf =
    write_entries rounds (i + 1) block (update buf (i + 1) (block i))

abbrev pub new_head : LogHeader → Block → Block
new_head lh buf = write_entries lh.n 0 lh.block (update buf 0 lh.n)

pub write_head : Machine → Machine
write_head m =
    let s = m.log.start in
    bwrite s (record m { mem = update m.mem s (new_head m.log.lh (m.mem s)) })

pub recover_from_log : Machine → Machine
recover_from_log m = write_head (set_n 0 (install_trans true (read_head m)))

-- `sizeof(struct logheader)` is 124, below BSIZE, so the first test never panics.
pub initlog : (logstart nlog : ℕ) → Machine → Machine
initlog logstart nlog m =
    recover_from_log (record m { log = record (m.log) { start = logstart; size = nlog } })

-- One round of `write_log`.
pub write_one : ℕ → Machine → Machine
write_one tail m =
    let to = m.log.start + tail + 1 in bwrite to (copy_block to (m.log.lh.block tail) m)

pub write_loop : (rounds tail : ℕ) → Machine → Machine
write_loop zero tail m = m
write_loop (suc rounds) tail m = write_loop rounds (tail + 1) (write_one tail m)

pub write_log : Machine → Machine
write_log m = write_loop m.log.lh.n 0 m

pub commit : Machine → Machine
commit m =
    if ltb 0 m.log.lh.n
    then write_head (set_n 0 (install_trans false (write_head (write_log m))))
    else m

-- The index at which the loop of `log_write` stops.
pub find_block : (rounds i : ℕ) → (ℕ → ℕ) → ℕ → ℕ
find_block zero i block b = i
find_block (suc rounds) i block b =
    let later = find_block rounds (i + 1) block b in if block i == b then i else later

-- `log_write` on the buffer of block `b`.
pub log_write : ℕ → Machine → Outcome Machine
log_write b m =
    let lh = m.log.lh in
    let i = find_block lh.n 0 lh.block b in
    let block = update lh.block i b in
    if leb log_size lh.n || leb (m.log.size - 1) lh.n
    then panic "too big a transaction"
    else if ltb m.log.outstanding 1 || leb (2 ^ 31) m.log.outstanding
    then panic "log_write outside of trans"
    else if i == lh.n
    then ok
        (bpin b (record m { log = record (m.log) { lh = record { n = lh.n + 1; block = block } } }))
    else ok (record m { log = record (m.log) { lh = record { n = lh.n; block = block } } })

-- `begin_op` under `log.lock`: either it sleeps, or it has begun.
pub data Begun : Type 0 where
  waits : Begun
  began : Machine → Begun

pub begin_op : Machine → Begun
begin_op m =
    let more = u32 (m.log.outstanding + 1) in
    if m.log.committing
    then waits
    else if ltb more (2 ^ 31) && ltb log_size (m.log.lh.n + more * max_op_blocks)
    then waits
    else began (record m { log = record (m.log) { outstanding = more } })

-- The first critical section of `end_op`; the flag is `do_commit`.
pub end_op_first : Machine → Outcome (Machine × Bool)
end_op_first m =
    let less = record (m.log) { outstanding = sub32 m.log.outstanding 1 } in
    if m.log.committing
    then panic "log.committing"
    else if less.outstanding == 0
    then ok (record m { log = record less { committing = true } }, true)
    else ok (record m { log = less }, false)

-- The second one, after `commit`.
abbrev pub end_op_last : Machine → Machine
end_op_last m = record m { log = record (m.log) { committing = false } }

-- `end_op` of a system call that no other interrupts.
pub end_op : Machine → Outcome Machine
end_op m = do
  (m', do_commit) ← end_op_first m
  ok (if do_commit then end_op_last (commit m') else m')
