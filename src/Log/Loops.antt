-- ===== src/Log/Loops.antt =====
-- What the loops of the log do: the two that copy blocks, and the two over the header's entries.
use csse332_project.Base.{
  ℕ, zero, suc, ◌+◌, ◌≤◌, ◌<◌, ◌≡◌, refl, sym, ap, ◌∙◌, ◌≢◌, subst, Bool, true, false, List, [],
  ◌∷◌, ◌++◌, append-nil, append_assoc, arith, update, update_self, update_ne, ℕ_discrete,
}
use csse332_project.Log.{
  Machine, Block, bwrite, copy_block, install_one, install_loop, write_one, write_loop,
  read_entries, write_entries,
}
use csse332_project.Log.Writes.{replay, writes}

-- The writes `ws` reached the disk and the cache alike, and nothing else changed but pins.
pub record Did (m : Machine) (ws : List (ℕ × Block)) (m' : Machine) : Type 0 where
  pub disk : m'.disk ≡ replay ws m.disk
  pub mem : m'.mem ≡ replay ws m.mem
  pub trace : m'.trace ≡ m.trace ++ ws
  pub log : m'.log ≡ m.log

no_writes : (m : Machine) → Did m [] m
unfolding replay
no_writes m = record { disk = refl; mem = refl; trace = sym (append-nil m.trace); log = refl }

more_writes :
    (m m' m'' : Machine) (b : ℕ) (v : Block) (ws : List (ℕ × Block))
    → Did m ((b, v) ∷ []) m'
    → Did m' ws m''
    → Did m ((b, v) ∷ ws) m''
unfolding replay
more_writes m m' m'' b v ws f g = record {
  disk = g.disk ∙ ap (replay ws) f.disk;
  mem = g.mem ∙ ap (replay ws) f.mem;
  trace = g.trace ∙ ap (λ l. l ++ ws) f.trace ∙ append_assoc m.trace ((b, v) ∷ []) ws;
  log = g.log ∙ f.log;
}

-- Copying block `from`, which holds `v`, to block `to`, and writing it.
move_block :
    (m : Machine) (to from : ℕ) (v : Block)
    → m.mem from ≡ v
    → Did m ((to, v) ∷ []) (bwrite to (copy_block to from m))
unfolding replay
move_block m to from v e = record {
  disk = ap (update m.disk to) (update_self m.mem to (m.mem from) ∙ e);
  mem = ap (update m.mem to) e;
  trace = ap (λ w. m.trace ++ (to, w) ∷ []) (update_self m.mem to (m.mem from) ∙ e);
  log = refl;
}

install_one-Did :
    (recovering : Bool) (m : Machine) (tail : ℕ) (v : Block)
    → m.mem (m.log.start + tail + 1) ≡ v
    → Did m ((m.log.lh.block tail, v) ∷ []) (install_one recovering tail m)
unfolding install_one replay
install_one-Did true m tail v e = move_block m (m.log.lh.block tail) (m.log.start + tail + 1) v e
install_one-Did false m tail v e =
    let d : Did m ((m.log.lh.block tail, v) ∷ []) (
        bwrite (m.log.lh.block tail)
          (copy_block (m.log.lh.block tail) (m.log.start + tail + 1) m)) =
      move_block m (m.log.lh.block tail) (m.log.start + tail + 1) v e in
    record { disk = d.disk; mem = d.mem; trace = d.trace; log = d.log }

write_one-Did :
    (m : Machine) (tail : ℕ) (v : Block)
    → m.mem (m.log.lh.block tail) ≡ v
    → Did m ((m.log.start + tail + 1, v) ∷ []) (write_one tail m)
unfolding write_one
write_one-Did m tail v e = move_block m (m.log.start + tail + 1) (m.log.lh.block tail) v e

-- The log's blocks `start + 1 …` and the home blocks `bl i` are different blocks.
abbrev pub Disjoint : (start : ℕ) (bl : ℕ → ℕ) (n : ℕ) → Type 0
Disjoint start bl n = (i j : ℕ) → i < n → j < n → bl i ≢ start + j + 1

-- One write elsewhere leaves a block.
left_alone :
    (m m' : Machine) (to b : ℕ) (v : Block) → Did m ((to, v) ∷ []) m' → to ≢ b → m'.mem b ≡ m.mem b
unfolding replay
left_alone m m' to b v d ne = ap (λ f. f b) d.mem ∙ update_ne m.mem to b v ne

-- `start` and `bl` are those of the machine's log.
pub record Uses (m : Machine) (start : ℕ) (bl : ℕ → ℕ) : Type 0 where
  pub start_eq : m.log.start ≡ start
  pub block_eq : m.log.lh.block ≡ bl

same_log :
    (m m' : Machine) (ws : List (ℕ × Block)) (start : ℕ) (bl : ℕ → ℕ)
    → Did m ws m'
    → Uses m start bl
    → Uses m' start bl
same_log m m' ws start bl d u = record {
  start_eq = ap (λ l. l.start) d.log ∙ u.start_eq;
  block_eq = ap (λ l. l.lh.block) d.log ∙ u.block_eq;
}

module _ (start : ℕ) (bl : ℕ → ℕ) (v : ℕ → Block) (n : ℕ) (apart : Disjoint start bl n) where
  abbrev slot : ℕ → ℕ
  slot t = start + t + 1

  -- From `tail` on the log's blocks hold the values `v`: installing writes these to their homes.
  pub install_loop-Did :
      (recovering : Bool) (rounds tail : ℕ) (m : Machine)
      → tail + rounds ≡ n
      → Uses m start bl
      → ((t : ℕ) → tail ≤ t → t < n → m.mem (slot t) ≡ v t)
      → Did m (writes bl v tail rounds) (install_loop recovering rounds tail m)
  unfolding install_loop writes
  install_loop-Did recovering zero tail m e u h = no_writes m
  install_loop-Did recovering (suc rounds) tail m e u h =
      more_writes m m' _ (bl tail) (v tail) _ first (
        install_loop-Did recovering rounds (tail + 1) m' (omega arith)
          (same_log m m' _ start bl first u)
          (λ t lo hi.
            left_alone m m' (bl tail) (slot t) (v tail) first (apart tail t (omega arith) hi)
            ∙ h t (omega arith) hi))
    where
      m' : Machine
      m' = install_one recovering tail m

      first : Did m ((bl tail, v tail) ∷ []) m'
      first =
          subst (λ b. Did m ((b, v tail) ∷ []) m') (ap (λ f. f tail) u.block_eq)
            (install_one-Did recovering m tail (v tail)
              (ap (λ s. m.mem (s + tail + 1)) u.start_eq ∙ h tail (omega arith) (omega arith)))

  -- The cache holds the values `v` for the home blocks: `write_log` copies these to the log.
  pub write_loop-Did :
      (rounds tail : ℕ) (m : Machine)
      → tail + rounds ≡ n
      → Uses m start bl
      → ((t : ℕ) → t < n → m.mem (bl t) ≡ v t)
      → Did m (writes slot v tail rounds) (write_loop rounds tail m)
  unfolding write_loop writes
  write_loop-Did zero tail m e u h = no_writes m
  write_loop-Did (suc rounds) tail m e u h = more_writes m m' _ (slot tail) (v tail) _ first (
      write_loop-Did rounds (tail + 1) m' (omega arith) (same_log m m' _ start bl first u) (λ t hi.
        left_alone m m' (slot tail) (bl t) (v tail) first
          (λ q. apart t tail hi (omega arith) (sym q))
        ∙ h t hi))
    where
      m' : Machine
      m' = write_one tail m

      first : Did m ((slot tail, v tail) ∷ []) m'
      first =
          subst (λ s. Did m ((s + tail + 1, v tail) ∷ []) m') u.start_eq
            (write_one-Did m tail (v tail)
              (ap (λ f. m.mem (f tail)) u.block_eq ∙ h tail (omega arith)))

-- `read_head` takes entry `i` from word `i + 1` of the block.
pub read_entries_lem :
    (rounds i : ℕ) (buf : Block) (block : ℕ → ℕ) (j : ℕ)
    → i ≤ j
    → j < i + rounds
    → read_entries rounds i buf block j ≡ buf (j + 1)
unfolding read_entries
read_entries_lem zero i buf block j lo hi = absurd (omega arith)
read_entries_lem (suc rounds) i buf block j lo hi = elim (ℕ_discrete i j) [
  | yes e ↦
      read_entries_out rounds (i + 1) buf (update block i (buf (i + 1))) j (omega arith)
      ∙ ap (λ k. update block k (buf (k + 1)) j) e
      ∙ update_self block j (buf (j + 1))
  | no ne ↦
      read_entries_lem rounds (i + 1) buf (update block i (buf (i + 1))) j (omega arith)
        (omega arith)
]
  where
    read_entries_out :
        (r k : ℕ) (b : Block) (f : ℕ → ℕ) (l : ℕ) → l < k → read_entries r k b f l ≡ f l
    read_entries_out zero k b f l h = refl
    read_entries_out (suc r) k b f l h =
        read_entries_out r (k + 1) b (update f k (b (k + 1))) l (omega arith)
        ∙ update_ne f k l (b (k + 1)) (omega arith)

write_entries_out :
    (rounds i : ℕ) (block : ℕ → ℕ) (buf : Block) (j : ℕ)
    → j ≤ i
    → write_entries rounds i block buf j ≡ buf j
unfolding write_entries
write_entries_out zero i block buf j h = refl
write_entries_out (suc rounds) i block buf j h =
    write_entries_out rounds (i + 1) block (update buf (i + 1) (block i)) j (omega arith)
    ∙ update_ne buf (i + 1) j (block i) (omega arith)

-- `write_head` puts entry `i` into word `i + 1`.
pub write_entries_lem :
    (rounds i : ℕ) (block : ℕ → ℕ) (buf : Block) (j : ℕ)
    → i ≤ j
    → j < i + rounds
    → write_entries rounds i block buf (j + 1) ≡ block j
unfolding write_entries
write_entries_lem zero i block buf j lo hi = absurd (omega arith)
write_entries_lem (suc rounds) i block buf j lo hi = elim (ℕ_discrete i j) [
  | yes e ↦
      write_entries_out rounds (i + 1) block (update buf (i + 1) (block i)) (j + 1) (omega arith)
      ∙ ap (λ k. update buf (k + 1) (block k) (j + 1)) e
      ∙ update_self buf (j + 1) (block j)
  | no ne ↦
      write_entries_lem rounds (i + 1) block (update buf (i + 1) (block i)) j (omega arith)
        (omega arith)
]

-- The header block that `write_head` makes says `n`, and lists the `n` entries.
pub new_head_words :
    (n : ℕ) (block : ℕ → ℕ) (buf : Block)
    → (write_entries n 0 block (update buf 0 n) 0 ≡ n)
      × ((i : ℕ) → i < n → write_entries n 0 block (update buf 0 n) (i + 1) ≡ block i)
new_head_words n block buf = (
  write_entries_out n 0 block (update buf 0 n) 0 (omega arith) ∙ update_self buf 0 n,
  λ i h. write_entries_lem n 0 block (update buf 0 n) i (omega arith) (omega arith),
)
