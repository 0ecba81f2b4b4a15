-- ===== src/Log/Recover.antt =====
-- What `initlog` makes of a disk, whatever state the machine stopped in.
use csse332_project.Base.{
  ℕ, ◌+◌, ◌≤◌, ◌<◌, ◌≡◌, refl, sym, ap, ◌∙◌, ◌≢◌, ◌⊎◌, true, [], arith, update, update_self,
  update_ne, subst,
}
use csse332_project.Log.{
  Machine, Log, Block, read_head, install_trans, write_head, recover_from_log, initlog, set_n,
  read_entries, new_head, install_loop,
}
use csse332_project.Log.Writes.{replay, writes, Apart, replay-writes_in, replay-writes_out}
use csse332_project.Log.Loops.{Did, Disjoint, install_loop-Did, read_entries_lem, new_head_words}

-- Blocks outside the `nlog` blocks of the log, of which the header is the first.
abbrev pub IsHome : (start nlog b : ℕ) → Type 0
IsHome start nlog b = (b < start) ⊎ (start + nlog ≤ b)

pub home-Disjoint :
    (start nlog : ℕ) (bl : ℕ → ℕ) (n : ℕ)
    → n < nlog
    → ((i : ℕ) → i < n → IsHome start nlog (bl i))
    → Disjoint start bl n
home-Disjoint start nlog bl n h home i j hi hj e = omega (arith, home i hi)

-- The machine after a power failure that left the disk `d`: the cache is empty, and so reads the
-- disk. What the log's variables hold does not matter.
abbrev pub boot : (ℕ → Block) → Log → Machine
boot d lg = record { disk = d; mem = d; pins = λ _. 0; trace = []; log = lg }

-- What the header block on a disk says.
abbrev pub head_n : ℕ → (ℕ → Block) → ℕ
head_n start d = d start 0

abbrev pub head_entry : ℕ → (ℕ → Block) → ℕ → ℕ
head_entry start d i = d start (i + 1)

-- A log that recovery can read: its entries are distinct home blocks, as many as fit.
pub record IsReadable (start nlog : ℕ) (d : ℕ → Block) : Type 0 where
  pub fits : head_n start d < nlog
  pub homes : (i : ℕ) → i < head_n start d → IsHome start nlog (head_entry start d i)
  pub apart : Apart (head_entry start d) (head_n start d)

-- The home blocks after recovery: those that the header lists come from the log, the rest stay.
pub record Recovered (start nlog : ℕ) (d d' : ℕ → Block) : Type 0 where
  pub cleared : head_n start d' ≡ 0
  pub from_log : (t : ℕ) → t < head_n start d → d' (head_entry start d t) ≡ d (start + t + 1)
  pub kept :
      (b : ℕ)
      → IsHome start nlog b
      → ((t : ℕ) → t < head_n start d → head_entry start d t ≢ b)
      → d' b ≡ d b

module _ (start nlog : ℕ) (d : ℕ → Block) (lg : Log) (r : IsReadable start nlog d) where
  abbrev n : ℕ
  n = head_n start d

  abbrev entries : ℕ → ℕ
  entries = read_entries n 0 (d start) lg.lh.block

  abbrev v : ℕ → Block
  v t = d (start + t + 1)

  abbrev opened : Machine
  opened = record {
    disk = d;
    mem = d;
    pins = λ _. 0;
    trace = [];
    log = record {
      start = start;
      size = nlog;
      outstanding = lg.outstanding;
      committing = lg.committing;
      lh = record { n = n; block = entries };
    };
  }

  entry : (t : ℕ) → t < n → entries t ≡ head_entry start d t
  entry t h = read_entries_lem n 0 (d start) lg.lh.block t (omega arith) (omega arith)

  entries-IsHome : (i : ℕ) → i < n → IsHome start nlog (entries i)
  entries-IsHome i h = subst (IsHome start nlog) (sym (entry i h)) (r.homes i h)

  entries-Apart : Apart entries (0 + n)
  entries-Apart i j lt hj =
      let hj' : j < n = omega arith in
      λ e. r.apart i j lt hj' (sym (entry i (omega arith)) ∙ e ∙ entry j hj')

  installed : Machine
  installed = install_loop true n 0 opened

  installed-Did : Did opened (writes entries v 0 n) installed
  unfolding installed
  installed-Did =
      install_loop-Did start entries v n (home-Disjoint start nlog entries n r.fits entries-IsHome)
        true n 0 opened (omega arith) (record { start_eq = refl; block_eq = refl })
        (λ t lo hi. refl)

  final : Machine
  final = write_head (set_n 0 installed)

  initlog-final : initlog start nlog (boot d lg) ≡ final
  unfolding initlog recover_from_log read_head install_trans final installed
  initlog-final = refl

  final_start : installed.log.start ≡ start
  final_start = ap (λ l. l.start) installed-Did.log

  final_home : (b : ℕ) → IsHome start nlog b → final.disk b ≡ installed.disk b
  unfolding final write_head
  final_home b h =
      update_ne installed.disk installed.log.start b _ (λ e. omega (arith, final_start, r.fits, h))

  final_head : head_n start final.disk ≡ 0
  unfolding final write_head
  final_head =
      let at : ℕ = installed.log.start in
      let head : Block = new_head (set_n 0 installed).log.lh (installed.mem at) in
      subst (λ s. update installed.disk at (update installed.mem at head at) s 0 ≡ 0) final_start
        (ap (λ (f : Block). f 0)
            (update_self installed.disk at (update installed.mem at head at)
              ∙ update_self installed.mem at head)
          ∙ (new_head_words 0 installed.log.lh.block (installed.mem at)).0)

  final-Recovered : Recovered start nlog d final.disk
  final-Recovered = record {
    cleared = final_head;
    from_log = λ t h.
        final_home (head_entry start d t) (r.homes t h)
        ∙ ap (λ f. f (head_entry start d t)) installed-Did.disk
        ∙ ap (replay (writes entries v 0 n) d) (sym (entry t h))
        ∙ replay-writes_in entries v 0 n d t (omega arith) (omega arith) entries-Apart;
    kept = λ b home out.
        final_home b home
        ∙ ap (λ f. f b) installed-Did.disk
        ∙ replay-writes_out entries v 0 n d b
            (λ t lo hi e. let h : t < n = omega arith in out t h (sym (entry t h) ∙ e));
  }

  -- `initlog` copies the blocks that the header lists from the log to their homes, leaves all other
  -- home blocks alone, and clears the log, if the header lists distinct home blocks.
  pub initlog-Recovered : Recovered start nlog d (initlog start nlog (boot d lg)).disk
  initlog-Recovered = subst (λ m. Recovered start nlog d m.disk) (sym initlog-final) final-Recovered
