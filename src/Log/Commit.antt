-- ===== src/Log/Commit.antt =====
-- `commit` of kernel/log.c under power failures, and the state from which it runs.
use csse332_project.Base.{
  ℕ, ◌+◌, ◌≤◌, ◌<◌, ◌≡◌, sym, ap, ◌∙◌, ◌≢◌, inl, inr, List, arith, update, update_self, update_ne,
  subst,
}
use csse332_project.Log.{Machine, Log, Block, initlog}
use csse332_project.Log.Writes.{
  replay, writes, Apart, replay-writes_in, replay-writes_out, find_index,
}
use csse332_project.Log.Loops.{Disjoint}
use csse332_project.Log.Recover.{
  IsHome, home-Disjoint, boot, head_n, head_entry, IsReadable, Recovered, initlog-Recovered,
}

-- The state in which `end_op` calls `commit`: the log in memory lists distinct home blocks, as many
-- as fit; the log on the disk is empty; a home block that is not listed is cached as on the disk.
pub record IsReady (m : Machine) : Type 0 where
  pub fits : m.log.lh.n < m.log.size
  pub homes : (i : ℕ) → i < m.log.lh.n → IsHome m.log.start m.log.size (m.log.lh.block i)
  pub apart : Apart m.log.lh.block m.log.lh.n
  pub clean : head_n m.log.start m.disk ≡ 0
  pub agree :
      (b : ℕ)
      → IsHome m.log.start m.log.size b
      → ((i : ℕ) → i < m.log.lh.n → m.log.lh.block i ≢ b)
      → m.mem b ≡ m.disk b

module _ (m : Machine) (r : IsReady m) where
  abbrev start : ℕ
  start = m.log.start

  abbrev size : ℕ
  size = m.log.size

  abbrev n : ℕ
  n = m.log.lh.n

  abbrev bl : ℕ → ℕ
  bl = m.log.lh.block

  abbrev v : ℕ → Block
  v t = m.mem (bl t)

  abbrev slot : ℕ → ℕ
  slot t = start + t + 1

  abbrev to_log : List (ℕ × Block)
  to_log = writes slot v 0 n

  abbrev to_home : ℕ → List (ℕ × Block)
  to_home j = writes bl v 0 j

  pub disjoint : Disjoint start bl n
  disjoint = home-Disjoint start size bl n r.fits r.homes

  pub slots-Apart : Apart slot (0 + n)
  slots-Apart i j lt hj e = omega arith

  -- A disk with an empty log and the home blocks `f`.
  pub record Holds (f : ℕ → Block) (d : ℕ → Block) : Type 0 where
    pub empty : head_n start d ≡ 0
    pub home : (b : ℕ) → IsHome start size b → d b ≡ f b

  -- A disk whose header lists the blocks, with their new contents in the log.
  pub record Committed (d : ℕ → Block) : Type 0 where
    pub count : head_n start d ≡ n
    pub entry : (i : ℕ) → i < n → head_entry start d i ≡ bl i
    pub logged : (t : ℕ) → t < n → d (slot t) ≡ v t
    pub others : (b : ℕ) → IsHome start size b → ((i : ℕ) → i < n → bl i ≢ b) → d b ≡ m.disk b

  -- After phase one, any part of it included, the disk holds the old contents.
  pub logging-Holds : (k : ℕ) → k ≤ n → Holds m.disk (replay (writes slot v 0 k) m.disk)
  logging-Holds k h = record {
    empty =
        ap (λ (b : Block). b 0)
          (replay-writes_out slot v 0 k m.disk start (λ t lo hi e. omega arith))
        ∙ r.clean;
    home = λ b hb. replay-writes_out slot v 0 k m.disk b (λ t lo hi e. omega (arith, r.fits, hb));
  }

  module _ (head : Block) (says : head 0 ≡ n) (lists : (i : ℕ) → i < n → head (i + 1) ≡ bl i) where
    abbrev headed : ℕ → Block
    headed = update (replay to_log m.disk) start head

    -- With the header written and `j` blocks installed the disk is committed.
    pub installing-Committed : (j : ℕ) → j ≤ n → Committed (replay (to_home j) headed)
    installing-Committed j h = record {
      count = ap (λ (b : Block). b 0) at_start ∙ says;
      entry = λ i hi. ap (λ (b : Block). b (i + 1)) at_start ∙ lists i hi;
      logged = λ t ht.
          replay-writes_out bl v 0 j headed (slot t) (λ i lo hi. disjoint i t (omega arith) ht)
          ∙ update_ne (replay to_log m.disk) start (slot t) head (omega arith)
          ∙ replay-writes_in slot v 0 n m.disk t (omega arith) (omega arith) slots-Apart;
      others = λ b hb out.
          replay-writes_out bl v 0 j headed b (λ i lo hi. out i (omega arith))
          ∙ update_ne (replay to_log m.disk) start b head (λ e. omega (arith, hb, r.fits))
          ∙ (logging-Holds n (omega arith)).home b hb;
    }
      where
        at_start : replay (to_home j) headed start ≡ head
        at_start =
            replay-writes_out bl v 0 j headed start
              (λ i lo hi e. omega (arith, r.homes i (omega arith)))
            ∙ update_self (replay to_log m.disk) start head

    -- With the header erased the disk holds the new contents.
    pub erased-Holds :
        (cleared : Block)
        → cleared 0 ≡ 0
        → Holds m.mem (update (replay (to_home n) headed) start cleared)
    erased-Holds cleared zero_n = record {
      empty =
          ap (λ (b : Block). b 0) (update_self (replay (to_home n) headed) start cleared) ∙ zero_n;
      home = λ b hb.
          update_ne (replay (to_home n) headed) start b cleared (λ e. omega (arith, hb, r.fits))
          ∙ elim (find_index bl n b) [
            | inl found ↦
                let t : ℕ = found.0 in
                ap (replay (to_home n) headed) (sym found.2)
                ∙ replay-writes_in bl v 0 n headed t (omega arith) (omega (arith, found.1))
                    (λ i j lt hj. r.apart i j lt (omega arith))
                ∙ ap m.mem found.2
            | inr out ↦
                (installing-Committed n (omega arith)).others b hb out ∙ sym (r.agree b hb out)
          ];
    }

  -- What recovery makes of such disks.
  pub recover-Holds :
      (f d : ℕ → Block) (lg : Log)
      → Holds f d
      → (b : ℕ) → IsHome start size b
      → (initlog start size (boot d lg)).disk b ≡ f b
  recover-Holds f d lg h b hb =
      (initlog-Recovered start size d lg (record {
        fits = omega (arith, h.empty, r.fits);
        homes = λ i lt. absurd (omega (arith, h.empty));
        apart = λ i j lt hj. absurd (omega (arith, h.empty));
      })).kept
        b hb (λ t lt. absurd (omega (arith, h.empty)))
      ∙ h.home b hb

  Committed-IsReadable : (d : ℕ → Block) → Committed d → IsReadable start size d
  Committed-IsReadable d c = record {
    fits = omega (arith, c.count, r.fits);
    homes = λ i lt.
        let h : i < n = omega (arith, c.count) in
        subst (IsHome start size) (sym (c.entry i h)) (r.homes i h);
    apart = λ i j lt hj.
        let h : j < n = omega (arith, c.count) in
        λ e. r.apart i j lt h (sym (c.entry i (omega arith)) ∙ e ∙ c.entry j h);
  }

  pub recover-Committed :
      (d : ℕ → Block) (lg : Log)
      → Committed d
      → (b : ℕ) → IsHome start size b
      → (initlog start size (boot d lg)).disk b ≡ m.mem b
  recover-Committed d lg c b hb = elim (find_index bl n b) [
    | inl found ↦
        let t : ℕ = found.0 in
        let lt : t < n = found.1 in
        ap (initlog start size (boot d lg)).disk (sym found.2 ∙ sym (c.entry t lt))
        ∙ rec.from_log t (omega (arith, c.count, lt))
        ∙ c.logged t lt
        ∙ ap m.mem found.2
    | inr out ↦
        rec.kept b hb
          (λ t lt e. let h : t < n = omega (arith, c.count) in out t h (sym (c.entry t h) ∙ e))
        ∙ c.others b hb out
        ∙ sym (r.agree b hb out)
  ]
    where
      rec : Recovered start size d (initlog start size (boot d lg)).disk
      rec = initlog-Recovered start size d lg (Committed-IsReadable d c)
