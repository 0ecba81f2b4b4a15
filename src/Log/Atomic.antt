-- ===== src/Log/Atomic.antt =====
-- The disk writes of `commit` in order, and the theorem on power failures.
use csse332_project.Base.{
  ℕ, zero, suc, ◌+◌, ◌-◌, ◌≤◌, ◌<◌, ◌≡◌, refl, sym, ap, ap₂, ◌∙◌, Bool, true, false, List, [], ◌∷◌,
  ◌++◌, arith, update, update_self, update_ne, subst, take, append_assoc, lt→ltb, ge→ltb, dec_lt,
  leb, leb_of_le, leb_of_lt, if◌then◌else◌,
}
use csse332_project.Log.{
  Machine, Log, Block, write_log, write_loop, install_trans, install_loop, write_head, set_n,
  commit, new_head, initlog,
}
use csse332_project.Log.Writes.{
  replay, replay-append, writes, replay-writes_in, length-writes, take-writes, take-append_of_le,
  take-append_of_ge,
}
use csse332_project.Log.Loops.{Did, install_loop-Did, write_loop-Did, new_head_words}
use csse332_project.Log.Recover.{IsHome, boot}
use csse332_project.Log.Commit.{
  IsReady, Holds, Committed, logging-Holds, installing-Committed, erased-Holds, recover-Holds,
  recover-Committed, disjoint, slots-Apart,
}

-- The header that `write_head` writes, and what it leaves.
abbrev head_of : Machine → Block
head_of x = new_head x.log.lh (x.mem x.log.start)

write_head_trace : (x : Machine) → (write_head x).trace ≡ x.trace ++ (x.log.start, head_of x) ∷ []
unfolding write_head
write_head_trace x =
    ap (λ b. x.trace ++ (x.log.start, b) ∷ []) (update_self x.mem x.log.start (head_of x))

write_head_mem : (x : Machine) → (write_head x).mem ≡ update x.mem x.log.start (head_of x)
unfolding write_head
write_head_mem x = refl

write_head_log : (x : Machine) → (write_head x).log ≡ x.log
unfolding write_head
write_head_log x = refl

module _ (m : Machine) (r : IsReady m) where
  abbrev start : ℕ
  start = m.log.start

  abbrev n : ℕ
  n = m.log.lh.n

  abbrev bl : ℕ → ℕ
  bl = m.log.lh.block

  abbrev v : ℕ → Block
  v t = m.mem (bl t)

  abbrev slot : ℕ → ℕ
  slot t = start + t + 1

  -- The machine after each of the four steps.
  logged : Machine
  logged = write_loop n 0 m

  headed : Machine
  headed = write_head logged

  installed : Machine
  installed = install_loop false n 0 headed

  done : Machine
  done = write_head (set_n 0 installed)

  logged-Did : Did m (writes slot v 0 n) logged
  unfolding logged
  logged-Did =
      write_loop-Did start bl v n (disjoint m r) n 0 m (omega arith)
        (record { start_eq = refl; block_eq = refl }) (λ t h. refl)

  headed_log : headed.log ≡ m.log
  unfolding headed
  headed_log = write_head_log logged ∙ logged-Did.log

  logged_slot : (t : ℕ) → t < n → logged.mem (slot t) ≡ v t
  logged_slot t h =
      ap (λ f. f (slot t)) logged-Did.mem
      ∙ replay-writes_in slot v 0 n m.mem t (omega arith) (omega arith) (slots-Apart m r)

  installed-Did : Did headed (writes bl v 0 n) installed
  unfolding headed installed
  installed-Did =
      install_loop-Did start bl v n (disjoint m r) false n 0 headed (omega arith)
        (record {
          start_eq = ap (λ l. l.start) headed_log;
          block_eq = ap (λ l. l.lh.block) headed_log;
        })
        (λ t lo h.
          ap (λ f. f (slot t)) (write_head_mem logged)
          ∙ update_ne logged.mem logged.log.start (slot t) (head_of logged)
              (λ e. omega (arith, ap (λ l. l.start) logged-Did.log))
          ∙ logged_slot t h)

  commit-done : 0 < n → commit m ≡ done
  unfolding commit write_log install_trans done installed headed logged
  commit-done h =
      rw (lt→ltb 0 n h) (
        ap (λ k. write_head (set_n 0 (install_loop false k 0 headed)))
          (ap (λ l. l.lh.n) headed_log))

  abbrev head : Block
  head = head_of logged

  abbrev cleared : Block
  cleared = head_of (set_n 0 installed)

  -- The disk writes of a commit: the log, the header, the homes, the erased header.
  abbrev all_writes : List (ℕ × Block)
  all_writes = writes slot v 0 n ++ ((start, head) ∷ (writes bl v 0 n ++ ((start, cleared) ∷ [])))

  installed_start : installed.log.start ≡ start
  installed_start = ap (λ l. l.start) (installed-Did.log ∙ headed_log)

  headed_trace : m.trace ≡ [] → headed.trace ≡ writes slot v 0 n ++ (start, head) ∷ []
  unfolding headed
  headed_trace e =
      write_head_trace logged
      ∙ ap₂ (λ l s. l ++ (s, head) ∷ []) (logged-Did.trace ∙ ap (λ l. l ++ writes slot v 0 n) e)
          (ap (λ l. l.start) logged-Did.log)

  done_trace : m.trace ≡ [] → done.trace ≡ all_writes
  unfolding done
  done_trace e =
      write_head_trace (set_n 0 installed)
      ∙ ap₂ (λ l s. l ++ (s, cleared) ∷ [])
          (installed-Did.trace ∙ ap (λ l. l ++ writes bl v 0 n) (headed_trace e)) installed_start
      ∙ simp append_assoc

  head_says : head 0 ≡ n
  head_says =
      (new_head_words logged.log.lh.n logged.log.lh.block (logged.mem logged.log.start)).0
      ∙ ap (λ l. l.lh.n) logged-Did.log

  head_lists : (i : ℕ) → i < n → head (i + 1) ≡ bl i
  head_lists i h =
      (new_head_words logged.log.lh.n logged.log.lh.block (logged.mem logged.log.start)).1 i
        (omega (arith, ap (λ l. l.lh.n) logged-Did.log))
      ∙ ap (λ l. l.lh.block i) logged-Did.log

  cleared_says : cleared 0 ≡ 0
  cleared_says = (new_head_words 0 installed.log.lh.block (installed.mem installed.log.start)).0

  -- The disk where the power failed after `k` of the writes.
  abbrev cut : ℕ → ℕ → Block
  cut k = replay (take k all_writes) m.disk

  cut_early : (k : ℕ) → k ≤ n → Holds m r m.disk (cut k)
  cut_early k h =
      subst (λ ws. Holds m r m.disk (replay ws m.disk))
        (sym (
          take-append_of_le k (writes slot v 0 n) _ (omega (arith, length-writes slot v 0 n))
          ∙ take-writes slot v k 0 n h))
        (logging-Holds m r k h)

  -- The writes from the header on.
  abbrev later : List (ℕ × Block)
  later = writes bl v 0 n ++ ((start, cleared) ∷ [])

  cut_late :
      (j : ℕ)
      → cut (n + suc j)
        ≡ replay (take j later) (update (replay (writes slot v 0 n) m.disk) start head)
  unfolding replay
  cut_late j =
      ap (λ k. replay (take k all_writes) m.disk)
        (ap (λ k. k + suc j) (sym (length-writes slot v 0 n)))
      ∙ ap (λ ws. replay ws m.disk)
          (take-append_of_ge (suc j) (writes slot v 0 n) ((start, head) ∷ later))
      ∙ replay-append (writes slot v 0 n) ((start, head) ∷ take j later) m.disk

  cut_middle : (j : ℕ) → j ≤ n → Committed m r (cut (n + suc j))
  cut_middle j h =
      subst (Committed m r)
        (sym (
          cut_late j
          ∙ ap (λ ws. replay ws (update (replay (writes slot v 0 n) m.disk) start head))
              (take-append_of_le j (writes bl v 0 n) _ (omega (arith, length-writes bl v 0 n))
                ∙ take-writes bl v j 0 n h)))
        (installing-Committed m r head head_says head_lists j h)

  cut_end : (j : ℕ) → Holds m r m.mem (cut (n + suc (n + suc j)))
  unfolding replay
  cut_end j =
      subst (Holds m r m.mem)
        (sym (
          cut_late (n + suc j)
          ∙ ap (λ ws. replay ws (update (replay (writes slot v 0 n) m.disk) start head))
              (ap (λ k. take (k + suc j) later) (sym (length-writes bl v 0 n))
                ∙ take-append_of_ge (suc j) (writes bl v 0 n) ((start, cleared) ∷ []))
          ∙ replay-append (writes bl v 0 n) ((start, cleared) ∷ take j []) _
          ∙ nothing_more j))
        (erased-Holds m r head head_says head_lists cleared cleared_says)
    where
      nothing_more :
          (k : ℕ)
          → replay
              ((start, cleared) ∷ take k [])
              (replay (writes bl v 0 n) (update (replay (writes slot v 0 n) m.disk) start head))
            ≡ update
                (replay (writes bl v 0 n) (update (replay (writes slot v 0 n) m.disk) start head))
                start
                cleared
      nothing_more zero = refl
      nothing_more (suc k) = refl

  recovered_late :
      (j : ℕ) (lg : Log) (b : ℕ)
      → IsHome start m.log.size b
      → (initlog start m.log.size (boot (cut (n + suc j)) lg)).disk b ≡ m.mem b
  recovered_late j lg b hb = elim (dec_lt n j) [
    | no few ↦ recover-Committed m r (cut (n + suc j)) lg (cut_middle j (omega arith)) b hb
    | yes many ↦
        let e : n + suc (j - suc n) ≡ j = omega arith in
        subst (λ i. (initlog start m.log.size (boot (cut (n + suc i)) lg)).disk b ≡ m.mem b) e
          (recover-Holds m r m.mem (cut (n + suc (n + suc (j - suc n)))) lg (cut_end (j - suc n)) b
            hb)
  ]

  recovered_cut :
      (k : ℕ) (lg : Log) (b : ℕ)
      → IsHome start m.log.size b
      → (initlog start m.log.size (boot (cut k) lg)).disk b
        ≡ (if leb k n then m.disk b else m.mem b)
  recovered_cut k lg b hb = elim (dec_lt n k) [
    | no few ↦
        rw (leb_of_le k n (omega arith))
          (recover-Holds m r m.disk (cut k) lg (cut_early k (omega arith)) b hb)
    | yes many ↦
        let e : n + suc (k - suc n) ≡ k = omega arith in
        rw (leb_of_lt k n many) (
          subst (λ i. (initlog start m.log.size (boot (cut i) lg)).disk b ≡ m.mem b) e
            (recovered_late (k - suc n) lg b hb))
  ]

-- The disk where the power fails after `k` of the disk writes of `commit`.
pub crash_disk : Machine → ℕ → ℕ → Block
crash_disk m k = replay (take k (commit m).trace) m.disk

crash_disk-cut :
    (m : Machine) (r : IsReady m)
    → m.trace ≡ []
    → 0 < m.log.lh.n
    → (k : ℕ) → crash_disk m k ≡ cut m r k
unfolding crash_disk
crash_disk-cut m r e h k =
    ap (λ ws. replay (take k ws) m.disk) (ap (λ x. x.trace) (commit-done m r h) ∙ done_trace m r e)

take_nil : (k : ℕ) → take {A = ℕ × Block} k [] ≡ []
take_nil zero = refl
take_nil (suc k) = refl

crash_disk_nothing : (m : Machine) (k : ℕ) → m.trace ≡ [] → m.log.lh.n ≡ 0 → crash_disk m k ≡ m.disk
unfolding crash_disk commit replay
crash_disk_nothing m k e z = rw (ge→ltb 0 m.log.lh.n (omega arith), e, take_nil k)

-- `commit` is atomic. Wherever the power fails, after `k` of its disk writes, the `initlog` of the
-- next boot leaves every block outside the blocks of the log as it was on the disk before, if no
-- more than the `n` writes to the log were made, and as the cache had it, if the header was written
-- too. The state must be one in which `end_op` commits, and the writes counted from there.
pub commit_atomic :
    {m : Machine} (k : ℕ) (lg : Log) (b : ℕ)
    → IsReady m
    → m.trace ≡ []
    → IsHome m.log.start m.log.size b
    → (initlog m.log.start m.log.size (boot (crash_disk m k) lg)).disk b
      ≡ (if leb k m.log.lh.n then m.disk b else m.mem b)
commit_atomic {m} k lg b r e hb = elim (dec_lt 0 m.log.lh.n) [
  | yes some_blocks ↦
      subst
        (λ d.
          (initlog m.log.start m.log.size (boot d lg)).disk b
          ≡ (if leb k m.log.lh.n then m.disk b else m.mem b))
        (sym (crash_disk-cut m r e some_blocks k)) (recovered_cut m r k lg b hb)
  | no nothing ↦
      let same : m.mem b ≡ m.disk b = r.agree b hb (λ i lt. absurd (omega arith)) in
      subst
        (λ d.
          (initlog m.log.start m.log.size (boot d lg)).disk b
          ≡ (if leb k m.log.lh.n then m.disk b else m.mem b))
        (sym (crash_disk_nothing m k e (omega arith)))
        (recover-Holds m r m.disk m.disk lg (record { empty = r.clean; home = λ c hc. refl }) b hb
          ∙ both (leb k m.log.lh.n) same)
]
  where
    both : (t : Bool) → m.mem b ≡ m.disk b → m.disk b ≡ (if t then m.disk b else m.mem b)
    both true q = refl
    both false q = sym q
