-- ===== src/Log/Reserve.antt =====
-- The reservation of log space by `begin_op` and `end_op` of kernel/log.c.
use csse332_project.Base.{
  ℕ, zero, suc, ◌+◌, ◌-◌, ◌*◌, ◌^◌, ◌≤◌, ◌<◌, ◌≡◌, ◌≢◌, ◌⊎◌, refl, ap, dec_lt, ne→==, panic, ◌∙◌,
  subst, inl, inr, Bool, true, false, ◌||◌, arith, List, [], ◌∷◌, ◌++◌, some, get_elem?, set,
  length, length-set, length-append, ltb, leb, ok, Bool-cases, sub32, All,
}
use csse332_project.Log.{
  Machine, Log, log_size, max_op_blocks, log_write, find_block, begin_op, began, end_op,
  end_op_first, commit, write_log, write_loop, write_one, write_head, install_trans, install_loop,
  install_one, set_n,
}
use csse332_project.Log.Absorb.{absorbed, log_write-ok, log_write_runs}

-- The log loops leave the log's variables alone, and a commit empties it.
write_loop_log : (rounds tail : ℕ) (m : Machine) → (write_loop rounds tail m).log ≡ m.log
unfolding write_loop write_one
write_loop_log zero tail m = refl
write_loop_log (suc rounds) tail m = write_loop_log rounds (tail + 1) (write_one tail m)

install_one_log :
    (recovering : Bool) (tail : ℕ) (m : Machine) → (install_one recovering tail m).log ≡ m.log
unfolding install_one
install_one_log true tail m = refl
install_one_log false tail m = refl

install_loop_log :
    (recovering : Bool) (rounds tail : ℕ) (m : Machine)
    → (install_loop recovering rounds tail m).log ≡ m.log
unfolding install_loop
install_loop_log recovering zero tail m = refl
install_loop_log recovering (suc rounds) tail m =
    install_loop_log recovering rounds (tail + 1) (install_one recovering tail m)
    ∙ install_one_log recovering tail m

-- The log after a commit: as before, with `n` 0.
commit_log : (m : Machine) → (commit m).log ≡ (set_n 0 m).log
unfolding commit write_log install_trans write_head
commit_log m = elim (Bool-cases (ltb 0 m.log.lh.n)) [
  | inl more ↦ rw more (
      ap (λ (l : Log). record l { lh = record { n = 0; block = l.lh.block } })
        (install_loop_log false _ 0 (write_head (write_log m)) ∙ write_loop_log m.log.lh.n 0 m))
  | inr nothing ↦ rw nothing (
      ap (λ (k : ℕ). record (m.log) { lh = record { n = k; block = m.log.lh.block } })
        (zero_n m.log.lh.n nothing))
]
  where
    zero_n : (k : ℕ) → ltb 0 k ≡ false → k ≡ 0
    zero_n k h = ground arith

abbrev pub sum : List ℕ → ℕ
sum [] = 0
sum (x ∷ xs) = x + sum xs

-- The machine, and how many more log writes each system call in progress may make.
pub record Running : Type 0 where
  pub machine : Machine
  pub left : List ℕ

-- System calls begin, write to the log within their budgets, and end; the last one to end commits. A
-- log write of a block that the log has already costs nothing.
pub data Step (s t : Running) : Type 0 where
  begin :
      (m : Machine)
      → begin_op s.machine ≡ began m
      → t ≡ record { machine = m; left = max_op_blocks ∷ s.left }
      → Step s t
  write :
      (b i k : ℕ) (m : Machine)
      → get_elem? s.left i ≡ some (suc k)
      → log_write b s.machine ≡ ok m
      → t ≡ record { machine = m; left = set s.left i k }
      → Step s t
  again :
      (b i k : ℕ) (m : Machine)
      → get_elem? s.left i ≡ some k
      → find_block s.machine.log.lh.n 0 s.machine.log.lh.block b ≢ s.machine.log.lh.n
      → log_write b s.machine ≡ ok m
      → t ≡ record { machine = m; left = s.left }
      → Step s t
  finish :
      (xs ys : List ℕ) (k : ℕ) (m : Machine)
      → s.left ≡ xs ++ k ∷ ys
      → end_op s.machine ≡ ok m
      → t ≡ record { machine = m; left = xs ++ ys }
      → Step s t

pub data Reach (s : Running) : Running → Type 0 where
  here : Reach s s
  next : {t u : Running} → Reach s t → Step t u → Reach s u

pub record IsReserved (s : Running) : Type 0 where
  pub idle : s.machine.log.committing ≡ false
  pub counted : s.machine.log.outstanding ≡ length s.left
  pub few : length s.left ≤ 3
  pub budgets : All (λ k. k ≤ max_op_blocks) s.left
  pub room : s.machine.log.lh.n + sum s.left ≤ log_size

sum-append : (xs ys : List ℕ) → sum (xs ++ ys) ≡ sum xs + sum ys
sum-append [] ys = omega arith
sum-append (x ∷ xs) ys = omega (arith, sum-append xs ys)

sum-le : (xs : List ℕ) → All (λ k. k ≤ max_op_blocks) xs → sum xs ≤ max_op_blocks * length xs
sum-le [] h = omega arith
sum-le (x ∷ xs) h = omega (arith, sum-le xs h.1)

sum-set : (xs : List ℕ) (i k : ℕ) → get_elem? xs i ≡ some (suc k) → sum (set xs i k) + 1 ≡ sum xs
sum-set [] i k e = cc
sum-set (x ∷ xs) zero k e = ground arith
sum-set (x ∷ xs) (suc i) k e = omega (arith, sum-set xs i k e)

All-set :
    (xs : List ℕ) (i k : ℕ)
    → All (λ k. k ≤ max_op_blocks) xs
    → get_elem? xs i ≡ some (suc k)
    → All (λ k. k ≤ max_op_blocks) (set xs i k)
All-set [] i k h e = tt
All-set (x ∷ xs) zero k h e = (ground arith, h.1)
All-set (x ∷ xs) (suc i) k h e = (h.0, All-set xs i k h.1 e)

All-remove :
    (xs ys : List ℕ) (k : ℕ)
    → All (λ k. k ≤ max_op_blocks) (xs ++ k ∷ ys)
    → All (λ k. k ≤ max_op_blocks) (xs ++ ys)
All-remove [] ys k h = h.1
All-remove (x ∷ xs) ys k h = (h.0, All-remove xs ys k h.1)

begin_op-began :
    (m m' : Machine)
    → begin_op m ≡ began m'
    → m.log.outstanding ≤ 3
    → (m'.log.outstanding ≡ m.log.outstanding + 1)
      × (m'.log.committing ≡ m.log.committing)
      × (m'.log.lh.n ≡ m.log.lh.n)
      × (m.log.lh.n + (m.log.outstanding + 1) * max_op_blocks ≤ log_size)
unfolding begin_op
begin_op-began m m' e h = ground arith

absorbed_fields :
    (b : ℕ) (m : Machine)
    → ((absorbed b m).log.lh.n ≤ m.log.lh.n + 1)
      × ((absorbed b m).log.outstanding ≡ m.log.outstanding)
      × ((absorbed b m).log.committing ≡ m.log.committing)
absorbed_fields b m = ground arith

absorbed_again :
    (b : ℕ) (m : Machine)
    → find_block m.log.lh.n 0 m.log.lh.block b ≢ m.log.lh.n
    → (absorbed b m).log.lh.n ≡ m.log.lh.n
absorbed_again b m h = rw (ne→== (find_block m.log.lh.n 0 m.log.lh.block b) m.log.lh.n h) refl

end_op_fields :
    (m m' : Machine)
    → end_op m ≡ ok m'
    → 0 < m.log.outstanding
    → m.log.outstanding ≤ 3
    → (m'.log.outstanding + 1 ≡ m.log.outstanding)
      × (m'.log.committing ≡ false)
      × (m'.log.lh.n ≤ m.log.lh.n)
unfolding end_op end_op_first
end_op_fields m m' e h k =
    let x : Machine = record m {
      log = record (m.log) { outstanding = sub32 m.log.outstanding 1; committing = true };
    } in
    ground (
      arith,
      ap (λ (l : Log). l.outstanding) (commit_log x),
      ap (λ (l : Log). l.lh.n) (commit_log x),
    )

Step-IsReserved : {s t : Running} → Step s t → IsReserved s → IsReserved t
Step-IsReserved {s} (begin m e q) r =
    let f : (m.log.outstanding ≡ s.machine.log.outstanding + 1)
        × (m.log.committing ≡ s.machine.log.committing)
        × (m.log.lh.n ≡ s.machine.log.lh.n)
        × (s.machine.log.lh.n + (s.machine.log.outstanding + 1) * max_op_blocks ≤ log_size) =
      begin_op-began s.machine m e (omega (arith, r.counted, r.few)) in
    rw q (record {
      idle = f.1 ∙ r.idle;
      counted = omega (arith, f.0, r.counted);
      few = omega (arith, f.3, r.counted);
      budgets = (omega arith, r.budgets);
      room = omega (arith, f.2, f.3, r.counted, sum-le s.left r.budgets);
    })
Step-IsReserved {s} (write b i k m g e q) r =
    let a : absorbed b s.machine ≡ m = (log_write-ok b s.machine m e).2 in
    rw (q, ← a)
      (record {
        idle = (absorbed_fields b s.machine).2 ∙ r.idle;
        counted = omega (arith, absorbed_fields b s.machine, r.counted, length-set s.left i k);
        few = omega (arith, r.few, length-set s.left i k);
        budgets = All-set s.left i k r.budgets g;
        room = omega (arith, absorbed_fields b s.machine, sum-set s.left i k g, r.room);
      })
Step-IsReserved {s} (again b i k m g old e q) r =
    let a : absorbed b s.machine ≡ m = (log_write-ok b s.machine m e).2 in
    rw (q, ← a)
      (record {
        idle = (absorbed_fields b s.machine).2 ∙ r.idle;
        counted = omega (arith, absorbed_fields b s.machine, r.counted);
        few = r.few;
        budgets = r.budgets;
        room = omega (arith, absorbed_again b s.machine old, r.room);
      })
Step-IsReserved {s} (finish xs ys k m l e q) r =
    let size : length s.left ≡ length xs + suc (length ys) =
      ap length l ∙ length-append xs (k ∷ ys) in
    let f : (m.log.outstanding + 1 ≡ s.machine.log.outstanding)
        × (m.log.committing ≡ false)
        × (m.log.lh.n ≤ s.machine.log.lh.n) =
      end_op_fields s.machine m e (omega (arith, r.counted, size))
        (omega (arith, r.counted, r.few)) in
    rw q (record {
      idle = f.1;
      counted = omega (arith, f.0, r.counted, size, length-append xs ys);
      few = omega (arith, r.few, size, length-append xs ys);
      budgets = All-remove xs ys k (subst (All (λ j. j ≤ max_op_blocks)) l r.budgets);
      room = omega (arith, f.2, r.room, ap sum l, sum-append xs (k ∷ ys), sum-append xs ys);
    })

Reach-IsReserved : {s t : Running} → IsReserved s → Reach s t → IsReserved t
Reach-IsReserved h here = h
Reach-IsReserved h (next r st) = Step-IsReserved st (Reach-IsReserved h r)

-- Between commits the log holds at most `log_size` blocks and three system calls run at most,
-- whatever the order in which they begin, log blocks and end, where each logs at most ten blocks that
-- the log does not have at that time, and any number that it has.
pub log_bounded :
    {s t : Running}
    → IsReserved s
    → Reach s t
    → (t.machine.log.lh.n + sum t.left ≤ log_size)
      × (length t.left ≤ 3)
      × (t.machine.log.outstanding ≡ length t.left)
log_bounded {t = t} h r = let i : IsReserved t = Reach-IsReserved h r in (i.room, i.few, i.counted)

left-positive :
    (xs : List ℕ) (i k : ℕ) → get_elem? xs i ≡ some (suc k) → (0 < sum xs) × (0 < length xs)
left-positive [] i k e = cc
left-positive (x ∷ xs) zero k e = ground arith
left-positive (x ∷ xs) (suc i) k e = omega (arith, left-positive xs i k e)

-- Within the budget of a system call log_write records the block, or it panics, and this exactly where
-- the log already holds all the data blocks of the disk's log, one less than its size: a log of
-- more than `log_size` blocks never panics.
pub log_write_total :
    {s t : Running} (b i k : ℕ)
    → IsReserved s
    → Reach s t
    → get_elem? t.left i ≡ some (suc k)
    → ((t.machine.log.lh.n + 1 < t.machine.log.size)
        × (log_write b t.machine ≡ ok (absorbed b t.machine)))
      ⊎ ((t.machine.log.size ≤ t.machine.log.lh.n + 1)
          × (t.machine.log.size ≤ log_size)
          × (log_write b t.machine ≡ panic "too big a transaction"))
unfolding log_write
log_write_total {s} {t} b i k h r g = elim (dec_lt (t.machine.log.lh.n + 1) t.machine.log.size) [
  | yes room ↦ inl (
    room,
    log_write_runs b t.machine
        (fits t.machine (omega (arith, j.room, left-positive t.left i k g)) room)
        (inside t.machine (omega (arith, j.counted, left-positive t.left i k g))
          (omega (arith, j.counted, j.few))),
  )
  | no none ↦ inr (
    omega arith,
    omega (arith, j.room, left-positive t.left i k g),
    rw (full t.machine none) refl,
  )
]
  where
    j : IsReserved t
    j = Reach-IsReserved h r

    fits :
        (m : Machine)
        → m.log.lh.n < log_size
        → m.log.lh.n + 1 < m.log.size
        → (leb log_size m.log.lh.n || leb (m.log.size - 1) m.log.lh.n) ≡ false
    fits m p q = ground arith

    full :
        (m : Machine)
        → ¬ (m.log.lh.n + 1 < m.log.size)
        → (leb log_size m.log.lh.n || leb (m.log.size - 1) m.log.lh.n) ≡ true
    full m p = ground arith

    inside :
        (m : Machine)
        → 0 < m.log.outstanding
        → m.log.outstanding ≤ 3
        → (ltb m.log.outstanding 1 || leb (2 ^ 31) m.log.outstanding) ≡ false
    inside m p q = ground arith
