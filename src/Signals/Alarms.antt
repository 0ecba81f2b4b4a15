-- ===== src/Signals/Alarms.antt =====
-- When an alarm fires.
use csse332_project.Base.{
  ℕ, ◌+◌, ◌*◌, ◌/◌, ◌^◌, ◌<◌, ◌≡◌, inl, inr, Bool, true, false, not, ◌&&◌, leb, ◌==◌, if◌then◌else◌,
  arith, ok, u32, u64, sub64, Bool-cases, subst,
}
use csse332_project.Proc.{unheld, Proc}
use csse332_project.Proc.Table.{relocked}
use csse332_project.Signals.{alarm, alarm_due}

-- The process after `alarm`, and the result, where nothing wraps.
abbrev after_alarm : ℕ → ℕ → Proc → Proc
after_alarm seconds ticks p = record p {
  alarm_set = if p.alarm_set then not (seconds == 0) else true;
  cycles_at_alarm = u64 (ticks + u32 (seconds * 10));
}

alarm-unlocked :
    (seconds ticks : ℕ) (p : Proc)
    → alarm seconds ticks (record p { lock = unheld })
      ≡ ok (
        after_alarm seconds ticks (record p { lock = unheld }),
        if p.alarm_set then u32 (sub64 p.cycles_at_alarm ticks / 10) else 0,
      )
unfolding alarm
alarm-unlocked seconds ticks p = elim (Bool-cases p.alarm_set) [
  | inl set ↦ simp set
  | inr unset ↦ simp unset
]

-- `alarm` sets the deadline ten ticks for each second ahead, sets the flag unless it cancels an
-- alarm that was set, and the test of the scheduler then passes at each tick up to the deadline and
-- fails at each one after it: the alarm fires the next time the process is scheduled in time, and
-- never once the time has passed. Seconds and ticks are small enough that nothing wraps.
pub alarm_fires_early :
    (seconds ticks now : ℕ) (p : Proc)
    → p.lock ≡ unheld
    → 0 < seconds
    → seconds * 10 < 2 ^ 32
    → ticks < 2 ^ 32
    → (q : Proc) × (r : ℕ) × (alarm seconds ticks p ≡ ok (q, r))
      × (alarm_due now q ≡ leb now (ticks + seconds * 10))
alarm_fires_early seconds ticks now p l h small t = (
  after_alarm seconds ticks p,
  if p.alarm_set then u32 (sub64 p.cycles_at_alarm ticks / 10) else 0,
  subst
      (λ q.
        alarm seconds ticks q
        ≡ ok (
          after_alarm seconds ticks q,
          if p.alarm_set then u32 (sub64 p.cycles_at_alarm ticks / 10) else 0,
        ))
      (relocked p l) (alarm-unlocked seconds ticks p),
  due p.alarm_set,
)
  where
    exact : u64 (ticks + u32 (seconds * 10)) ≡ ticks + seconds * 10
    exact = omega arith

    due :
        (b : Bool)
        → ((if b then not (seconds == 0) else true) && leb now (u64 (ticks + u32 (seconds * 10))))
          ≡ leb now (ticks + seconds * 10)
    due true = let e : (seconds == 0) ≡ false = ground arith in rw (e, exact)
    due false = rw exact
