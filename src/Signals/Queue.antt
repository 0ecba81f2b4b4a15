-- ===== src/Signals/Queue.antt =====
-- The signal queue as a FIFO.
use csse332_project.Base.{
  ℕ, suc, ◌+◌, ◌-◌, ◌%◌, ◌<◌, ◌≡◌, refl, sym, ap, ap₂, ◌∙◌, Bool, true, false, List, [], ◌∷◌,
  if◌then◌else◌, ◌++◌, update, update_self, arith, ok, lt→ltb, subst,
}
use csse332_project.Proc.{Lock, unheld, held_here, Signal, Signaling, Proc}
use csse332_project.Signals.{max_signals, enqueue, dequeue, oldest, receive}
use csse332_project.Window.{window, window-snoc, window-update, window_mod}

-- The signals that wait, oldest first.
abbrev pub pending : Signaling → List Signal
pending s = window s.queue max_signals s.read s.count

-- The indices are in range, one slot stays free, and the write index follows from the others.
pub record IsQueue (s : Signaling) : Type 0 where
  pub read_in : s.read < max_signals
  pub write_at : s.write ≡ (s.read + s.count) % max_signals
  pub free_slot : s.count < max_signals

pub enqueue-IsQueue :
    {s : Signaling} (sig : Signal) → IsQueue s → s.count + 1 < max_signals → IsQueue (enqueue sig s)
unfolding enqueue
enqueue-IsQueue sig v h = omega arith

pub pending-enqueue :
    {s : Signaling} (sig : Signal)
    → IsQueue s
    → s.count + 1 < max_signals
    → pending (enqueue sig s) ≡ pending s ++ sig ∷ []
unfolding enqueue
pending-enqueue {s} sig v h =
    ap (window slots max_signals s.read) more
    ∙ window-snoc slots max_signals s.read s.count
    ∙ ap₂ (λ xs x. xs ++ x ∷ [])
        (window-update s.queue max_signals s.write sig s.read s.count (λ j lt. omega arith))
        (ap slots (sym v.write_at) ∙ update_self s.queue s.write sig)
  where
    slots : ℕ → Signal
    slots = update s.queue s.write sig

    more : s.count + 1 ≡ suc s.count
    more = omega arith

pub dequeue-IsQueue : {s : Signaling} → IsQueue s → 0 < s.count → IsQueue (dequeue s)
unfolding dequeue
dequeue-IsQueue v h = omega arith

pub pending-dequeue :
    {s : Signaling} → IsQueue s → 0 < s.count → pending s ≡ oldest s ∷ pending (dequeue s)
unfolding dequeue
pending-dequeue {s} v h =
    ap (window s.queue max_signals s.read) more
    ∙ ap₂ (λ x xs. x ∷ xs) (ap s.queue in_range)
        (window_mod s.queue max_signals (s.read + 1) ((s.read + 1) % max_signals) (s.count - 1)
          (omega arith))
  where
    more : s.count ≡ suc (s.count - 1)
    more = omega arith

    in_range : s.read % max_signals ≡ s.read
    in_range = omega arith

-- The process as the sender found it, with the signal at the end of its queue.
abbrev pub with_signal : Signal → Proc → Proc
with_signal sig p = record p { signaling = enqueue sig p.signaling }

-- The lock that `send_signal` finds: a sender that is the receiver holds it.
abbrev pub lock_for : Bool → Lock
lock_for own = if own then held_here else unheld

receive_room :
    (own : Bool) (sig : Signal) (p : Proc)
    → p.signaling.count + 1 < max_signals
    → receive own sig (record p { lock = lock_for own })
      ≡ ok (with_signal sig (record p { lock = lock_for own }), 0)
unfolding receive
receive_room true sig p h = rw (lt→ltb (p.signaling.count + 1) max_signals h)
receive_room false sig p h = rw (lt→ltb (p.signaling.count + 1) max_signals h)

lock_of : (own : Bool) (p : Proc) → p.lock ≡ lock_for own → record p { lock = lock_for own } ≡ p
lock_of own p e = ap (λ b. record p { lock = b }) (sym e)

-- With a slot free, and the receiver's lock held by a sender that is the receiver and free for any
-- other, the signal goes to the end of the receiver's queue, behind all that wait there; the queue
-- keeps its shape, the lock is as before, and the result is 0.
pub receive-pending :
    (own : Bool) (sig : Signal) (p : Proc)
    → p.lock ≡ lock_for own
    → IsQueue p.signaling
    → p.signaling.count + 1 < max_signals
    → (q : Proc) × (receive own sig p ≡ ok (q, 0))
      × (pending q.signaling ≡ pending p.signaling ++ sig ∷ [])
      × IsQueue q.signaling
      × (q.lock ≡ p.lock)
receive-pending own sig p l v h = (
  with_signal sig p,
  subst (λ q. receive own sig q ≡ ok (with_signal sig q, 0)) (lock_of own p l)
      (receive_room own sig p h),
  pending-enqueue sig v h,
  enqueue-IsQueue sig v h,
  refl,
)
