-- ===== src/Scheduler/Timers.antt =====
-- The timer loop: whose timers fire, and when the thread is to wake.
use coseq.Base.{
  ℕ, suc, ◌≡◌, ◌≢◌, refl, ap, sym, ◌∙◌, List, [], ◌∷◌, append-nil, some, true, false, arith, ◌==◌,
  ==→eq, Bool-cases, Option-cases, inl, inr,
}
use mathlib.Core.Path.{subst}
use coseq.Time.{Timespec}
use coseq.Types.{Alloc, Fiber, Ptr, Thread}
use coseq.Waiting.{pending_take}
use coseq.Fibers.{find_fiber, set_src}
use coseq.Fibers.Laws.{find_fiber-ptr}
use coseq.Sequence.Frame.{
  Frame, Frame-refl, Frame-trans, write-Frame, resume-Frame, LeavesLock, resume-locked_by,
}
use coseq.Sequence.{resume}
use coseq.Scheduler.{Turn, is_due, time_out, fire_timer, fire_timers}
use coseq.Scheduler.Defer.{Kept, Kept-trans, starts}

time_out-Frame : (a : Alloc) (f : Fiber) (t : Thread) → Frame f.ptr t (time_out a f t)
unfolding time_out pending_take set_src
time_out-Frame a f t = elim (Bool-cases f.waiting_reply) [
  | inl asks ↦ rw asks (write-Frame f.ptr _ t _ (λ g h. h) refl refl)
  | inr idle ↦ rw idle (Frame-refl f.ptr t)
]

pub fire_timer_skips :
    (now : Timespec) (w : Turn) (p : Ptr) (t : Thread)
    → ((f : Fiber) → find_fiber p t.fibers ≡ some f → is_due now t.locked_by f ≡ false)
    → fire_timer now w p t ≡ t
unfolding fire_timer
fire_timer_skips now w p t h = elim (Option-cases (find_fiber p t.fibers)) [
  | inl e ↦ rw (e, fire_timer)
  | inr (f, e) ↦ rw (e, fire_timer) (rw (h f e))
]

pub fire_timer_fires :
    (now : Timespec) (w : Turn) (p : Ptr) (f : Fiber) (t : Thread)
    → find_fiber p t.fibers ≡ some f
    → is_due now t.locked_by f ≡ true
    → fire_timer now w p t ≡ resume p w.burst (time_out w.alloc f t)
unfolding fire_timer
fire_timer_fires now w p f t e h = rw (e, fire_timer) (rw h)

time_out-locked_by : (a : Alloc) (f : Fiber) (t : Thread) → (time_out a f t).locked_by ≡ t.locked_by
unfolding time_out pending_take
time_out-locked_by a f t = ground arith

-- The timer of fiber `q` is a matter of `q`.
pub fire_timer-Frame :
    (now : Timespec) (w : Turn) (q : Ptr) (t : Thread) → Frame q t (fire_timer now w q t)
unfolding fire_timer
fire_timer-Frame now w q t = elim (Option-cases (find_fiber q t.fibers)) [
  | inl e ↦ rw (e, fire_timer) (Frame-refl q t)
  | inr (f, e) ↦
      rw (e, fire_timer)
        (elim (Bool-cases (is_due now t.locked_by f)) [
          | inl due ↦ rw due (
              Frame-trans q t (time_out w.alloc f t) _
                (subst (λ k. Frame k t (time_out w.alloc f t)) (find_fiber-ptr q t.fibers f e)
                  (time_out-Frame w.alloc f t))
                (resume-Frame q w.burst (time_out w.alloc f t)))
          | inr idle ↦ rw idle (Frame-refl q t)
        ])
]

pub fire_timer-locked_by :
    (now : Timespec) (w : Turn) (q : Ptr) (t : Thread)
    → LeavesLock w.burst.calls
    → (fire_timer now w q t).locked_by ≡ t.locked_by
unfolding fire_timer
fire_timer-locked_by now w q t quiet = elim (Option-cases (find_fiber q t.fibers)) [
  | inl e ↦ rw (e, fire_timer)
  | inr (f, e) ↦
      rw (e, fire_timer)
        (elim (Bool-cases (is_due now t.locked_by f)) [
          | inl due ↦ rw due (
              resume-locked_by q w.burst (time_out w.alloc f t) quiet
              ∙ time_out-locked_by w.alloc f t)
          | inr idle ↦ rw idle
        ])
]

-- While `p` holds the lock no other timer fires.
not_due : (p : Ptr) (now : Timespec) (f : Fiber) → f.ptr ≢ p → is_due now (some p) f ≡ false
not_due p now f h = ground arith

fire_timer_others :
    (p : Ptr) (now : Timespec) (w : Turn) (q : Ptr) (t : Thread)
    → t.locked_by ≡ some p
    → (q' : Ptr) → q' ≢ p
    → find_fiber q' (fire_timer now w q t).fibers ≡ find_fiber q' t.fibers
fire_timer_others p now w q t lock q' n = elim (Bool-cases (q == q')) [
  | inl e ↦
      ap (λ (u : Thread). find_fiber q' u.fibers)
        (fire_timer_skips now w q t (λ f at_q.
          subst (λ l. is_due now l f ≡ false) (sym lock)
            (not_due p now f
              (λ h. n (sym (==→eq q q' e) ∙ sym (find_fiber-ptr q t.fibers f at_q) ∙ h)))))
  | inr e ↦ (fire_timer-Frame now w q t).others q' (λ h. ground arith)
]

pub fire_timers-Kept :
    (p : Ptr) (now : Timespec) (turns : ℕ → Turn) (qs : List Ptr) (t : Thread)
    → t.locked_by ≡ some p
    → ((i : ℕ) → LeavesLock (turns i).burst.calls)
    → Kept p [] t (fire_timers now turns qs t)
unfolding fire_timers starts
fire_timers-Kept p now turns [] t lock quiet = record {
  held = lock;
  next_le = omega arith;
  olds = λ q n h. refl;
  deferred = sym (append-nil (starts t.deferred));
  stop = refl;
}
fire_timers-Kept p now turns (q ∷ qs) t lock quiet = Kept-trans p [] [] one (
    fire_timers-Kept p now (λ i. turns (suc i)) qs (fire_timer now (turns 0) q t) one.held
      (λ i. quiet (suc i)))
  where
    fr : Frame q t (fire_timer now (turns 0) q t)
    fr = fire_timer-Frame now (turns 0) q t

    one : Kept p [] t (fire_timer now (turns 0) q t)
    one = record {
      held = fire_timer-locked_by now (turns 0) q t (quiet 0) ∙ lock;
      next_le = omega (arith, ap (λ x. x.next_ptr) fr.same_fixed);
      olds = λ q' n h. fire_timer_others p now (turns 0) q t lock q' n;
      deferred = ap (λ x. starts x.deferred) fr.same_fixed ∙ sym (append-nil (starts t.deferred));
      stop = ap (λ x. x.stop) fr.same_fixed;
    }
