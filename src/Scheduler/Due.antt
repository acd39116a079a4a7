-- ===== src/Scheduler/Due.antt =====
-- A timer that is due when a round of `sched_loop` begins its loop over the fibers.
use coseq.Base.{
  ℕ, zero, suc, ◌≡◌, refl, ap, sym, ◌∙◌, List, [], ◌∷◌, some, true, arith, ◌==◌, ==→eq, Bool-cases,
  inl, inr, drop,
}
use mathlib.Core.Path.{subst}
use coseq.Time.{Timespec}
use coseq.Types.{Fiber, Ptr, Thread}
use coseq.Fibers.{find_fiber, ptrs}
use coseq.Fibers.Laws.{has_ptr, find-has_ptr}
use coseq.Sequence.{resume}
use coseq.Sequence.Frame.{LeavesLock}
use coseq.Scheduler.{Turn, is_due, time_out, fire_timer, fire_timers}
use coseq.Scheduler.Timers.{fire_timer_fires, fire_timer-Frame, fire_timer-locked_by}

-- The turns from number `j` on.
abbrev pub later : ℕ → (ℕ → Turn) → ℕ → Turn
later zero turns = turns
later (suc j) turns = later j (λ i. turns (suc i))

-- What is left of the loop once fiber `p`, number `j` of it, has been resumed on thread `v`.
abbrev pub fired : Timespec → (ℕ → Turn) → List Ptr → Ptr → Fiber → ℕ → Thread → Thread
fired now turns ps p f j v =
    fire_timers now (later (suc j) turns) (drop (suc j) ps)
      (resume p (later j turns 0).burst (time_out (later j turns 0).alloc f v))

fire_timers_reach :
    (now : Timespec) (p : Ptr) (f : Fiber) (ps : List Ptr) (turns : ℕ → Turn) (t : Thread)
    → has_ptr p ps ≡ true
    → find_fiber p t.fibers ≡ some f
    → is_due now t.locked_by f ≡ true
    → ((i : ℕ) → LeavesLock (turns i).burst.calls)
    → (j : ℕ) × (v : Thread) × (find_fiber p v.fibers ≡ some f)
      × (v.locked_by ≡ t.locked_by)
      × (fire_timers now turns ps t ≡ fired now turns ps p f j v)
unfolding fire_timers has_ptr
fire_timers_reach now p f [] turns t h here due quiet = absurd (ground arith)
fire_timers_reach now p f (q ∷ qs) turns t h here due quiet = elim (Bool-cases (q == p)) [
  | inl e ↦ (
    0,
    t,
    here,
    refl,
    ap (λ x. fire_timers now (λ i. turns (suc i)) qs (fire_timer now (turns 0) x t)) (==→eq q p e)
        ∙ ap (fire_timers now (λ i. turns (suc i)) qs)
            (fire_timer_fires now (turns 0) p f t here due),
  )
  | inr n ↦
      let u : Thread = fire_timer now (turns 0) q t in
      let same = fire_timer-locked_by now (turns 0) q t (quiet 0) in
      let (j, v, there, lock, rest) =
        fire_timers_reach now p f qs (λ i. turns (suc i)) u (rw n at h)
          ((fire_timer-Frame now (turns 0) q t).others p (λ k. ground arith) ∙ here)
          (subst (λ l. is_due now l f ≡ true) (sym same) due) (λ i. quiet (suc i)) in
      (suc j, v, there, lock ∙ same, rest)
]

-- If a fiber's timer is due, by the clock and the lock, when the loop over the fibers begins, and the
-- fibers that are resumed do not call the lock functions, then it fires in this loop, whatever the
-- fibers before it do: when the loop comes to it, the fiber is as it was, its request is ended if it
-- waits for one, and it is resumed.
pub due_timer_fires :
    (now : Timespec) (p : Ptr) (f : Fiber) (turns : ℕ → Turn) (t : Thread)
    → find_fiber p t.fibers ≡ some f
    → is_due now t.locked_by f ≡ true
    → ((i : ℕ) → LeavesLock (turns i).burst.calls)
    → (j : ℕ) × (v : Thread) × (find_fiber p v.fibers ≡ some f)
      × (v.locked_by ≡ t.locked_by)
      × (fire_timers now turns (ptrs t.fibers) t ≡ fired now turns (ptrs t.fibers) p f j v)
due_timer_fires now p f turns t here =
    fire_timers_reach now p f (ptrs t.fibers) turns t (find-has_ptr p t.fibers f here) here
