-- ===== src/Scheduler/Exclusive.antt =====
-- A whole round of `sched_loop` while a fiber holds the lock.
use coseq.Base.{
  if◌then◌else◌, ℕ, ◌<◌, ◌≡◌, ◌≢◌, ap, sym, ◌∙◌, List, [], ◌∷◌, ◌++◌, none, some, true, false, ◌⊎◌,
  arith, Option-cases, inl, inr, some_inj,
}
use mathlib.Core.Path.{subst}
use coseq.Time.{Timespec}
use coseq.Types.{Ev, Fiber, Module, Ptr, Thread}
use coseq.Fibers.{find_fiber, ptrs, live_fibers, is_done, reap_lock, reap_done}
use coseq.Thread.{on_module}
use coseq.Sequence.Frame.{LeavesLock}
use coseq.Scheduler.{
  fault, stopped, Turn, handle_events, fire_timers, splice_deferred, turn_over, sched_round, again,
}
use coseq.Scheduler.Defer.{Kept, Kept-trans, starts, handle_events-Kept}
use coseq.Scheduler.Timers.{fire_timers-Kept}

-- A fiber that is not done is still there, as it was, after the fibers that are done are freed.
find_fiber-live :
    (q : Ptr) (fs : List Fiber) (f : Fiber)
    → find_fiber q fs ≡ some f
    → f.done ≡ false
    → find_fiber q (live_fibers fs) ≡ some f
unfolding find_fiber live_fibers
find_fiber-live q [] f e d = cc
find_fiber-live q (g ∷ fs) f e d = ground (arith, find_fiber-live q fs f)

-- The lock outlives the round unless its holder has returned.
reap_lock_cases :
    (p : Ptr) (fs : List Fiber)
    → ((is_done p fs ≡ false) × (reap_lock (some p) fs ≡ some p))
      ⊎ ((is_done p fs ≡ true) × (reap_lock (some p) fs ≡ none))
unfolding reap_lock
reap_lock_cases p fs = ground arith

turn_over-Kept :
    (p : Ptr) (now : Timespec) (timers events : ℕ → Turn) (evs : List Ev) (t t' : Thread)
    → t.locked_by ≡ some p
    → ((i : ℕ) → LeavesLock (timers i).burst.calls)
    → ((i : ℕ) → LeavesLock (events i).burst.calls)
    → turn_over now timers events evs t ≡ some t'
    → (u : Thread) × Kept p evs t u × (t' ≡ on_module reap_done u)
unfolding turn_over
turn_over-Kept p now timers events evs t t' lock quiet_timers quiet_events done =
    let early : Thread = fire_timers now timers (ptrs t.fibers) t in
    let first : Kept p [] t early =
      fire_timers-Kept p now timers (ptrs t.fibers) t lock quiet_timers in
    elim (Option-cases (handle_events events evs early)) [
      | inl bad ↦ let b : turn_over now timers events evs t ≡ none = rw (bad, turn_over) in cc
      | inr (u, good) ↦
          let g : turn_over now timers events evs t ≡ some (on_module reap_done u) =
            rw (good, turn_over) in
          (
            u,
            Kept-trans p [] evs first
                (handle_events-Kept p events evs early u first.held quiet_events good),
            some_inj (sym done ∙ g),
          )
    ]

splice_deferred_locked : (p : Ptr) (m : Module) → m.locked_by ≡ some p → splice_deferred m ≡ m
unfolding splice_deferred
splice_deferred_locked p m h = ground arith

-- One round from `t` to `t'` while fiber `p` holds the lock.
pub record IsExclusive (p : Ptr) (t t' : Thread) : Type 0 where
  pub holder : (t'.locked_by ≡ some p) ⊎ (t'.locked_by ≡ none)
  pub waits : starts t'.deferred ≡ starts t.deferred ++ starts t.inbox
  pub others :
      (q : Ptr) (f : Fiber)
      → q ≢ p
      → q < t.next_ptr
      → find_fiber q t.fibers ≡ some f
      → f.done ≡ false
      → find_fiber q t'.fibers ≡ some f

reaped-IsExclusive :
    (p : Ptr) (t u : Thread)
    → Kept p t.inbox (record t { m = record t.m { inbox = [] } }) u
    → IsExclusive p t (on_module reap_done u)
unfolding reap_done
reaped-IsExclusive p t u k = record {
  holder = elim (reap_lock_cases p u.fibers) [
    | inl here ↦ inl (ap (λ l. reap_lock l u.fibers) k.held ∙ here.1)
    | inr gone ↦ inr (ap (λ l. reap_lock l u.fibers) k.held ∙ gone.1)
  ];
  waits = k.deferred;
  others = λ q f n lt e alive. find_fiber-live q u.fibers f (k.olds q n lt ∙ e) alive;
}

-- The round whose start is the module as it stands, with the inbox taken.
again_inv :
    (now : Timespec) (timers events : ℕ → Turn) (t t' : Thread)
    → sched_round now timers events t ≡ again t'
    → let top = on_module splice_deferred t in
      turn_over now timers events top.inbox (on_module (λ m. record m { inbox = [] }) top) ≡ some t'
unfolding sched_round
again_inv now timers events t t' h = ground arith

sched_round-IsExclusive :
    (p : Ptr) (now : Timespec) (timers events : ℕ → Turn) (t t' : Thread)
    → t.locked_by ≡ some p
    → ((i : ℕ) → LeavesLock (timers i).burst.calls)
    → ((i : ℕ) → LeavesLock (events i).burst.calls)
    → sched_round now timers events t ≡ again t'
    → IsExclusive p t t'
sched_round-IsExclusive p now timers events t t' lock quiet_timers quiet_events done =
    subst (IsExclusive p t) (sym kept.2) (reaped-IsExclusive p t kept.0 kept.1)
  where
    run : turn_over now timers events t.inbox (record t { m = record t.m { inbox = [] } }) ≡ some t'
    run =
        subst
          (λ m.
            turn_over now timers events m.inbox (record t { m = record m { inbox = [] } })
            ≡ some t')
          (splice_deferred_locked p t.m lock) (again_inv now timers events t t' done)

    kept :
        (u : Thread) × Kept p t.inbox (record t { m = record t.m { inbox = [] } }) u
        × (t' ≡ on_module reap_done u)
    kept = turn_over-Kept p now timers events t.inbox _ t' lock quiet_timers quiet_events run

-- While fiber `p` holds the lock and no sequence calls `coseq_lock` or `coseq_unlock`, a round of the
-- scheduler leaves every other fiber that was there and is not done exactly as it was.
pub sched_round_exclusive :
    (p q : Ptr) (f : Fiber) (now : Timespec) (timers events : ℕ → Turn) (t t' : Thread)
    → t.locked_by ≡ some p
    → ((i : ℕ) → LeavesLock (timers i).burst.calls)
    → ((i : ℕ) → LeavesLock (events i).burst.calls)
    → sched_round now timers events t ≡ again t'
    → q ≢ p
    → q < t.next_ptr
    → find_fiber q t.fibers ≡ some f
    → f.done ≡ false
    → find_fiber q t'.fibers ≡ some f
sched_round_exclusive p q f now timers events t t' lock quiet_timers quiet_events done =
    (sched_round-IsExclusive p now timers events t t' lock quiet_timers quiet_events done).others q
      f

-- While fiber `p` holds the lock and no sequence calls `coseq_lock` or `coseq_unlock`, a round of the
-- scheduler gives the lock to nobody else, and every START event of the inbox joins the deferred
-- events, behind those that wait already and in the order in which they came.
pub sched_round_defers :
    (p : Ptr) (now : Timespec) (timers events : ℕ → Turn) (t t' : Thread)
    → t.locked_by ≡ some p
    → ((i : ℕ) → LeavesLock (timers i).burst.calls)
    → ((i : ℕ) → LeavesLock (events i).burst.calls)
    → sched_round now timers events t ≡ again t'
    → ((t'.locked_by ≡ some p) ⊎ (t'.locked_by ≡ none))
      × (starts t'.deferred ≡ starts t.deferred ++ starts t.inbox)
sched_round_defers p now timers events t t' lock quiet_timers quiet_events done =
    let kept =
      sched_round-IsExclusive p now timers events t t' lock quiet_timers quiet_events done in
    (kept.holder, kept.waits)

-- The module as if its deferred events had come into the inbox first.
abbrev pub released : Module → Module
released m = record m { inbox = m.deferred ++ m.inbox; deferred = [] }

splice_deferred-released :
    (m : Module) → m.locked_by ≡ none → splice_deferred m ≡ splice_deferred (released m)
unfolding splice_deferred
splice_deferred-released m free = rw free

-- The first round without a lock runs as if the events deferred under it had come into the inbox
-- before all that has come since: none of them is lost, and none is overtaken.
pub sched_round-released :
    (now : Timespec) (timers events : ℕ → Turn) (t : Thread)
    → t.locked_by ≡ none
    → sched_round now timers events t ≡ sched_round now timers events (on_module released t)
unfolding sched_round
sched_round-released now timers events t free =
    ap
      (λ (m : Module).
        let top : Thread = record t { m = m } in
        if top.stop
        then stopped top
        else elim (turn_over now timers events top.inbox
            (on_module (λ n. record n { inbox = [] }) top)) [ none ↦ fault | some t' ↦ again t' ])
      (splice_deferred-released t.m free)
