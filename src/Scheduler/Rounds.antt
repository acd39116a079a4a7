-- ===== src/Scheduler/Rounds.antt =====
-- A whole round of `sched_loop`: it does not fault from a safe state, and leaves one if no sequence
-- returned in it with a request still unanswered.
use coseq.Base.{
  ℕ, suc, ◌≡◌, ◌≢◌, refl, ap, sym, ◌∙◌, List, [], ◌∷◌, Option, some, true, false, arith, Bool-cases,
  inl, inr, some_inj, All,
}
use mathlib.Core.Path.{subst}
use coseq.Time.{Timespec}
use coseq.Types.{Ev, Fiber, Pending, Ptr, Thread}
use coseq.Fibers.{ptrs, live_fibers, is_done, reap_done}
use coseq.Fibers.Laws.{has_ptr}
use coseq.Thread.{on_module}
use coseq.Sequence.Frame.{fixed}
use coseq.Scheduler.{
  Turn, fire_timers, splice_deferred, turn_over, sched_round, again, fault, fire_timer, turn_work,
  is_locked,
}
use coseq.Scheduler.Timers.{fire_timer-Frame}
use coseq.Scheduler.Safety.{IsSafe, Survives, table-same, handle_events_safe}
use coseq.Scheduler.Live.{AllLive, fire_timers-IsLive}

fire_timers-fixed :
    (now : Timespec) (turns : ℕ → Turn) (ps : List Ptr) (t : Thread)
    → fixed (fire_timers now turns ps t) ≡ fixed t
unfolding fire_timers
fire_timers-fixed now turns [] t = refl
fire_timers-fixed now turns (p ∷ ps) t =
    fire_timers-fixed now (λ i. turns (suc i)) ps (fire_timer now (turns 0) p t)
    ∙ (fire_timer-Frame now (turns 0) p t).same_fixed

turn_work_safe :
    (now : Timespec) (timers events : ℕ → Turn) (evs : List Ev) (t : Thread)
    → IsSafe t
    → Survives (turn_work now timers events evs t)
unfolding turn_work
turn_work_safe now timers events evs t safe =
    let early : Thread = fire_timers now timers (ptrs t.fibers) t in
    let same = fire_timers-fixed now timers (ptrs t.fibers) t in
    handle_events_safe events evs early (record {
      live = fire_timers-IsLive now timers (ptrs t.fibers) t safe.live;
      table = table-same t early (ap (λ x. x.seqs) same) (ap (λ x. x.nr_seq) same) safe.table;
    })

-- No fiber that has returned has a request that waits for its reply.
abbrev pub IsTidy : Thread → Type 0
IsTidy t = All (λ (e : Pending). is_done e.f t.fibers ≡ false) t.pending

has_ptr-live :
    (p : Ptr) (fs : List Fiber)
    → has_ptr p (ptrs fs) ≡ true
    → is_done p fs ≡ false
    → has_ptr p (ptrs (live_fibers fs)) ≡ true
unfolding has_ptr ptrs live_fibers is_done
has_ptr-live p [] h d = cc
has_ptr-live p (f ∷ fs) h d = ground (arith, has_ptr-live p fs)

AllLive-live :
    (ps : List Pending) (fs : List Fiber)
    → AllLive ps (ptrs fs)
    → All (λ (e : Pending). is_done e.f fs ≡ false) ps
    → AllLive ps (ptrs (live_fibers fs))
AllLive-live [] fs h k = tt
AllLive-live (e ∷ ps) fs h k = (has_ptr-live e.f fs h.0 k.0, AllLive-live ps fs h.1 k.1)

reap_done-IsSafe : (t : Thread) → IsSafe t → IsTidy t → IsSafe (on_module reap_done t)
unfolding reap_done
reap_done-IsSafe t safe tidy = record {
  live = AllLive-live t.pending t.fibers safe.live tidy;
  table = safe.table;
}

-- The module at the start of a round: the deferred events back, the inbox taken.
abbrev pub round_start : Thread → Thread
round_start t = on_module (λ m. record m { inbox = [] }) (on_module splice_deferred t)

-- What a round does before it frees the fibers that are done.
unfoldable pub round_work : Timespec → (ℕ → Turn) → (ℕ → Turn) → Thread → Option Thread
unfolding turn_work splice_deferred
round_work now timers events t =
    turn_work now timers events (splice_deferred t.m).inbox (round_start t)

round_start-IsSafe : (t : Thread) → IsSafe t → IsSafe (round_start t)
unfolding splice_deferred
round_start-IsSafe t safe = elim (Bool-cases (is_locked t.locked_by)) [
  | inl locked ↦ rw locked (record { live = safe.live; table = safe.table })
  | inr free ↦ rw free (record { live = safe.live; table = safe.table })
]

-- From a safe state (every entry that waits names a fiber that is there, and the table of sequences
-- has its `nr_seq` entries) a round never reads through a freed fiber or past the table, whatever the
-- events, the sequences and the allocations do.
pub sched_round_no_fault :
    (now : Timespec) (timers events : ℕ → Turn) (t : Thread)
    → IsSafe t
    → sched_round now timers events t ≢ fault
unfolding sched_round turn_over
sched_round_no_fault now timers events t safe =
    let (u, good, _) =
      turn_work_safe now timers events (splice_deferred t.m).inbox (round_start t)
        (round_start-IsSafe t safe) in
    ground arith

-- A round from a safe state of a module that is not stopped, at whose end no fiber that has returned
-- has a request that waits for its reply, goes on to a safe state.
pub sched_round-IsSafe :
    (now : Timespec) (timers events : ℕ → Turn) (t u : Thread)
    → IsSafe t
    → t.stop ≡ false
    → round_work now timers events t ≡ some u
    → IsTidy u
    → (sched_round now timers events t ≡ again (on_module reap_done u))
      × IsSafe (on_module reap_done u)
unfolding sched_round turn_over round_work
sched_round-IsSafe now timers events t u safe runs work tidy =
    let (v, good, next) =
      turn_work_safe now timers events (splice_deferred t.m).inbox (round_start t)
        (round_start-IsSafe t safe) in
    let same : v ≡ u = some_inj (sym good ∙ work) in
    (ground arith, reap_done-IsSafe u (subst IsSafe same next) tidy)
