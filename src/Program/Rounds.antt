-- ===== src/Program/Rounds.antt =====
-- A module whose sequences are programs does what the scheduler does with the bursts of calls that
-- the programs make.
use coseq.Base.{
  ℕ, suc, ◌≡◌, refl, ap, sym, ◌∙◌, List, [], ◌∷◌, Option, none, some, Bool-cases, Option-cases, inl,
  inr, false, Bool, if◌then◌else◌, arith,
}
use mathlib.Core.Path.{subst}
use coseq.Time.{Timespec}
use coseq.Types.{Alloc, Ev, Module, Ptr, Thread}
use coseq.Fibers.{ptrs, reap_done}
use coseq.Thread.{on_module}
use coseq.Scheduler.{
  Turn, handle_event, handle_events, fire_timer, fire_timers, turn_work, turn_over, splice_deferred,
  sched_round, again, stopped, fault, Loop,
}
use coseq.Program.{Program, Rest, Ran}
use coseq.Program.Laws.{is_aborted, resume_code-resume}
use coseq.Program.Host.{
  Wake, idles, wakes, woken_by, wake_event, wake_timer, Host, Meets, Played, Plays, Round,
  after_run, play, play_event, play_timer, play_events, play_timers, before_turns, play_work,
  play_round, on_host, standing,
}
use coseq.Program.Wakes.{handle_event-wake_event, fire_timer-wake_timer}

splice_deferred-stop : (m : Module) → (splice_deferred m).stop ≡ m.stop
unfolding splice_deferred
splice_deferred-stop m = ground arith

abbrev as_loop : Option Thread → Loop
as_loop none = fault
as_loop (some t) = again t

abbrev goes_or_stops : Thread → Loop → Bool → Loop
goes_or_stops top rest b = if b then stopped top else rest

turn_over_of :
    (now : Timespec) (timers events : ℕ → Turn) (evs : List Ev) (t v : Thread)
    → turn_work now timers events evs t ≡ some v
    → turn_over now timers events evs t ≡ some (on_module reap_done v)
unfolding turn_over
turn_over_of now timers events evs t v work = rw (work, turn_over) refl

-- What a step leaves, if no assertion fails in it.
abbrev IfDone {ℓ} : {A : Type 0} → (A → Type ℓ) → Option A → Type ℓ
IfDone P none = Unit
IfDone P (some a) = P a

IfDone-then :
    {A B : Type 0} (P : A → Type 0) (Q : B → Type 0) (o : Option A) (k : A → Option B)
    → IfDone P o
    → ((a : A) → P a → IfDone Q (k a))
    → IfDone Q (elim o [ none ↦ none | some a ↦ k a ])
IfDone-then P Q none k h more = tt
IfDone-then P Q (some a) k h more = more a h

-- The step from `t` is the one in which fiber and burst are those of `r`.
abbrev IsTurn : {G : Type 0} → Alloc → Wake → Played G → Type 0
IsTurn a k r = (r.turn.alloc ≡ a) × (r.host.thread ≡ woken_by r.turn.burst k)

module _ {G : Type 0} (code : ℕ → Program G) where
  after_run-IsTurn :
      (w : Meets) (p : Ptr) (rests : Ptr → Rest G) (k : Wake) (r : Ran G)
      → (is_aborted r.end ≡ false
          → r.thread ≡ woken_by (record { allocs = w.allocs; calls = r.calls }) k)
      → IfDone (IsTurn w.alloc k) (after_run w p rests r)
  after_run-IsTurn w p rests k r h = elim (Bool-cases (is_aborted r.end)) [
    | inl cut ↦ rw cut tt
    | inr fine ↦ rw fine (refl, h fine)
  ]

  play-IsTurn : (w : Meets) (h : Host G) (k : Wake) → IfDone (IsTurn w.alloc k) (play code w h k)
  unfolding play woken_by
  play-IsTurn w h (idles t) = (refl, refl)
  play-IsTurn w h (wakes p t) =
      after_run-IsTurn w p h.rests (wakes p t) _
        (resume_code-resume p w.allocs w.envs (standing code h.rests p t) h.globals t)

  abbrev IsEvent : Ev → Thread → Played G → Type 0
  IsEvent e t r = handle_event r.turn e t ≡ some r.host.thread

  wake-IsEvent :
      (w : Meets) (e : Ev) (h : Host G) (k : Wake) (o : Option (Played G))
      → wake_event w.alloc e h.thread ≡ some k
      → IfDone (IsTurn w.alloc k) o
      → IfDone (IsEvent e h.thread) o
  wake-IsEvent w e h k none woken fits = tt
  wake-IsEvent w e h k (some r) woken fits =
      handle_event-wake_event r.turn e h.thread ∙ rw (fits.0, woken) (ap some (sym fits.1))

  play_event-IsEvent :
      (w : Meets) (e : Ev) (h : Host G) → IfDone (IsEvent e h.thread) (play_event code w e h)
  unfolding play_event
  play_event-IsEvent w e h = elim (Option-cases (wake_event w.alloc e h.thread)) [
    | inl none_there ↦ rw (none_there, play_event) tt
    | inr (k, woken) ↦
        rw (woken, play_event) (wake-IsEvent w e h k (play code w h k) woken (play-IsTurn w h k))
  ]

  abbrev AreEvents : List Ev → Thread → Plays G → Type 0
  AreEvents es t r = handle_events r.turns es t ≡ some r.host.thread

  before_turns-AreEvents :
      (e : Ev) (es : List Ev) (t : Thread) (r : Played G) (o : Option (Plays G))
      → IsEvent e t r
      → IfDone (AreEvents es r.host.thread) o
      → IfDone (AreEvents (e ∷ es) t) (before_turns r.turn o)
  unfolding handle_events
  before_turns-AreEvents e es t r none first more = tt
  before_turns-AreEvents e es t r (some rs) first more = rw (first, handle_events) more

  play_events-AreEvents :
      (spare : ℕ → Turn) (meets : ℕ → Meets) (es : List Ev) (h : Host G)
      → IfDone (AreEvents es h.thread) (play_events code spare meets es h)
  unfolding play_events handle_events
  play_events-AreEvents spare meets [] h = refl
  play_events-AreEvents spare meets (e ∷ es) h =
      IfDone-then (IsEvent e h.thread) (AreEvents (e ∷ es) h.thread) (play_event code (meets 0) e h)
        (λ r. before_turns r.turn (play_events code spare (λ i. meets (suc i)) es r.host))
        (play_event-IsEvent (meets 0) e h)
        (λ r first.
          before_turns-AreEvents e es h.thread r
            (play_events code spare (λ i. meets (suc i)) es r.host) first
            (play_events-AreEvents spare (λ i. meets (suc i)) es r.host))

  module _ (now : Timespec) where
    abbrev IsTimer : Ptr → Thread → Played G → Type 0
    IsTimer p t r = fire_timer now r.turn p t ≡ r.host.thread

    wake-IsTimer :
        (w : Meets) (p : Ptr) (t : Thread) (o : Option (Played G))
        → IfDone (IsTurn w.alloc (wake_timer now w.alloc p t)) o
        → IfDone (IsTimer p t) o
    wake-IsTimer w p t none fits = tt
    wake-IsTimer w p t (some r) fits = fire_timer-wake_timer now r.turn p t ∙ rw fits.0 (sym fits.1)

    play_timer-IsTimer :
        (w : Meets) (p : Ptr) (h : Host G) → IfDone (IsTimer p h.thread) (play_timer code now w p h)
    unfolding play_timer
    play_timer-IsTimer w p h =
        wake-IsTimer w p h.thread (play_timer code now w p h)
          (play-IsTurn w h (wake_timer now w.alloc p h.thread))

    abbrev AreTimers : List Ptr → Thread → Plays G → Type 0
    AreTimers ps t r = fire_timers now r.turns ps t ≡ r.host.thread

    before_turns-AreTimers :
        (p : Ptr) (ps : List Ptr) (t : Thread) (r : Played G) (o : Option (Plays G))
        → IsTimer p t r
        → IfDone (AreTimers ps r.host.thread) o
        → IfDone (AreTimers (p ∷ ps) t) (before_turns r.turn o)
    unfolding fire_timers
    before_turns-AreTimers p ps t r none first more = tt
    before_turns-AreTimers p ps t r (some rs) first more =
        ap (fire_timers now rs.turns ps) first ∙ more

    play_timers-AreTimers :
        (spare : ℕ → Turn) (meets : ℕ → Meets) (ps : List Ptr) (h : Host G)
        → IfDone (AreTimers ps h.thread) (play_timers code now spare meets ps h)
    unfolding play_timers fire_timers
    play_timers-AreTimers spare meets [] h = refl
    play_timers-AreTimers spare meets (p ∷ ps) h =
        IfDone-then (IsTimer p h.thread) (AreTimers (p ∷ ps) h.thread)
          (play_timer code now (meets 0) p h)
          (λ r. before_turns r.turn (play_timers code now spare (λ i. meets (suc i)) ps r.host))
          (play_timer-IsTimer (meets 0) p h)
          (λ r first.
            before_turns-AreTimers p ps h.thread r
              (play_timers code now spare (λ i. meets (suc i)) ps r.host) first
              (play_timers-AreTimers spare (λ i. meets (suc i)) ps r.host))

    abbrev IsWork : List Ev → Thread → Round G → Type 0
    IsWork evs t r = turn_work now r.timers r.events evs t ≡ some r.host.thread

    late-IsWork :
        (evs : List Ev) (t : Thread) (early : Plays G) (o : Option (Plays G))
        → AreTimers (ptrs t.fibers) t early
        → IfDone (AreEvents evs early.host.thread) o
        → IfDone (IsWork evs t) (elim o [
          | none ↦ none
          | some late ↦
              some (record { host = late.host; timers = early.turns; events = late.turns })
        ])
    unfolding turn_work
    late-IsWork evs t early none timers events = tt
    late-IsWork evs t early (some late) timers events =
        ap (handle_events late.turns evs) timers ∙ events

    play_work-IsWork :
        (spare : ℕ → Turn) (tm em : ℕ → Meets) (evs : List Ev) (h : Host G)
        → IfDone (IsWork evs h.thread) (play_work code now spare tm em evs h)
    unfolding play_work
    play_work-IsWork spare tm em evs h =
        IfDone-then (AreTimers (ptrs h.thread.fibers) h.thread) (IsWork evs h.thread)
          (play_timers code now spare tm (ptrs h.thread.fibers) h) _
          (play_timers-AreTimers spare tm (ptrs h.thread.fibers) h)
          (λ early timers.
            late-IsWork evs h.thread early (play_events code spare em evs early.host) timers
              (play_events-AreEvents spare em evs early.host))

    abbrev IsRound : Thread → Round G → Type 0
    IsRound t r = t.stop ≡ false → sched_round now r.timers r.events t ≡ again r.host.thread

    round-IsRound :
        (t : Thread) (o : Option (Round G))
        → IfDone
            (IsWork
              (splice_deferred t.m).inbox
              (on_module (λ m. record (splice_deferred m) { inbox = [] }) t))
            o
        → IfDone (IsRound t) (elim o [
          | none ↦ none
          | some r ↦ some (record r { host = on_host (on_module reap_done) r.host })
        ])
    unfolding sched_round
    round-IsRound t none work = tt
    round-IsRound t (some r) work = λ on.
        ap (goes_or_stops (on_module splice_deferred t) _) (splice_deferred-stop t.m ∙ on)
        ∙ ap as_loop (turn_over_of now r.timers r.events _ _ r.host.thread work)

    play_round-IsRound :
        (spare : ℕ → Turn) (tm em : ℕ → Meets) (h : Host G)
        → IfDone (IsRound h.thread) (play_round code now spare tm em h)
    unfolding play_round
    play_round-IsRound spare tm em h = round-IsRound h.thread _ (
        play_work-IsWork spare tm em (splice_deferred h.thread.m).inbox
          (on_host (on_module (λ m. record (splice_deferred m) { inbox = [] })) h))

    -- A module whose sequences are programs: a round in which no assertion fails is the round of the scheduler
    -- in which each fiber that is resumed makes the calls that its code made, unless the module is told to
    -- stop.
    pub play_round-sched_round :
        (spare : ℕ → Turn) (tm em : ℕ → Meets) (h : Host G) (r : Round G)
        → h.thread.stop ≡ false
        → play_round code now spare tm em h ≡ some r
        → sched_round now r.timers r.events h.thread ≡ again r.host.thread
    play_round-sched_round spare tm em h r on played =
        subst (IfDone (IsRound h.thread)) played (play_round-IsRound spare tm em h) on
