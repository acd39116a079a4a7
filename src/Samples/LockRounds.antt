-- ===== src/Samples/LockRounds.antt =====
-- The test of the lock of testpp/main.cpp (7), round after round of the scheduler of module A: splice, timers,
-- events and the removal of fibers that are done.
use coseq.Base.{
  ℕ, suc, ◌≡◌, ◌≢◌, refl, ap, sym, ◌∙◌, List, [], ◌∷◌, ◌++◌, Option, none, some, false, arith,
  append_assoc, append-nil, All, Option-cases, inl, inr, some_inj, Bool-cases, ◌==◌, ==→eq,
}
use mathlib.Core.Path.{subst}
use coseq.Time.{Timespec}
use coseq.Types.{Bytes, Ev, EvType, Fiber, Module, Ptr}
use coseq.Event.{defer_ev}
use coseq.Fibers.{find_fiber, is_done, reap_done, live_fibers, reap_lock, ptrs}
use coseq.Fibers.Laws.{find_fiber-ptr}
use coseq.Thread.{on_module}
use coseq.Scheduler.{Turn, splice_deferred, is_due}
use coseq.Program.Host.{
  Host, Meets, Played, Plays, Round, wake_timer, on_host, first_turn, play, play_timer, play_timers,
  play_events, play_work, play_round,
}
use coseq.Scheduler.Timeout.{idle_timer}
use coseq.Program.Steps.{play_events-cons}
use coseq.Samples.Suite.{Code, Globals, close_mark}
use coseq.Samples.Starting.{IsModuleA}
use coseq.Samples.Locking.{rest_locked, Logged}
use coseq.Samples.Exclusion.{defers}
use coseq.Samples.Verdicts.{lock_keeps}

find_fiber-live_fibers :
    (p : Ptr) (fs : List Fiber) (f : Fiber)
    → find_fiber p fs ≡ some f
    → is_done p fs ≡ false
    → find_fiber p (live_fibers fs) ≡ some f
unfolding find_fiber is_done live_fibers
find_fiber-live_fibers p [] f h k = h
find_fiber-live_fibers p (g ∷ fs) f h k = ground (arith, find_fiber-live_fibers p fs f)

is_done-live_fibers :
    (p : Ptr) (fs : List Fiber) → is_done p fs ≡ false → is_done p (live_fibers fs) ≡ false
unfolding is_done live_fibers
is_done-live_fibers p [] k = k
is_done-live_fibers p (g ∷ fs) k = ground (arith, is_done-live_fibers p fs)

-- Fiber `p` of module A holds the lock in `lock_seq` and waits for the reply to request `id`; it has no timer, and is
-- not done. `log` is what has been logged.
pub record Holding (p id : ℕ) (log : Bytes) (h : Host Globals) : Type 0 where
  pub waits : Logged p id (some p) rest_locked log h
  pub untimed : waits.fiber.waiting_timer ≡ false
  pub kept : is_done p h.thread.fibers ≡ false

-- What a splice and an empty inbox leave of it.
copied :
    (p id : ℕ) (log : Bytes) (h : Host Globals) (evs late : List Ev)
    → Holding p id log h
    → Holding p id log (on_host (on_module (λ m. record m { inbox = evs; deferred = late })) h)
copied p id log h evs late k =
    let l = k.waits in
    record {
      waits = record {
        fiber = l.fiber;
        there = l.there;
        asks = l.asks;
        asks_id = l.asks_id;
        at = l.at;
        known = l.known;
        holds = l.holds;
        stands = l.stands;
        logs = l.logs;
        below = l.below;
      };
      untimed = k.untimed;
      kept = k.kept;
    }

reaped :
    (p id : ℕ) (log : Bytes) (h : Host Globals)
    → Holding p id log h
    → Holding p id log (on_host (on_module reap_done) h)
unfolding reap_done reap_lock
reaped p id log h k =
    let l = k.waits in
    record {
      waits = record {
        fiber = l.fiber;
        there = find_fiber-live_fibers p h.thread.fibers l.fiber l.there k.kept;
        asks = l.asks;
        asks_id = l.asks_id;
        at = l.at;
        known = l.known;
        holds = ap (λ o. reap_lock o h.thread.fibers) l.holds ∙ rw k.kept refl;
        stands = l.stands;
        logs = l.logs;
        below = l.below;
      };
      untimed = k.untimed;
      kept = is_done-live_fibers p h.thread.fibers k.kept;
    }

-- No timer fires: the holder has none, and the lock holds back the others.
not_due :
    (p id : ℕ) (log : Bytes) (h : Host Globals) (now : Timespec) (q : Ptr) (g : Fiber)
    → Holding p id log h
    → find_fiber q h.thread.fibers ≡ some g
    → is_due now h.thread.locked_by g ≡ false
not_due p id log h now q g k there = elim (Bool-cases (q == p)) [
  | inl e ↦
      let same =
        some_inj (
          sym k.waits.there ∙ ap (λ x. find_fiber x h.thread.fibers) (sym (==→eq q p e)) ∙ there) in
      idle_timer now h.thread.locked_by g
        (inl (ap (λ (f : Fiber). f.waiting_timer) (sym same) ∙ k.untimed))
  | inr e ↦
      let other : q ≢ p = ground (arith, e) in
      let at_q = find_fiber-ptr q h.thread.fibers g there in
      idle_timer now h.thread.locked_by g
        (inr (inr (p, k.waits.holds, (λ n. other (sym at_q ∙ n)))))
]

module _ (code : ℕ → Code) (now : Timespec) (spare : ℕ → Turn) where
  abbrev idle_turn : Meets → Host Globals → Played Globals
  idle_turn w h = record {
    host = h;
    turn = record { alloc = w.alloc; burst = record { allocs = w.allocs; calls = [] } };
  }

  timer_idles :
      (w : Meets) (q : Ptr) (h : Host Globals)
      → ((g : Fiber)
          → find_fiber q h.thread.fibers ≡ some g
          → is_due now h.thread.locked_by g ≡ false)
      → play_timer code now w q h ≡ some (idle_turn w h)
  unfolding play_timer play wake_timer
  timer_idles w q h idle = elim (Option-cases (find_fiber q h.thread.fibers)) [
    | inl e ↦ rw (e, wake_timer) refl
    | inr (g, e) ↦ rw (e, wake_timer) (rw (idle g e) refl)
  ]

  play_timers-cons :
      (meets : ℕ → Meets) (q : Ptr) (ps : List Ptr) (h : Host Globals) (r : Played Globals)
      (rs : Plays Globals)
      → play_timer code now (meets 0) q h ≡ some r
      → play_timers code now spare (λ i. meets (suc i)) ps r.host ≡ some rs
      → play_timers code now spare meets (q ∷ ps) h
        ≡ some (record rs { turns = first_turn r.turn rs.turns })
  unfolding play_timers
  play_timers-cons meets q ps h r rs played more = rw (played, play_timers) (rw more refl)

  timers_idle :
      (meets : ℕ → Meets) (ps : List Ptr) (h : Host Globals)
      → ((q : Ptr) (g : Fiber)
          → find_fiber q h.thread.fibers ≡ some g
          → is_due now h.thread.locked_by g ≡ false)
      → (ts : ℕ → Turn) × (play_timers code now spare meets ps h
          ≡ some (record { host = h; turns = ts }))
  unfolding play_timers
  timers_idle meets [] h idle = (spare, refl)
  timers_idle meets (q ∷ ps) h idle =
      let (ts, more) = timers_idle (λ i. meets (suc i)) ps h idle in
      let first = idle_turn (meets 0) h in
      (
        first_turn first.turn ts,
        play_timers-cons meets q ps h first (record { host = h; turns = ts })
            (timer_idles (meets 0) q h (idle q)) more,
      )

-- START events under the lock, put off in order.
abbrev put_off : List Ev → Host Globals → Host Globals
put_off es = on_host (on_module (λ m. record m { deferred = m.deferred ++ es }))

puts_off :
    (code : ℕ → Code) (spare : ℕ → Turn) (p : ℕ) (meets : ℕ → Meets) (es : List Ev)
    (h : Host Globals)
    → All (λ (x : Ev). x.type ≡ EvType.start) es
    → h.thread.locked_by ≡ some p
    → (r : Plays Globals) × (play_events code spare meets es h ≡ some r) × (r.host ≡ put_off es h)
unfolding play_events defer_ev play
puts_off code spare p meets [] h starts held = (
  record { host = h; turns = spare },
  refl,
  ap (λ late. on_host (on_module (λ m. record m { deferred = late })) h)
      (sym (append-nil h.thread.deferred)),
)
puts_off code spare p meets (x ∷ es) h (start, starts) held =
    let h' : Host Globals = on_host (on_module (λ m. defer_ev m x)) h in
    let (rs, more, same) = puts_off code spare p (λ i. meets (suc i)) es h' starts held in
    (
      record rs { turns = first_turn _ rs.turns },
      play_events-cons code spare meets x es h _ rs (defers code (meets 0) x h p start held) more,
      same
          ∙ ap (λ late. on_host (on_module (λ m. record m { deferred = late })) h)
              (append_assoc h.thread.deferred (x ∷ []) es),
    )

-- A whole round with what is known of its events.
splice_deferred_held : (m : Module) (p : Ptr) → m.locked_by ≡ some p → splice_deferred m ≡ m
unfolding splice_deferred
splice_deferred_held m p held = rw held refl

-- One round, and the events that come before it.
pub record Batch : Type 0 where
  pub now : Timespec
  pub timer_meets : ℕ → Meets
  pub event_meets : ℕ → Meets
  pub events : List Ev

regroup : (a b c d : List Ev) → a ++ b ++ c ++ d ≡ a ++ (b ++ c) ++ d
regroup a b c d = ap (λ x. x ++ d) (append_assoc a b c)

abbrev reap_round : Option (Round Globals) → Option (Round Globals)
reap_round o = elim o [
  | none ↦ none
  | some r ↦ some (record r { host = on_host (on_module reap_done) r.host })
]

module _ (name : Bytes) (que_max : ℕ) (code : ℕ → Code) (spare : ℕ → Turn) (p id : ℕ)
    (log : Bytes) where
  -- The round of a module that holds its lock plays the events of its inbox, and no timer.
  round_plays :
      (now : Timespec) (tm em : ℕ → Meets) (h : Host Globals) (r : Plays Globals)
      → Holding p id log h
      → play_events code spare em h.thread.inbox
          (on_host (on_module (λ m. record m { inbox = [] })) h)
        ≡ some r
      → (v : Round Globals) × (play_round code now spare tm em h ≡ some v)
        × (v.host ≡ on_host (on_module reap_done) r.host)
  unfolding play_round play_work
  round_plays now tm em h r k played =
      let bare : Host Globals = on_host (on_module (λ m. record m { inbox = [] })) h in
      let (ts, idle) =
        timers_idle code now spare tm (ptrs bare.thread.fibers) bare
          (λ q g. not_due p id log h now q g k) in
      let work : play_work code now spare tm em h.thread.inbox bare
          ≡ some (record { host = r.host; timers = ts; events = r.turns }) =
        rw (idle, play_work) (rw played refl) in
      (
        record { host = on_host (on_module reap_done) r.host; timers = ts; events = r.turns },
        ap
              (λ (m : Module). reap_round (
                play_work code now spare tm em m.inbox
                  (on_host (λ t. record t { m = record m { inbox = [] } }) h)))
              (splice_deferred_held h.thread.m p k.waits.holds)
            ∙ ap reap_round work,
        refl,
      )

  -- A round in which only START events come: they join the deferred events, and all else stays.
  held_round :
      (now : Timespec) (tm em : ℕ → Meets) (h : Host Globals)
      → IsModuleA name que_max h.thread
      → Holding p id log h
      → All (λ (x : Ev). x.type ≡ EvType.start) h.thread.inbox
      → (v : Round Globals) × (play_round code now spare tm em h ≡ some v)
        × Holding p id log v.host
        × IsModuleA name que_max v.host.thread
        × (v.host.thread.deferred ≡ h.thread.deferred ++ h.thread.inbox)
        × (v.host.thread.inbox ≡ [])
  unfolding reap_done
  held_round now tm em h is k starts =
      let bare : Host Globals = on_host (on_module (λ m. record m { inbox = [] })) h in
      let (r, played, left) = puts_off code spare p em h.thread.inbox bare starts k.waits.holds in
      let (v, round, ends) = round_plays now tm em h r k played in
      let after = ends ∙ ap (on_host (on_module reap_done)) left in
      (
        v,
        round,
        subst (Holding p id log) (sym after) (
            reaped p id log (put_off h.thread.inbox bare)
              (copied p id log h [] (h.thread.deferred ++ h.thread.inbox) k)),
        record {
          seqs = ap (λ (x : Host Globals). x.thread.seqs) after ∙ is.seqs;
          nr_seq = ap (λ (x : Host Globals). x.thread.nr_seq) after ∙ is.nr_seq;
        },
        ap (λ (x : Host Globals). x.thread.deferred) after,
        ap (λ (x : Host Globals). x.thread.inbox) after,
      )

  -- The round in which the reply comes, after START events.
  last_round :
      (now : Timespec) (tm em : ℕ → Meets) (h : Host Globals) (es : List Ev) (e : Ev)
      → IsModuleA name que_max h.thread
      → Holding p id log h
      → h.thread.inbox ≡ es ++ e ∷ []
      → All (λ (x : Ev). x.type ≡ EvType.start) es
      → e.type ≡ EvType.reply
      → e.req_id ≡ id
      → (v : Round Globals) × (play_round code now spare tm em h ≡ some v)
        × (v.host.globals.log ≡ log ++ close_mark ∷ [])
        × (v.host.thread.locked_by ≡ none)
        × (v.host.thread.deferred ≡ h.thread.deferred ++ es)
  unfolding reap_done reap_lock
  last_round now tm em h es e is k comes starts type for_it =
      let bare : Host Globals = on_host (on_module (λ m. record m { inbox = [] })) h in
      let (r, played, closed) =
        lock_keeps name que_max code spare p id log em es e bare starts type for_it
          (record { seqs = is.seqs; nr_seq = is.nr_seq })
          (copied p id log h [] h.thread.deferred k).waits in
      let (v, round, after) =
        round_plays now tm em h r k (ap (λ es. play_events code spare em es bare) comes ∙ played) in
      (
        v,
        round,
        ap (λ (x : Host Globals). x.globals.log) after ∙ closed.logs,
        ap (λ (x : Host Globals). x.thread.locked_by) after
            ∙ ap (λ o. reap_lock o r.host.thread.fibers) closed.free,
        ap (λ (x : Host Globals). x.thread.deferred) after ∙ closed.deferred,
      )

  abbrev pub arrive : List Ev → Host Globals → Host Globals
  arrive es = on_host (on_module (λ m. record m { inbox = m.inbox ++ es }))

  abbrev pub round_of : Batch → Host Globals → Option (Round Globals)
  round_of b h = play_round code b.now spare b.timer_meets b.event_meets (arrive b.events h)

  -- Rounds that only START events come to, then one whose events end with the reply.
  unfoldable pub Rounds : List Batch → (Host Globals → Type 0) → Host Globals → Type 0
  Rounds [] after h = after h
  Rounds (b ∷ bs) after h = (v : Round Globals) × (round_of b h ≡ some v) × Rounds bs after v.host

  abbrev pub late_events : List Batch → List Ev
  late_events [] = []
  late_events (b ∷ bs) = b.events ++ late_events bs

  -- What the last round leaves, with the events `late` put off.
  abbrev pub IsOpened : List Ev → Host Globals → Type 0
  IsOpened late h =
      (h.globals.log ≡ log ++ close_mark ∷ [])
      × (h.thread.locked_by ≡ none)
      × (h.thread.deferred ≡ late)

  module _ (last : Batch) (es : List Ev) (e : Ev) (ends : last.events ≡ es ++ e ∷ [])
      (starts_last : All (λ (x : Ev). x.type ≡ EvType.start) es) (type : e.type ≡ EvType.reply)
      (for_it : e.req_id ≡ id) where
    -- `lock_seq` of the tests, in module A, holds the lock and waits for the reply of B, with nothing in the inbox. Any number of
    -- whole rounds go by, at any times and with any outcomes of allocations, in which only START events come, and then
    -- one in which START events come and behind them the reply. In each round no other fiber runs, although other fibers may
    -- have timers that are due. When the last is over, "]" is logged behind what was, with nothing between; the
    -- lock is free, and all those events are deferred, in order, behind those that were.
    pub lock_test :
        (bs : List Batch) (h : Host Globals)
        → IsModuleA name que_max h.thread
        → Holding p id log h
        → h.thread.inbox ≡ []
        → All (λ (b : Batch). All (λ (x : Ev). x.type ≡ EvType.start) b.events) bs
        → Rounds (bs ++ last ∷ []) (IsOpened (h.thread.deferred ++ late_events bs ++ es)) h
    unfolding Rounds
    lock_test [] h is k empty starts =
        let h' = arrive last.events h in
        let (v, round, logs, free, late) =
          last_round last.now last.timer_meets last.event_meets h' es e
            (record { seqs = is.seqs; nr_seq = is.nr_seq })
            (copied p id log h (h.thread.inbox ++ last.events) h.thread.deferred k)
            (ap (λ i. i ++ last.events) empty ∙ ends) starts_last type for_it in
        (v, round, (logs, free, late ∙ ap (λ d. d ++ es) (sym (append-nil h.thread.deferred))))
    lock_test (b ∷ bs) h is k empty (start, starts) =
        let h' = arrive b.events h in
        let comes : h'.thread.inbox ≡ b.events = ap (λ i. i ++ b.events) empty in
        let (v, round, k', is', late, empty') =
          held_round b.now b.timer_meets b.event_meets h'
            (record { seqs = is.seqs; nr_seq = is.nr_seq })
            (copied p id log h (h.thread.inbox ++ b.events) h.thread.deferred k)
            (subst (All (λ (x : Ev). x.type ≡ EvType.start)) (sym comes) start) in
        (
          v,
          round,
          subst (λ l. Rounds (bs ++ last ∷ []) (IsOpened l) v.host)
              (ap (λ d. d ++ late_events bs ++ es) (late ∙ ap (λ i. h.thread.deferred ++ i) comes)
                ∙ regroup h.thread.deferred b.events (late_events bs) es)
              (lock_test bs v.host is' k' empty' starts),
        )
