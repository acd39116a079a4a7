-- ===== src/Samples/Verdicts.antt =====
-- One batch of events under the lock of `lock_seq` of testpp/main.cpp.
use coseq.Base.{ℕ, suc, ◌≡◌, refl, sym, List, [], ◌∷◌, ◌++◌, some, append_assoc, append-nil, All}
use mathlib.Core.Path.{subst}
use coseq.Types.{Bytes, Ev, EvType}
use coseq.Event.{defer_ev}
use coseq.Thread.{on_module}
use coseq.Scheduler.{Turn}
use coseq.Program.Steps.{play_events-cons}
use coseq.Program.Host.{
  Host, Meets, Played, Plays, on_host, first_turn, play, play_event, play_events,
}
use coseq.Samples.Suite.{Code, Globals, close_mark}
use coseq.Samples.Starting.{IsModuleA}
use coseq.Samples.Locking.{rest_locked, Logged}
use coseq.Samples.Exclusion.{Closed, defers, lock_closes}

module _ (name : Bytes) (que_max : ℕ) (code : ℕ → Code) (spare : ℕ → Turn) where
  -- The events go by and leave this log, with `late` put off.
  abbrev pub Leaves : (ℕ → Meets) → List Ev → Host Globals → Bytes → List Ev → Type 0
  Leaves meets es h log late =
      (r : Plays Globals) × (play_events code spare meets es h ≡ some r)
      × Closed name que_max log late r.host

  only :
      (meets : ℕ → Meets) (e : Ev) (h : Host Globals) (log : Bytes) (late : List Ev)
      (r : Played Globals)
      → play_event code (meets 0) e h ≡ some r
      → Closed name que_max log late r.host
      → Leaves meets (e ∷ []) h log late
  unfolding play_events
  only meets e h log late r played closed = (
    record { host = r.host; turns = first_turn r.turn spare },
    play_events-cons code spare meets e [] h r (record { host = r.host; turns = spare }) played
        refl,
    closed,
  )

  then_more :
      (meets : ℕ → Meets) (e : Ev) (es : List Ev) (h : Host Globals) (log : Bytes) (late : List Ev)
      (r : Played Globals)
      → play_event code (meets 0) e h ≡ some r
      → Leaves (λ i. meets (suc i)) es r.host log late
      → Leaves meets (e ∷ es) h log late
  then_more meets e es h log late r played (rs, more, closed) = (
    record rs { turns = first_turn r.turn rs.turns },
    play_events-cons code spare meets e es h r rs played more,
    closed,
  )

  -- START events under the lock, and then the reply for which its holder waits.
  pub lock_keeps :
      (p id : ℕ) (log : Bytes) (meets : ℕ → Meets) (es : List Ev) (e : Ev) (h : Host Globals)
      → All (λ (x : Ev). x.type ≡ EvType.start) es
      → e.type ≡ EvType.reply
      → e.req_id ≡ id
      → IsModuleA name que_max h.thread
      → Logged p id (some p) rest_locked log h
      → Leaves meets (es ++ e ∷ []) h (log ++ close_mark ∷ []) (h.thread.deferred ++ es)
  unfolding defer_ev play
  lock_keeps p id log meets [] e h starts type for_it is l =
      let (r, played, closed) =
        lock_closes name que_max code (meets 0) e h p id log is type for_it l in
      only meets e h (log ++ close_mark ∷ []) (h.thread.deferred ++ []) r played (
        subst (λ late. Closed name que_max (log ++ close_mark ∷ []) late r.host)
          (sym (append-nil h.thread.deferred)) closed)
  lock_keeps p id log meets (x ∷ es) e h (start, starts) type for_it is l =
      let h' : Host Globals = on_host (on_module (λ m. defer_ev m x)) h in
      then_more meets x (es ++ e ∷ []) h (log ++ close_mark ∷ []) (h.thread.deferred ++ x ∷ es) _
        (defers code (meets 0) x h p start l.holds)
        (subst (λ late. Leaves (λ i. meets (suc i)) (es ++ e ∷ []) h' (log ++ close_mark ∷ []) late)
          (append_assoc h.thread.deferred (x ∷ []) es)
          (lock_keeps p id log (λ i. meets (suc i)) es e h' starts type for_it
            (record { seqs = is.seqs; nr_seq = is.nr_seq })
            (record {
              fiber = l.fiber;
              there = l.there;
              asks = l.asks;
              asks_id = l.asks_id;
              at = l.at;
              known = l.known;
              holds = l.holds;
              stands = l.stands;
              logs = l.logs;
              below = l.below;
            })))
