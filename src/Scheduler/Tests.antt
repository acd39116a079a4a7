-- ===== src/Scheduler/Tests.antt =====
-- Whole rounds of the scheduler at concrete states.
use coseq.Base.{pos, ℕ, ◌≡◌, refl, ◌⊎◌, true, [], ◌∷◌, ◌++◌, none, some, arith}
use coseq.Time.{ts_lt}
use coseq.Types.{Effect, Rslt, Thread}
use coseq.Waiting.{pending_peek, peek}
use coseq.Fibers.{find_fiber, ptrs, is_done, reap_done}
use coseq.Fibers.Laws.{has_ptr}
use coseq.Thread.{on_module}
use coseq.Scheduler.{
  queue_reply, Turn, awaits, source_of_reply, handle_reply, start_sequence, nearest, is_due,
  time_out, fire_timer, Loop, again, stopped, fault, sched_round,
}
use coseq.Scheduler.Defer.{starts}
use coseq.Scheduler.Exclusive.{sched_round_exclusive, sched_round_defers}
use coseq.Scheduler.Rounds.{round_work}
use coseq.Scheduler.Late.{late_reply_faults}
use coseq.Instance.{receive}
use coseq.Instance.Setup.{register}
use coseq.Instance.SetupLoops.{registered, started}
use coseq.Scheduler.Reach.{first_thread, Reaches}
use coseq.Fixtures.{
  some_reg, at_sec, some_fiber, asking, fanned, some_module, thread_of, thread_with, entry_for,
  start_event, reply_event, answering,
}

abbrev turns : ℕ → Turn
turns i = answering

-- Fiber 1 holds the lock and waits for request 5; fiber 2 waits for nothing; a START event waits.
abbrev held : Thread
held = thread_of (record some_module {
  fibers = asking 1 ∷ some_fiber 2 ∷ [];
  pending = entry_for 5 1 ∷ [];
  locked_by = some 1;
  inbox = start_event ∷ [];
})

-- What a round before the deadline leaves: the event is deferred.
abbrev held_on : Thread
held_on = thread_of (record some_module {
  fibers = asking 1 ∷ some_fiber 2 ∷ [];
  pending = entry_for 5 1 ∷ [];
  locked_by = some 1;
  deferred = start_event ∷ [];
})

held_round : sched_round (at_sec 50) turns turns held ≡ again held_on
unfolding sched_round coseq.Scheduler.handle_event ptrs find_fiber ts_lt reap_done
    coseq.Event.defer_ev
held_round = refl

sched_round_exclusive_example : find_fiber 2 held_on.fibers ≡ some (some_fiber 2)
unfolding find_fiber
sched_round_exclusive_example =
    sched_round_exclusive 1 2 (some_fiber 2) (at_sec 50) turns turns held held_on refl
      (λ i. (refl, tt)) (λ i. (refl, tt)) held_round (omega arith) (omega arith) refl refl

sched_round_defers_example :
    ((held_on.locked_by ≡ some 1) ⊎ (held_on.locked_by ≡ none))
    × (starts held_on.deferred ≡ starts held.deferred ++ starts held.inbox)
sched_round_defers_example =
    sched_round_defers 1 (at_sec 50) turns turns held held_on refl (λ i. (refl, tt))
      (λ i. (refl, tt)) held_round

-- Fiber 1 has returned without the reply to request 9.
abbrev gone : Thread
gone = thread_with (record (fanned 1) { done = true } ∷ []) (entry_for 9 1 ∷ [])

late_reply_faults_example : handle_reply answering (reply_event 9) (on_module reap_done gone) ≡ none
unfolding ptrs has_ptr is_done pending_peek peek
late_reply_faults_example = late_reply_faults answering (reply_event 9) gone 1 (refl, tt) refl refl

-- A module that has just started gets a START event.
abbrev fresh : Thread
fresh = first_thread 0 1 some_reg

abbrev asked : Thread
asked = on_module (receive start_event) fresh

-- The sequence has replied and returned; its fiber is not freed yet.
abbrev answered : Thread
answered = record {
  m = record (started (registered 1 some_reg)) {
    fibers =
        record (some_fiber 0) {
          fn = 41;
          seq_name = some "second";
          reply_req_id = 30;
          src = record {
            thread_idx = 2;
            seq_idx = 1;
            req_id = 30;
            result = Rslt.ignore;
            client_id = 0;
            msg = 7 ∷ 8 ∷ [];
          };
          src_buf = 7 ∷ 8 ∷ [];
          done = true;
        }
        ∷ [];
    next_ptr = 1;
  };
  next_client_id = 0;
  out =
      Effect.post_to (pos 2) (some (record (reply_event 30) { requester = pos 1; msg = 9 ∷ [] }))
      ∷ [];
}

asked_work : round_work (at_sec 50) turns turns asked ≡ some answered
unfolding round_work register coseq.Scheduler.handle_event ptrs coseq.Fibers.new_fiber
    coseq.Sequence.resume find_fiber coseq.Fibers.modify_fiber coseq.Sequence.exec_call
    coseq.Request.coseq_reply
asked_work = refl

answered_reached : Reaches fresh (on_module reap_done answered)
unfolding register
answered_reached =
    Reaches.turns asked answered (at_sec 50) turns turns
      (Reaches.arrives fresh start_event Reaches.begins) refl asked_work tt
