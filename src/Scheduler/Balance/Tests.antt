-- ===== src/Scheduler/Balance/Tests.antt =====
-- The theorems on the fibers' accounts at a concrete life of a module.
use coseq.Base.{ℕ, [], ◌∷◌, ◌≤◌, ◌≡◌, ◌≢◌, ◌+◌, refl, length, some, true, pos, arith}
use coseq.Types.{Fiber, Point, Rslt, Thread, Effect}
use coseq.Waiting.Laws.{count_for}
use coseq.Fibers.{find_fiber, live_fibers, ptrs, reap_done}
use coseq.Thread.{on_module}
use coseq.Instance.{receive}
use coseq.Instance.Setup.{register}
use coseq.Instance.SetupLoops.{registered, started}
use coseq.Sequence.{Call}
use coseq.Scheduler.{Turn, splice_deferred, sched_round, fault}
use coseq.Sequence.Ids.{HasOwnIds}
use coseq.Scheduler.Rounds.{round_work}
use coseq.Scheduler.Reach.{first_thread}
use coseq.Scheduler.Balance.{blocked}
use coseq.Scheduler.Balance.Events.{calls_of}
use coseq.Scheduler.Balance.Collected.{IsCollected}
use coseq.Scheduler.Balance.Life.{Runs, reachable_owed, reachable_ids, collected_no_fault}
use coseq.Fixtures.{some_reg, at_sec, some_fiber, plenty, start_event, entry_for}

-- The sequence asks module 3 and waits for the reply.
abbrev fanning : ℕ → Turn
fanning i = record {
  alloc = plenty;
  burst = record {
    allocs = λ i. plenty;
    calls = Call.request_async plenty 3 0 (9 ∷ []) ∷ Call.wait_one plenty ∷ [];
  };
}

abbrev fresh : Thread
fresh = first_thread 0 1 some_reg

abbrev asked : Thread
asked = on_module (receive start_event) fresh

-- Fiber 0 waits for the reply to its request.
abbrev parked_fiber : Fiber
parked_fiber = record (some_fiber 0) {
  ctx = Point.waiting_one;
  fn = 41;
  seq_name = some "second";
  reply_req_id = 30;
  src = record {
    thread_idx = 2;
    seq_idx = 1;
    req_id = 30;
    result = Rslt.ignore;
    client_id = 0;
    msg = 7 ∷ 8 ∷ [];
  };
  src_buf = 7 ∷ 8 ∷ [];
  waiting_any = true;
  async_outstanding = pos 1;
}

abbrev parked : Thread
parked = record {
  m = record (started (registered 1 some_reg)) {
    fibers = parked_fiber ∷ [];
    pending = entry_for 1 0 ∷ [];
    next_req_id = 2;
    next_ptr = 1;
  };
  next_client_id = 0;
  out =
      Effect.post_to (pos 3)
        (some (record start_event { seq_idx = 0; req_id = 1; requester = pos 1; msg = 9 ∷ [] }))
      ∷ [];
}

fanning_work : round_work (at_sec 50) fanning fanning asked ≡ some parked
unfolding round_work register coseq.Scheduler.handle_event ptrs coseq.Fibers.new_fiber
    coseq.Sequence.resume find_fiber coseq.Fibers.modify_fiber coseq.Sequence.exec_call
    coseq.Request.coseq_request_async coseq.Gather.wait_reply
fanning_work = refl

way : (P : Thread → Type 0) → P parked → Runs P fresh (on_module reap_done parked)
unfolding register calls_of ptrs splice_deferred
way P end =
    Runs.turns asked parked (at_sec 50) fanning fanning (Runs.arrives fresh start_event Runs.begins)
      refl (omega arith) fanning_work end

parked_there : find_fiber 0 (on_module reap_done parked).fibers ≡ some parked_fiber
unfolding find_fiber reap_done live_fibers register
parked_there = refl

reachable_owed_example :
    (k : ℕ) × (parked_fiber.async_outstanding ≡ pos k)
    × (length parked_fiber.rq + count_for 0 parked.pending
        ≤ k + blocked parked_fiber parked.pending)
unfolding reap_done
reachable_owed_example =
    reachable_owed 0 1 some_reg (on_module reap_done parked) 0 parked_fiber (way (λ _. Unit) tt)
      parked_there

reachable_ids_example : HasOwnIds (on_module reap_done parked)
reachable_ids_example = reachable_ids 0 1 some_reg (on_module reap_done parked) (way (λ _. Unit) tt)

collected_no_fault_example :
    sched_round (at_sec 60) fanning fanning (on_module reap_done parked) ≢ fault
collected_no_fault_example =
    collected_no_fault 0 1 some_reg (on_module reap_done parked) (at_sec 60) fanning fanning
      (omega arith) (way IsCollected (refl, tt))
