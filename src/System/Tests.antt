-- ===== src/System/Tests.antt =====
-- Two modules: an external thread asks the first, whose sequence asks the second.
use coseq.Base.{◌<◌, pos, ℕ, ◌≡◌, ◌≢◌, refl, true, List, [], ◌∷◌, some, get_elem?, arith}
use coseq.Types.{Effect, Ev, Module, Point, Reg, Rslt, Src, Thread, external}
use coseq.Fibers.{reap_done, find_fiber, ptrs}
use coseq.Thread.{on_module}
use coseq.Instance.{fresh_ctx, receive}
use coseq.Instance.Mailbox.{request_async, perform, sync_end}
use coseq.Instance.Sync.{outcome}
use coseq.Instance.Setup.{Pthreads, setup, register}
use coseq.Instance.SetupLoops.{registered, started}
use coseq.Sequence.{Call}
use coseq.Scheduler.{Turn, sched_round, fault, splice_deferred}
use coseq.Scheduler.Rounds.{round_work}
use coseq.Scheduler.Balance.Events.{calls_of}
use coseq.Scheduler.Balance.Collected.{IsCollected}
use coseq.System.{System, begun, on_thread, after_round, set_out, Step, History}
use coseq.System.Safety.{instance_no_fault}
use coseq.System.External.{at_rest, called, request_sync_answered}
use coseq.Fixtures.{
  some_reg, second_seq, some_fiber, start_event, entry_for, plenty, at_sec, answering,
}

abbrev working : Pthreads
working = record { mutex = λ i. true; cond = λ i. true; create = λ i. true }

abbrev table : List Reg
table = some_reg ∷ some_reg ∷ []

abbrev at_first : System
at_first = begun (setup working fresh_ctx table).0

abbrev asked : System
asked = record at_first { ctx = request_async plenty at_first.ctx 0 1 (7 ∷ []) }

-- The sequence asks module 1 and waits for the reply.
abbrev fanning : ℕ → Turn
fanning i = record {
  alloc = plenty;
  burst = record {
    allocs = λ i. plenty;
    calls = Call.request_async plenty 1 0 (9 ∷ []) ∷ Call.wait_one plenty ∷ [];
  };
}

abbrev answers : ℕ → Turn
answers i = answering

abbrev first_module : Module
first_module = started (registered 0 some_reg)

abbrev second_module : Module
second_module = started (registered 1 some_reg)

abbrev ask_event : Ev
ask_event = record start_event { req_id = 1; requester = external; msg = 7 ∷ [] }

abbrev inner_event : Ev
inner_event = record start_event { seq_idx = 0; req_id = 1; requester = pos 0; msg = 9 ∷ [] }

-- The first module with its event.
abbrev asked_module : Module
asked_module = record first_module { inbox = ask_event ∷ [] }

-- Fiber 0 of the first module waits for the reply.
abbrev worked : Thread
worked = record {
  m = record first_module {
    fibers =
        record (some_fiber 0) {
          ctx = Point.waiting_one;
          fn = 41;
          seq_name = some "second";
          reply_to = external;
          reply_req_id = 1;
          src = record {
            thread_idx = 255;
            seq_idx = 1;
            req_id = 1;
            result = Rslt.ignore;
            client_id = 0;
            msg = 7 ∷ [];
          };
          src_buf = 7 ∷ [];
          waiting_any = true;
          async_outstanding = pos 1;
        }
        ∷ [];
    pending = entry_for 1 0 ∷ [];
    next_req_id = 2;
    next_ptr = 1;
  };
  next_client_id = 0;
  out = Effect.post_to (pos 1) (some inner_event) ∷ [];
}

asked_work : round_work (at_sec 50) fanning fanning (on_thread asked_module 0) ≡ some worked
unfolding round_work register coseq.Scheduler.handle_event ptrs coseq.Fibers.new_fiber
    coseq.Sequence.resume find_fiber coseq.Fibers.modify_fiber coseq.Sequence.exec_call
    coseq.Request.coseq_request_async coseq.Gather.wait_reply
asked_work = refl

asked_here : get_elem? asked.ctx.modules 0 ≡ some asked_module
unfolding setup request_async
asked_here = refl

abbrev turned : System
turned = after_round 0 (on_module reap_done worked) asked

-- The event has come to the second module.
abbrev passed : System
passed = record {
  ctx = perform true turned.ctx (Effect.post_to (pos 1) (some inner_event));
  outs = set_out 0 [] turned.outs;
}

setup_done : (setup working fresh_ctx table).1 ≡ true
unfolding setup
setup_done = refl

way : History IsCollected at_first passed
unfolding register calls_of ptrs splice_deferred setup request_async
way =
    History.steps turned passed
      (History.steps asked turned
        (History.steps at_first asked History.begins (Step.asks at_first plenty 0 1 (7 ∷ [])))
        (Step.round asked 0 0 asked_module (at_sec 50) fanning fanning worked (omega arith)
          asked_here refl refl (omega arith) asked_work (refl, tt)))
      (Step.performs turned 0 true (Effect.post_to (pos 1) (some inner_event)) [] refl)

passed_here :
    get_elem? passed.ctx.modules 1 ≡ some (record second_module { inbox = inner_event ∷ [] })
unfolding setup request_async perform
passed_here = refl

two_modules : 1 < passed.ctx.nr_module
unfolding setup request_async perform
two_modules = omega arith

instance_no_fault_example :
    sched_round
      (at_sec 60)
      answers
      answers
      (on_thread (record second_module { inbox = inner_event ∷ [] }) 0)
    ≢ fault
instance_no_fault_example =
    instance_no_fault working fresh_ctx table passed 1 0
      (record second_module { inbox = inner_event ∷ [] }) (at_sec 60) answers answers refl
      (omega arith, (omega arith, tt)) setup_done way two_modules passed_here

rests : get_elem? at_first.ctx.modules 0 ≡ some (at_rest first_module)
unfolding setup register
rests = refl

has_module : 0 < at_first.ctx.nr_module
unfolding setup
has_module = omega arith

-- The caller's source.
abbrev answer_src : Src
answer_src = record {
  thread_idx = 0;
  seq_idx = 1;
  req_id = 1;
  result = Rslt.success;
  client_id = 0;
  msg = 9 ∷ [];
}

ids_begin : at_first.ctx.ext_id ≡ 1
unfolding setup
ids_begin = refl

request_sync_answered_example :
    (v : Thread) × (get_elem? (called plenty at_first 0 1 (7 ∷ [])).ctx.modules 0
      ≡ some (receive ask_event (at_rest first_module)))
    × (round_work
          (at_sec 60)
          answers
          answers
          (on_thread (receive ask_event (at_rest first_module)) 0)
        ≡ some v)
    × (v.out ≡ Effect.deliver 1 Rslt.success (9 ∷ []) ∷ [])
    × (outcome (
          sync_end true
            (perform true
              (after_round 0 (on_module reap_done v) (called plenty at_first 0 1 (7 ∷ []))).ctx
              (Effect.deliver 1 Rslt.success (9 ∷ [])))
            1
            0
            1
            [])
        ≡ some answer_src)
unfolding setup register
request_sync_answered_example =
    request_sync_answered plenty plenty at_first 0 1 0 first_module second_seq (7 ∷ []) (9 ∷ []) []
      Rslt.success (at_sec 60) answers answers has_module rests (omega arith) refl refl refl refl
      refl refl refl refl
