-- ===== src/Samples/Tests.antt =====
-- Runs of the sequences of the tests on concrete states.
use coseq.Base.{
  false, List, pos, arith, inr, ℕ, true, [], ◌∷◌, ◌++◌, Option, none, some, refl, ◌≡◌,
  if◌then◌else◌,
}
use mathlib.Core.List.{map}
use coseq.Types.{Effect, Ev, Fiber, Point, Rslt, Thread, external}
use coseq.Fibers.{is_done, find_fiber, ptrs, new_fiber, modify_fiber, set_src}
use coseq.Request.{coseq_reply}
use coseq.Sequence.{finish, exec_call}
use coseq.Wrapper.Source.{get_message, new_source}
use coseq.Samples.Methods.{object_code}
use coseq.Scheduler.{must_defer, splice_deferred}
use coseq.Program.{in_request, entry, fails, run, resume_code, call_of, in_wait_reply}
use coseq.Program.Host.{Host, Meets, Round, play_round}
use coseq.Wrapper.Manager.{Objects, seq_entry}
use coseq.Samples.C
use coseq.Samples.Suite.{judge, collect, Globals, initial, echo, regist, open_mark}
use coseq.Samples.SuiteModules.{module_a, methods_a}
use coseq.Samples.Starting.{code_a}
use coseq.Samples.Locking.{rest_locked}
use coseq.Samples.LockRounds.{Holding, Batch, Rounds, IsOpened, lock_test}
use coseq.Samples.Fanned.{Fanned}
use coseq.Samples.FanOut.{IsAnswered, fanout_collects}
use coseq.Waiting.{peek, unlink}
use coseq.Samples.Register.{regist_answers, is_made, new_id, answer_to, client_of}
use coseq.Fixtures.{
  asking, entry_for, plenty, at_sec, some_module, some_fiber, thread_of, thread_with, answering,
  start_event, reply_event,
}

abbrev objects : Objects
objects q = module_a (C.module_name 65) 10

abbrev pub meets : ℕ → Meets
meets i = record {
  alloc = plenty;
  allocs = λ j. plenty;
  envs = λ j. record { now = at_sec 7; alloc = plenty; allocs = λ k. plenty };
}

-- Module A of the tests, with nothing to do.
abbrev idle_a : Host Globals
idle_a = record {
  thread = thread_of (record some_module {
    idx = 0;
    seqs = map seq_entry (module_a (C.module_name 65) 10).sequences;
    nr_seq = 12;
  });
  globals = initial;
  rests = λ q. entry fails;
}

abbrev starts : ℕ → Ev
starts k = record start_event { seq_idx = k; requester = external }

-- `lock_seq` waits as fiber 3 for request 5, and has logged "[".
abbrev locked_a : Host Globals
locked_a = record {
  thread = thread_of (record some_module {
    idx = 0;
    seqs = map seq_entry (module_a (C.module_name 65) 10).sequences;
    nr_seq = 12;
    fibers = record (asking 3) { waiting_timer = false } ∷ [];
    pending = entry_for 5 3 ∷ [];
    locked_by = some 3;
  });
  globals = record initial { log = open_mark ∷ [] };
  rests = λ q. in_request rest_locked;
}

locked_a-Holding : Holding 3 5 (open_mark ∷ []) locked_a
unfolding find_fiber peek is_done
locked_a-Holding = record {
  waits = record {
    fiber = record (asking 3) { waiting_timer = false };
    there = refl;
    asks = refl;
    asks_id = refl;
    at = refl;
    known = refl;
    holds = refl;
    stands = refl;
    logs = refl;
    below = omega arith;
  };
  untimed = refl;
  kept = refl;
}

abbrev batch : List Ev → Batch
batch es = record { now = at_sec 50; timer_meets = meets; event_meets = meets; events = es }

-- Two probes come in a round, a third with the reply.
lock_test_example :
    Rounds
      (C.module_name 65)
      10
      (code_a objects 0 (C.module_name 65) 10 refl)
      (λ i. answering)
      3
      5
      (open_mark ∷ [])
      (batch (starts 8 ∷ starts 8 ∷ []) ∷ batch (starts 8 ∷ reply_event 5 ∷ []) ∷ [])
      (IsOpened
        (C.module_name 65)
        10
        (code_a objects 0 (C.module_name 65) 10 refl)
        (λ i. answering)
        3
        5
        (open_mark ∷ [])
        (starts 8 ∷ starts 8 ∷ starts 8 ∷ []))
      locked_a
lock_test_example =
    lock_test (C.module_name 65) 10 (code_a objects 0 (C.module_name 65) 10 refl) (λ i. answering) 3
      5 (open_mark ∷ []) (batch (starts 8 ∷ reply_event 5 ∷ [])) (starts 8 ∷ []) (reply_event 5)
      refl (refl, tt) refl refl (batch (starts 8 ∷ starts 8 ∷ []) ∷ []) locked_a
      (record { seqs = refl; nr_seq = refl }) locked_a-Holding refl ((refl, (refl, tt)), tt)

-- Module 2 asks for a registration.
asks_there : find_fiber 10 (thread_with (some_fiber 10 ∷ []) []).fibers ≡ some (some_fiber 10)
unfolding find_fiber
asks_there = refl

abbrev registering : Thread
registering = thread_with (some_fiber 10 ∷ []) []

regist_answers_example :
    let u = (run 10 (meets 0).envs regist initial registering).thread in
    (u.out
      ≡ []
        ++ (if is_made 10 (meets 0).envs initial registering (some_fiber 10) asks_there
            then answer_to 10
                (meets 0).envs
                initial
                registering
                (some_fiber 10)
                asks_there
                Rslt.success
                (new_id 10 (meets 0).envs initial registering (some_fiber 10) asks_there ∷ [])
            else answer_to 10
                (meets 0).envs
                initial
                registering
                (some_fiber 10)
                asks_there
                Rslt.error
                [])
          ∷ [])
    × (u.notify_clients ≡ (
        if is_made 10 (meets 0).envs initial registering (some_fiber 10) asks_there
        then client_of 10
            (meets 0).envs
            initial
            registering
            (some_fiber 10)
            asks_there
            (new_id 10 (meets 0).envs initial registering (some_fiber 10) asks_there)
          ∷ []
        else []))
regist_answers_example =
    regist_answers 10 (meets 0).envs initial registering (some_fiber 10) asks_there refl refl

-- A round of module A that finds a request for `echo`.
abbrev busy_a : Host Globals
busy_a = record idle_a {
  thread = record idle_a.thread { m = record idle_a.thread.m { inbox = starts 0 ∷ [] } };
}

abbrev round_of : Option (Round Globals) → Round Globals
round_of none = record { host = idle_a; timers = λ i. answering; events = λ i. answering }
round_of (some r) = r

echo_round : Round Globals
echo_round = round_of (
    play_round (code_a objects 0 (C.module_name 65) 10 refl) (at_sec 9) (λ i. answering) meets meets
      busy_a)

echo_played :
    play_round
      (code_a objects 0 (C.module_name 65) 10 refl)
      (at_sec 9)
      (λ i. answering)
      meets
      meets
      busy_a
    ≡ some echo_round
unfolding echo_round play_round module_a ptrs splice_deferred must_defer new_fiber resume_code
    find_fiber modify_fiber set_src object_code seq_entry methods_a echo
echo_played = refl

-- The echo goes to the thread outside that asked.
echo_answers : echo_round.host.thread.out ≡ Effect.deliver 30 Rslt.success (7 ∷ 8 ∷ []) ∷ []
unfolding echo_round play_round module_a ptrs splice_deferred must_defer new_fiber resume_code
    find_fiber modify_fiber set_src object_code seq_entry methods_a echo finish exec_call call_of
    coseq_reply get_message new_source
echo_answers = refl

-- Fiber 10 of module A waits in `fanout`, its requests 5 to B and 6 to C out; C is first.
abbrev fan_fiber : Fiber
fan_fiber = record (some_fiber 10) {
  ctx = Point.waiting_one;
  waiting_any = true;
  async_outstanding = pos 2;
}

abbrev fanned_out : Host Globals
fanned_out = record {
  thread = thread_with (fan_fiber ∷ []) (entry_for 6 10 ∷ entry_for 5 10 ∷ []);
  globals = initial;
  rests = λ q. in_wait_reply (judge 5 6 (collect 5 6 1 1 0) (collect 5 6 1 0 1));
}

two_to_come : Fanned 10 1 (pos 2) 77 (judge 5 6 (collect 5 6 1 1 0) (collect 5 6 1 0 1)) fanned_out
unfolding find_fiber
two_to_come = record {
  fiber = fan_fiber;
  there = refl;
  any = refl;
  at = refl;
  empty = refl;
  outstanding = refl;
  stands = refl;
  free = refl;
  answers = refl;
  answers_id = refl;
}

fanout_collects_example :
    IsAnswered
      (code_a objects 0 (C.module_name 65) 10 refl)
      (λ i. answering)
      meets
      fanned_out
      10
      (pos 2)
      77
      5
      6
      (reply_event 6)
      (reply_event 5)
unfolding peek unlink
fanout_collects_example =
    fanout_collects (code_a objects 0 (C.module_name 65) 10 refl) (λ i. answering) meets fanned_out
      10 (pos 2) 77 5 6 (reply_event 6) (reply_event 5) (λ e. omega (arith, e)) two_to_come refl
      refl refl refl (inr (refl, refl)) refl refl refl
