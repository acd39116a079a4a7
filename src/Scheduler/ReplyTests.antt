-- ===== src/Scheduler/ReplyTests.antt =====
-- Requests, replies and timers at concrete states.
use coseq.Base.{
  inl, ap, sym, some_inj, ◌∙◌, ◌≢◌, ◌⊎◌, true, ℕ, ◌+◌, ◌≡◌, refl, inr, [], ◌∷◌, ◌++◌, none, some,
  pos, to_u8, arith,
}
use mathlib.Core.Option
use coseq.Time.{Timespec, ts_lt}
use coseq.Types.{Ptr, Point, Effect, Fiber, Rslt, Thread}
use coseq.Waiting.{pending_peek, peek, unlink}
use coseq.Waiting.Laws.{count_for}
use coseq.Fibers.{find_fiber, ptrs}
use coseq.Thread.{on_fiber}
use coseq.Request.{coseq_request, coseq_reply}
use coseq.Sequence.Ids.{HasOwnIds}
use coseq.Sequence.{resume}
use coseq.Scheduler.{
  handle_events, queue_reply, source_of_reply, handle_reply, start_sequence, nearest, time_out,
  fire_timer, fire_timers, Turn,
}
use coseq.Scheduler.Collects.{Gathering, carries_on, gather_completes}
use coseq.Scheduler.Due.{fired, due_timer_fires}
use coseq.Scheduler.Parts.{taken}
use coseq.Scheduler.Routing.{reply_src, woken_by, handle_reply_wakes, handle_reply_queues, start_ev}
use coseq.Gather.{wait_reply}
use coseq.Scheduler.Sender.{queued_reply_sender}
use coseq.Scheduler.Start.{starting, starting_finds, start_sequence_lem}
use coseq.Scheduler.Timeout.{fire_timer_timeout}
use coseq.Scheduler.Wakeup.{IsDeadline, IsFirst, NoneCounts, nearest_lem}
use coseq.Scheduler.Exchange.{Waits, answer_ev, request_reply}
use coseq.Fixtures.{
  plenty, at_sec, some_fiber, asking, fanned, second_seq, some_module, thread_of, thread_with,
  entry_for, start_event, reply_event, answering,
}

-- Fiber 1 waits for the reply to request 5.
abbrev waiting : Thread
waiting =
    thread_of
      (record some_module { fibers = asking 1 ∷ []; pending = entry_for 5 1 ∷ []; next_req_id = 6 })

waiting_known : pending_peek waiting.m 5 ≡ some 1
unfolding pending_peek peek
waiting_known = refl

waiting_there : find_fiber 1 waiting.fibers ≡ some (asking 1)
unfolding find_fiber
waiting_there = refl

handle_reply_wakes_example :
    let e = reply_event 5 in
    let u = woken_by answering e waiting 1 (asking 1) waiting_known waiting_there in
    (handle_reply answering e waiting ≡ some (resume 1 answering.burst u))
    × (Option.map (λ (g : Fiber). g.src) (find_fiber 1 u.fibers) ≡ some (reply_src e (asking 1)))
    × (count_for 1 u.pending + 1 ≡ count_for 1 waiting.pending)
handle_reply_wakes_example =
    handle_reply_wakes answering (reply_event 5) waiting 1 (asking 1) waiting_known waiting_there
      refl (inr refl)

-- Fiber 1 has other things to do while request 9 is out.
abbrev busy : Thread
busy = thread_with (fanned 1 ∷ []) (entry_for 9 1 ∷ [])

busy_known : pending_peek busy.m 9 ≡ some 1
unfolding pending_peek peek
busy_known = refl

busy_there : find_fiber 1 busy.fibers ≡ some (fanned 1)
unfolding find_fiber
busy_there = refl

handle_reply_queues_example :
    (t' : Thread) × (handle_reply answering (reply_event 9) busy ≡ some t')
    × (find_fiber 1 t'.fibers
        ≡ some (record (fanned 1) {
          rq =
              (fanned 1).rq
              ++ record { req_id = 9; result = Rslt.success; msg = 4 ∷ 5 ∷ 6 ∷ [] } ∷ [];
        }))
    × ((q : Ptr) → 1 ≢ q → find_fiber q t'.fibers ≡ find_fiber q busy.fibers)
    × (t'.out ≡ [])
    × (t'.current ≡ none)
    × (t'.locked_by ≡ none)
    × (t'.next_req_id ≡ busy.next_req_id)
    × (count_for 1 t'.pending + 1 ≡ count_for 1 busy.pending)
handle_reply_queues_example =
    handle_reply_queues answering (reply_event 9) busy 1 (fanned 1) busy_known busy_there refl
      (inl refl) refl refl

-- Fiber 1 of module 1 asks sequence 1 of module 2, where fiber 4 answers.
abbrev before : Thread
before = thread_with (some_fiber 1 ∷ []) []

before_there : find_fiber 1 before.fibers ≡ some (some_fiber 1)
unfolding find_fiber
before_there = refl

abbrev other_thread : Thread
other_thread = thread_of (record some_module { idx = 2 })

abbrev server : Fiber
server = record (some_fiber 10) { reply_to = pos 1; reply_req_id = 5 }

still_waits : Waits 1 5 waiting
still_waits = record {
  fiber = asking 1;
  there = waiting_there;
  asks = refl;
  asks_id = refl;
  known = waiting_known;
}

request_reply_example :
    let start = start_ev plenty before (some_fiber 1) 2 1 (3 ∷ []) refl refl refl before_there in
    let reply = answer_ev 2 5 Rslt.success (6 ∷ []) in
    let u = on_fiber 1 (source_of_reply plenty reply) (taken reply waiting) in
    ((coseq_request plenty before (some_fiber 1) 2 1 (3 ∷ [])).out
      ≡ Effect.post_to (pos 2) (some start) ∷ [])
    × Waits 1 5 (coseq_request plenty before (some_fiber 1) 2 1 (3 ∷ []))
    × (start_sequence answering start other_thread
        ≡ some (resume 10 answering.burst (starting answering start other_thread second_seq)))
    × ((coseq_reply plenty other_thread server Rslt.success (6 ∷ [])).out
        ≡ Effect.post_to (pos 1) (some reply) ∷ [])
    × (handle_reply answering reply waiting ≡ some (resume 1 answering.burst u))
    × (Option.map (λ (x : Fiber). x.src) (find_fiber 1 u.fibers)
        ≡ some (record {
          thread_idx = to_u8 (pos 2);
          seq_idx = 1;
          req_id = 5;
          result = Rslt.success;
          client_id = 0;
          msg = 6 ∷ [];
        }))
unfolding still_waits coseq.Fibers.set_src coseq.Fibers.blank_fiber
request_reply_example =
    request_reply plenty before (some_fiber 1) 1 (3 ∷ []) answering other_thread second_seq plenty
      other_thread server Rslt.success (6 ∷ []) answering waiting still_waits refl refl refl
      before_there (omega arith) refl refl refl refl refl
      (λ g found.
        let made =
          starting_finds answering
            (start_ev plenty before (some_fiber 1) 2 1 (3 ∷ []) refl refl refl before_there)
            other_thread second_seq in
        let same = some_inj (sym made ∙ found) in
        (ap (λ (x : Fiber). x.reply_to) same, ap (λ (x : Fiber). x.reply_req_id) same))
      refl refl refl refl

start_sequence_lem_example :
    (start_sequence answering start_event before
      ≡ some (resume 10 answering.burst (starting answering start_event before second_seq)))
    × ((g : Fiber) × (find_fiber 10 (starting answering start_event before second_seq).fibers
          ≡ some g)
        × (g.fn ≡ 41)
        × (g.seq_name ≡ some "second")
        × (g.reply_to ≡ pos 2)
        × (g.reply_req_id ≡ 30)
        × (g.src ≡ record {
          thread_idx = to_u8 (pos 2);
          seq_idx = 1;
          req_id = 30;
          result = Rslt.ignore;
          client_id = 0;
          msg = 7 ∷ 8 ∷ [];
        }))
start_sequence_lem_example =
    start_sequence_lem answering start_event before second_seq (omega arith) refl refl refl refl
      refl

waiting-HasOwnIds : HasOwnIds waiting
unfolding peek
waiting-HasOwnIds = record { below = (omega arith, tt); distinct = (refl, tt) }

fire_timer_timeout_example :
    let u = time_out plenty (asking 1) waiting in
    let after = fire_timer (at_sec 101) answering 1 waiting in
    (after ≡ resume 1 answering.burst u)
    × (Option.map (λ (g : Fiber). g.src) (find_fiber 1 u.fibers)
        ≡ some (record {
          thread_idx = 0;
          seq_idx = 1;
          req_id = 5;
          result = Rslt.req_timeout;
          client_id = 0;
          msg = [];
        }))
    × (pending_peek after.m 5 ≡ none)
    × (handle_reply answering (reply_event 5) after ≡ some after)
unfolding ts_lt
fire_timer_timeout_example =
    fire_timer_timeout (at_sec 101) answering answering 1 (asking 1) waiting (reply_event 5)
      waiting_there refl refl refl waiting-HasOwnIds (omega arith) (omega arith)

nearest_lem_example :
    ((d : Timespec) × (nearest waiting.m ≡ some d)
      × IsDeadline waiting.locked_by waiting.fibers d
      × IsFirst waiting.locked_by waiting.fibers d)
    ⊎ ((nearest waiting.m ≡ none) × NoneCounts waiting.locked_by waiting.fibers)
nearest_lem_example = nearest_lem waiting.m

-- Fiber 2 sleeps until second 90.
abbrev sleeper : Fiber
sleeper = record (some_fiber 2) { ctx = Point.sleeping; waiting_timer = true; deadline = at_sec 90 }

-- The timers of both fibers are due at second 101.
abbrev both : Thread
both = thread_with (asking 1 ∷ sleeper ∷ []) (entry_for 5 1 ∷ [])

sleeper_there : find_fiber 2 both.fibers ≡ some sleeper
unfolding find_fiber
sleeper_there = refl

abbrev answers : ℕ → Turn
answers i = answering

due_timer_fires_example :
    (j : ℕ) × (v : Thread) × (find_fiber 2 v.fibers ≡ some sleeper)
    × (v.locked_by ≡ none)
    × (fire_timers (at_sec 101) answers (ptrs both.fibers) both
        ≡ fired (at_sec 101) answers (ptrs both.fibers) 2 sleeper j v)
unfolding ts_lt
due_timer_fires_example =
    due_timer_fires (at_sec 101) 2 sleeper answers both sleeper_there refl (λ i. (refl, tt))

-- Fiber 1 has gathered one reply and waits for two.
abbrev gatherer : Fiber
gatherer = record (some_fiber 1) {
  ctx = Point.gathering 1;
  waiting_any = true;
  async_outstanding = pos 2;
}

abbrev gathering : Thread
gathering = thread_with (gatherer ∷ []) (entry_for 9 1 ∷ entry_for 8 1 ∷ [])

gatherer_waits : Gathering 1 1 1 gathering
unfolding find_fiber
gatherer_waits = record {
  fiber = gatherer;
  there = refl;
  waits = refl;
  at = refl;
  empty = refl;
  out = refl;
}

gather_completes_example :
    (v : Thread) × (f : Fiber) × (find_fiber 1 v.fibers ≡ some f)
    × (f.async_outstanding ≡ pos 0)
    × (handle_events answers (reply_event 8 ∷ reply_event 9 ∷ []) gathering
        ≡ some (carries_on 1 answering.burst v))
unfolding peek unlink
gather_completes_example =
    gather_completes 1 (reply_event 8 ∷ []) (reply_event 9) 1 answers gathering gatherer_waits refl
      (refl, refl, (refl, refl, tt))

queued_reply_sender_example :
    let late = source_of_reply plenty (reply_event 9) (some_fiber 1) in
    let early =
      (wait_reply plenty Point.waiting_one (queue_reply plenty (reply_event 9) (some_fiber 1))).0 in
    (late.src.thread_idx ≡ to_u8 (pos 3))
    × (early.src.thread_idx ≡ 0)
    × (early.src.req_id ≡ late.src.req_id)
    × (early.src.result ≡ late.src.result)
queued_reply_sender_example =
    queued_reply_sender plenty plenty Point.waiting_one (reply_event 9) (some_fiber 1) refl refl
