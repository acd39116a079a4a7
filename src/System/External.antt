-- ===== src/System/External.antt =====
-- A call of `_request_sync`, from its begin to its end.
use coseq.Base.{
  ℕ, ◌<◌, ◌≡◌, refl, ap, ◌∙◌, ==_refl, ltb, true, false, [], ◌∷◌, ◌++◌, Option, none, some, pos,
  arith, get_elem?,
}
use mathlib.Core.Path.{subst}
use coseq.Time.{Timespec}
use coseq.Types.{
  Alloc, Bytes, Effect, Ev, EvType, Fiber, Module, Point, Ptr, Rslt, SeqEntry, Thread, external,
}
use coseq.Event.{make_ev}
use coseq.Fibers.{find_fiber, ptrs, set_src, blank_fiber, reap_done}
use coseq.Fibers.Laws.{find_fiber-write, find_fiber-ptr}
use coseq.Thread.{on_module, on_fiber}
use coseq.Request.{coseq_reply}
use coseq.Sequence.{
  Call, Burst, exec_call, finish, run_calls, come_back, come_back_at, clear_waits, switch_to,
  resume,
}
use coseq.Instance.{receive}
use coseq.Instance.Mailbox.{ext_deliver, perform, sync_begin, sync_end}
use coseq.Instance.Post.{post_lem}
use coseq.Instance.Sync.{outcome, sync_begin_ids, request_sync_lem}
use coseq.Scheduler.{
  Turn, handle_event, handle_events, fire_timers, turn_work, splice_deferred, must_defer,
  start_sequence,
}
use coseq.Scheduler.Rounds.{round_work}
use coseq.Scheduler.Start.{starter, starting, starting_finds, start_sequence_lem}
use coseq.System.{System, on_thread, after_round}

run_replies :
    (p : Ptr) (a : Alloc) (t : Thread) (f : Fiber) (r : Rslt) (answer : Bytes)
    → find_fiber p t.fibers ≡ some f
    → f.reply_to ≡ external
    → (run_calls p (Call.reply a r answer ∷ []) t).out
      ≡ t.out ++ Effect.deliver f.reply_req_id r answer ∷ []
unfolding run_calls exec_call coseq_reply finish
run_replies p a t f r answer here to = rw (here, run_calls) (rw to)

begin_again :
    (allocs : ℕ → Alloc) (f : Fiber) → f.ctx ≡ Point.entry → come_back allocs f ≡ (f, false)
unfolding come_back come_back_at
begin_again allocs f entry = ap (come_back_at allocs f) entry

switch_begins :
    (p : Ptr) (b : Burst) (t : Thread) (f : Fiber)
    → find_fiber p t.fibers ≡ some f
    → f.ctx ≡ Point.entry
    → switch_to p b t ≡ run_calls p b.calls (on_fiber p (λ _. f) t)
unfolding switch_to
switch_begins p b t f here entry = rw (here, switch_to) (rw (begin_again b.allocs f entry))

-- A sequence that begins, replies to an external thread and returns.
resume_replies :
    (p : Ptr) (b : Burst) (a : Alloc) (t : Thread) (f : Fiber) (r : Rslt) (answer : Bytes)
    → find_fiber p t.fibers ≡ some f
    → f.ctx ≡ Point.entry
    → f.reply_to ≡ external
    → b.calls ≡ Call.reply a r answer ∷ []
    → (resume p b t).out ≡ t.out ++ Effect.deliver f.reply_req_id r answer ∷ []
unfolding resume clear_waits
resume_replies p b a t f r answer here entry to calls =
    let u : Thread = on_module (λ m. record m { current = some p }) (on_fiber p clear_waits t) in
    let there = find_fiber-write p clear_waits t.fibers f (λ g h. h) here in
    ap (λ (x : Thread). x.out) (switch_begins p b u (clear_waits f) there entry)
    ∙ ap (λ cs. (run_calls p cs (on_fiber p (λ _. clear_waits f) u)).out) calls
    ∙ run_replies p a (on_fiber p (λ _. clear_waits f) u) (clear_waits f) r answer
        (find_fiber-write p (λ _. clear_waits f) u.fibers (clear_waits f)
          (λ g h. find_fiber-ptr p t.fibers f here) there)
        to

-- A module whose thread has nothing to do.
abbrev pub at_rest : Module → Module
at_rest m = record m { inbox = []; deferred = []; fibers = []; locked_by = none; stop = false }

handed_on : (o : Option Thread) → (elim o [ none ↦ none | some t ↦ some t ]) ≡ o
handed_on none = refl
handed_on (some t) = refl

-- A round that finds one START event.
round_starts :
    (now : Timespec) (timers events : ℕ → Turn) (e : Ev) (m : Module) (next : ℕ)
    → e.type ≡ EvType.start
    → round_work now timers events (on_thread (receive e (at_rest m)) next)
      ≡ start_sequence (events 0) e (on_thread (at_rest m) next)
unfolding round_work turn_work splice_deferred handle_events handle_event must_defer fire_timers
    ptrs
round_starts now timers events e m next type =
    rw type (handed_on (start_sequence (events 0) e (on_thread (at_rest m) next)))

-- The instance once the call waits.
abbrev pub called : Alloc → System → ℕ → ℕ → Bytes → System
called a s i k msg = record s { ctx = (sync_begin a s.ctx i k msg).0 }

-- Its event.
abbrev pub ask : System → ℕ → Bytes → Ev
ask s k msg = record {
  type = EvType.start;
  seq_idx = k;
  req_id = s.ctx.ext_id;
  requester = external;
  result = Rslt.ignore;
  category = 0;
  client_id = 0;
  msg = msg;
}

module _ (a b : Alloc) (s : System) (i k next : ℕ) (m : Module) (entry : SeqEntry)
    (msg answer buf : Bytes) (r : Rslt) (now : Timespec) (timers events : ℕ → Turn) where
  called_at :
      i < s.ctx.nr_module
      → get_elem? s.ctx.modules i ≡ some (at_rest m)
      → a.event ≡ true
      → a.event_msg ≡ true
      → get_elem? (called a s i k msg).ctx.modules i ≡ some (receive (ask s k msg) (at_rest m))
  unfolding sync_begin make_ev
  called_at lt at made copied =
      let valid : ltb i s.ctx.nr_module ≡ true = ground arith in
      rw (made, copied) (post_lem _ (pos i) (ask s k msg) i ∙ rw (valid, ==_refl i, at))

  rest : Thread
  rest = on_thread (at_rest m) next

  answered : Thread
  answered = resume rest.next_ptr (events 0).burst (starting (events 0) (ask s k msg) rest entry)

  answered_out :
      (events 0).burst.calls ≡ Call.reply b r answer ∷ []
      → answered.out ≡ Effect.deliver s.ctx.ext_id r answer ∷ []
  unfolding rest answered set_src blank_fiber
  answered_out calls =
      resume_replies rest.next_ptr (events 0).burst b (starting (events 0) (ask s k msg) rest entry)
        (record (starter (events 0) (ask s k msg) rest entry) { seq_name = some entry.name }) r
        answer (starting_finds (events 0) (ask s k msg) rest entry) refl refl calls

  -- A thread that is no module asks sequence `k` of a module at rest, with memory for all it takes, and
  -- the sequence replies and returns: the next round of the module hands over exactly that reply, after
  -- which the caller, who waits, ends its call with the result and all bytes of the reply, whatever
  -- its buffer held before.
  pub request_sync_answered :
      i < s.ctx.nr_module
      → get_elem? s.ctx.modules i ≡ some (at_rest m)
      → k < m.nr_seq
      → get_elem? m.seqs k ≡ some entry
      → a.event ≡ true
      → a.event_msg ≡ true
      → (events 0).alloc.fiber ≡ true
      → (events 0).alloc.stack ≡ true
      → (events 0).alloc.context ≡ true
      → (events 0).alloc.src ≡ true
      → (events 0).burst.calls ≡ Call.reply b r answer ∷ []
      → (v : Thread) × (get_elem? (called a s i k msg).ctx.modules i
          ≡ some (receive (ask s k msg) (at_rest m)))
        × (round_work now timers events (on_thread (receive (ask s k msg) (at_rest m)) next)
            ≡ some v)
        × (v.out ≡ Effect.deliver s.ctx.ext_id r answer ∷ [])
        × (outcome (
              sync_end true
                (perform true
                  (after_round i (on_module reap_done v) (called a s i k msg)).ctx
                  (Effect.deliver s.ctx.ext_id r answer))
                s.ctx.ext_id
                i
                k
                buf)
            ≡ some (record {
              thread_idx = i;
              seq_idx = k;
              req_id = s.ctx.ext_id;
              result = r;
              client_id = 0;
              msg = answer;
            }))
  unfolding perform rest answered
  request_sync_answered lt at valid at_k made copied fiber stack context memory calls = (
    answered,
    called_at lt at made copied,
    round_starts now timers events (ask s k msg) m next refl
        ∙ (start_sequence_lem (events 0) (ask s k msg) rest entry valid at_k fiber stack context
            memory).0,
    answered_out calls,
    subst
        (λ id.
          outcome (
            sync_end true
              (ext_deliver true
                (after_round i (on_module reap_done answered) (called a s i k msg)).ctx id r answer)
              id i k buf)
          ≡ some (record {
            thread_idx = i;
            seq_idx = k;
            req_id = id;
            result = r;
            client_id = 0;
            msg = answer;
          }))
        (sync_begin_ids a s.ctx i k msg).1
        (request_sync_lem (after_round i (on_module reap_done answered) (called a s i k msg)).ctx i
          k r answer buf),
  )
