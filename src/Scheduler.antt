-- ===== src/Scheduler.antt =====
-- The scheduler of a module: `handle_reply` and `sched_loop` of coseq/coseq.c. One turn of the loop
-- is a function; what the sequences that it resumes do, and the outcomes of allocations, are its
-- inputs.
--
-- A function that returns `none` has read through a pointer to a freed fiber, or past the end of
-- `seqs`.
pub mod Parts
pub mod Defer
pub mod Timers
pub mod Wakeup
pub mod Exclusive
pub mod Live
pub mod Safety
pub mod Rounds
pub mod Late
pub mod Routing
pub mod Start
pub mod Timeout
pub mod Exchange
pub mod Due
pub mod Collects
pub mod Sender
pub mod Reach
pub mod Balance
mod Tests
mod ReplyTests
use Prim.Native.String.{String}
use coseq.Base.{
  ℕ, suc, Bool, true, false, not, ◌&&◌, ◌||◌, List, [], ◌∷◌, ◌++◌, Option, none, some, ℤ, to_u8,
  leb, ◌==◌, if◌then◌else◌, get_elem?,
}
use coseq.Time.{Timespec, ts_lt}
use coseq.Types.{
  Alloc, Bytes, Ev, EvType, Fiber, Module, Ptr, ReplyRec, Rslt, SeqEntry, Thread, external,
}
use coseq.Event.{defer_ev}
use coseq.Waiting.{pending_peek, pending_take}
use coseq.Fibers.{find_fiber, set_src, new_fiber, ptrs, reap_done}
use coseq.Thread.{on_module, on_fiber}
use coseq.Lock.{is_holder}
use coseq.Sequence.{Burst, resume}

-- What one event, or one timer, meets: outcomes of allocations, and the burst of the fiber that is
-- resumed, if one is.
pub record Turn : Type 0 where
  pub alloc : Alloc
  pub burst : Burst

-- The reply waits in the fiber's queue; without memory for the record it is lost, without memory for
-- the message it comes with none.
unfoldable pub queue_reply : Alloc → Ev → Fiber → Fiber
queue_reply a e f =
    if a.reply_rec
    then record f {
      rq =
          f.rq
          ++ record {
            req_id = e.req_id;
            result = e.result;
            msg = if a.reply_msg then e.msg else [];
          }
            ∷ [];
    }
    else f

unfoldable pub source_of_reply : Alloc → Ev → Fiber → Fiber
unfolding set_src
source_of_reply a e f = set_src a e.msg e.result (to_u8 e.requester) f.seq_idx 0 e.req_id f

-- `f->waiting_reply && f->wait_req_id == e->req_id`, or `f->waiting_any`.
abbrev pub awaits : Ev → Fiber → Bool
awaits e f = (f.waiting_reply && f.wait_req_id == e.req_id) || f.waiting_any

unfoldable pub deliver_reply : Turn → Ev → Fiber → Thread → Thread
unfolding queue_reply source_of_reply
deliver_reply w e f t =
    if awaits e f
    then resume f.ptr w.burst (on_fiber f.ptr (source_of_reply w.alloc e) t)
    else on_fiber f.ptr (queue_reply w.alloc e) t

unfoldable pub handle_reply : Turn → Ev → Thread → Option Thread
unfolding deliver_reply
handle_reply w e t = elim (pending_peek t.m e.req_id) [
  | none ↦ some t
  | some p ↦ elim (find_fiber p t.fibers) [
    | none ↦ none
    | some f ↦ some (deliver_reply w e f (on_module (λ m. (pending_take m e.req_id).0) t))
  ]
]

-- `f->seq_name = name; resume(m, f)` for the fiber that `new_fiber` made, if it made one.
unfoldable pub launch : Burst → String → Thread → Module × Option Ptr → Thread
launch b name t (m, none) = record t { m = m }
launch b name t (m, some p) =
    resume p b (on_fiber p (λ f. record f { seq_name = some name }) (record t { m = m }))

-- The entry of `seqs` that a START event names; `none` if the array ends before it.
unfoldable pub start_entry : Turn → Ev → Thread → Option SeqEntry → Option Thread
unfolding launch
start_entry w e t none = none
start_entry w e t (some s) = some (
    launch w.burst s.name t (
      new_fiber w.alloc t.m s.fn e.seq_idx e.requester e.req_id e.msg Rslt.ignore
        (to_u8 e.requester) 0))

unfoldable pub start_sequence : Turn → Ev → Thread → Option Thread
unfolding start_entry
start_sequence w e t =
    if leb t.nr_seq e.seq_idx then some t else start_entry w e t (get_elem? t.seqs e.seq_idx)

unfoldable pub notify_with : Turn → Ev → Thread → Option ℕ → Thread
unfolding launch
notify_with w e t none = t
notify_with w e t (some fn) =
    launch w.burst "recv_notify" t
      (new_fiber w.alloc t.m fn 0 external 0 e.msg Rslt.success (to_u8 e.requester) e.client_id)

unfoldable pub receive_notify : Turn → Ev → Thread → Thread
unfolding notify_with
receive_notify w e t = notify_with w e t t.recv_notify

abbrev pub same_ptr : Option Ptr → Option Ptr → Bool
same_ptr none none = true
same_ptr none (some q) = false
same_ptr (some p) none = false
same_ptr (some p) (some q) = p == q

abbrev pub is_locked : Option Ptr → Bool
is_locked none = false
is_locked (some p) = true

-- While a fiber holds the lock, only notifications and its own replies are handled.
unfoldable pub must_defer : Module → Ev → Bool
must_defer m e = is_locked m.locked_by && (elim e.type [
  | EvType.notify ↦ false
  | EvType.start ↦ true
  | EvType.reply ↦ not (same_ptr (pending_peek m e.req_id) m.locked_by)
])

unfoldable pub dispatch : Turn → Ev → Thread → Option Thread
unfolding start_sequence receive_notify
dispatch w e t = elim e.type [
  | EvType.start ↦ start_sequence w e t
  | EvType.reply ↦ handle_reply w e t
  | EvType.notify ↦ some (receive_notify w e t)
]

-- One round of the loop over the events.
unfoldable pub handle_event : Turn → Ev → Thread → Option Thread
unfolding must_defer dispatch
handle_event w e t =
    if must_defer t.m e then some (on_module (λ m. defer_ev m e) t) else dispatch w e t

-- The i-th event meets `turns i`.
unfoldable pub handle_events : (ℕ → Turn) → List Ev → Thread → Option Thread
handle_events turns [] t = some t
handle_events turns (e ∷ es) t = elim (handle_event (turns 0) e t) [
  | none ↦ none
  | some t' ↦ handle_events (λ i. turns (suc i)) es t'
]

-- `f->waiting_timer`, and nobody else holds the lock.
abbrev pub may_fire : Option Ptr → Fiber → Bool
may_fire locked f = f.waiting_timer && not (is_locked locked && not (is_holder f.ptr locked))

-- The deadline until which the thread sleeps.
earlier : Fiber → Option Timespec → Option Timespec
earlier f none = some f.deadline
earlier f (some n) = if ts_lt f.deadline n then some f.deadline else some n

unfoldable pub nearest_from : Option Ptr → List Fiber → Option Timespec → Option Timespec
unfolding earlier
nearest_from locked [] best = best
nearest_from locked (f ∷ fs) best =
    nearest_from locked fs (if may_fire locked f then earlier f best else best)

unfoldable pub nearest : Module → Option Timespec
unfolding nearest_from
nearest m = nearest_from m.locked_by m.fibers none

-- A request whose time is over no longer waits, and its result says so.
unfoldable pub time_out : Alloc → Fiber → Thread → Thread
unfolding set_src
time_out a f t =
    if f.waiting_reply
    then on_fiber f.ptr (set_src a [] Rslt.req_timeout 0 f.seq_idx 0 f.wait_req_id)
        (on_module (λ m. (pending_take m f.wait_req_id).0) t)
    else t

abbrev pub is_due : Timespec → Option Ptr → Fiber → Bool
is_due now locked f = may_fire locked f && not (ts_lt now f.deadline)

unfoldable pub fire_timer : Timespec → Turn → Ptr → Thread → Thread
unfolding time_out
fire_timer now w p t = elim (find_fiber p t.fibers) [
  | none ↦ t
  | some f ↦ if is_due now t.locked_by f then resume p w.burst (time_out w.alloc f t) else t
]

-- The loop over the fibers that are there at its start; the i-th meets `turns i`. A timer that fires
-- makes no fiber and removes none, so the list that the loop walks does not change.
unfoldable pub fire_timers : Timespec → (ℕ → Turn) → List Ptr → Thread → Thread
unfolding fire_timer
fire_timers now turns [] t = t
fire_timers now turns (p ∷ ps) t =
    fire_timers now (λ i. turns (suc i)) ps (fire_timer now (turns 0) p t)

-- Without a lock what was deferred goes before what has come since.
unfoldable pub splice_deferred : Module → Module
splice_deferred m =
    if is_locked m.locked_by then m else record m { inbox = m.deferred ++ m.inbox; deferred = [] }

pub data Loop : Type 0 where
  stopped : Thread → Loop
  again : Thread → Loop
  fault : Loop

-- What follows the critical section: timers, then events.
unfoldable pub turn_work : Timespec → (ℕ → Turn) → (ℕ → Turn) → List Ev → Thread → Option Thread
unfolding fire_timers handle_events
turn_work now timers events evs t =
    handle_events events evs (fire_timers now timers (ptrs t.fibers) t)

-- And then the removal of the fibers that are done.
unfoldable pub turn_over : Timespec → (ℕ → Turn) → (ℕ → Turn) → List Ev → Thread → Option Thread
unfolding turn_work
turn_over now timers events evs t = elim (turn_work now timers events evs t) [
  | none ↦ none
  | some t' ↦ some (on_module reap_done t')
]

-- One round of `sched_loop`, from when it does not wait any more: the whole of the inbox is taken.
-- A wait may end with nothing to do.
unfoldable pub sched_round : Timespec → (ℕ → Turn) → (ℕ → Turn) → Thread → Loop
unfolding splice_deferred turn_over
sched_round now timers events t =
    let top = on_module splice_deferred t in
    if top.stop
    then stopped top
    else elim (turn_over now timers events top.inbox
        (on_module (λ m. record m { inbox = [] }) top)) [ none ↦ fault | some t' ↦ again t' ]
