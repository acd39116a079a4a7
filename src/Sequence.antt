-- ===== src/Sequence.antt =====
-- A sequence at work on its fiber: `fiber_entry` and `resume` of coseq/coseq.c, and what its calls do
-- after their `swapcontext`.
--
-- The code of a sequence belongs to the library's user. What it does between one resumption and the
-- next stop is a `Burst`, the library calls that it makes, in order; it is an input, and the theorems
-- hold for all of them. The burst ends at the first call that gives up the processor; a burst that
-- has no such call ends with the return of the sequence. Calls that only read (`coseq_source`, the
-- accessors) do not show in a burst. The clock reading and the outcomes of allocations that a call
-- meets stand with it.
pub mod Rule
pub mod Frame
pub mod Ids
pub mod Gone
use coseq.Base.{
  ℕ, suc, Bool, true, false, List, [], ◌∷◌, Option, none, some, pos, dec, if◌then◌else◌,
}
use coseq.Time.{Timespec}
use coseq.Types.{Alloc, Bytes, Fiber, Point, Ptr, Rslt, Thread}
use coseq.Fibers.{find_fiber, modify_fiber}
use coseq.Thread.{on_module, on_fiber}
use coseq.Request.{
  coseq_request, coseq_request_timeout, coseq_request_async, coseq_send, coseq_reply,
  coseq_wait_timeout,
}
use coseq.Gather.{
  Taken, parked, wait_reply, woken, Gathered, GatherEnd, waits, coseq_gather, gather_resume,
}
use coseq.Notify.{coseq_reg_notify, coseq_unreg_notify, coseq_notify}
use coseq.Lock.{coseq_lock, coseq_unlock}

pub data Call : Type 0 where
  request : Alloc → ℕ → ℕ → Bytes → Call
  request_timeout : Alloc → Timespec → ℕ → ℕ → Bytes → ℕ → Call
  request_async : Alloc → ℕ → ℕ → Bytes → Call
  send : Alloc → ℕ → ℕ → Bytes → Call
  reply : Alloc → Rslt → Bytes → Call
  wait_timeout : Timespec → ℕ → Call
  wait_one : Alloc → Call
  gather : (ℕ → Alloc) → Call
  reg_notify : Alloc → ℕ → Call
  unreg_notify : ℕ → ℕ → Call
  notify : (ℕ → Alloc) → ℕ → Bytes → Call
  lock unlock : Call

-- `allocs` are the outcomes for a gather in which the fiber waited.
pub record Burst : Type 0 where
  pub allocs : ℕ → Alloc
  pub calls : List Call

abbrev pub is_parked : Taken → Bool
is_parked parked = true
is_parked _ = false

abbrev pub is_waiting : GatherEnd → Bool
is_waiting waits = true
is_waiting _ = false

-- One call of the fiber, and whether it gave up the processor.
unfoldable pub exec_call : Thread → Fiber → Call → Thread × Bool
exec_call t f (Call.request a mi si msg) = (coseq_request a t f mi si msg, true)
exec_call t f (Call.request_timeout a now mi si msg ms) =
    (coseq_request_timeout a now t f mi si msg ms, true)
exec_call t f (Call.request_async a mi si msg) = ((coseq_request_async a t f mi si msg).0, false)
exec_call t f (Call.send a mi si msg) = (coseq_send a t f mi si msg, false)
exec_call t f (Call.reply a r msg) = (coseq_reply a t f r msg, false)
exec_call t f (Call.wait_timeout now ms) = (coseq_wait_timeout now t f ms, true)
exec_call t f (Call.wait_one a) =
    let w = wait_reply a Point.waiting_one f in (on_fiber f.ptr (λ _. w.0) t, is_parked w.1)
exec_call t f (Call.gather allocs) =
    let g = coseq_gather allocs f in (on_fiber f.ptr (λ _. g.fiber) t, is_waiting g.end)
exec_call t f (Call.reg_notify a category) = ((coseq_reg_notify a t f category).0, false)
exec_call t f (Call.unreg_notify category id) = ((coseq_unreg_notify t category id).0, false)
exec_call t f (Call.notify allocs category msg) = ((coseq_notify allocs t category msg).0, false)
exec_call t f Call.lock = (coseq_lock t f, false)
exec_call t f Call.unlock = (coseq_unlock t f, false)

-- `f->done = true`, at the return of the sequence.
unfoldable pub finish : Ptr → Thread → Thread
finish p t = on_fiber p (λ f. record f { done = true }) t

unfoldable pub run_calls : Ptr → List Call → Thread → Thread
unfolding finish
run_calls p [] t = finish p t
run_calls p (c ∷ cs) t = elim (find_fiber p t.fibers) [
  | none ↦ t
  | some f ↦
      let step = exec_call t f c in
      let rest = run_calls p cs step.0 in if step.1 then step.0 else rest
]

unfoldable pub come_back_at : (ℕ → Alloc) → Fiber → Point → Fiber × Bool
come_back_at allocs f Point.entry = (f, false)
come_back_at allocs f Point.requesting = (f, false)
come_back_at allocs f Point.sleeping = (f, false)
come_back_at allocs f Point.waiting_one = (woken f, false)
come_back_at allocs f (Point.gathering n) =
    let g = gather_resume allocs n f in (g.fiber, is_waiting g.end)

-- The rest of the call in which the fiber had stopped, and whether it stops again.
unfoldable pub come_back : (ℕ → Alloc) → Fiber → Fiber × Bool
unfolding come_back_at woken
come_back allocs f = come_back_at allocs f f.ctx

unfoldable pub clear_waits : Fiber → Fiber
clear_waits f = record f { waiting_timer = false; waiting_reply = false; waiting_any = false }

unfoldable pub switch_to : Ptr → Burst → Thread → Thread
unfolding come_back run_calls
switch_to p b t = elim (find_fiber p t.fibers) [
  | none ↦ t
  | some f ↦
      let back = come_back b.allocs f in
      let returned = on_fiber p (λ _. back.0) t in
      let rest = run_calls p b.calls returned in if back.1 then returned else rest
]

unfoldable pub resume : Ptr → Burst → Thread → Thread
unfolding clear_waits switch_to
resume p b t =
    let cleared = on_fiber p clear_waits t in
    let ran = switch_to p b (on_module (λ m. record m { current = some p }) cleared) in
    on_module (λ m. record m { current = none }) ran
