-- ===== src/Scheduler/Routing.antt =====
-- What a reply does to the fiber that it is for, and what a request leaves.
use coseq.Base.{
  ℕ, ◌+◌, ◌≤◌, ◌≡◌, ap, ◌∙◌, List, [], ◌∷◌, ◌++◌, some, true, false, ◌⊎◌, arith, ==_refl, inl, inr,
  pos, refl, ◌≢◌, to_u8, length,
}
use mathlib.Core.Option
use coseq.Types.{Alloc, Bytes, Effect, Ev, EvType, Fiber, Pending, Point, Ptr, Rslt, Src, Thread}
use coseq.Event.{make_ev}
use coseq.Waiting.{pending_peek, pending_take, peek, unlink}
use coseq.Waiting.Laws.{count_for, count_for-unlink}
use coseq.Fibers.{find_fiber, set_src}
use coseq.Fibers.Laws.{find_fiber-write, find_fiber-ptr, find_fiber-modify_ne}
use coseq.Fibers.Source.{set_src_whole}
use coseq.Thread.{on_fiber}
use coseq.Request.{coseq_request}
use coseq.Sequence.{resume}
use coseq.Scheduler.{Turn, awaits, source_of_reply, queue_reply, deliver_reply, handle_reply}
use coseq.Scheduler.Parts.{taken, handle_reply_found}

-- The source that a reply makes.
abbrev pub reply_src : Ev → Fiber → Src
reply_src e f = record {
  thread_idx = to_u8 e.requester;
  seq_idx = f.seq_idx;
  req_id = e.req_id;
  result = e.result;
  client_id = 0;
  msg = e.msg;
}

source_of_reply-src :
    (a : Alloc) (e : Ev) (f : Fiber)
    → (length e.msg ≤ length f.src_buf) ⊎ (a.src ≡ true)
    → (source_of_reply a e f).src ≡ reply_src e f
unfolding source_of_reply
source_of_reply-src a e f room =
    ap (λ m. record (reply_src e f) { msg = m })
      (set_src_whole a e.msg e.result (to_u8 e.requester) f.seq_idx 0 e.req_id f room)

deliver_now :
    (w : Turn) (e : Ev) (f : Fiber) (t : Thread) (p : Ptr)
    → f.ptr ≡ p
    → awaits e f ≡ true
    → deliver_reply w e f t ≡ resume p w.burst (on_fiber p (source_of_reply w.alloc e) t)
unfolding deliver_reply
deliver_now w e f t p at_p now =
    rw now (ap (λ q. resume q w.burst (on_fiber q (source_of_reply w.alloc e) t)) at_p)

deliver_later :
    (w : Turn) (e : Ev) (f : Fiber) (t : Thread) (p : Ptr)
    → f.ptr ≡ p
    → awaits e f ≡ false
    → deliver_reply w e f t ≡ on_fiber p (queue_reply w.alloc e) t
unfolding deliver_reply
deliver_later w e f t p at_p later = rw later (ap (λ q. on_fiber q (queue_reply w.alloc e) t) at_p)

queue_reply-ptr : (a : Alloc) (e : Ev) (f : Fiber) → (queue_reply a e f).ptr ≡ f.ptr
unfolding queue_reply
queue_reply-ptr a e f = ground arith

queue_reply-rq :
    (a : Alloc) (e : Ev) (f : Fiber)
    → a.reply_rec ≡ true
    → a.reply_msg ≡ true
    → queue_reply a e f
      ≡ record f { rq = f.rq ++ record { req_id = e.req_id; result = e.result; msg = e.msg } ∷ [] }
unfolding queue_reply
queue_reply-rq a e f rec msg = rw (rec, msg)

not_awaited :
    (e : Ev) (f : Fiber)
    → f.waiting_any ≡ false
    → (f.waiting_reply ≡ false) ⊎ (f.wait_req_id ≢ e.req_id)
    → awaits e f ≡ false
not_awaited e f any (inl off) = ground arith
not_awaited e f any (inr other) = ground arith

one_fewer :
    (p : Ptr) (id : ℕ) (ps : List Pending)
    → peek id ps ≡ some p
    → count_for p (unlink id ps) + 1 ≡ count_for p ps
one_fewer p id ps h = ground (arith, count_for-unlink p p id ps h)

module _ (w : Turn) (e : Ev) (t : Thread) (p : Ptr) (f : Fiber)
    (waits : pending_peek t.m e.req_id ≡ some p) (there : find_fiber p t.fibers ≡ some f) where
  here : f.ptr ≡ p
  here = find_fiber-ptr p t.fibers f there

  -- The thread that resumes the fiber.
  abbrev pub woken_by : Thread
  woken_by = on_fiber p (source_of_reply w.alloc e) (taken e t)

  -- A reply to a blocking request, or to a fiber that waits for any reply: the fiber runs at once, its
  -- source says who replied, to which request, with what result and (given memory for it) the whole
  -- message; and one entry fewer waits for it.
  pub handle_reply_wakes :
      awaits e f ≡ true
      → (length e.msg ≤ length f.src_buf) ⊎ (w.alloc.src ≡ true)
      → (handle_reply w e t ≡ some (resume p w.burst woken_by))
        × (Option.map (λ (g : Fiber). g.src) (find_fiber p woken_by.fibers) ≡ some (reply_src e f))
        × (count_for p woken_by.pending + 1 ≡ count_for p t.pending)
  unfolding pending_take pending_peek source_of_reply set_src
  handle_reply_wakes now room = (
    handle_reply_found w e t p f waits there ∙ ap some (deliver_now w e f (taken e t) p here now),
    ap (Option.map (λ (g : Fiber). g.src))
          (find_fiber-write p (source_of_reply w.alloc e) t.fibers f (λ g h. h) there)
        ∙ ap some (source_of_reply-src w.alloc e f room),
    one_fewer p e.req_id t.pending waits,
  )

  -- A reply, given memory for it, to a fiber that waits for no reply at all, or for another one only, be it asleep or at
  -- any other point: nobody runs, whatever the fiber would do next. The reply joins the end of the fiber's queue, which is
  -- all that changes of it; the other fibers, the lock, the counter of ids and what the thread has done to
  -- others stay, and one entry fewer waits for it.
  pub handle_reply_queues :
      f.waiting_any ≡ false
      → (f.waiting_reply ≡ false) ⊎ (f.wait_req_id ≢ e.req_id)
      → w.alloc.reply_rec ≡ true
      → w.alloc.reply_msg ≡ true
      → (t' : Thread) × (handle_reply w e t ≡ some t')
        × (find_fiber p t'.fibers
            ≡ some (record f {
              rq = f.rq ++ record { req_id = e.req_id; result = e.result; msg = e.msg } ∷ [];
            }))
        × ((q : Ptr) → p ≢ q → find_fiber q t'.fibers ≡ find_fiber q t.fibers)
        × (t'.out ≡ t.out)
        × (t'.current ≡ t.current)
        × (t'.locked_by ≡ t.locked_by)
        × (t'.next_req_id ≡ t.next_req_id)
        × (count_for p t'.pending + 1 ≡ count_for p t.pending)
  unfolding pending_take pending_peek
  handle_reply_queues any other rec msg = (
    on_fiber p (queue_reply w.alloc e) (taken e t),
    handle_reply_found w e t p f waits there
        ∙ ap some (deliver_later w e f (taken e t) p here (not_awaited e f any other)),
    find_fiber-write p (queue_reply w.alloc e) t.fibers f (λ g h. queue_reply-ptr w.alloc e g ∙ h)
          there
        ∙ ap some (queue_reply-rq w.alloc e f rec msg),
    (λ q n.
        find_fiber-modify_ne p q (queue_reply w.alloc e) t.fibers
          (λ g h. queue_reply-ptr w.alloc e g ∙ h) n),
    refl,
    refl,
    refl,
    refl,
    one_fewer p e.req_id t.pending waits,
  )

-- A request: `f` is the fiber that asks, `t` its thread, `a` the outcomes of allocations.
module _ (a : Alloc) (t : Thread) (f : Fiber) (module_idx seq_idx : ℕ) (msg : Bytes)
    (entry_made : a.entry ≡ true) (event_made : a.event ≡ true) (msg_copied : a.event_msg ≡ true)
    (there : find_fiber f.ptr t.fibers ≡ some f) where
  abbrev pub start_ev : Ev
  start_ev = record {
    type = EvType.start;
    seq_idx = seq_idx;
    req_id = t.next_req_id;
    requester = pos t.idx;
    result = Rslt.ignore;
    category = 0;
    client_id = 0;
    msg = msg;
  }

  -- The fiber parks under the id of the request, its entry is the one that the id finds, and the START
  -- event with that id and the asking module is posted to the module that is asked.
  pub coseq_request_lem :
      let t' = coseq_request a t f module_idx seq_idx msg in
      (t'.out ≡ t.out ++ Effect.post_to (pos module_idx) (some start_ev) ∷ [])
      × (pending_peek t'.m t.next_req_id ≡ some f.ptr)
      × (find_fiber f.ptr t'.fibers
          ≡ some (record f {
            waiting_reply = true;
            wait_req_id = t.next_req_id;
            ctx = Point.requesting;
          }))
  unfolding coseq_request make_ev pending_peek peek
  coseq_request_lem = (
    rw (event_made, msg_copied),
    rw entry_made (rw (==_refl t.next_req_id)),
    find_fiber-write f.ptr
        (λ g. record g {
          waiting_reply = true;
          wait_req_id = t.next_req_id;
          ctx = Point.requesting;
        })
        t.fibers f (λ g h. h) there,
  )
