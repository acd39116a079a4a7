-- ===== src/Scheduler/Timeout.antt =====
-- A timer that ends a request, and the reply that comes too late.
use coseq.Base.{
  ◌+◌, ◌^◌, ◌<◌, none, length, ◌≡◌, ◌≢◌, ap, sym, ◌∙◌, [], Option, some, true, false, ◌⊎◌, arith,
  some_inj, inl, inr,
}
use mathlib.Core.Path.{subst}
use mathlib.Core.Option
use coseq.Time.{Timespec, ts_lt}
use coseq.Types.{Alloc, Bytes, Ev, Fiber, Ptr, Rslt, Thread}
use coseq.Waiting.{pending_peek, pending_take, peek}
use coseq.Fibers.{find_fiber, set_src}
use coseq.Fibers.Source.{set_src_whole}
use coseq.Thread.{on_module, on_fiber}
use coseq.Sequence.{resume}
use coseq.Sequence.Ids.{HasOwnIds, peek-unlink-none}
use coseq.Sequence.Gone.{IsOver, resume-IsOver}
use coseq.Scheduler.{Turn, is_due, time_out, fire_timer, handle_reply}
use coseq.Scheduler.Parts.{handle_reply_unknown}
use coseq.Scheduler.Timers.{fire_timer_fires, fire_timer_skips}
use coseq.Fibers.Laws.{find_fiber-write, find_fiber-ptr}

-- The request's entry taken, and the source that says that the time is over.
abbrev timed_out : Alloc → Fiber → Ptr → Thread → Thread
timed_out a f p t =
    on_fiber p (set_src a [] Rslt.req_timeout 0 f.seq_idx 0 f.wait_req_id)
      (on_module (λ m. (pending_take m f.wait_req_id).0) t)

time_out_asks :
    (a : Alloc) (f : Fiber) (p : Ptr) (t : Thread)
    → f.ptr ≡ p
    → f.waiting_reply ≡ true
    → time_out a f t ≡ timed_out a f p t
unfolding time_out
time_out_asks a f p t at_p asks = rw asks (ap (λ q. timed_out a f q t) at_p)

timed_out-src :
    (a : Alloc) (f : Fiber)
    → (set_src a [] Rslt.req_timeout 0 f.seq_idx 0 f.wait_req_id f).src ≡ record {
      thread_idx = 0;
      seq_idx = f.seq_idx;
      req_id = f.wait_req_id;
      result = Rslt.req_timeout;
      client_id = 0;
      msg = [];
    }
unfolding set_src
timed_out-src a f =
    ap
      (λ (m : Bytes). record {
        thread_idx = 0;
        seq_idx = f.seq_idx;
        req_id = f.wait_req_id;
        result = Rslt.req_timeout;
        client_id = 0;
        msg = m;
      })
      (set_src_whole a [] Rslt.req_timeout 0 f.seq_idx 0 f.wait_req_id f (inl (omega arith)))

time_out-IsOver :
    (a : Alloc) (f : Fiber) (p : Ptr) (t : Thread)
    → f.ptr ≡ p
    → f.waiting_reply ≡ true
    → HasOwnIds t
    → f.wait_req_id < t.next_req_id
    → IsOver f.wait_req_id (time_out a f t) × ((time_out a f t).next_req_id ≡ t.next_req_id)
unfolding pending_take
time_out-IsOver a f p t at_p asks ids given =
    let over = time_out_asks a f p t at_p asks in
    let same = ap (λ (u : Thread). u.next_req_id) over in
    (
      record {
        given = omega (arith, same);
        unknown =
            ap (λ (u : Thread). peek f.wait_req_id u.pending) over
            ∙ peek-unlink-none f.wait_req_id t.pending ids.distinct;
      },
      same,
    )

-- A timer that fires on a fiber that waits for a reply: the entry of its request is taken, and the
-- fiber runs with the result REQ_TIMEOUT and no message under the id of the request. If the ids of the
-- module's requests are distinct and below its counter, and what the fiber then calls does not wrap the
-- counter, then once the fiber has run no request waits under that id, none of those the fiber has made since,
-- and a reply under it changes nothing.
pub fire_timer_timeout :
    (now : Timespec) (w v : Turn) (p : Ptr) (f : Fiber) (t : Thread) (e : Ev)
    → find_fiber p t.fibers ≡ some f
    → is_due now t.locked_by f ≡ true
    → f.waiting_reply ≡ true
    → e.req_id ≡ f.wait_req_id
    → HasOwnIds t
    → f.wait_req_id < t.next_req_id
    → t.next_req_id + length w.burst.calls < 2 ^ 32
    → let u = time_out w.alloc f t in
      let after = fire_timer now w p t in
      (after ≡ resume p w.burst u)
      × (Option.map (λ (g : Fiber). g.src) (find_fiber p u.fibers)
          ≡ some (record {
            thread_idx = 0;
            seq_idx = f.seq_idx;
            req_id = f.wait_req_id;
            result = Rslt.req_timeout;
            client_id = 0;
            msg = [];
          }))
      × (pending_peek after.m e.req_id ≡ none)
      × (handle_reply v e after ≡ some after)
unfolding pending_take pending_peek set_src
fire_timer_timeout now w v p f t e there due asks same ids given room =
    let here = find_fiber-ptr p t.fibers f there in
    let over = time_out_asks w.alloc f p t here asks in
    let fires = fire_timer_fires now w p f t there due in
    let (gone, counter) = time_out-IsOver w.alloc f p t here asks ids given in
    let ran =
      resume-IsOver p f.wait_req_id w.burst (time_out w.alloc f t) (omega (arith, counter, room))
        gone in
    let unknown : pending_peek (fire_timer now w p t).m e.req_id ≡ none =
      ap (λ (u : Thread). peek e.req_id u.pending) fires
      ∙ ap (λ id. peek id (resume p w.burst (time_out w.alloc f t)).pending) same
      ∙ ran.unknown in
    (
      fires,
      ap (λ (u : Thread). Option.map (λ (g : Fiber). g.src) (find_fiber p u.fibers)) over
          ∙ ap (Option.map (λ (g : Fiber). g.src)) (
              find_fiber-write p (set_src w.alloc [] Rslt.req_timeout 0 f.seq_idx 0 f.wait_req_id)
                t.fibers f (λ g h. h) there)
          ∙ ap some (timed_out-src w.alloc f),
      unknown,
      handle_reply_unknown v e (fire_timer now w p t) unknown,
    )

pub idle_timer :
    (now : Timespec) (locked : Option Ptr) (f : Fiber)
    → (f.waiting_timer ≡ false)
      ⊎ (ts_lt now f.deadline ≡ true)
      ⊎ ((q : Ptr) × (locked ≡ some q) × (f.ptr ≢ q))
    → is_due now locked f ≡ false
idle_timer now locked f (inl off) = ground arith
idle_timer now locked f (inr (inl early)) = ground arith
idle_timer now locked f (inr (inr (q, held, other))) = ground arith

-- A timer that is off, or not due, or whose fiber another fiber's lock holds back, does nothing.
pub fire_timer_waits :
    (now : Timespec) (w : Turn) (p : Ptr) (f : Fiber) (t : Thread)
    → find_fiber p t.fibers ≡ some f
    → (f.waiting_timer ≡ false)
      ⊎ (ts_lt now f.deadline ≡ true)
      ⊎ ((q : Ptr) × (t.locked_by ≡ some q) × (f.ptr ≢ q))
    → fire_timer now w p t ≡ t
fire_timer_waits now w p f t there h = fire_timer_skips now w p t (λ g e.
    subst (λ x. is_due now t.locked_by x ≡ false) (some_inj (sym there ∙ e))
      (idle_timer now t.locked_by f h))
