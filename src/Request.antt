-- ===== src/Request.antt =====
-- The calls of a sequence that send and that sleep: `coseq_request`, `coseq_request_timeout`,
-- `coseq_request_async`, `coseq_send`, `coseq_reply`, `coseq_wait_timeout` and the accessors, of
-- coseq/coseq.c. The fiber is `p_if->f`. A call that gives up the processor ends here at its
-- `swapcontext`; what it does after that stands in Sequence.antt.
use Prim.Native.String.{String}
use coseq.Base.{
  ℕ, zero, Bool, true, false, Option, none, some, ℤ, pos, negsuc, inc, to_u8, if◌then◌else◌,
}
use coseq.Time.{Timespec, ts_add_ms}
use coseq.Types.{Alloc, Bytes, Effect, EvType, Fiber, Point, Rslt, Src, Thread}
use coseq.Event.{make_ev}
use coseq.Waiting.{pending_add}
use coseq.Thread.{on_module, on_fiber, emit, bump_req_id}

-- The START event of a request, posted to the module.
unfoldable pub post_start : Alloc → Thread → ℕ → ℕ → ℕ → Bytes → Thread
unfolding make_ev
post_start a t rid module_idx seq_idx msg =
    emit
      (Effect.post_to (pos module_idx)
        (make_ev a EvType.start seq_idx rid (pos t.idx) Rslt.ignore msg))
      t

-- `with_timeout` and `timeout_msec` are one optional number. `now` is the clock at the call.
unfoldable pub arm_timer : Timespec → Option ℕ → Fiber → Fiber
arm_timer now none f = f
arm_timer now (some ms) f = record f { waiting_timer = true; deadline = ts_add_ms now ms }

unfoldable pub request_common :
    Alloc → Timespec → Thread → Fiber → ℕ → ℕ → Bytes → Option ℕ → Thread
unfolding pending_add post_start arm_timer
request_common a now t f module_idx seq_idx msg timeout =
    let rid = t.next_req_id in
    let added = on_module (λ m. pending_add a m rid f.ptr) (bump_req_id t) in
    let parked =
      on_fiber f.ptr
        (λ g.
          arm_timer now timeout
            (record g { waiting_reply = true; wait_req_id = rid; ctx = Point.requesting }))
        added in
    post_start a parked rid module_idx seq_idx msg

unfoldable pub coseq_request : Alloc → Thread → Fiber → ℕ → ℕ → Bytes → Thread
unfolding request_common
coseq_request a t f module_idx seq_idx msg =
    request_common a (record { tv_sec = 0; tv_nsec = 0 }) t f module_idx seq_idx msg none

unfoldable pub coseq_request_timeout :
    Alloc → Timespec → Thread → Fiber → ℕ → ℕ → Bytes → ℕ → Thread
unfolding request_common
coseq_request_timeout a now t f module_idx seq_idx msg timeout_msec =
    request_common a now t f module_idx seq_idx msg (some timeout_msec)

unfoldable pub coseq_request_async : Alloc → Thread → Fiber → ℕ → ℕ → Bytes → Thread × ℕ
unfolding pending_add post_start
coseq_request_async a t f module_idx seq_idx msg =
    let rid = t.next_req_id in
    let added = on_module (λ m. pending_add a m rid f.ptr) (bump_req_id t) in
    let counted =
      on_fiber f.ptr (λ g. record g { async_outstanding = inc g.async_outstanding }) added in
    (post_start a counted rid module_idx seq_idx msg, rid)

unfoldable pub coseq_send : Alloc → Thread → Fiber → ℕ → ℕ → Bytes → Thread
unfolding post_start
coseq_send a t f module_idx seq_idx msg =
    post_start a (bump_req_id t) t.next_req_id module_idx seq_idx msg

abbrev pub is_external : ℤ → Bool
is_external (negsuc zero) = true
is_external _ = false

unfoldable pub coseq_reply : Alloc → Thread → Fiber → Rslt → Bytes → Thread
unfolding make_ev
coseq_reply a t f result msg =
    if is_external f.reply_to
    then emit (Effect.deliver f.reply_req_id result msg) t
    else emit
        (Effect.post_to f.reply_to (make_ev a EvType.reply 0 f.reply_req_id (pos t.idx) result msg))
        t

unfoldable pub coseq_wait_timeout : Timespec → Thread → Fiber → ℕ → Thread
coseq_wait_timeout now t f msec =
    on_fiber f.ptr
      (λ g. record g { waiting_timer = true; deadline = ts_add_ms now msec; ctx = Point.sleeping })
      t

unfoldable pub coseq_source : Fiber → Src
coseq_source f = f.src

unfoldable pub coseq_self_module : Thread → ℕ
coseq_self_module t = to_u8 (pos t.idx)

unfoldable pub coseq_self_seq : Fiber → ℕ
coseq_self_seq f = f.seq_idx

unfoldable pub coseq_self_user : Thread → ℕ
coseq_self_user t = t.user

unfoldable pub coseq_self_seq_name : Fiber → String
coseq_self_seq_name f = elim f.seq_name [ none ↦ "" | some name ↦ name ]
