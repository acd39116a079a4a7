-- ===== src/Wrapper/Iface.antt =====
-- `iface` of coseqpp/coseqpp_if.h. Its methods are calls of the C functions, with NULL and 0 for a
-- message that is not given; a `source &` that a method returns is what `set` makes of the result.
use Prim.Native.String.{String}
use coseq.Base.{some, ℕ, zero, suc, List, [], ◌∷◌, ◌++◌}
use coseq.Time.{Timespec}
use coseq.Types.{Alloc, Bytes, Fiber, Point, Src}
use coseq.Gather.{
  Taken, nothing, parked, got, wait_reply, woken, GatherEnd, finished, waits, out_of_fuel, rounds,
}
use coseq.Sequence.{Call}
use coseq.Request.{coseq_source, coseq_self_seq_name}
use coseq.Wrapper.Source.{Result, to_result, to_rslt, Reply, Source, set}

unfoldable pub get_source : Fiber → Source → Source
unfolding set coseq_source
get_source f s = set (some (coseq_source f)) s

abbrev pub request : Alloc → ℕ → ℕ → Call
request a module_idx seq_idx = Call.request a module_idx seq_idx []

abbrev pub request_msg : Alloc → ℕ → ℕ → Bytes → Call
request_msg = Call.request

abbrev pub request_timeout : Alloc → Timespec → ℕ → ℕ → ℕ → Call
request_timeout a now module_idx seq_idx timeout_msec =
    Call.request_timeout a now module_idx seq_idx [] timeout_msec

abbrev pub request_timeout_msg : Alloc → Timespec → ℕ → ℕ → Bytes → ℕ → Call
request_timeout_msg = Call.request_timeout

abbrev pub request_async : Alloc → ℕ → ℕ → Bytes → Call
request_async = Call.request_async

abbrev pub wait_one : Alloc → Call
wait_one = Call.wait_one

abbrev pub send : Alloc → ℕ → ℕ → Bytes → Call
send = Call.send

unfoldable pub reply : Alloc → Result → Call
unfolding to_rslt
reply a rslt = Call.reply a (to_rslt rslt) []

unfoldable pub reply_msg : Alloc → Result → Bytes → Call
unfolding to_rslt
reply_msg a rslt msg = Call.reply a (to_rslt rslt) msg

abbrev pub wait_timeout : Timespec → ℕ → Call
wait_timeout = Call.wait_timeout

abbrev pub reg_notify : Alloc → ℕ → Call
reg_notify = Call.reg_notify

abbrev pub unreg_notify : ℕ → ℕ → Call
unreg_notify = Call.unreg_notify

abbrev pub notify : (ℕ → Alloc) → ℕ → Call
notify allocs category = Call.notify allocs category []

abbrev pub notify_msg : (ℕ → Alloc) → ℕ → Bytes → Call
notify_msg = Call.notify

abbrev pub lock : Call
lock = Call.lock

abbrev pub unlock : Call
unlock = Call.unlock

abbrev pub get_sequence_name : Fiber → String
get_sequence_name = coseq_self_seq_name

-- One element of `out`.
unfoldable pub reply_of : Src → Reply
unfolding to_result
reply_of r = record { req_id = r.req_id; rslt = to_result r.result; msg = r.msg }

-- `gather_all` as far as it goes without waiting.
pub record GatheredAll : Type 0 where
  pub fiber : Fiber
  pub end : GatherEnd
  pub out : List Reply

unfoldable pub gather_all_next :
    (Fiber → List Reply → GatheredAll) → List Reply → Fiber × Taken → GatheredAll
unfolding reply_of
gather_all_next again out (f, nothing) = record { fiber = f; end = finished; out = out }
gather_all_next again out (f, parked) = record { fiber = f; end = waits; out = out }
gather_all_next again out (f, got r) = again f (out ++ reply_of r ∷ [])

-- `n` replies are in `out`; of the saved context this is what the model keeps.
unfoldable pub gather_all_loop : ℕ → (ℕ → Alloc) → Fiber → ℕ → List Reply → GatheredAll
unfolding gather_all_next
gather_all_loop zero allocs f n out = record { fiber = f; end = out_of_fuel; out = out }
gather_all_loop (suc k) allocs f n out =
    gather_all_next (λ g out'. gather_all_loop k (λ i. allocs (suc i)) g (suc n) out') out
      (wait_reply (allocs 0) (Point.gathering n) f)

unfoldable pub gather_all : (ℕ → Alloc) → Fiber → GatheredAll
unfolding gather_all_loop
gather_all allocs f = gather_all_loop (rounds f.rq) allocs f 0 []

-- The rest of it, after a wait in which the `n + 1`st reply came, with the first `n` in `out`.
unfoldable pub gather_all_resume : (ℕ → Alloc) → ℕ → List Reply → Fiber → GatheredAll
unfolding gather_all_loop woken reply_of
gather_all_resume allocs n out f =
    gather_all_loop (rounds f.rq) allocs (woken f) (suc n) (out ++ reply_of f.src ∷ [])
