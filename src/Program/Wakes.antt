-- ===== src/Program/Wakes.antt =====
-- A step of the scheduler is its resumption: `wake_event` and `wake_timer` say which fiber an event or
-- a timer resumes, and in which state.
use coseq.Base.{ℕ, ◌≡◌, refl, ap, Option, none, some, Bool-cases, inl, inr, arith, get_elem?, to_u8}
use Prim.Native.String.{String}
use coseq.Time.{Timespec}
use coseq.Types.{Ev, EvType, Module, Ptr, Rslt, SeqEntry, Thread, external}
use coseq.Fibers.{new_fiber}
use coseq.Sequence.{Burst}
use coseq.Scheduler.{
  Turn, deliver_reply, handle_reply, launch, start_entry, start_sequence, notify_with,
  receive_notify, must_defer, dispatch, handle_event, fire_timer,
}
use coseq.Program.Host.{
  Wake, woken_by, wake_reply, wake_new, wake_entry, wake_start, wake_notify, wake_by_type,
  wake_event, wake_timer,
}

abbrev pub ran_by : Burst → Option Wake → Option Thread
ran_by b none = none
ran_by b (some k) = some (woken_by b k)

module _ (w : Turn) (e : Ev) (t : Thread) where
  wake_reply_lem : handle_reply w e t ≡ ran_by w.burst (wake_reply w.alloc e t)
  unfolding handle_reply deliver_reply wake_reply woken_by
  wake_reply_lem = ground arith

  launch_lem :
      (name : String) (made : Module × Option Ptr)
      → launch w.burst name t made ≡ woken_by w.burst (wake_new name t made)
  unfolding launch woken_by wake_new
  launch_lem name (m, none) = refl
  launch_lem name (m, some p) = refl

  wake_entry_lem :
      (s : Option SeqEntry) → start_entry w e t s ≡ ran_by w.burst (wake_entry w.alloc e t s)
  unfolding start_entry wake_entry
  wake_entry_lem none = refl
  wake_entry_lem (some s) = ap some (launch_lem s.name _)

  wake_start_lem : start_sequence w e t ≡ ran_by w.burst (wake_start w.alloc e t)
  unfolding start_sequence wake_start woken_by
  wake_start_lem = ground (arith, wake_entry_lem (get_elem? t.seqs e.seq_idx))

  wake_notify_lem :
      (fn : Option ℕ) → notify_with w e t fn ≡ woken_by w.burst (wake_notify w.alloc e t fn)
  unfolding notify_with wake_notify woken_by
  wake_notify_lem none = refl
  wake_notify_lem (some fn) =
      launch_lem "recv_notify"
        (new_fiber w.alloc t.m fn 0 external 0 e.msg Rslt.success (to_u8 e.requester) e.client_id)

  wake_by_type_lem :
      (ty : EvType)
      → (elim ty [
        | EvType.start ↦ start_sequence w e t
        | EvType.reply ↦ handle_reply w e t
        | EvType.notify ↦ some (receive_notify w e t)
      ])
        ≡ ran_by w.burst (wake_by_type w.alloc e t ty)
  unfolding wake_by_type receive_notify
  wake_by_type_lem EvType.start = wake_start_lem
  wake_by_type_lem EvType.reply = wake_reply_lem
  wake_by_type_lem EvType.notify = ap some (wake_notify_lem t.recv_notify)

  pub handle_event-wake_event : handle_event w e t ≡ ran_by w.burst (wake_event w.alloc e t)
  unfolding handle_event wake_event woken_by dispatch
  handle_event-wake_event = elim (Bool-cases (must_defer t.m e)) [
    | inl defer ↦ rw (defer, handle_event, wake_event) refl
    | inr now ↦ rw (now, handle_event, wake_event) (wake_by_type_lem e.type)
  ]

pub fire_timer-wake_timer :
    (now : Timespec) (w : Turn) (p : Ptr) (t : Thread)
    → fire_timer now w p t ≡ woken_by w.burst (wake_timer now w.alloc p t)
unfolding fire_timer wake_timer woken_by
fire_timer-wake_timer now w p t = ground arith
