-- ===== src/Scheduler/Live.antt =====
-- Every entry that waits for a reply names a fiber that is there: what keeps this.
use coseq.Base.{
  ℕ, suc, ◌≡◌, sym, ◌∙◌, List, [], ◌∷◌, some, true, ◌⊎◌, arith, Bool-cases, Option-cases, inl, inr,
  All, All-trivial, ℤ,
}
use Prim.Native.String.{String}
use mathlib.Core.Path.{subst}
use coseq.Time.{Timespec}
use coseq.Types.{Alloc, Bytes, Ev, Fiber, Pending, Ptr, Rslt, Thread}
use coseq.Waiting.{unlink, pending_take}
use coseq.Fibers.{find_fiber, ptrs, set_src, new_fiber}
use coseq.Fibers.Laws.{find_fiber-ptr, ptrs-modify, has_ptr, find-has_ptr}
use coseq.Thread.{on_module, on_fiber}
use coseq.Request.{
  coseq_request, coseq_request_timeout, coseq_request_async, coseq_send, coseq_reply,
  coseq_wait_timeout,
}
use coseq.Notify.{coseq_reg_notify, coseq_unreg_notify, coseq_notify}
use coseq.Lock.{coseq_lock, coseq_unlock}
use coseq.Sequence.{Call, Burst, exec_call, finish, clear_waits, resume}
use coseq.Sequence.Rule.{come_back-ptr, resume_rule}
use coseq.Sequence.Frame.{exec_call-Frame}
use coseq.Scheduler.Parts.{made_cases, hatched}
use coseq.Scheduler.{
  Turn, queue_reply, source_of_reply, awaits, deliver_reply, launch, time_out, fire_timer,
  fire_timers, is_due,
}

abbrev pub AllLive : List Pending → List Ptr → Type 0
AllLive ps qs = All (λ e. has_ptr e.f qs ≡ true) ps

abbrev pub IsLive : Thread → Type 0
IsLive t = AllLive t.pending (ptrs t.fibers)

-- A call adds no entry, or one of its own fiber.
exec_call-pending :
    (t : Thread) (f : Fiber) (c : Call)
    → ((exec_call t f c).0.pending ≡ t.pending)
      ⊎ ((id : ℕ) × ((exec_call t f c).0.pending ≡ record { req_id = id; f = f.ptr } ∷ t.pending))
unfolding exec_call coseq_request coseq_request_timeout coseq_request_async coseq_send coseq_reply
    coseq_wait_timeout coseq_reg_notify coseq_unreg_notify coseq_notify coseq_lock coseq_unlock
exec_call-pending t f (Call.request a mi si msg) = elim (Bool-cases a.entry) [
  | inl ok ↦ inr (t.next_req_id, rw ok)
  | inr fail ↦ inl (rw fail)
]
exec_call-pending t f (Call.request_timeout a now mi si msg ms) = elim (Bool-cases a.entry) [
  | inl ok ↦ inr (t.next_req_id, rw ok)
  | inr fail ↦ inl (rw fail)
]
exec_call-pending t f (Call.request_async a mi si msg) = elim (Bool-cases a.entry) [
  | inl ok ↦ inr (t.next_req_id, rw ok)
  | inr fail ↦ inl (rw fail)
]
exec_call-pending t f c = inl (ground arith)

exec_call-IsLive :
    (t : Thread) (f : Fiber) (c : Call)
    → find_fiber f.ptr t.fibers ≡ some f
    → IsLive t
    → IsLive (exec_call t f c).0
exec_call-IsLive t f c e live =
    subst (AllLive (exec_call t f c).0.pending) (sym same) (elim (exec_call-pending t f c) [
      | inl kept ↦ subst (λ ps. AllLive ps (ptrs t.fibers)) (sym kept) live
      | inr (id, added) ↦
          subst (λ ps. AllLive ps (ptrs t.fibers)) (sym added)
            (find-has_ptr f.ptr t.fibers f e, live)
    ])
  where
    same : ptrs (exec_call t f c).0.fibers ≡ ptrs t.fibers
    same = (exec_call-Frame t f c).same_ptrs

write-IsLive :
    (p : Ptr) (h : Fiber → Fiber) (t : Thread)
    → ((f : Fiber) → f.ptr ≡ p → (h f).ptr ≡ p)
    → IsLive t
    → IsLive (on_fiber p h t)
write-IsLive p h t k live = subst (AllLive t.pending) (sym (ptrs-modify p h t.fibers k)) live

pub resume-IsLive : (p : Ptr) (b : Burst) (t : Thread) → IsLive t → IsLive (resume p b t)
unfolding finish clear_waits
resume-IsLive p b t live =
    resume_rule IsLive (λ _. Unit {0}) p
      (λ u f c e q h.
        exec_call-IsLive u f c
          (subst (λ k. find_fiber k u.fibers ≡ some f) (sym (find_fiber-ptr p u.fibers f e)) e) h)
      (λ u h. write-IsLive p _ u (λ g e. e) h) IsLive b
      (λ u h. write-IsLive p clear_waits u (λ g e. e) h)
      (λ u f e h.
        write-IsLive p _ u (λ g _. come_back-ptr b.allocs f ∙ find_fiber-ptr p u.fibers f e) h)
      (λ u e h. h) (λ u h. h) (All-trivial b.calls) t live

AllLive-unlink :
    (id : ℕ) (ps : List Pending) (qs : List Ptr) → AllLive ps qs → AllLive (unlink id ps) qs
unfolding unlink
AllLive-unlink id [] qs h = tt
AllLive-unlink id (p ∷ ps) qs h = ground (arith, AllLive-unlink id ps qs h.1)

pub pending_take-IsLive :
    (id : ℕ) (t : Thread) → IsLive t → IsLive (on_module (λ m. (pending_take m id).0) t)
unfolding pending_take
pending_take-IsLive id t live = AllLive-unlink id t.pending (ptrs t.fibers) live

pub deliver_reply-IsLive :
    (w : Turn) (e : Ev) (f : Fiber) (t : Thread) → IsLive t → IsLive (deliver_reply w e f t)
unfolding deliver_reply
deliver_reply-IsLive w e f t live = elim (Bool-cases (awaits e f)) [
  | inl now ↦ rw now (
      resume-IsLive f.ptr w.burst (on_fiber f.ptr (source_of_reply w.alloc e) t)
        (write-IsLive f.ptr _ t (λ g h. h) live))
  | inr later ↦ rw later (write-IsLive f.ptr (queue_reply w.alloc e) t (λ g h. ground arith) live)
]

AllLive-cons : (p : Ptr) (ps : List Pending) (qs : List Ptr) → AllLive ps qs → AllLive ps (p ∷ qs)
unfolding has_ptr
AllLive-cons p [] qs h = tt
AllLive-cons p (e ∷ ps) qs h = (ground arith, AllLive-cons p ps qs h.1)

-- A launch makes no entry but those of the new fiber's calls.
pub launch-IsLive :
    (w : Turn) (name : String) (t : Thread) (fn seq_idx : ℕ) (reply_to : ℤ) (reply_req_id : ℕ)
    (msg : Bytes) (r : Rslt) (thread_idx client_id : ℕ)
    → IsLive t
    → IsLive (
        launch w.burst name t
          (new_fiber w.alloc t.m fn seq_idx reply_to reply_req_id msg r thread_idx client_id))
unfolding launch ptrs
launch-IsLive w name t fn seq_idx reply_to reply_req_id msg r thread_idx client_id live =
    elim (made_cases w name t fn seq_idx reply_to reply_req_id msg r thread_idx client_id) [
      | inl e ↦ rw e live
      | inr e ↦ rw e (
          resume-IsLive t.next_ptr w.burst
            (on_fiber t.next_ptr (λ f. record f { seq_name = some name }) new)
            (write-IsLive t.next_ptr _ new (λ g h. h)
              (AllLive-cons _ t.pending (ptrs t.fibers) live)))
    ]
  where
    new : Thread
    new = hatched w name t fn seq_idx reply_to reply_req_id msg r thread_idx client_id

time_out-IsLive : (a : Alloc) (f : Fiber) (t : Thread) → IsLive t → IsLive (time_out a f t)
unfolding time_out set_src
time_out-IsLive a f t live = elim (Bool-cases f.waiting_reply) [
  | inl asks ↦ rw asks (
      write-IsLive f.ptr _ (on_module (λ m. (pending_take m f.wait_req_id).0) t) (λ g h. h)
        (pending_take-IsLive f.wait_req_id t live))
  | inr idle ↦ rw idle live
]

fire_timer-IsLive :
    (now : Timespec) (w : Turn) (p : Ptr) (t : Thread) → IsLive t → IsLive (fire_timer now w p t)
unfolding fire_timer
fire_timer-IsLive now w p t live = elim (Option-cases (find_fiber p t.fibers)) [
  | inl e ↦ rw (e, fire_timer) live
  | inr (f, e) ↦
      rw (e, fire_timer)
        (elim (Bool-cases (is_due now t.locked_by f)) [
          | inl due ↦
              rw due
                (resume-IsLive p w.burst (time_out w.alloc f t) (time_out-IsLive w.alloc f t live))
          | inr idle ↦ rw idle live
        ])
]

pub fire_timers-IsLive :
    (now : Timespec) (turns : ℕ → Turn) (ps : List Ptr) (t : Thread)
    → IsLive t
    → IsLive (fire_timers now turns ps t)
unfolding fire_timers
fire_timers-IsLive now turns [] t live = live
fire_timers-IsLive now turns (p ∷ ps) t live =
    fire_timers-IsLive now (λ i. turns (suc i)) ps _ (fire_timer-IsLive now (turns 0) p t live)
