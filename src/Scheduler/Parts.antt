-- ===== src/Scheduler/Parts.antt =====
-- What handling one event does to the fibers that are there, to the lock and to the deferred events.
use coseq.Base.{
  ℕ, suc, ◌≤◌, ◌<◌, ◌≡◌, ◌≢◌, refl, ap, ◌∙◌, List, ◌∷◌, Option, none, some, true, false, arith,
  Bool-cases, inl, inr, ℤ, ◌⊎◌, to_u8,
}
use Prim.Native.String.{String}
use coseq.Types.{Bytes, Ev, EvType, Fiber, Module, Ptr, Rslt, Thread, external}
use coseq.Fibers.{find_fiber, set_src, new_fiber, blank_fiber}
use coseq.Event.{defer_ev}
use coseq.Waiting.{pending_peek, pending_take}
use coseq.Thread.{on_module, on_fiber}
use coseq.Sequence.Frame.{
  Frame, Frame-trans, write-Frame, resume-Frame, LeavesLock, resume-locked_by,
}
use coseq.Scheduler.{
  Turn, queue_reply, source_of_reply, awaits, deliver_reply, launch, notify_with, receive_notify,
  handle_reply, handle_event, must_defer, start_sequence, dispatch,
}

-- Delivering a reply is a matter of its fiber alone.
pub deliver_reply-Frame :
    (w : Turn) (e : Ev) (f : Fiber) (t : Thread) → Frame f.ptr t (deliver_reply w e f t)
unfolding deliver_reply
deliver_reply-Frame w e f t = elim (Bool-cases (awaits e f)) [
  | inl now ↦ rw now (
      Frame-trans f.ptr t (on_fiber f.ptr (source_of_reply w.alloc e) t) _
        (write-Frame f.ptr _ t _ (λ g h. h) refl refl)
        (resume-Frame f.ptr w.burst (on_fiber f.ptr (source_of_reply w.alloc e) t)))
  | inr later ↦
      rw later (write-Frame f.ptr (queue_reply w.alloc e) t _ (λ g h. ground arith) refl refl)
]

pub deliver_reply-locked_by :
    (w : Turn) (e : Ev) (f : Fiber) (t : Thread)
    → LeavesLock w.burst.calls
    → (deliver_reply w e f t).locked_by ≡ t.locked_by
unfolding deliver_reply
deliver_reply-locked_by w e f t h = elim (Bool-cases (awaits e f)) [
  | inl now ↦
      rw now (resume-locked_by f.ptr w.burst (on_fiber f.ptr (source_of_reply w.alloc e) t) h)
  | inr later ↦ rw later
]

-- `t'` has the fibers of `t` as they were, perhaps new ones, and the same deferred events.
pub record Grows (t t' : Thread) : Type 0 where
  pub next_le : t.next_ptr ≤ t'.next_ptr
  pub olds : (q : Ptr) → q < t.next_ptr → find_fiber q t'.fibers ≡ find_fiber q t.fibers
  pub deferred : t'.deferred ≡ t.deferred
  pub inbox : t'.inbox ≡ t.inbox
  pub stop : t'.stop ≡ t.stop
  pub seqs : t'.seqs ≡ t.seqs
  pub nr_seq : t'.nr_seq ≡ t.nr_seq

pub Grows-refl : (t : Thread) → Grows t t
Grows-refl t = record {
  next_le = omega arith;
  olds = λ q h. refl;
  deferred = refl;
  inbox = refl;
  stop = refl;
  seqs = refl;
  nr_seq = refl;
}

-- The code of a fiber that is new is none of the old fibers' business.
Frame-Grows :
    (t u t' : Thread) → Grows t u → t.next_ptr < u.next_ptr → Frame t.next_ptr u t' → Grows t t'
Frame-Grows t u t' g lt fr = record {
  next_le = omega (arith, g.next_le, ap (λ x. x.next_ptr) fr.same_fixed);
  olds = λ q h. fr.others q (λ e. omega (arith, e)) ∙ g.olds q h;
  deferred = ap (λ x. x.deferred) fr.same_fixed ∙ g.deferred;
  inbox = ap (λ x. x.inbox) fr.same_fixed ∙ g.inbox;
  stop = ap (λ x. x.stop) fr.same_fixed ∙ g.stop;
  seqs = ap (λ x. x.seqs) fr.same_fixed ∙ g.seqs;
  nr_seq = ap (λ x. x.nr_seq) fr.same_fixed ∙ g.nr_seq;
}

pub find_fiber-cons_ne :
    (q : Ptr) (f : Fiber) (fs : List Fiber) → f.ptr ≢ q → find_fiber q (f ∷ fs) ≡ find_fiber q fs
unfolding find_fiber
find_fiber-cons_ne q f fs h = ground arith

-- A launch of a fiber that `new_fiber` made, or did not make.
module _ (w : Turn) (name : String) (t : Thread) (fn seq_idx : ℕ) (reply_to : ℤ) (reply_req_id : ℕ)
    (msg : Bytes) (r : Rslt) (thread_idx client_id : ℕ) where
  abbrev pub made : Module × Option Ptr
  made = new_fiber w.alloc t.m fn seq_idx reply_to reply_req_id msg r thread_idx client_id

  abbrev pub born : Fiber
  born =
      set_src w.alloc msg r thread_idx seq_idx client_id reply_req_id
        (blank_fiber t.next_ptr fn seq_idx reply_to reply_req_id)

  abbrev pub hatched : Thread
  hatched = record t { m = record t.m { fibers = born ∷ t.fibers; next_ptr = suc t.next_ptr } }

  pub made_cases : (made ≡ (t.m, none)) ⊎ (made ≡ (hatched.m, some t.next_ptr))
  unfolding new_fiber
  made_cases = ground arith

  hatched-Grows : Grows t hatched
  unfolding set_src blank_fiber
  hatched-Grows = record {
    next_le = omega arith;
    olds = λ q h. find_fiber-cons_ne q born t.fibers (λ e. omega (arith, e));
    deferred = refl;
    inbox = refl;
    stop = refl;
    seqs = refl;
    nr_seq = refl;
  }

  pub launch-Grows : Grows t (launch w.burst name t made)
  unfolding launch
  launch-Grows = elim made_cases [
    | inl e ↦ rw e (Grows-refl t)
    | inr e ↦ rw e (
        Frame-Grows t hatched _ hatched-Grows (omega arith) (
          Frame-trans t.next_ptr hatched
            (on_fiber t.next_ptr (λ f. record f { seq_name = some name }) hatched) _
            (write-Frame t.next_ptr _ hatched _ (λ g h. h) refl refl)
            (resume-Frame t.next_ptr w.burst _)))
  ]

  pub launch-locked_by :
      LeavesLock w.burst.calls → (launch w.burst name t made).locked_by ≡ t.locked_by
  unfolding launch
  launch-locked_by h = elim made_cases [
    | inl e ↦ rw e
    | inr e ↦ rw e (resume-locked_by t.next_ptr w.burst _ h)
  ]

notify_with-Grows :
    (w : Turn) (e : Ev) (t : Thread) (fn : Option ℕ) → Grows t (notify_with w e t fn)
unfolding notify_with
notify_with-Grows w e t none = Grows-refl t
notify_with-Grows w e t (some fn) =
    launch-Grows w "recv_notify" t fn 0 external 0 e.msg Rslt.success (to_u8 e.requester)
      e.client_id

pub receive_notify-Grows : (w : Turn) (e : Ev) (t : Thread) → Grows t (receive_notify w e t)
unfolding receive_notify
receive_notify-Grows w e t = notify_with-Grows w e t t.recv_notify

notify_with-locked_by :
    (w : Turn) (e : Ev) (t : Thread) (fn : Option ℕ)
    → LeavesLock w.burst.calls
    → (notify_with w e t fn).locked_by ≡ t.locked_by
unfolding notify_with
notify_with-locked_by w e t none h = refl
notify_with-locked_by w e t (some fn) h =
    launch-locked_by w "recv_notify" t fn 0 external 0 e.msg Rslt.success (to_u8 e.requester)
      e.client_id h

pub receive_notify-locked_by :
    (w : Turn) (e : Ev) (t : Thread)
    → LeavesLock w.burst.calls
    → (receive_notify w e t).locked_by ≡ t.locked_by
unfolding receive_notify
receive_notify-locked_by w e t h = notify_with-locked_by w e t t.recv_notify h

-- The module once the entry that waits for the reply is taken.
abbrev pub taken : Ev → Thread → Thread
taken e t = on_module (λ m. (pending_take m e.req_id).0) t

-- A reply that a fiber waits for reaches that fiber, unless it has been freed.
pub handle_reply_found :
    (w : Turn) (e : Ev) (t : Thread) (p : Ptr) (f : Fiber)
    → pending_peek t.m e.req_id ≡ some p
    → find_fiber p t.fibers ≡ some f
    → handle_reply w e t ≡ some (deliver_reply w e f (taken e t))
unfolding handle_reply
handle_reply_found w e t p f h k = rw (h, handle_reply) (rw (k, handle_reply))

pub handle_reply_freed :
    (w : Turn) (e : Ev) (t : Thread) (p : Ptr)
    → pending_peek t.m e.req_id ≡ some p
    → find_fiber p t.fibers ≡ none
    → handle_reply w e t ≡ none
unfolding handle_reply
handle_reply_freed w e t p h k = rw (h, handle_reply) (rw (k, handle_reply))

pub handle_reply_unknown :
    (w : Turn) (e : Ev) (t : Thread)
    → pending_peek t.m e.req_id ≡ none
    → handle_reply w e t ≡ some t
unfolding handle_reply
handle_reply_unknown w e t h = rw (h, handle_reply)

-- What an event comes to, by whether it is deferred and by its type.
pub handle_event_waits :
    (w : Turn) (e : Ev) (t : Thread)
    → must_defer t.m e ≡ true
    → handle_event w e t ≡ some (on_module (λ m. defer_ev m e) t)
unfolding handle_event
handle_event_waits w e t h = rw h

pub handle_event_goes :
    (w : Turn) (e : Ev) (t : Thread)
    → must_defer t.m e ≡ false
    → handle_event w e t ≡ dispatch w e t
unfolding handle_event
handle_event_goes w e t h = rw h

pub dispatch_start :
    (w : Turn) (e : Ev) (t : Thread) → e.type ≡ EvType.start → dispatch w e t ≡ start_sequence w e t
unfolding dispatch
dispatch_start w e t h = ground arith

pub dispatch-reply :
    (w : Turn) (e : Ev) (t : Thread) → e.type ≡ EvType.reply → dispatch w e t ≡ handle_reply w e t
unfolding dispatch
dispatch-reply w e t h = ground arith

pub dispatch-notify :
    (w : Turn) (e : Ev) (t : Thread)
    → e.type ≡ EvType.notify
    → dispatch w e t ≡ some (receive_notify w e t)
unfolding dispatch
dispatch-notify w e t h = ground arith

pub EvType-cases : (ty : EvType) → (ty ≡ EvType.start) ⊎ (ty ≡ EvType.reply) ⊎ (ty ≡ EvType.notify)
EvType-cases EvType.start = inl refl
EvType-cases EvType.reply = inr (inl refl)
EvType-cases EvType.notify = inr (inr refl)
