-- ===== src/Scheduler/Balance/Events.antt =====
-- Every event keeps the accounts of all fibers.
use coseq.Base.{
  ℕ, zero, suc, ◌+◌, ◌^◌, ◌<◌, List, [], ◌∷◌, Option, none, some, arith, length, to_u8, Bool-cases,
  Option-cases, inl, inr, leb, get_elem?,
}
use coseq.Types.{Ev, Rslt, SeqEntry, Thread, external}
use coseq.Event.{defer_ev}
use coseq.Thread.{on_module}
use coseq.Scheduler.{
  Turn, start_entry, start_sequence, notify_with, receive_notify, handle_event, handle_events,
  must_defer, dispatch,
}
use coseq.Scheduler.Parts.{
  handle_event_waits, handle_event_goes, dispatch_start, dispatch-reply, dispatch-notify,
  EvType-cases,
}
use coseq.Scheduler.Balance.{Books, nobody}
use coseq.Scheduler.Balance.Replies.{
  Kept, Kept-same, Keeps, Keeps-some, Keeps-none, handle_reply-Keeps,
}
use coseq.Scheduler.Balance.Launch.{launch-Kept}

start_sequence-Keeps :
    (w : Turn) (e : Ev) (t : Thread)
    → Books nobody t
    → t.next_req_id + length w.burst.calls < 2 ^ 32
    → Keeps (length w.burst.calls) t (start_sequence w e t)
unfolding start_sequence start_entry
start_sequence-Keeps w e t b room = elim (Bool-cases (leb t.nr_seq e.seq_idx)) [
  | inl invalid ↦ rw invalid (Keeps-some _ t t (Kept-same _ t b))
  | inr valid ↦ rw valid (entry (get_elem? t.seqs e.seq_idx))
]
  where
    entry : (s : Option SeqEntry) → Keeps (length w.burst.calls) t (start_entry w e t s)
    entry none = Keeps-none _ t
    entry (some s) = Keeps-some _ t _ (
        launch-Kept w s.name t s.fn e.seq_idx e.requester e.req_id e.msg Rslt.ignore
          (to_u8 e.requester) 0 b room)

receive_notify-Kept :
    (w : Turn) (e : Ev) (t : Thread)
    → Books nobody t
    → t.next_req_id + length w.burst.calls < 2 ^ 32
    → Kept (length w.burst.calls) t (receive_notify w e t)
unfolding receive_notify notify_with
receive_notify-Kept w e t b room = called t.recv_notify
  where
    called : (fn : Option ℕ) → Kept (length w.burst.calls) t (notify_with w e t fn)
    called none = Kept-same _ t b
    called (some fn) =
        launch-Kept w "recv_notify" t fn 0 external 0 e.msg Rslt.success (to_u8 e.requester)
          e.client_id b room

dispatch-Keeps :
    (w : Turn) (e : Ev) (t : Thread)
    → Books nobody t
    → t.next_req_id + length w.burst.calls < 2 ^ 32
    → Keeps (length w.burst.calls) t (dispatch w e t)
dispatch-Keeps w e t b room = elim (EvType-cases e.type) [
  | inl ty ↦ rw (dispatch_start w e t ty) (start_sequence-Keeps w e t b room)
  | inr (inl ty) ↦ rw (dispatch-reply w e t ty) (handle_reply-Keeps w e t b room)
  | inr (inr ty) ↦
      rw (dispatch-notify w e t ty) (Keeps-some _ t _ (receive_notify-Kept w e t b room))
]

handle_event-Keeps :
    (w : Turn) (e : Ev) (t : Thread)
    → Books nobody t
    → t.next_req_id + length w.burst.calls < 2 ^ 32
    → Keeps (length w.burst.calls) t (handle_event w e t)
unfolding defer_ev
handle_event-Keeps w e t b room = elim (Bool-cases (must_defer t.m e)) [
  | inl later ↦ rw (handle_event_waits w e t later) (
      Keeps-some _ t (on_module (λ m. defer_ev m e) t) (
        record {
          book = b.book;
          fresh = b.fresh;
          order = b.order;
          below = b.below;
          distinct = b.distinct;
        },
        omega arith,
      ))
  | inr now ↦ rw (handle_event_goes w e t now) (dispatch-Keeps w e t b room)
]

-- How many calls the bursts of the first `n` turns have.
unfoldable pub calls_of : (ℕ → Turn) → ℕ → ℕ
calls_of turns zero = 0
calls_of turns (suc n) = length (turns 0).burst.calls + calls_of (λ i. turns (suc i)) n

pub handle_events-Keeps :
    (turns : ℕ → Turn) (es : List Ev) (t : Thread)
    → Books nobody t
    → t.next_req_id + calls_of turns (length es) < 2 ^ 32
    → Keeps (calls_of turns (length es)) t (handle_events turns es t)
unfolding handle_events calls_of
handle_events-Keeps turns [] t b room = Keeps-some _ t t (Kept-same _ t b)
handle_events-Keeps turns (e ∷ es) t b room = elim (Option-cases (handle_event (turns 0) e t)) [
  | inl dead ↦ rw (dead, handle_events) (Keeps-none _ t)
  | inr (u, good) ↦
      let (books, le) = handle_event-Keeps (turns 0) e t b (omega arith) u good in
      rw (good, handle_events)
        (λ v last.
          let (rest, more) =
            handle_events-Keeps (λ i. turns (suc i)) es u books (omega (arith, le)) v last in
          (rest, omega (arith, le, more)))
]
