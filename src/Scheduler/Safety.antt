-- ===== src/Scheduler/Safety.antt =====
-- No event is handled through a pointer to a freed fiber while every entry that waits names a fiber
-- that is there.
use coseq.Base.{
  ℕ, zero, suc, ◌≤◌, ◌<◌, ◌≡◌, refl, ap, List, [], ◌∷◌, Option, none, some, true, false, arith, leb,
  Bool-cases, Option-cases, inl, inr, to_u8, length, get_elem?,
}
use coseq.Types.{Ev, Pending, Ptr, Rslt, SeqEntry, Thread, external}
use coseq.Event.{defer_ev}
use coseq.Waiting.{pending_peek, pending_take, peek}
use coseq.Fibers.{ptrs}
use coseq.Fibers.Laws.{has_ptr, has_ptr-find}
use coseq.Thread.{on_module}
use coseq.Scheduler.{
  Turn, handle_reply, deliver_reply, start_entry, start_sequence, notify_with, receive_notify,
  must_defer, dispatch, handle_event, handle_events,
}
use coseq.Scheduler.Parts.{
  taken, handle_reply_found, handle_reply_unknown, handle_event_waits, handle_event_goes,
  dispatch_start, dispatch-reply, dispatch-notify, EvType-cases, Grows, deliver_reply-Frame,
  launch-Grows, receive_notify-Grows,
}
use coseq.Scheduler.Live.{IsLive, AllLive, launch-IsLive, deliver_reply-IsLive, pending_take-IsLive}

-- Every entry that waits for a reply names a fiber that is there, and the table of sequences is as
-- long as it says.
pub record IsSafe (t : Thread) : Type 0 where
  pub live : IsLive t
  pub table : t.nr_seq ≤ length t.seqs

peek-has_ptr :
    (id : ℕ) (ps : List Pending) (qs : List Ptr) (p : Ptr)
    → AllLive ps qs
    → peek id ps ≡ some p
    → has_ptr p qs ≡ true
unfolding peek
peek-has_ptr id [] qs p h e = cc
peek-has_ptr id (x ∷ ps) qs p h e = ground (arith, peek-has_ptr id ps qs p h.1)

get_elem?-some {ℓ} :
    {A : Type ℓ} (xs : List A) (i : ℕ) → i < length xs → (x : A) × (get_elem? xs i ≡ some x)
get_elem?-some [] i h = elim h [ ]
get_elem?-some (x ∷ xs) zero h = (x, refl)
get_elem?-some (x ∷ xs) (suc i) h = get_elem?-some xs i (omega arith)

leb-false : (a b : ℕ) → leb a b ≡ false → b < a
leb-false a b h = ground arith

-- The result is there, and safe.
abbrev pub Survives : Option Thread → Type 0
Survives r = (t : Thread) × (r ≡ some t) × IsSafe t

pub table-same :
    (t t' : Thread)
    → t'.seqs ≡ t.seqs
    → t'.nr_seq ≡ t.nr_seq
    → t.nr_seq ≤ length t.seqs
    → t'.nr_seq ≤ length t'.seqs
table-same t t' s n h = rw (s, n) h

module _ (w : Turn) (e : Ev) (t : Thread) (safe : IsSafe t) where
  handle_reply_safe : Survives (handle_reply w e t)
  unfolding pending_take
  handle_reply_safe = elim (Option-cases (pending_peek t.m e.req_id)) [
    | inl unknown ↦ (t, handle_reply_unknown w e t unknown, safe)
    | inr (p, known) ↦
        let (f, here) = has_ptr-find p t.fibers (
          peek-has_ptr e.req_id t.pending (ptrs t.fibers) p safe.live
            (unfold pending_peek in known)) in
        let fr = deliver_reply-Frame w e f (taken e t) in
        (
          deliver_reply w e f (taken e t),
          handle_reply_found w e t p f known here,
          record {
            live =
                deliver_reply-IsLive w e f (taken e t) (pending_take-IsLive e.req_id t safe.live);
            table =
                table-same (taken e t) (deliver_reply w e f (taken e t))
                  (ap (λ x. x.seqs) fr.same_fixed) (ap (λ x. x.nr_seq) fr.same_fixed) safe.table;
          },
        )
  ]

  grown : (t' : Thread) → Grows t t' → IsLive t' → IsSafe t'
  grown t' g live = record { live = live; table = table-same t t' g.seqs g.nr_seq safe.table }

  start_entry_safe : (s : SeqEntry) → Survives (start_entry w e t (some s))
  unfolding start_entry
  start_entry_safe s = (
    _,
    refl,
    grown _
        (launch-Grows w s.name t s.fn e.seq_idx e.requester e.req_id e.msg Rslt.ignore
          (to_u8 e.requester) 0)
        (launch-IsLive w s.name t s.fn e.seq_idx e.requester e.req_id e.msg Rslt.ignore
          (to_u8 e.requester) 0 safe.live),
  )

  start_sequence_safe : Survives (start_sequence w e t)
  unfolding start_sequence
  start_sequence_safe = elim (Bool-cases (leb t.nr_seq e.seq_idx)) [
    | inl invalid ↦ rw invalid (t, refl, safe)
    | inr valid ↦
        let (s, found) =
          get_elem?-some t.seqs e.seq_idx
            (omega (arith, safe.table, leb-false t.nr_seq e.seq_idx valid)) in
        rw (valid, found) (start_entry_safe s)
  ]

  notify_with-IsLive : (fn : Option ℕ) → IsLive (notify_with w e t fn)
  unfolding notify_with
  notify_with-IsLive none = safe.live
  notify_with-IsLive (some fn) =
      launch-IsLive w "recv_notify" t fn 0 external 0 e.msg Rslt.success (to_u8 e.requester)
        e.client_id safe.live

  receive_notify-IsSafe : IsSafe (receive_notify w e t)
  receive_notify-IsSafe =
      grown (receive_notify w e t) (receive_notify-Grows w e t)
        (unfold receive_notify in notify_with-IsLive t.recv_notify)

  dispatch_safe : Survives (dispatch w e t)
  dispatch_safe = elim (EvType-cases e.type) [
    | inl ty ↦ rw (dispatch_start w e t ty) start_sequence_safe
    | inr (inl ty) ↦ rw (dispatch-reply w e t ty) handle_reply_safe
    | inr (inr ty) ↦ (receive_notify w e t, dispatch-notify w e t ty, receive_notify-IsSafe)
  ]

  -- One event, on every branch.
  handle_event_safe : Survives (handle_event w e t)
  unfolding defer_ev
  handle_event_safe = elim (Bool-cases (must_defer t.m e)) [
    | inl waits ↦ (
      on_module (λ m. defer_ev m e) t,
      handle_event_waits w e t waits,
      record { live = safe.live; table = safe.table },
    )
    | inr goes ↦ rw (handle_event_goes w e t goes) dispatch_safe
  ]

pub handle_events_safe :
    (turns : ℕ → Turn) (es : List Ev) (t : Thread) → IsSafe t → Survives (handle_events turns es t)
unfolding handle_events
handle_events_safe turns [] t safe = (t, refl, safe)
handle_events_safe turns (e ∷ es) t safe =
    let (u, good, next) = handle_event_safe (turns 0) e t safe in
    rw (good, handle_events) (handle_events_safe (λ i. turns (suc i)) es u next)
