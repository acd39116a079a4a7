-- ===== src/Scheduler/Defer.antt =====
-- While a fiber holds the lock: which events wait, and whose fibers run.
use coseq.Base.{
  ℕ, suc, ◌≤◌, ◌<◌, ◌≡◌, ◌≢◌, refl, ap, sym, ◌∙◌, List, [], ◌∷◌, ◌++◌, append-nil, append_assoc,
  none, some, false, arith, Bool-cases, Option-cases, inl, inr, some_inj,
}
use mathlib.Core.Path.{subst}
use coseq.Types.{Ev, EvType, Fiber, Ptr, Thread}
use coseq.Event.{defer_ev}
use coseq.Waiting.{pending_peek, pending_take}
use coseq.Fibers.{find_fiber}
use coseq.Fibers.Laws.{find_fiber-ptr}
use coseq.Thread.{on_module}
use coseq.Sequence.Frame.{LeavesLock}
use coseq.Scheduler.{
  Turn, must_defer, handle_reply, deliver_reply, receive_notify, dispatch, handle_event,
  handle_events,
}
use coseq.Scheduler.Parts.{
  handle_event_waits, handle_event_goes, dispatch-reply, dispatch-notify, EvType-cases, taken,
  handle_reply_found, handle_reply_freed, deliver_reply-Frame, deliver_reply-locked_by,
  receive_notify-Grows, receive_notify-locked_by,
}

-- The START events of a list, in order.
unfoldable pub starts : List Ev → List Ev
starts [] = []
starts (e ∷ es) = elim e.type [
  | EvType.start ↦ e ∷ starts es
  | EvType.reply ↦ starts es
  | EvType.notify ↦ starts es
]

-- From `t` to `t'`, through the events `es`, fiber `p` holds the lock: no fiber of `t` but `p` is
-- changed, and every START event joins the deferred events, in order.
pub record Kept (p : Ptr) (es : List Ev) (t t' : Thread) : Type 0 where
  pub held : t'.locked_by ≡ some p
  pub next_le : t.next_ptr ≤ t'.next_ptr
  pub olds : (q : Ptr) → q ≢ p → q < t.next_ptr → find_fiber q t'.fibers ≡ find_fiber q t.fibers
  pub deferred : starts t'.deferred ≡ starts t.deferred ++ starts es
  pub stop : t'.stop ≡ t.stop

pub starts-append : (xs ys : List Ev) → starts (xs ++ ys) ≡ starts xs ++ starts ys
unfolding starts
starts-append [] ys = refl
starts-append (x ∷ xs) ys = ground (arith, starts-append xs ys)

starts_other : (e : Ev) → e.type ≢ EvType.start → starts (e ∷ []) ≡ []
unfolding starts
starts_other e h = ground arith

pub Kept-trans :
    (p : Ptr) (es fs : List Ev) {t u v : Thread}
    → Kept p es t u
    → Kept p fs u v
    → Kept p (es ++ fs) t v
Kept-trans p es fs {t} a b = record {
  held = b.held;
  next_le = omega (arith, a.next_le, b.next_le);
  olds = λ q n h. b.olds q n (omega (arith, a.next_le)) ∙ a.olds q n h;
  deferred =
      b.deferred
      ∙ ap (λ x. x ++ starts fs) a.deferred
      ∙ append_assoc (starts t.deferred) (starts es) (starts fs)
      ∙ ap (◌++◌ (starts t.deferred)) (sym (starts-append es fs));
  stop = b.stop ∙ a.stop;
}

module _ (p : Ptr) (w : Turn) (e : Ev) (t : Thread) (lock : t.locked_by ≡ some p) where
  deferred-Kept : Kept p (e ∷ []) t (on_module (λ m. defer_ev m e) t)
  unfolding defer_ev
  deferred-Kept = record {
    held = lock;
    next_le = omega arith;
    olds = λ q n h. refl;
    deferred = starts-append t.deferred (e ∷ []);
    stop = refl;
  }

  module _ (quiet : LeavesLock w.burst.calls) where
    no_start : e.type ≢ EvType.start → starts t.deferred ≡ starts t.deferred ++ starts (e ∷ [])
    no_start h = rw (starts_other e h) (sym (append-nil (starts t.deferred)))

    notify-Kept : e.type ≡ EvType.notify → Kept p (e ∷ []) t (receive_notify w e t)
    unfolding starts
    notify-Kept type =
        let g = receive_notify-Grows w e t in
        record {
          held = receive_notify-locked_by w e t quiet ∙ lock;
          next_le = g.next_le;
          olds = λ q n h. g.olds q h;
          deferred = ap starts g.deferred ∙ no_start (λ s. ground arith);
          stop = g.stop;
        }

    reply-Kept :
        (t' : Thread)
        → e.type ≡ EvType.reply
        → pending_peek t.m e.req_id ≡ some p
        → handle_reply w e t ≡ some t'
        → Kept p (e ∷ []) t t'
    unfolding starts pending_take
    reply-Kept t' type own done = elim (Option-cases (find_fiber p t.fibers)) [
      | inl e0 ↦ let bad = handle_reply_freed w e t p own e0 in cc
      | inr (f, e1) ↦
          let eq : t' ≡ deliver_reply w e f (taken e t) =
            some_inj (sym done ∙ handle_reply_found w e t p f own e1) in
          subst (Kept p (e ∷ []) t) (sym eq) (delivered-Kept f e1)
    ]
      where
        delivered-Kept :
            (f : Fiber)
            → find_fiber p t.fibers ≡ some f
            → Kept p (e ∷ []) t (deliver_reply w e f (taken e t))
        delivered-Kept f e1 =
            let fr = deliver_reply-Frame w e f (taken e t) in
            let here = find_fiber-ptr p t.fibers f e1 in
            record {
              held = deliver_reply-locked_by w e f (taken e t) quiet ∙ lock;
              next_le = omega (arith, ap (λ x. x.next_ptr) fr.same_fixed);
              olds = λ q n h. fr.others q (λ k. n (sym k ∙ here));
              deferred = ap (λ x. starts x.deferred) fr.same_fixed ∙ no_start (λ s. ground arith);
              stop = ap (λ x. x.stop) fr.same_fixed;
            }

    -- A START event waits, and the only reply that does not is the holder's.
    not_start : must_defer t.m e ≡ false → e.type ≡ EvType.start → ⊥
    unfolding must_defer
    not_start goes ty = ground arith

    own_reply :
        must_defer t.m e ≡ false → e.type ≡ EvType.reply → pending_peek t.m e.req_id ≡ some p
    unfolding must_defer
    own_reply goes ty = ground arith

    -- One event.
    pub handle_event-Kept : (t' : Thread) → handle_event w e t ≡ some t' → Kept p (e ∷ []) t t'
    handle_event-Kept t' done = elim (Bool-cases (must_defer t.m e)) [
      | inl waits ↦
          subst (Kept p (e ∷ []) t) (some_inj (sym (handle_event_waits w e t waits) ∙ done))
            deferred-Kept
      | inr goes ↦
          let d : dispatch w e t ≡ some t' = sym (handle_event_goes w e t goes) ∙ done in
          elim (EvType-cases e.type) [
            | inl ty ↦ absurd (not_start goes ty)
            | inr (inl ty) ↦
                reply-Kept t' ty (own_reply goes ty) (sym (dispatch-reply w e t ty) ∙ d)
            | inr (inr ty) ↦
                subst (Kept p (e ∷ []) t) (some_inj (sym (dispatch-notify w e t ty) ∙ d))
                  (notify-Kept ty)
          ]
    ]

-- All events of a batch.
pub handle_events-Kept :
    (p : Ptr) (turns : ℕ → Turn) (es : List Ev) (t t' : Thread)
    → t.locked_by ≡ some p
    → ((i : ℕ) → LeavesLock (turns i).burst.calls)
    → handle_events turns es t ≡ some t'
    → Kept p es t t'
unfolding handle_events starts
handle_events-Kept p turns [] t t' lock quiet done = subst (Kept p [] t) (some_inj done) (record {
  held = lock;
  next_le = omega arith;
  olds = λ q n h. refl;
  deferred = sym (append-nil (starts t.deferred));
  stop = refl;
})
handle_events-Kept p turns (e ∷ es) t t' lock quiet done =
    elim (Option-cases (handle_event (turns 0) e t)) [
      | inl bad ↦ let b : handle_events turns (e ∷ es) t ≡ none = rw (bad, handle_events) in cc
      | inr (u, good) ↦
          let first = handle_event-Kept p (turns 0) e t lock (quiet 0) u good in
          let same : handle_events turns (e ∷ es) t ≡ handle_events (λ i. turns (suc i)) es u =
            rw (good, handle_events) in
          Kept-trans p (e ∷ []) es first (
            handle_events-Kept p (λ i. turns (suc i)) es u t' first.held (λ i. quiet (suc i))
              (sym same ∙ done))
    ]
