-- ===== src/Scheduler/Collects.antt =====
-- A fiber that waits in `coseq_gather`, while its replies come.
use coseq.Base.{
  ℤ, ◌++◌, length, ℕ, suc, ◌≡◌, refl, ap, sym, ◌∙◌, List, [], ◌∷◌, some, none, Bool, true, false,
  arith, pos, dec, is_zero, if◌then◌else◌,
}
use mathlib.Core.Path.{subst}
use coseq.Types.{Alloc, Ev, EvType, Fiber, Pending, Point, Ptr, Src, Thread}
use coseq.Waiting.{peek, unlink, pending_peek, pending_take}
use coseq.Fibers.{find_fiber, set_src}
use coseq.Fibers.Laws.{find_fiber-ptr, find_fiber-write}
use coseq.Thread.{on_module, on_fiber}
use coseq.Gather.{
  nothing, parked, GatherEnd, Gathered, woken, gather_loop, gather_next, rounds, gather_resume,
}
use coseq.Gather.Sweep.{wait_reply-nil}
use coseq.Sequence.{
  Burst, run_calls, come_back, come_back_at, is_waiting, clear_waits, switch_to, resume,
}
use coseq.Scheduler.{
  Turn, awaits, source_of_reply, deliver_reply, handle_reply, handle_event, handle_events,
  must_defer,
}
use coseq.Scheduler.Due.{later}
use coseq.Scheduler.Parts.{taken, handle_reply_found, handle_event_goes, dispatch-reply}

-- Fiber `p` waits in `coseq_gather` with `n` replies gathered and `suc k` outstanding.
pub record Gathering (p : Ptr) (n k : ℕ) (t : Thread) : Type 0 where
  pub fiber : Fiber
  pub there : find_fiber p t.fibers ≡ some fiber
  pub waits : fiber.waiting_any ≡ true
  pub at : fiber.ctx ≡ Point.gathering n
  pub empty : fiber.rq ≡ []
  pub out : fiber.async_outstanding ≡ pos (suc k)

waited_or_not :
    (again : Fiber → ℕ → List Src → Gathered) (n : ℕ) (rs : List Src) (f f' : Fiber) (b : Bool)
    → gather_next again n rs (if b then (f, nothing) else (f', parked)) ≡ (
        if b
        then record { fiber = f; end = GatherEnd.finished; n = n; replies = rs }
        else record { fiber = f'; end = GatherEnd.waits; n = n; replies = rs })
unfolding gather_next
waited_or_not again n rs f f' true = refl
waited_or_not again n rs f f' false = refl

-- A gather that is resumed with an empty queue ends or waits, by the count.
abbrev by_count : ℕ → Fiber → ℤ → Gathered
by_count n g out =
    if is_zero (dec out)
    then record { fiber = woken g; end = GatherEnd.finished; n = suc n; replies = g.src ∷ [] }
    else record {
      fiber = record (woken g) { waiting_any = true; ctx = Point.gathering (suc n) };
      end = GatherEnd.waits;
      n = suc n;
      replies = g.src ∷ [];
    }

gather_resume_empty :
    (allocs : ℕ → Alloc) (n : ℕ) (out : ℤ) (g : Fiber)
    → g.rq ≡ []
    → g.async_outstanding ≡ out
    → gather_resume allocs n g ≡ by_count n g out
unfolding gather_resume gather_loop woken
gather_resume_empty allocs n out g empty e =
    ap (λ q. gather_loop (rounds q) allocs (woken g) (suc n) (g.src ∷ [])) empty
    ∙ ap (gather_next (gather_loop 0 (λ i. allocs (suc i))) (suc n) (g.src ∷ []))
        (wait_reply-nil (allocs 0) (Point.gathering (suc n)) (woken g) empty)
    ∙ waited_or_not (gather_loop 0 (λ i. allocs (suc i))) (suc n) (g.src ∷ []) (woken g)
        (record (woken g) { waiting_any = true; ctx = Point.gathering (suc n) })
        (is_zero (dec g.async_outstanding))
    ∙ ap (by_count n g) e

-- The state once the fiber is resumed, before the rest of its gather.
abbrev resumed : Turn → Ev → Ptr → Thread → Thread
resumed w e p t =
    on_module (λ m. record m { current = some p })
      (on_fiber p clear_waits (on_fiber p (source_of_reply w.alloc e) (taken e t)))

come_back_gathers :
    (allocs : ℕ → Alloc) (n : ℕ) (g : Fiber) (r : Gathered)
    → g.ctx ≡ Point.gathering n
    → gather_resume allocs n g ≡ r
    → come_back allocs g ≡ (r.fiber, is_waiting r.end)
unfolding come_back come_back_at
come_back_gathers allocs n g r at e =
    ap (come_back_at allocs g) at ∙ ap (λ (x : Gathered). (x.fiber, is_waiting x.end)) e

switch_parks :
    (p : Ptr) (b : Burst) (u : Thread) (g g' : Fiber)
    → find_fiber p u.fibers ≡ some g
    → come_back b.allocs g ≡ (g', true)
    → switch_to p b u ≡ on_fiber p (λ _. g') u
unfolding switch_to
switch_parks p b u g g' here e = rw (here, switch_to) (rw e)

switch_goes :
    (p : Ptr) (b : Burst) (u : Thread) (g g' : Fiber)
    → find_fiber p u.fibers ≡ some g
    → come_back b.allocs g ≡ (g', false)
    → switch_to p b u ≡ run_calls p b.calls (on_fiber p (λ _. g') u)
unfolding switch_to
switch_goes p b u g g' here e = rw (here, switch_to) (rw e)

module _ (w : Turn) (e : Ev) (p : Ptr) (n k : ℕ) (t : Thread) (g : Gathering p n k t)
    (known : peek e.req_id t.pending ≡ some p) where
  -- The fiber as the resumption finds it.
  abbrev got_reply : Fiber
  got_reply = clear_waits (source_of_reply w.alloc e g.fiber)

  got_there : find_fiber p (resumed w e p t).fibers ≡ some got_reply
  unfolding clear_waits source_of_reply set_src pending_take
  got_there =
      find_fiber-write p clear_waits (on_fiber p (source_of_reply w.alloc e) (taken e t)).fibers
        (source_of_reply w.alloc e g.fiber) (λ f h. h)
        (find_fiber-write p (source_of_reply w.alloc e) t.fibers g.fiber (λ f h. h) g.there)

  delivered :
      handle_reply w e t
      ≡ some (on_module (λ m. record m { current = none }) (switch_to p w.burst (resumed w e p t)))
  unfolding pending_peek deliver_reply resume
  delivered =
      let wakes : awaits e g.fiber ≡ true = ground (arith, g.waits) in
      handle_reply_found w e t p g.fiber known g.there
      ∙ rw wakes (
          ap (λ q. some (resume q w.burst (on_fiber q (source_of_reply w.alloc e) (taken e t))))
            (find_fiber-ptr p t.fibers g.fiber g.there))

-- One reply of several: the fiber waits on.
gathers_on :
    (w : Turn) (e : Ev) (p : Ptr) (n k : ℕ) (t : Thread)
    → Gathering p n (suc k) t
    → peek e.req_id t.pending ≡ some p
    → (u : Thread) × (handle_reply w e t ≡ some u)
      × Gathering p (suc n) k u
      × (u.pending ≡ unlink e.req_id t.pending)
      × (u.locked_by ≡ t.locked_by)
unfolding clear_waits source_of_reply set_src pending_take woken
gathers_on w e p n k t g known = (
  on_module (λ m. record m { current = none }) (on_fiber p (λ _. waiter) (resumed w e p t)),
  delivered w e p n (suc k) t g known
      ∙ ap (λ (v : Thread). some (on_module (λ m. record m { current = none }) v))
          (switch_parks p w.burst (resumed w e p t) got waiter there (
            come_back_gathers w.burst.allocs n got _ g.at
              (gather_resume_empty w.burst.allocs n (pos (suc (suc k))) got g.empty g.out))),
  record {
    fiber = waiter;
    there =
        find_fiber-write p (λ _. waiter) (resumed w e p t).fibers got
          (λ _ _. find_fiber-ptr p t.fibers g.fiber g.there) there;
    waits = refl;
    at = refl;
    empty = g.empty;
    out = ap dec g.out;
  },
  refl,
  refl,
)
  where
    got : Fiber
    got = got_reply w e p n (suc k) t g known

    waiter : Fiber
    waiter = record (woken got) { waiting_any = true; ctx = Point.gathering (suc n) }

    there : find_fiber p (resumed w e p t).fibers ≡ some got
    there = got_there w e p n (suc k) t g known

-- What is left of the fiber's burst runs on `v`.
abbrev pub carries_on : Ptr → Burst → Thread → Thread
carries_on p b v = on_module (λ m. record m { current = none }) (run_calls p b.calls v)

-- The last reply: the gather is over.
gathers_last :
    (w : Turn) (e : Ev) (p : Ptr) (n : ℕ) (t : Thread)
    → Gathering p n 0 t
    → peek e.req_id t.pending ≡ some p
    → (v : Thread) × (f : Fiber) × (find_fiber p v.fibers ≡ some f)
      × (f.async_outstanding ≡ pos 0)
      × (handle_reply w e t ≡ some (carries_on p w.burst v))
unfolding clear_waits source_of_reply set_src pending_take woken
gathers_last w e p n t g known = (
  on_fiber p (λ _. woken got) (resumed w e p t),
  woken got,
  find_fiber-write p (λ _. woken got) (resumed w e p t).fibers got
      (λ _ _. find_fiber-ptr p t.fibers g.fiber g.there) there,
  ap dec g.out,
  delivered w e p n 0 t g known
      ∙ ap (λ (v : Thread). some (on_module (λ m. record m { current = none }) v))
          (switch_goes p w.burst (resumed w e p t) got (woken got) there (
            come_back_gathers w.burst.allocs n got _ g.at
              (gather_resume_empty w.burst.allocs n (pos 1) got g.empty g.out))),
)
  where
    got : Fiber
    got = got_reply w e p n 0 t g known

    there : find_fiber p (resumed w e p t).fibers ≡ some got
    there = got_there w e p n 0 t g known

-- Each of the events is a reply to a request of `p` that waits, no two to the same.
abbrev pub Answers : Ptr → List Ev → List Pending → Type 0
Answers p [] ps = Unit
Answers p (e ∷ es) ps =
    (e.type ≡ EvType.reply) × (peek e.req_id ps ≡ some p) × Answers p es (unlink e.req_id ps)

reply_now :
    (w : Turn) (e : Ev) (t : Thread)
    → t.locked_by ≡ none
    → e.type ≡ EvType.reply
    → handle_event w e t ≡ handle_reply w e t
unfolding must_defer
reply_now w e t free type = handle_event_goes w e t (rw free) ∙ dispatch-reply w e t type

-- A fiber that waits in `coseq_gather`, its queue empty and no lock held: when as many replies to its
-- requests have been handled as are outstanding, one after the other, the gather is over, nothing is
-- outstanding, and the fiber goes on with the calls of its burst, whatever the allocations do.
pub gather_completes :
    (p : Ptr) (es : List Ev) (e : Ev) (n : ℕ) (turns : ℕ → Turn) (t : Thread)
    → Gathering p n (length es) t
    → t.locked_by ≡ none
    → Answers p (es ++ e ∷ []) t.pending
    → (v : Thread) × (f : Fiber) × (find_fiber p v.fibers ≡ some f)
      × (f.async_outstanding ≡ pos 0)
      × (handle_events turns (es ++ e ∷ []) t
          ≡ some (carries_on p (later (length es) turns 0).burst v))
unfolding handle_events
gather_completes p [] e n turns t g free (type, known, _) =
    let (v, f, there, none_out, over) = gathers_last (turns 0) e p n t g known in
    (v, f, there, none_out, rw (reply_now (turns 0) e t free type ∙ over, handle_events))
gather_completes p (x ∷ es) e n turns t g free (type, known, more) =
    let (u, step, g', ps, lock) = gathers_on (turns 0) x p n (length es) t g known in
    let (v, f, there, none_out, over) =
      gather_completes p es e (suc n) (λ i. turns (suc i)) u g' (lock ∙ free)
        (subst (Answers p (es ++ e ∷ [])) (sym ps) more) in
    (v, f, there, none_out, rw (reply_now (turns 0) x t free type ∙ step, handle_events) over)
