-- ===== src/Scheduler/Balance/Bursts.antt =====
-- A burst keeps the accounts of all fibers.
use coseq.Base.{
  ℕ, ◌+◌, ◌^◌, ◌≤◌, ◌<◌, ◌≡◌, refl, ap, sym, ◌∙◌, List, [], ◌∷◌, some, Bool, true, false, arith,
  length, if◌then◌else◌, Bool-cases, inl, inr, ◌==◌, ==→eq, some_inj,
}
use mathlib.Core.Path.{subst}
use coseq.Types.{Alloc, Fiber, Point, Ptr, Thread}
use coseq.Waiting.Laws.{count_for}
use coseq.Fibers.{find_fiber}
use coseq.Fibers.Laws.{find_fiber-ptr, find_fiber-write, find_fiber-modify_ne, ptrs-modify}
use coseq.Thread.{on_module, on_fiber}
use coseq.Sequence.{
  Call, Burst, exec_call, finish, run_calls, come_back_at, come_back, clear_waits, switch_to,
  resume,
}
use coseq.Sequence.Ids.{Asks, exec_call-Asks}
use coseq.Sequence.Rule.{come_back-ptr}
use coseq.Sequence.Frame.{Frame, exec_call-Frame}
use coseq.Scheduler.Balance.{at_gather, is_idle, Covers, Book, Descending, Books, nobody, only}
use coseq.Scheduler.Balance.Counter.{Asks-le}
use coseq.Scheduler.Balance.Waits.{Ended, runs, woken-Ended, gather_resume-Ended}
use coseq.Scheduler.Balance.Calls.{
  idle-Book, Outcome, goes, stops, write-Outcome, exec_call-Outcome,
}
use coseq.Scheduler.Balance.Others.{Descending-find, others-step}

pub join-Books :
    (p : Ptr) (t : Thread) (f : Fiber)
    → Books (only p) t
    → find_fiber p t.fibers ≡ some f
    → Book f t.pending t.next_req_id
    → Books nobody t
join-Books p t f b e k = record {
  book = λ q g _ at_q. elim (Bool-cases (p == q)) [
    | inl here ↦
        subst (λ x. Book x t.pending t.next_req_id)
          (some_inj (sym e ∙ ap (λ r. find_fiber r t.fibers) (==→eq p q here) ∙ at_q)) k
    | inr there ↦ b.book q g there at_q
  ];
  fresh = b.fresh;
  order = b.order;
  below = b.below;
  distinct = b.distinct;
}

pub split-Books : (p : Ptr) (t : Thread) → Books nobody t → Books (only p) t
split-Books p t b = record {
  book = λ q g _ e. b.book q g refl e;
  fresh = b.fresh;
  order = b.order;
  below = b.below;
  distinct = b.distinct;
}

pub write-Books :
    (p : Ptr) (h : Fiber → Fiber) (t : Thread)
    → ((f : Fiber) → f.ptr ≡ p → (h f).ptr ≡ p)
    → Books (only p) t
    → Books (only p) (on_fiber p h t)
write-Books p h t k b = record {
  book = λ q g skip e.
      b.book q g skip (sym (find_fiber-modify_ne p q h t.fibers k (λ x. ground arith)) ∙ e);
  fresh = b.fresh;
  order = subst (Descending t.next_ptr) (sym (ptrs-modify p h t.fibers k)) b.order;
  below = b.below;
  distinct = b.distinct;
}

after_call :
    (p : Ptr) (t rest : Thread) (b : Bool)
    → Books (only p) t
    → Outcome p t b
    → ((f : Fiber)
        → find_fiber p t.fibers ≡ some f
        → Ended (count_for p t.pending) f false
        → Books nobody rest)
    → Books nobody (if b then t else rest)
after_call p t rest false b (goes f e h) more = more f e h
after_call p t rest true b (stops f e k) more = join-Books p t f b e k

run_calls-Books :
    (p : Ptr) (cs : List Call) (t : Thread) (f : Fiber)
    → Books (only p) t
    → find_fiber p t.fibers ≡ some f
    → Ended (count_for p t.pending) f false
    → t.next_req_id + length cs < 2 ^ 32
    → Books nobody (run_calls p cs t)
unfolding run_calls finish
run_calls-Books p [] t f b e (runs cov idle alive) room =
    join-Books p (finish p t) (record f { done = true })
      (write-Books p (λ g. record g { done = true }) t (λ g h. h) b)
      (find_fiber-write p (λ g. record g { done = true }) t.fibers f (λ g h. h) e)
      (idle-Book (record f { done = true }) t.pending t.next_req_id
        (subst (λ q. Covers (count_for q t.pending) f) (sym (find_fiber-ptr p t.fibers f e)) cov)
        idle)
run_calls-Books p (c ∷ cs) t f b e h room =
    rw (e, run_calls)
      (after_call p step.0 (run_calls p cs step.0) step.1
        (others-step p t step.0 b lt fr asks (omega arith)) own
        (λ g e' h'.
          run_calls-Books p cs step.0 g (others-step p t step.0 b lt fr asks (omega arith)) e' h'
            (omega (arith, Asks-le p t step.0 asks (omega arith)))))
  where
    step : Thread × Bool
    step = exec_call t f c

    at : f.ptr ≡ p
    at = find_fiber-ptr p t.fibers f e

    lt : p < t.next_ptr
    lt = Descending-find t.next_ptr p t.fibers f b.order e

    fr : Frame p t step.0
    fr = subst (λ q. Frame q t step.0) at (exec_call-Frame t f c)

    asks : Asks p t step.0
    asks = subst (λ q. Asks q t step.0) at (exec_call-Asks t f c)

    own : Outcome p step.0 step.1
    own =
        subst (λ q. Outcome q step.0 step.1) at
          (exec_call-Outcome t f c (subst (λ q. find_fiber q t.fibers ≡ some f) (sym at) e)
            (subst (λ q. Ended (count_for q t.pending) f false) (sym at) h) (omega arith))

-- What a fiber that is resumed has to have: one reply more is covered if it waited for one.
abbrev pub due : Point → ℕ
due c = if at_gather c then 1 else 0

pub Covers-le : (c c' : ℕ) (f : Fiber) → c ≤ c' → Covers c' f → Covers c f
Covers-le c c' f le cov = (cov.0, cov.1, omega (arith, cov.2))

come_back_at-Ended :
    (c : ℕ) (allocs : ℕ → Alloc) (f : Fiber) (point : Point)
    → Covers (due point + c) f
    → is_idle f ≡ true
    → f.done ≡ false
    → Ended c (come_back_at allocs f point).0 (come_back_at allocs f point).1
unfolding come_back_at
come_back_at-Ended c allocs f Point.entry cov idle alive =
    runs (Covers-le _ _ f (omega arith) cov) idle alive
come_back_at-Ended c allocs f Point.requesting cov idle alive =
    runs (Covers-le _ _ f (omega arith) cov) idle alive
come_back_at-Ended c allocs f Point.sleeping cov idle alive =
    runs (Covers-le _ _ f (omega arith) cov) idle alive
come_back_at-Ended c allocs f Point.waiting_one cov idle alive =
    woken-Ended c f (Covers-le _ _ f (omega arith) cov) idle alive
come_back_at-Ended c allocs f (Point.gathering n) cov idle alive =
    gather_resume-Ended c allocs n f (Covers-le _ _ f (omega arith) cov) idle alive

-- A fiber that may be resumed, and the accounts of the others.
pub record Ready (p : Ptr) (f : Fiber) (t : Thread) : Type 0 where
  pub others : Books (only p) t
  pub there : find_fiber p t.fibers ≡ some f
  pub covers : Covers (due f.ctx + count_for p t.pending) f
  pub alive : f.done ≡ false

switch_to-Books :
    (p : Ptr) (b : Burst) (f : Fiber) (t : Thread)
    → Ready p f t
    → is_idle f ≡ true
    → t.next_req_id + length b.calls < 2 ^ 32
    → Books nobody (switch_to p b t)
unfolding switch_to come_back
switch_to-Books p b f t r idle room =
    rw (r.there, switch_to)
      (after_call p returned (run_calls p b.calls returned) back.1 others
        (write-Outcome p t f back.0 back.1 r.there
          (come_back-ptr b.allocs f ∙ find_fiber-ptr p t.fibers f r.there)
          (come_back_at-Ended (count_for p t.pending) b.allocs f f.ctx r.covers idle r.alive))
        (λ g e h. run_calls-Books p b.calls returned g others e h room))
  where
    back : Fiber × Bool
    back = come_back b.allocs f

    returned : Thread
    returned = on_fiber p (λ _. back.0) t

    others : Books (only p) returned
    others =
        write-Books p (λ _. back.0) t
          (λ _ _. come_back-ptr b.allocs f ∙ find_fiber-ptr p t.fibers f r.there) r.others

-- A resumption, whatever the fiber calls, keeps the accounts of all, as long as the counter of ids does
-- not wrap.
pub resume-Books :
    (p : Ptr) (b : Burst) (f : Fiber) (t : Thread)
    → Ready p f t
    → t.next_req_id + length b.calls < 2 ^ 32
    → Books nobody (resume p b t)
unfolding resume clear_waits
resume-Books p b f t r room =
    let u : Thread = on_module (λ m. record m { current = some p }) (on_fiber p clear_waits t) in
    let others = write-Books p clear_waits t (λ g h. h) r.others in
    let ready : Ready p (clear_waits f) u = record {
      others = record {
        book = others.book;
        fresh = others.fresh;
        order = others.order;
        below = others.below;
        distinct = others.distinct;
      };
      there = find_fiber-write p clear_waits t.fibers f (λ g h. h) r.there;
      covers = r.covers;
      alive = r.alive;
    } in
    let ran = switch_to-Books p b (clear_waits f) u ready refl room in
    record {
      book = ran.book;
      fresh = ran.fresh;
      order = ran.order;
      below = ran.below;
      distinct = ran.distinct;
    }
