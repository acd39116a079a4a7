-- ===== src/Scheduler/Balance/Waits.antt =====
-- `coseq_wait_reply` and `coseq_gather` keep the accounts: a reply that leaves the queue is counted off.
use coseq.Base.{
  ℕ, zero, suc, ◌≡◌, refl, ap, sym, List, [], ◌∷◌, ◌++◌, Bool, true, false, arith, length,
  Bool-cases, inl, inr, is_zero, dec,
}
use mathlib.Core.Path.{subst}
use coseq.Types.{Alloc, Fiber, Point, ReplyRec, Src}
use coseq.Fibers.{set_src}
use coseq.Gather.{
  Taken, nothing, parked, got, take_reply, wait_reply, woken, Gathered, gather_next, gather_loop,
  rounds, coseq_gather, gather_resume,
}
use coseq.Gather.Sweep.{wait_reply-nil, wait_reply-cons}
use coseq.Sequence.{is_parked, is_waiting}
use coseq.Scheduler.Balance.{at_gather, is_idle, Covers}

-- A fiber that runs on, or that waits in `coseq_wait_reply`.
pub data Ended (c : ℕ) (f : Fiber) : Bool → Type 0 where
  runs : Covers c f → is_idle f ≡ true → f.done ≡ false → Ended c f false
  parks :
      Covers c f
      → f.waiting_any ≡ true
      → f.waiting_reply ≡ false
      → f.waiting_timer ≡ false
      → f.done ≡ false
      → at_gather f.ctx ≡ true
      → Ended c f true

idle_reply : (f : Fiber) → is_idle f ≡ true → f.waiting_reply ≡ false
idle_reply f h = ground arith

idle_timer : (f : Fiber) → is_idle f ≡ true → f.waiting_timer ≡ false
idle_timer f h = ground arith

take_reply-Covers :
    (c : ℕ) (a : Alloc) (f : Fiber) (rr : ReplyRec) (rest : List ReplyRec)
    → f.rq ≡ rr ∷ rest
    → Covers c f
    → Covers c (take_reply a f rr rest)
unfolding take_reply set_src
take_reply-Covers c a f rr rest e (zero, out, le) = absurd (ground arith)
take_reply-Covers c a f rr rest e (suc k, out, le) =
    (k, ap dec out, omega (arith, le, ap (λ (q : List ReplyRec). length q) e))

-- What `coseq_wait_reply` gave.
abbrev Waited : ℕ → Fiber × Taken → Type 0
Waited c w = Ended c w.0 (is_parked w.1)

waited :
    (c : ℕ) (a : Alloc) (point : Point) (f : Fiber) (rq : List ReplyRec)
    → f.rq ≡ rq
    → at_gather point ≡ true
    → Covers c f
    → is_idle f ≡ true
    → f.done ≡ false
    → Waited c (wait_reply a point f)
waited c a point f [] e at cov idle alive =
    subst (Waited c) (sym (wait_reply-nil a point f e))
      (elim (Bool-cases (is_zero f.async_outstanding)) [
        | inl z ↦ rw z (runs cov idle alive)
        | inr s ↦ rw s (parks cov refl (idle_reply f idle) (idle_timer f idle) alive at)
      ])
waited c a point f (rr ∷ rest) e at cov idle alive =
    subst (Waited c) (sym (wait_reply-cons a point f rr rest e))
      (unfold take_reply set_src in runs (take_reply-Covers c a f rr rest e cov) idle alive)

pub wait_reply-Ended :
    (c : ℕ) (a : Alloc) (point : Point) (f : Fiber)
    → at_gather point ≡ true
    → Ended c f false
    → Ended c (wait_reply a point f).0 (is_parked (wait_reply a point f).1)
wait_reply-Ended c a point f at (runs cov idle alive) =
    waited c a point f f.rq refl at cov idle alive

gather_next-Ended :
    (c n : ℕ) (rs : List Src) (again : Fiber → ℕ → List Src → Gathered) (w : Fiber × Taken)
    → ((f : Fiber) (n : ℕ) (qs : List Src)
        → Ended c f false
        → Ended c (again f n qs).fiber (is_waiting (again f n qs).end))
    → Waited c w
    → Ended c (gather_next again n rs w).fiber (is_waiting (gather_next again n rs w).end)
unfolding gather_next
gather_next-Ended c n rs again (f, nothing) next h = h
gather_next-Ended c n rs again (f, parked) next h = h
gather_next-Ended c n rs again (f, got r) next h = next f (suc n) (rs ++ r ∷ []) h

gather_loop-Ended :
    (c k : ℕ) (allocs : ℕ → Alloc) (f : Fiber) (n : ℕ) (rs : List Src)
    → Ended c f false
    → Ended c (gather_loop k allocs f n rs).fiber (is_waiting (gather_loop k allocs f n rs).end)
unfolding gather_loop
gather_loop-Ended c zero allocs f n rs h = h
gather_loop-Ended c (suc k) allocs f n rs h =
    gather_next-Ended c n rs (gather_loop k (λ i. allocs (suc i)))
      (wait_reply (allocs 0) (Point.gathering n) f)
      (λ g m qs e. gather_loop-Ended c k (λ i. allocs (suc i)) g m qs e)
      (wait_reply-Ended c (allocs 0) (Point.gathering n) f refl h)

pub coseq_gather-Ended :
    (c : ℕ) (allocs : ℕ → Alloc) (f : Fiber)
    → Ended c f false
    → Ended c (coseq_gather allocs f).fiber (is_waiting (coseq_gather allocs f).end)
unfolding coseq_gather
coseq_gather-Ended c allocs f h = gather_loop-Ended c (rounds f.rq) allocs f 0 [] h

-- A reply has come to a fiber that waited for one: it is counted off.
pub woken-Ended :
    (c : ℕ) (f : Fiber)
    → Covers (suc c) f
    → is_idle f ≡ true
    → f.done ≡ false
    → Ended c (woken f) false
unfolding woken
woken-Ended c f (zero, out, le) idle alive = absurd (omega arith)
woken-Ended c f (suc k, out, le) idle alive = runs (k, ap dec out, omega arith) idle alive

pub gather_resume-Ended :
    (c : ℕ) (allocs : ℕ → Alloc) (n : ℕ) (f : Fiber)
    → Covers (suc c) f
    → is_idle f ≡ true
    → f.done ≡ false
    → Ended c (gather_resume allocs n f).fiber (is_waiting (gather_resume allocs n f).end)
unfolding gather_resume
gather_resume-Ended c allocs n f cov idle alive =
    gather_loop-Ended c (rounds f.rq) allocs (woken f) (suc n) (f.src ∷ [])
      (woken-Ended c f cov idle alive)
