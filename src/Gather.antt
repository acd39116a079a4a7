-- ===== src/Gather.antt =====
-- Taking replies to asynchronous requests: `coseq_wait_reply` and `coseq_gather` of coseq/coseq.c.
-- Both write to their own fiber only.
pub mod Sweep
pub mod Laws
mod Tests
use coseq.Base.{
  ℕ, zero, suc, Bool, true, false, List, [], ◌∷◌, ◌++◌, ◌&&◌, ℤ, dec, is_zero, if◌then◌else◌, ◌≡◌,
  refl, ◌∙◌, arith,
}
use coseq.Types.{Alloc, Fiber, Point, ReplyRec, Src}
use coseq.Fibers.{set_src}

-- How a call of `coseq_wait_reply` goes on: NULL, a reply that had come already, or a wait for one.
pub data Taken : Type 0 where
  nothing parked : Taken
  got : Src → Taken

-- The first queued reply becomes the source.
unfoldable pub take_reply : Alloc → Fiber → ReplyRec → List ReplyRec → Fiber
unfolding set_src
take_reply a f rr rest =
    record (set_src a rr.msg rr.result 0 f.seq_idx 0 rr.req_id (record f { rq = rest })) {
      async_outstanding = dec f.async_outstanding;
    }

-- Up to the `swapcontext`; `point` is where the saved context stands if it comes to that.
wait_from : Alloc → Point → Fiber → List ReplyRec → Fiber × Taken
wait_from a point f [] =
    if is_zero f.async_outstanding
    then (f, nothing)
    else (record f { waiting_any = true; ctx = point }, parked)
wait_from a point f (rr ∷ rest) = let g = take_reply a f rr rest in (g, got g.src)

unfoldable pub wait_reply : Alloc → Point → Fiber → Fiber × Taken
unfolding wait_from take_reply
wait_reply a point f = wait_from a point f f.rq

-- The end of `coseq_wait_reply` after its `swapcontext`.
unfoldable pub woken : Fiber → Fiber
woken f = record f { async_outstanding = dec f.async_outstanding }

-- The loop of `coseq_gather` as far as it goes without waiting: the fiber, whether it parks, the
-- count `n`, and the sources that the callback was given, in order.
pub data GatherEnd : Type 0 where
  finished waits out_of_fuel : GatherEnd

pub record Gathered : Type 0 where
  pub fiber : Fiber
  pub end : GatherEnd
  pub n : ℕ
  pub replies : List Src

unfoldable pub gather_next :
    (Fiber → ℕ → List Src → Gathered) → ℕ → List Src → Fiber × Taken → Gathered
gather_next again n replies (f, nothing) = record {
  fiber = f;
  end = finished;
  n = n;
  replies = replies;
}
gather_next again n replies (f, parked) = record {
  fiber = f;
  end = waits;
  n = n;
  replies = replies;
}
gather_next again n replies (f, got s) = again f (suc n) (replies ++ s ∷ [])

unfoldable pub gather_loop : ℕ → (ℕ → Alloc) → Fiber → ℕ → List Src → Gathered
unfolding gather_next
gather_loop zero allocs f n replies = record {
  fiber = f;
  end = out_of_fuel;
  n = n;
  replies = replies;
}
gather_loop (suc k) allocs f n replies =
    gather_next (gather_loop k (λ i. allocs (suc i))) n replies
      (wait_reply (allocs 0) (Point.gathering n) f)

abbrev pub rounds : List ReplyRec → ℕ
rounds [] = 1
rounds (rr ∷ rest) = suc (rounds rest)

-- From the start of the loop, and after a wait in it ended: the reply that ended it is the `n + 1`st.
unfoldable pub coseq_gather : (ℕ → Alloc) → Fiber → Gathered
unfolding gather_loop
coseq_gather allocs f = gather_loop (rounds f.rq) allocs f 0 []

unfoldable pub gather_resume : (ℕ → Alloc) → ℕ → Fiber → Gathered
unfolding gather_loop woken
gather_resume allocs n f = gather_loop (rounds f.rq) allocs (woken f) (suc n) (f.src ∷ [])

wait_from-ptr :
    (a : Alloc) (point : Point) (f : Fiber) (rq : List ReplyRec)
    → (wait_from a point f rq).0.ptr ≡ f.ptr
unfolding wait_from take_reply
wait_from-ptr a point f [] = ground arith
wait_from-ptr a point f (rr ∷ rest) = refl

-- None of these moves the fiber.
pub wait_reply-ptr : (a : Alloc) (point : Point) (f : Fiber) → (wait_reply a point f).0.ptr ≡ f.ptr
unfolding wait_reply
wait_reply-ptr a point f = wait_from-ptr a point f f.rq

gather_next-ptr :
    (again : Fiber → ℕ → List Src → Gathered) (n : ℕ) (replies : List Src) (w : Fiber × Taken)
    → ((f : Fiber) (n : ℕ) (replies : List Src) → (again f n replies).fiber.ptr ≡ f.ptr)
    → (gather_next again n replies w).fiber.ptr ≡ w.0.ptr
unfolding gather_next
gather_next-ptr again n replies (f, nothing) h = refl
gather_next-ptr again n replies (f, parked) h = refl
gather_next-ptr again n replies (f, got s) h = h f _ _

gather_loop-ptr :
    (k : ℕ) (allocs : ℕ → Alloc) (f : Fiber) (n : ℕ) (replies : List Src)
    → (gather_loop k allocs f n replies).fiber.ptr ≡ f.ptr
unfolding gather_loop
gather_loop-ptr zero allocs f n replies = refl
gather_loop-ptr (suc k) allocs f n replies =
    gather_next-ptr (gather_loop k _) n replies (wait_reply (allocs 0) (Point.gathering n) f)
      (gather_loop-ptr k _)
    ∙ wait_reply-ptr (allocs 0) (Point.gathering n) f

pub coseq_gather-ptr : (allocs : ℕ → Alloc) (f : Fiber) → (coseq_gather allocs f).fiber.ptr ≡ f.ptr
unfolding coseq_gather
coseq_gather-ptr allocs f = gather_loop-ptr (rounds f.rq) allocs f 0 []

pub gather_resume-ptr :
    (allocs : ℕ → Alloc) (n : ℕ) (f : Fiber) → (gather_resume allocs n f).fiber.ptr ≡ f.ptr
unfolding gather_resume
gather_resume-ptr allocs n f = gather_loop-ptr (rounds f.rq) allocs (woken f) (suc n) _
