-- ===== src/Scheduler/Balance/Calls.antt =====
-- The calls of a running fiber keep the accounts, its own and those of the others.
use coseq.Base.{
  ℕ, suc, ◌+◌, ◌^◌, ◌<◌, ◌≡◌, refl, ap, sym, ◌∙◌, List, ◌∷◌, Option, none, some, Bool, true, false,
  arith, inc, if◌then◌else◌, Bool-cases, inl, inr,
}
use mathlib.Core.Path.{subst}
use coseq.Time.{Timespec}
use coseq.Types.{Alloc, Bytes, Fiber, Pending, Point, Ptr, Thread}
use coseq.Waiting.{peek}
use coseq.Waiting.Laws.{count_for}
use coseq.Fibers.{find_fiber}
use coseq.Fibers.Laws.{find_fiber-write}
use coseq.Thread.{on_fiber}
use coseq.Request.{
  request_common, arm_timer, coseq_request, coseq_request_timeout, coseq_request_async, coseq_send,
  coseq_reply, coseq_wait_timeout,
}
use coseq.Gather.{wait_reply-ptr, coseq_gather-ptr}
use coseq.Notify.{coseq_reg_notify, coseq_unreg_notify, coseq_notify}
use coseq.Lock.{coseq_lock, coseq_unlock}
use coseq.Sequence.{Call, exec_call}
use coseq.Scheduler.Balance.{at_gather, is_idle, Covers, Book}
use coseq.Scheduler.Balance.Waits.{Ended, runs, parks, wait_reply-Ended, coseq_gather-Ended}

-- A fiber that waits for nothing, or in `coseq_wait_reply`, has its accounts in order.
pub idle-Book :
    (f : Fiber) (ps : List Pending) (next : ℕ)
    → Covers (count_for f.ptr ps) f
    → is_idle f ≡ true
    → Book f ps next
idle-Book f ps next cov idle = record {
  owed = (cov.0, cov.1, omega (arith, cov.2));
  coherent = ground arith;
  wait = λ w. absurd (ground arith);
}

pub parks-Book :
    (f : Fiber) (ps : List Pending) (next : ℕ) → Ended (count_for f.ptr ps) f true → Book f ps next
parks-Book f ps next (parks cov any reply timer alive at) = record {
  owed = (cov.0, cov.1, omega (arith, cov.2));
  coherent = rw (any, reply, timer, alive, at);
  wait = λ w. absurd (ground arith);
}

-- What a call leaves of the fiber that made it: it runs on, or it waits.
pub data Outcome (p : Ptr) (t : Thread) : Bool → Type 0 where
  goes :
      (f : Fiber)
      → find_fiber p t.fibers ≡ some f
      → Ended (count_for p t.pending) f false
      → Outcome p t false
  stops :
      (f : Fiber)
      → find_fiber p t.fibers ≡ some f
      → Book f t.pending t.next_req_id
      → Outcome p t true

stay :
    (t : Thread) (f : Fiber) (t' : Thread)
    → find_fiber f.ptr t.fibers ≡ some f
    → Ended (count_for f.ptr t.pending) f false
    → t'.fibers ≡ t.fibers
    → t'.pending ≡ t.pending
    → Outcome f.ptr t' false
stay t f t' e h fs ps =
    goes f (ap (find_fiber f.ptr) fs ∙ e)
      (subst (λ p. Ended (count_for f.ptr p) f false) (sym ps) h)

asks-Book :
    (f : Fiber) (ps : List Pending) (id next : ℕ) (entry : Bool)
    → Covers (count_for f.ptr ps) f
    → f.waiting_reply ≡ true
    → f.wait_req_id ≡ id
    → f.waiting_any ≡ false
    → at_gather f.ctx ≡ false
    → f.done ≡ false
    → id < next
    → Book f (if entry then record { req_id = id; f = f.ptr } ∷ ps else ps) next
unfolding count_for peek
asks-Book f ps id next true cov reply at_id any at alive lt = record {
  owed = (cov.0, cov.1, ground (arith, cov.2));
  coherent = rw (any, reply, at, alive);
  wait = λ w. omega arith;
}
asks-Book f ps id next false cov reply at_id any at alive lt = record {
  owed = (cov.0, cov.1, omega (arith, cov.2));
  coherent = rw (any, reply, at, alive);
  wait = λ w. omega arith;
}

-- The fiber once it has asked.
abbrev asked : Timespec → Option ℕ → ℕ → Fiber → Fiber
asked now timeout id f =
    arm_timer now timeout
      (record f { waiting_reply = true; wait_req_id = id; ctx = Point.requesting })

idle_any : (f : Fiber) → is_idle f ≡ true → f.waiting_any ≡ false
idle_any f h = ground arith

request_common-Outcome :
    (a : Alloc) (now : Timespec) (t : Thread) (f : Fiber) (mi si : ℕ) (msg : Bytes)
    (timeout : Option ℕ)
    → find_fiber f.ptr t.fibers ≡ some f
    → Ended (count_for f.ptr t.pending) f false
    → t.next_req_id + 1 < 2 ^ 32
    → Outcome f.ptr (request_common a now t f mi si msg timeout) true
unfolding request_common
request_common-Outcome a now t f mi si msg none e (runs cov idle alive) room =
    stops (asked now none t.next_req_id f)
      (find_fiber-write f.ptr (asked now none t.next_req_id) t.fibers f (λ g h. h) e)
      (asks-Book (asked now none t.next_req_id f) t.pending t.next_req_id _ a.entry cov refl refl
        (idle_any f idle) refl alive (omega arith))
request_common-Outcome a now t f mi si msg (some ms) e (runs cov idle alive) room =
    stops (asked now (some ms) t.next_req_id f)
      (find_fiber-write f.ptr (asked now (some ms) t.next_req_id) t.fibers f (λ g h. h) e)
      (asks-Book (asked now (some ms) t.next_req_id f) t.pending t.next_req_id _ a.entry cov refl
        refl (idle_any f idle) refl alive (omega arith))

async-Outcome :
    (a : Alloc) (t : Thread) (f : Fiber) (mi si : ℕ) (msg : Bytes)
    → find_fiber f.ptr t.fibers ≡ some f
    → Ended (count_for f.ptr t.pending) f false
    → Outcome f.ptr (coseq_request_async a t f mi si msg).0 false
unfolding coseq_request_async count_for
async-Outcome a t f mi si msg e (runs cov idle alive) =
    goes (record f { async_outstanding = inc f.async_outstanding })
      (find_fiber-write f.ptr (λ g. record g { async_outstanding = inc g.async_outstanding })
        t.fibers f (λ g h. h) e)
      (runs
        (
          suc cov.0,
          ap inc cov.1,
          elim (Bool-cases a.entry) [
            | inl made ↦ rw made (ground (arith, cov.2))
            | inr lost ↦ rw lost (omega (arith, cov.2))
          ],
        )
        idle alive)

sleep-Outcome :
    (now : Timespec) (t : Thread) (f : Fiber) (ms : ℕ)
    → find_fiber f.ptr t.fibers ≡ some f
    → Ended (count_for f.ptr t.pending) f false
    → Outcome f.ptr (coseq_wait_timeout now t f ms) true
unfolding coseq_wait_timeout
sleep-Outcome now t f ms e (runs cov idle alive) =
    stops _ (find_fiber-write f.ptr _ t.fibers f (λ g h. h) e) (record {
      owed = (cov.0, cov.1, omega (arith, cov.2));
      coherent = ground arith;
      wait = λ w. absurd (ground arith);
    })

-- The fiber after `coseq_wait_reply` or `coseq_gather`.
pub write-Outcome :
    (p : Ptr) (t : Thread) (f g : Fiber) (b : Bool)
    → find_fiber p t.fibers ≡ some f
    → g.ptr ≡ p
    → Ended (count_for p t.pending) g b
    → Outcome p (on_fiber p (λ _. g) t) b
write-Outcome p t f g false e at h = goes g (find_fiber-write p (λ _. g) t.fibers f (λ _ _. at) e) h
write-Outcome p t f g true e at h = stops g (find_fiber-write p (λ _. g) t.fibers f (λ _ _. at) e) (
    parks-Book g t.pending t.next_req_id
      (subst (λ q. Ended (count_for q t.pending) g true) (sym at) h))

pub exec_call-Outcome :
    (t : Thread) (f : Fiber) (c : Call)
    → find_fiber f.ptr t.fibers ≡ some f
    → Ended (count_for f.ptr t.pending) f false
    → t.next_req_id + 1 < 2 ^ 32
    → Outcome f.ptr (exec_call t f c).0 (exec_call t f c).1
unfolding exec_call coseq_request coseq_request_timeout coseq_send coseq_reply coseq_reg_notify
    coseq_unreg_notify coseq_notify coseq_lock coseq_unlock
exec_call-Outcome t f (Call.request a mi si msg) e h room =
    request_common-Outcome a (record { tv_sec = 0; tv_nsec = 0 }) t f mi si msg none e h room
exec_call-Outcome t f (Call.request_timeout a now mi si msg ms) e h room =
    request_common-Outcome a now t f mi si msg (some ms) e h room
exec_call-Outcome t f (Call.request_async a mi si msg) e h room = async-Outcome a t f mi si msg e h
exec_call-Outcome t f (Call.wait_timeout now ms) e h room = sleep-Outcome now t f ms e h
exec_call-Outcome t f (Call.wait_one a) e h room =
    write-Outcome f.ptr t f _ _ e (wait_reply-ptr a Point.waiting_one f)
      (wait_reply-Ended (count_for f.ptr t.pending) a Point.waiting_one f refl h)
exec_call-Outcome t f (Call.gather allocs) e h room =
    write-Outcome f.ptr t f _ _ e (coseq_gather-ptr allocs f)
      (coseq_gather-Ended (count_for f.ptr t.pending) allocs f h)
exec_call-Outcome t f (Call.send a mi si msg) e h room = stay t f _ e h refl refl
exec_call-Outcome t f (Call.reply a r msg) e h room =
    stay t f (coseq_reply a t f r msg) e h (ground arith) (ground arith)
exec_call-Outcome t f (Call.reg_notify a category) e h room =
    stay t f (coseq_reg_notify a t f category).0 e h (ground arith) (ground arith)
exec_call-Outcome t f (Call.unreg_notify category id) e h room = stay t f _ e h refl refl
exec_call-Outcome t f (Call.notify allocs category msg) e h room = stay t f _ e h refl refl
exec_call-Outcome t f Call.lock e h room = stay t f _ e h refl refl
exec_call-Outcome t f Call.unlock e h room =
    stay t f (coseq_unlock t f) e h (ground arith) (ground arith)
