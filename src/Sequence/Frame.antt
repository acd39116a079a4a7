-- ===== src/Sequence/Frame.antt =====
-- What a burst of one fiber leaves alone: the other fibers, and the parts of the module that only the
-- scheduler writes.
use coseq.Base.{
  ℕ, ◌≡◌, ◌≢◌, refl, ap, ◌∙◌, List, Option, none, some, Bool, true, false, arith, All, All-trivial,
}
use mathlib.Core.Path.{subst}
use coseq.Time.{Timespec}
use coseq.Types.{Alloc, Bytes, Ev, Fiber, Point, Ptr, Rslt, SeqEntry, Thread}
use coseq.Fibers.{find_fiber, modify_fiber, ptrs}
use coseq.Fibers.Laws.{find_fiber-modify_ne, find_fiber-ptr, ptrs-modify}
use coseq.Request.{
  request_common, coseq_request, coseq_request_timeout, coseq_request_async, coseq_send,
  coseq_reply, coseq_wait_timeout, arm_timer,
}
use coseq.Gather.{wait_reply-ptr, coseq_gather-ptr}
use coseq.Notify.{coseq_reg_notify, coseq_unreg_notify, coseq_notify}
use coseq.Lock.{coseq_lock, coseq_unlock}
use coseq.Sequence.Rule.{come_back-ptr, resume_rule}
use coseq.Sequence.{Call, Burst, exec_call, finish, clear_waits, resume}

-- The parts of a module that only its scheduler writes, and `post` to its inbox.
pub record Fixed : Type 0 where
  pub idx : ℕ
  pub seqs : List SeqEntry
  pub nr_seq : ℕ
  pub recv_notify : Option ℕ
  pub inbox : List Ev
  pub stop : Bool
  pub deferred : List Ev
  pub next_ptr : Ptr

abbrev pub fixed : Thread → Fixed
fixed t = record {
  idx = t.idx;
  seqs = t.seqs;
  nr_seq = t.nr_seq;
  recv_notify = t.recv_notify;
  inbox = t.inbox;
  stop = t.stop;
  deferred = t.deferred;
  next_ptr = t.next_ptr;
}

-- `t'` differs from `t` by what the code of fiber `p` may do.
pub record Frame (p : Ptr) (t t' : Thread) : Type 0 where
  pub others : (q : Ptr) → p ≢ q → find_fiber q t'.fibers ≡ find_fiber q t.fibers
  pub same_ptrs : ptrs t'.fibers ≡ ptrs t.fibers
  pub same_fixed : fixed t' ≡ fixed t

pub Frame-refl : (p : Ptr) (t : Thread) → Frame p t t
Frame-refl p t = record { others = λ q n. refl; same_ptrs = refl; same_fixed = refl }

pub Frame-trans : (p : Ptr) (s t u : Thread) → Frame p s t → Frame p t u → Frame p s u
Frame-trans p s t u a b = record {
  others = λ q n. b.others q n ∙ a.others q n;
  same_ptrs = b.same_ptrs ∙ a.same_ptrs;
  same_fixed = b.same_fixed ∙ a.same_fixed;
}

-- A write to the fibers through `p`, with any change outside of `Fixed` and the fibers.
pub write-Frame :
    (p : Ptr) (h : Fiber → Fiber) (t t' : Thread)
    → ((f : Fiber) → f.ptr ≡ p → (h f).ptr ≡ p)
    → t'.fibers ≡ modify_fiber p h t.fibers
    → fixed t' ≡ fixed t
    → Frame p t t'
write-Frame p h t t' k e s = record {
  others = λ q n. ap (find_fiber q) e ∙ find_fiber-modify_ne p q h t.fibers k n;
  same_ptrs = ap ptrs e ∙ ptrs-modify p h t.fibers k;
  same_fixed = s;
}

-- No write to the fibers.
still-Frame : (p : Ptr) (t t' : Thread) → t'.fibers ≡ t.fibers → fixed t' ≡ fixed t → Frame p t t'
still-Frame p t t' e s = record {
  others = λ q n. ap (find_fiber q) e;
  same_ptrs = ap ptrs e;
  same_fixed = s;
}

arm_timer-ptr :
    (now : Timespec) (timeout : Option ℕ) (f : Fiber) → (arm_timer now timeout f).ptr ≡ f.ptr
unfolding arm_timer
arm_timer-ptr now none f = refl
arm_timer-ptr now (some ms) f = refl

request_common-Frame :
    (a : Alloc) (now : Timespec) (t : Thread) (f : Fiber) (mi si : ℕ) (msg : Bytes)
    (timeout : Option ℕ)
    → Frame f.ptr t (request_common a now t f mi si msg timeout)
unfolding request_common
request_common-Frame a now t f mi si msg timeout =
    write-Frame f.ptr
      (λ g.
        arm_timer now timeout
          (record g { waiting_reply = true; wait_req_id = t.next_req_id; ctx = Point.requesting }))
      t _ (λ g e. arm_timer-ptr now timeout _ ∙ e) refl refl

coseq_reply-Frame :
    (a : Alloc) (t : Thread) (f : Fiber) (r : Rslt) (msg : Bytes)
    → Frame f.ptr t (coseq_reply a t f r msg)
unfolding coseq_reply
coseq_reply-Frame a t f r msg =
    still-Frame f.ptr t (coseq_reply a t f r msg) (ground arith) (ground arith)

coseq_reg_notify-Frame :
    (a : Alloc) (t : Thread) (f : Fiber) (category : ℕ)
    → Frame f.ptr t (coseq_reg_notify a t f category).0
unfolding coseq_reg_notify
coseq_reg_notify-Frame a t f category =
    still-Frame f.ptr t (coseq_reg_notify a t f category).0 (ground arith) (ground arith)

coseq_unlock-Frame : (t : Thread) (f : Fiber) → Frame f.ptr t (coseq_unlock t f)
unfolding coseq_unlock
coseq_unlock-Frame t f = still-Frame f.ptr t (coseq_unlock t f) (ground arith) (ground arith)

-- A call of the fiber changes its own fiber only, and nothing that is the scheduler's.
pub exec_call-Frame : (t : Thread) (f : Fiber) (c : Call) → Frame f.ptr t (exec_call t f c).0
unfolding exec_call coseq_request coseq_request_timeout coseq_request_async coseq_send
    coseq_wait_timeout coseq_unreg_notify coseq_notify coseq_lock
exec_call-Frame t f (Call.request a mi si msg) =
    request_common-Frame a (record { tv_sec = 0; tv_nsec = 0 }) t f mi si msg none
exec_call-Frame t f (Call.request_timeout a now mi si msg ms) =
    request_common-Frame a now t f mi si msg (some ms)
exec_call-Frame t f (Call.request_async a mi si msg) = write-Frame f.ptr _ t _ (λ g e. e) refl refl
exec_call-Frame t f (Call.send a mi si msg) = still-Frame f.ptr t _ refl refl
exec_call-Frame t f (Call.reply a r msg) = coseq_reply-Frame a t f r msg
exec_call-Frame t f (Call.wait_timeout now ms) = write-Frame f.ptr _ t _ (λ g e. e) refl refl
exec_call-Frame t f (Call.wait_one a) =
    write-Frame f.ptr _ t _ (λ g e. wait_reply-ptr a Point.waiting_one f) refl refl
exec_call-Frame t f (Call.gather allocs) =
    write-Frame f.ptr _ t _ (λ g e. coseq_gather-ptr allocs f) refl refl
exec_call-Frame t f (Call.reg_notify a category) = coseq_reg_notify-Frame a t f category
exec_call-Frame t f (Call.unreg_notify category id) = still-Frame f.ptr t _ refl refl
exec_call-Frame t f (Call.notify allocs category msg) = still-Frame f.ptr t _ refl refl
exec_call-Frame t f Call.lock = still-Frame f.ptr t _ refl refl
exec_call-Frame t f Call.unlock = coseq_unlock-Frame t f

-- So does a whole burst, from the resumption on.
pub resume-Frame : (p : Ptr) (b : Burst) (t : Thread) → Frame p t (resume p b t)
unfolding finish clear_waits
resume-Frame p b t =
    resume_rule (Frame p t) (λ _. Unit {0}) p
      (λ u f c e q h. Frame-trans p t u _ h (
        subst (λ q. Frame q u (exec_call u f c).0) (find_fiber-ptr p u.fibers f e)
          (exec_call-Frame u f c)))
      (λ u h. Frame-trans p t u _ h (write-Frame p _ u _ (λ g e. e) refl refl)) (Frame p t) b
      (λ u h. Frame-trans p t u _ h (write-Frame p clear_waits u _ (λ g e. e) refl refl))
      (λ u f e h. Frame-trans p t u _ h (
        write-Frame p _ u _ (λ g _. come_back-ptr b.allocs f ∙ find_fiber-ptr p u.fibers f e) refl
          refl))
      (λ u e h. h) (λ u h. Frame-trans p t u _ h (still-Frame p u _ refl refl))
      (All-trivial b.calls) t (Frame-refl p t)

-- The lock changes only by `coseq_lock` and `coseq_unlock`.
abbrev pub is_lock_call : Call → Bool
is_lock_call Call.lock = true
is_lock_call Call.unlock = true
is_lock_call _ = false

abbrev pub LeavesLock : List Call → Type 0
LeavesLock cs = All (λ c. is_lock_call c ≡ false) cs

exec_call-locked_by :
    (t : Thread) (f : Fiber) (c : Call)
    → is_lock_call c ≡ false
    → (exec_call t f c).0.locked_by ≡ t.locked_by
unfolding exec_call coseq_request coseq_request_timeout coseq_request_async coseq_send coseq_reply
    coseq_wait_timeout coseq_reg_notify coseq_unreg_notify coseq_notify coseq_lock
exec_call-locked_by t f Call.lock h = cc
exec_call-locked_by t f Call.unlock h = cc
exec_call-locked_by t f c h = ground arith

pub resume-locked_by :
    (p : Ptr) (b : Burst) (t : Thread) → LeavesLock b.calls → (resume p b t).locked_by ≡ t.locked_by
unfolding finish clear_waits
resume-locked_by p b t h =
    resume_rule (λ u. u.locked_by ≡ t.locked_by) (λ c. is_lock_call c ≡ false) p
      (λ u f c e q k. exec_call-locked_by u f c q ∙ k) (λ u k. k) (λ u. u.locked_by ≡ t.locked_by) b
      (λ u k. k) (λ u f e k. k) (λ u e k. k) (λ u k. k) h t refl
