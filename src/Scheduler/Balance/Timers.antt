-- ===== src/Scheduler/Balance/Timers.antt =====
-- The timers keep the accounts of all fibers.
use coseq.Base.{
  ℕ, suc, ◌+◌, ◌^◌, ◌<◌, ◌≡◌, refl, ap, ◌∙◌, List, [], ◌∷◌, some, true, false, arith, length,
  Bool-cases, Option-cases, inl, inr,
}
use mathlib.Core.Path.{subst}
use coseq.Time.{Timespec}
use coseq.Types.{Alloc, Fiber, Ptr, Rslt, Thread}
use coseq.Waiting.{peek, unlink, pending_take}
use coseq.Waiting.Laws.{count_for}
use coseq.Fibers.{find_fiber, modify_fiber, set_src}
use coseq.Fibers.Laws.{find_fiber-ptr, find_fiber-write}
use coseq.Thread.{on_module, on_fiber}
use coseq.Scheduler.{Turn, is_due, time_out, fire_timer, fire_timers}
use coseq.Scheduler.Balance.{blocked, finds, is_coherent, Book, Books, nobody, only}
use coseq.Scheduler.Balance.Entries.{count_for-finds}
use coseq.Scheduler.Balance.Bursts.{split-Books, write-Books, due, Ready, resume-Books}
use coseq.Scheduler.Balance.Counter.{resume_counter}
use coseq.Scheduler.Balance.Replies.{take-Books, one_here, Kept, Kept-same}
use coseq.Scheduler.Balance.Events.{calls_of}

idle_timer : (f : Fiber) → is_coherent f ≡ true → f.waiting_timer ≡ true → f.waiting_any ≡ false
idle_timer f h timer = ground arith

abbrev late : Alloc → Fiber → Fiber → Fiber
late a f = set_src a [] Rslt.req_timeout 0 f.seq_idx 0 f.wait_req_id

module _ (p : Ptr) (f : Fiber) (t : Thread) (b : Books nobody t)
    (here : find_fiber p t.fibers ≡ some f) (timer : f.waiting_timer ≡ true) where
  at : f.ptr ≡ p
  at = find_fiber-ptr p t.fibers f here

  mine : Book f t.pending t.next_req_id
  mine = b.book p f refl here

  stands : (due f.ctx ≡ 0) × (f.done ≡ false)
  stands = one_here f mine.coherent (idle_timer f mine.coherent timer) (ground arith)

  idle_Ready : f.waiting_reply ≡ false → Ready p f t
  idle_Ready idle = record {
    others = split-Books p t b;
    there = here;
    covers =
        let none_blocked : blocked f t.pending ≡ 0 = rw idle in
        (
          mine.owed.0,
          mine.owed.1,
          omega (arith, mine.owed.2, none_blocked, stands.0, ap (λ q. count_for q t.pending) at),
        );
    alive = stands.1;
  }

  asked_Ready :
      (a : Alloc)
      → f.waiting_reply ≡ true
      → Ready p
          (late a f f)
          (on_fiber f.ptr (late a f) (on_module (λ m. (pending_take m f.wait_req_id).0) t))
  unfolding set_src pending_take
  asked_Ready a asks = record {
    others =
        subst
          (λ q.
            Books (only q)
              (on_fiber f.ptr (late a f) (on_module (λ m. (pending_take m f.wait_req_id).0) t)))
          at
          (write-Books f.ptr (late a f) (on_module (λ m. (pending_take m f.wait_req_id).0) t)
            (λ g h. h)
            (split-Books f.ptr (on_module (λ m. (pending_take m f.wait_req_id).0) t)
              (take-Books f.wait_req_id t b)));
    there =
        subst (λ q. find_fiber q (modify_fiber f.ptr (late a f) t.fibers) ≡ some (late a f f)) at
          (find_fiber-write f.ptr (late a f) t.fibers f (λ g h. h)
            (ap (λ q. find_fiber q t.fibers) at ∙ here));
    covers =
        let one_blocked : blocked f t.pending ≡ finds (peek f.wait_req_id t.pending) f.ptr =
          rw asks in
        (
          mine.owed.0,
          mine.owed.1,
          omega (
            arith,
            mine.owed.2,
            one_blocked,
            stands.0,
            count_for-finds f.ptr f.wait_req_id t.pending,
            ap (λ q. count_for q (unlink f.wait_req_id t.pending)) at,
          ),
        );
    alive = stands.1;
  }

time_out-Ready :
    (a : Alloc) (p : Ptr) (f : Fiber) (t : Thread)
    → Books nobody t
    → find_fiber p t.fibers ≡ some f
    → f.waiting_timer ≡ true
    → ((g : Fiber) × Ready p g (time_out a f t)) × ((time_out a f t).next_req_id ≡ t.next_req_id)
unfolding time_out set_src pending_take
time_out-Ready a p f t b here timer = elim (Bool-cases f.waiting_reply) [
  | inl asks ↦ rw asks ((late a f f, asked_Ready p f t b here timer a asks), refl)
  | inr idle ↦ rw idle ((f, idle_Ready p f t b here timer idle), refl)
]

fire_timer-Kept :
    (now : Timespec) (w : Turn) (p : Ptr) (t : Thread)
    → Books nobody t
    → t.next_req_id + length w.burst.calls < 2 ^ 32
    → Kept (length w.burst.calls) t (fire_timer now w p t)
unfolding fire_timer
fire_timer-Kept now w p t b room = elim (Option-cases (find_fiber p t.fibers)) [
  | inl e ↦ rw (e, fire_timer) (Kept-same _ t b)
  | inr (f, e) ↦
      rw (e, fire_timer)
        (elim (Bool-cases (is_due now t.locked_by f)) [
          | inl fires ↦
              let ((g, ready), same) = time_out-Ready w.alloc p f t b e (ground arith) in
              let enough : (time_out w.alloc f t).next_req_id + length w.burst.calls < 2 ^ 32 =
                omega (arith, same) in
              rw fires (
                resume-Books p w.burst g (time_out w.alloc f t) ready enough,
                omega (arith, same, resume_counter p w.burst (time_out w.alloc f t) enough),
              )
          | inr rests ↦ rw rests (Kept-same _ t b)
        ])
]

pub fire_timers-Kept :
    (now : Timespec) (turns : ℕ → Turn) (ps : List Ptr) (t : Thread)
    → Books nobody t
    → t.next_req_id + calls_of turns (length ps) < 2 ^ 32
    → Kept (calls_of turns (length ps)) t (fire_timers now turns ps t)
unfolding fire_timers calls_of
fire_timers-Kept now turns [] t b room = Kept-same _ t b
fire_timers-Kept now turns (p ∷ ps) t b room =
    let (books, le) = fire_timer-Kept now (turns 0) p t b (omega arith) in
    let (rest, more) =
      fire_timers-Kept now (λ i. turns (suc i)) ps (fire_timer now (turns 0) p t) books
        (omega (arith, le)) in
    (rest, omega (arith, le, more))
