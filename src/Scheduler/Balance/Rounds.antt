-- ===== src/Scheduler/Balance/Rounds.antt =====
-- A whole round of `sched_loop` keeps the accounts of all fibers.
use coseq.Base.{
  ℕ, ◌+◌, ◌^◌, ◌≤◌, ◌<◌, ◌≡◌, refl, List, [], ◌∷◌, some, arith, length, Bool-cases, inl, inr,
}
use coseq.Time.{Timespec}
use coseq.Types.{Fiber, Ptr, Thread}
use coseq.Fibers.{find_fiber, ptrs, live_fibers, reap_done}
use coseq.Thread.{on_module}
use coseq.Scheduler.{Turn, turn_work, fire_timers, is_locked, splice_deferred}
use coseq.Scheduler.Rounds.{round_start, round_work}
use coseq.Scheduler.Balance.{Descending, Books, nobody}
use coseq.Scheduler.Balance.Others.{Descending-find}
use coseq.Scheduler.Balance.Replies.{Keeps}
use coseq.Scheduler.Balance.Events.{calls_of, handle_events-Keeps}
use coseq.Scheduler.Balance.Timers.{fire_timers-Kept}

-- How many calls the sequences make in a round, at most.
abbrev pub round_calls : (ℕ → Turn) → (ℕ → Turn) → Thread → ℕ
round_calls timers events t =
    calls_of timers (length (ptrs t.fibers)) + calls_of events (length (splice_deferred t.m).inbox)

round_start-Books : (t : Thread) → Books nobody t → Books nobody (round_start t)
unfolding splice_deferred
round_start-Books t b = elim (Bool-cases (is_locked t.locked_by)) [
  | inl locked ↦ rw locked (record {
    book = b.book;
    fresh = b.fresh;
    order = b.order;
    below = b.below;
    distinct = b.distinct;
  })
  | inr free ↦ rw free (record {
    book = b.book;
    fresh = b.fresh;
    order = b.order;
    below = b.below;
    distinct = b.distinct;
  })
]

round_start_same :
    (t : Thread)
    → (ptrs (round_start t).fibers ≡ ptrs t.fibers) × ((round_start t).next_req_id ≡ t.next_req_id)
unfolding splice_deferred
round_start_same t = (ground arith, ground arith)

pub round_work-Keeps :
    (now : Timespec) (timers events : ℕ → Turn) (t : Thread)
    → Books nobody t
    → t.next_req_id + round_calls timers events t < 2 ^ 32
    → Keeps (round_calls timers events t) t (round_work now timers events t)
unfolding round_work turn_work
round_work-Keeps now timers events t b room u work =
    let started = round_start-Books t b in
    let (same, next) = round_start_same t in
    let early : Thread = fire_timers now timers (ptrs t.fibers) (round_start t) in
    let (books, le) =
      fire_timers-Kept now timers (ptrs t.fibers) (round_start t) started (omega (arith, next)) in
    let (done, more) =
      handle_events-Keeps events (splice_deferred t.m).inbox early books (omega (arith, next, le)) u
        (ground (arith, same)) in
    (done, omega (arith, next, le, more))

Descending-le : (n n' : Ptr) (ps : List Ptr) → n ≤ n' → Descending n ps → Descending n' ps
Descending-le n n' [] le d = tt
Descending-le n n' (p ∷ ps) le d = (omega (arith, d.0), d.1)

Descending-live :
    (n : Ptr) (fs : List Fiber) → Descending n (ptrs fs) → Descending n (ptrs (live_fibers fs))
unfolding ptrs live_fibers
Descending-live n [] d = tt
Descending-live n (f ∷ fs) d = elim (Bool-cases f.done) [
  | inl gone ↦ rw gone (Descending-le f.ptr n _ (omega (arith, d.0)) (Descending-live f.ptr fs d.1))
  | inr here ↦ rw here (d.0, Descending-live f.ptr fs d.1)
]

find_fiber-live :
    (n q : Ptr) (fs : List Fiber) (g : Fiber)
    → Descending n (ptrs fs)
    → find_fiber q (live_fibers fs) ≡ some g
    → find_fiber q fs ≡ some g
unfolding find_fiber ptrs live_fibers
find_fiber-live n q [] g d e = e
find_fiber-live n q (f ∷ fs) g d e = elim (Bool-cases f.done) [
  | inl gone ↦
      let later : find_fiber q fs ≡ some g = find_fiber-live f.ptr q fs g d.1 (rw gone at e) in
      let lt : q < f.ptr = Descending-find f.ptr q fs g d.1 later in ground arith
  | inr here ↦ ground (arith, find_fiber-live f.ptr q fs g d.1)
]

pub reap_done-Books : (t : Thread) → Books nobody t → Books nobody (on_module reap_done t)
unfolding reap_done
reap_done-Books t b = record {
  book = λ q g _ e. b.book q g refl (find_fiber-live t.next_ptr q t.fibers g b.order e);
  fresh = b.fresh;
  order = Descending-live t.next_ptr t.fibers b.order;
  below = b.below;
  distinct = b.distinct;
}
