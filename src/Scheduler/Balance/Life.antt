-- ===== src/Scheduler/Balance/Life.antt =====
-- The accounts of the fibers of a module from `_setup` on.
use coseq.Base.{List, ℕ, ◌+◌, ◌^◌, ◌≤◌, ◌<◌, ◌≡◌, ◌≢◌, refl, ap, some, false, arith, length, pos}
use coseq.Time.{Timespec}
use coseq.Types.{Effect, Ev, Fiber, Ptr, Reg, Thread}
use coseq.Waiting.Laws.{count_for}
use coseq.Fibers.{find_fiber, ptrs, reap_done}
use coseq.Fibers.Laws.{find_fiber-ptr}
use coseq.Thread.{on_module}
use coseq.Instance.{receive}
use coseq.Instance.Setup.{register}
use coseq.Scheduler.{Turn, sched_round, fault}
use coseq.Scheduler.Rounds.{round_work, sched_round_no_fault, sched_round-IsSafe}
use coseq.Scheduler.Safety.{IsSafe}
use coseq.Sequence.Ids.{HasOwnIds}
use coseq.Scheduler.Reach.{first_thread, first_thread-IsSafe}
use coseq.Scheduler.Balance.{blocked, Books, nobody}
use coseq.Scheduler.Balance.Rounds.{round_calls, round_work-Keeps, reap_done-Books}
use coseq.Scheduler.Balance.Collected.{IsCollected, collected-IsTidy}

-- States that the thread comes to while the counter of request ids does not wrap, each round ending,
-- before fibers are freed, in a state with `P`. Events come between rounds. The counter of client ids,
-- which is shared, may be any number when a round begins, and so may what the thread has done to others
-- and not been relieved of.
pub data Runs (P : Thread → Type 0) (t : Thread) : Thread → Type 0 where
  begins : Runs P t t
  arrives : (u : Thread) (e : Ev) → Runs P t u → Runs P t (on_module (receive e) u)
  counts :
      (u : Thread) (next : ℕ) (out : List Effect)
      → Runs P t u
      → Runs P t (record u { next_client_id = next; out = out })
  turns :
      (u v : Thread) (now : Timespec) (timers events : ℕ → Turn)
      → Runs P t u
      → u.stop ≡ false
      → u.next_req_id + round_calls timers events u < 2 ^ 32
      → round_work now timers events u ≡ some v
      → P v
      → Runs P t (on_module reap_done v)

first_thread-Books : (next i : ℕ) (r : Reg) → Books nobody (first_thread next i r)
unfolding register find_fiber ptrs count_for
first_thread-Books next i r = record {
  book = λ q g _ e. absurd (ground arith);
  fresh = λ q le. refl;
  order = tt;
  below = tt;
  distinct = tt;
}

Runs-Books : (P : Thread → Type 0) (t u : Thread) → Runs P t u → Books nobody t → Books nobody u
Runs-Books P t u begins b = b
Runs-Books P t _ (arrives u e way) b =
    let h = Runs-Books P t u way b in
    record {
      book = h.book;
      fresh = h.fresh;
      order = h.order;
      below = h.below;
      distinct = h.distinct;
    }
Runs-Books P t _ (counts u next out way) b =
    let h = Runs-Books P t u way b in
    record {
      book = h.book;
      fresh = h.fresh;
      order = h.order;
      below = h.below;
      distinct = h.distinct;
    }
Runs-Books P t _ (turns u v now timers events way runs room work end) b =
    reap_done-Books v (round_work-Keeps now timers events u (Runs-Books P t u way b) room v work).0

Runs-IsSafe : (t u : Thread) → Runs IsCollected t u → Books nobody t → IsSafe t → IsSafe u
Runs-IsSafe t u begins b safe = safe
Runs-IsSafe t _ (arrives u e way) b safe =
    let h = Runs-IsSafe t u way b safe in record { live = h.live; table = h.table }
Runs-IsSafe t _ (counts u next out way) b safe =
    let h = Runs-IsSafe t u way b safe in record { live = h.live; table = h.table }
Runs-IsSafe t _ (turns u v now timers events way runs room work end) b safe =
    let books = (round_work-Keeps now timers events u (Runs-Books _ t u way b) room v work).0 in
    (sched_round-IsSafe now timers events u v (Runs-IsSafe t u way b safe) runs work
      (collected-IsTidy v books end)).1

-- In every state that a module comes to from `_setup` on, while its counter of request ids has not
-- wrapped, through any events, sequences and allocations: `async_outstanding` of a fiber is not
-- negative, and it counts at least the replies in the fiber's queue and the entries that wait for the
-- fiber, without the one that a synchronous request of the fiber waits for.
pub reachable_owed :
    (next i : ℕ) (r : Reg) (u : Thread) (p : Ptr) (f : Fiber)
    → Runs (λ _. Unit) (first_thread next i r) u
    → find_fiber p u.fibers ≡ some f
    → (k : ℕ) × (f.async_outstanding ≡ pos k)
      × (length f.rq + count_for p u.pending ≤ k + blocked f u.pending)
reachable_owed next i r u p f way e =
    let (k, out, le) =
      ((Runs-Books (λ _. Unit) (first_thread next i r) u way (first_thread-Books next i r)).book p f
        refl e).owed in
    (k, out, omega (arith, le, ap (λ q. count_for q u.pending) (find_fiber-ptr p u.fibers f e)))

-- In every state that a module comes to from `_setup` on, while its counter of request ids has not
-- wrapped, through any events, sequences and allocations: no two entries that wait have the same id,
-- and all ids are below the counter, so that the next request gets an id of its own.
pub reachable_ids :
    (next i : ℕ) (r : Reg) (u : Thread) → Runs (λ _. Unit) (first_thread next i r) u → HasOwnIds u
reachable_ids next i r u way =
    let b = Runs-Books (λ _. Unit) (first_thread next i r) u way (first_thread-Books next i r) in
    record { below = b.below; distinct = b.distinct }

-- A module that `_setup` started, with a table of sequences that has its `nr_seq_max` entries: in
-- every state that it comes to, through any events and allocations, while its counter of request ids
-- has not wrapped and as long as each sequence that returns has collected the replies to its
-- asynchronous requests (`async_outstanding` is 0), the next round reads neither through a freed fiber
-- nor past the table.
pub collected_no_fault :
    (next i : ℕ) (r : Reg) (u : Thread) (now : Timespec) (timers events : ℕ → Turn)
    → r.nr_seq_max ≤ length r.seq_array
    → Runs IsCollected (first_thread next i r) u
    → sched_round now timers events u ≢ fault
collected_no_fault next i r u now timers events whole way =
    sched_round_no_fault now timers events u (
      Runs-IsSafe (first_thread next i r) u way (first_thread-Books next i r)
        (first_thread-IsSafe next i r whole))
