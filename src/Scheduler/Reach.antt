-- ===== src/Scheduler/Reach.antt =====
-- The life of a module, from `_setup` on: rounds of its scheduler, and events from other threads
-- between them.
use coseq.Base.{ℕ, ◌≤◌, ◌≡◌, ◌≢◌, [], some, false, length}
use coseq.Time.{Timespec}
use coseq.Types.{Ev, Reg, Thread}
use coseq.Fibers.{reap_done}
use coseq.Thread.{on_module}
use coseq.Instance.{receive}
use coseq.Instance.Setup.{register}
use coseq.Instance.SetupLoops.{registered, started}
use coseq.Scheduler.{Turn, sched_round, fault}
use coseq.Scheduler.Safety.{IsSafe}
use coseq.Scheduler.Rounds.{IsTidy, round_work, sched_round_no_fault, sched_round-IsSafe}

-- The thread of a module that `_setup` has just started; `next` is the counter of client ids.
abbrev pub first_thread : ℕ → ℕ → Reg → Thread
first_thread next i r = record { m = started (registered i r); next_client_id = next; out = [] }

-- States that the thread comes to. In each round that is counted, no sequence has returned and left a
-- request that waits for its reply. The counter of client ids is shared, and may be any number when a
-- round begins.
pub data Reaches (t : Thread) : Thread → Type 0 where
  begins : Reaches t t
  arrives : (u : Thread) (e : Ev) → Reaches t u → Reaches t (on_module (receive e) u)
  counts : (u : Thread) (next : ℕ) → Reaches t u → Reaches t (record u { next_client_id = next })
  turns :
      (u v : Thread) (now : Timespec) (timers events : ℕ → Turn)
      → Reaches t u
      → u.stop ≡ false
      → round_work now timers events u ≡ some v
      → IsTidy v
      → Reaches t (on_module reap_done v)

pub first_thread-IsSafe :
    (next i : ℕ) (r : Reg) → r.nr_seq_max ≤ length r.seq_array → IsSafe (first_thread next i r)
unfolding register
first_thread-IsSafe next i r whole = record { live = tt; table = whole }

Reaches-IsSafe : (t u : Thread) → Reaches t u → IsSafe t → IsSafe u
Reaches-IsSafe t u begins safe = safe
Reaches-IsSafe t _ (arrives u e way) safe =
    let h = Reaches-IsSafe t u way safe in record { live = h.live; table = h.table }
Reaches-IsSafe t _ (counts u next way) safe =
    let h = Reaches-IsSafe t u way safe in record { live = h.live; table = h.table }
Reaches-IsSafe t _ (turns u v now timers events way runs work tidy) safe =
    (sched_round-IsSafe now timers events u v (Reaches-IsSafe t u way safe) runs work tidy).1

-- A module that `_setup` started, with a table of sequences that has its `nr_seq_max` entries: in
-- every state that it comes to, through any events, sequences and allocations, as long as no sequence
-- returns and leaves a request that waits for its reply, the next round reads neither through a freed
-- fiber nor past the table.
pub reachable_no_fault :
    (next i : ℕ) (r : Reg) (u : Thread) (now : Timespec) (timers events : ℕ → Turn)
    → r.nr_seq_max ≤ length r.seq_array
    → Reaches (first_thread next i r) u
    → sched_round now timers events u ≢ fault
reachable_no_fault next i r u now timers events whole way =
    sched_round_no_fault now timers events u
      (Reaches-IsSafe (first_thread next i r) u way (first_thread-IsSafe next i r whole))
