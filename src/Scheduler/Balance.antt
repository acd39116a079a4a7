-- ===== src/Scheduler/Balance.antt =====
-- The accounts of a fiber: its count of outstanding replies covers the replies in its queue and the
-- entries that wait for it. From this it follows that a sequence which has collected its replies
-- leaves no entry behind.
pub mod Entries
pub mod Waits
pub mod Others
pub mod Calls
pub mod Bursts
pub mod Counter
pub mod Replies
pub mod Launch
pub mod Events
pub mod Timers
pub mod Rounds
pub mod Collected
pub mod Life
mod Tests
use coseq.Base.{
  ℕ, ◌+◌, ◌≤◌, ◌<◌, ◌≡◌, ◌≢◌, List, [], ◌∷◌, Option, none, some, Bool, true, false, not, ◌&&◌, ◌||◌,
  pos, length, ◌==◌, if◌then◌else◌,
}
use coseq.Types.{Fiber, Pending, Point, Ptr, Thread}
use coseq.Waiting.{peek}
use coseq.Waiting.Laws.{count_for}
use coseq.Sequence.Ids.{IsBelow, AreDistinct}
use coseq.Fibers.{find_fiber, ptrs}

-- Whether the saved context stands in `coseq_wait_reply`.
abbrev pub at_gather : Point → Bool
at_gather Point.waiting_one = true
at_gather (Point.gathering n) = true
at_gather _ = false

abbrev pub finds : Option Ptr → Ptr → ℕ
finds none p = 0
finds (some q) p = if q == p then 1 else 0

-- 1 if the fiber waits for the reply to a request whose entry is there.
abbrev pub blocked : Fiber → List Pending → ℕ
blocked f ps = if f.waiting_reply then finds (peek f.wait_req_id ps) f.ptr else 0

abbrev pub is_idle : Fiber → Bool
is_idle f = not (f.waiting_any || f.waiting_reply || f.waiting_timer)

-- The flags of a fiber agree with where it stands, and a fiber that waits has not returned.
abbrev pub is_coherent : Fiber → Bool
is_coherent f =
    if f.waiting_any
    then at_gather f.ctx && not (f.waiting_reply || f.waiting_timer || f.done)
    else if f.waiting_reply || f.waiting_timer
    then not (at_gather f.ctx || f.done)
    else true

-- `async_outstanding` covers the queue and `c` more.
abbrev pub Covers : ℕ → Fiber → Type 0
Covers c f = (k : ℕ) × (f.async_outstanding ≡ pos k) × (length f.rq + c ≤ k)

pub record Book (f : Fiber) (ps : List Pending) (next : ℕ) : Type 0 where
  pub owed :
      (k : ℕ) × (f.async_outstanding ≡ pos k)
      × (length f.rq + count_for f.ptr ps ≤ k + blocked f ps)
  pub coherent : is_coherent f ≡ true
  pub wait : f.waiting_reply ≡ true → f.wait_req_id < next

-- Pointers are given out in ascending order, and new fibers stand first.
abbrev pub Descending : Ptr → List Ptr → Type 0
Descending next [] = Unit
Descending next (p ∷ ps) = (p < next) × Descending p ps

-- The accounts of all fibers but those that `skip` tells, and the ids of the module's requests.
pub record Books (skip : Ptr → Bool) (t : Thread) : Type 0 where
  pub book :
      (q : Ptr) (g : Fiber)
      → skip q ≡ false
      → find_fiber q t.fibers ≡ some g
      → Book g t.pending t.next_req_id
  pub fresh : (q : Ptr) → t.next_ptr ≤ q → count_for q t.pending ≡ 0
  pub order : Descending t.next_ptr (ptrs t.fibers)
  pub below : IsBelow t.next_req_id t.pending
  pub distinct : AreDistinct t.pending

abbrev pub nobody : Ptr → Bool
nobody q = false

abbrev pub only : Ptr → Ptr → Bool
only p q = p == q
