-- ===== src/Scheduler/Balance/Launch.antt =====
-- A fiber that is made and runs keeps the accounts of all.
use Prim.Native.String.{String}
use coseq.Base.{ℕ, ◌+◌, ◌^◌, ◌<◌, refl, sym, ◌∙◌, some, arith, length, ℤ, inl, inr, ==_refl}
use coseq.Types.{Bytes, Fiber, Rslt, Thread}
use coseq.Fibers.{find_fiber, ptrs, set_src, blank_fiber}
use coseq.Fibers.Laws.{find_fiber-write}
use coseq.Thread.{on_fiber}
use coseq.Scheduler.{Turn, launch}
use coseq.Scheduler.Parts.{made, born, hatched, made_cases, find_fiber-cons_ne}
use coseq.Scheduler.Balance.{Books, nobody, only}
use coseq.Scheduler.Balance.Bursts.{write-Books, Ready, resume-Books}
use coseq.Scheduler.Balance.Counter.{resume_counter}
use coseq.Scheduler.Balance.Replies.{Kept, Kept-same}

-- A fiber that is new has sent nothing, and no entry names it.
module _ (w : Turn) (name : String) (t : Thread) (fn seq_idx : ℕ) (reply_to : ℤ) (reply_req_id : ℕ)
    (msg : Bytes) (r : Rslt) (thread_idx client_id : ℕ) where
  abbrev new : Thread
  new = hatched w name t fn seq_idx reply_to reply_req_id msg r thread_idx client_id

  abbrev child : Fiber
  child = born w name t fn seq_idx reply_to reply_req_id msg r thread_idx client_id

  abbrev called : Fiber → Fiber
  called f = record f { seq_name = some name }

  new-Books : Books nobody t → Books (only t.next_ptr) new
  unfolding set_src blank_fiber ptrs
  new-Books b = record {
    book = λ q g skip e.
        b.book q g refl (sym (find_fiber-cons_ne q child t.fibers (λ h. ground arith)) ∙ e);
    fresh = λ q le. b.fresh q (omega arith);
    order = (omega arith, b.order);
    below = b.below;
    distinct = b.distinct;
  }

  new-Ready : Books nobody t → Ready t.next_ptr (called child) (on_fiber t.next_ptr called new)
  unfolding set_src blank_fiber find_fiber
  new-Ready b = record {
    others = write-Books t.next_ptr called new (λ g h. h) (new-Books b);
    there =
        find_fiber-write t.next_ptr called new.fibers child (λ g h. h) (rw (==_refl t.next_ptr));
    covers = (0, refl, omega (arith, b.fresh t.next_ptr (omega arith)));
    alive = refl;
  }

  pub launch-Kept :
      Books nobody t
      → t.next_req_id + length w.burst.calls < 2 ^ 32
      → Kept (length w.burst.calls) t (
          launch w.burst name t
            (made w name t fn seq_idx reply_to reply_req_id msg r thread_idx client_id))
  unfolding launch
  launch-Kept b room =
      elim (made_cases w name t fn seq_idx reply_to reply_req_id msg r thread_idx client_id) [
        | inl e ↦ rw e (Kept-same _ t b)
        | inr e ↦ rw e (
          resume-Books t.next_ptr w.burst (called child) (on_fiber t.next_ptr called new)
              (new-Ready b) room,
          resume_counter t.next_ptr w.burst (on_fiber t.next_ptr called new) room,
        )
      ]
