-- ===== src/Scheduler/Balance/Others.antt =====
-- The accounts of the other fibers while one makes a call.
use coseq.Base.{
  ◌+◌, ◌^◌, ◌≤◌, ◌<◌, ◌≡◌, ◌≢◌, ap, sym, ◌∙◌, List, [], ◌∷◌, some, arith, Bool-cases, inl, inr,
  ◌==◌, ==→eq,
}
use mathlib.Core.Path.{subst}
use coseq.Types.{Fiber, Ptr, Thread}
use coseq.Waiting.Laws.{count_for}
use coseq.Fibers.{find_fiber, ptrs}
use coseq.Fibers.Laws.{find_fiber-ptr}
use coseq.Sequence.Ids.{HasOwnIds, Asks-HasOwnIds, Asks, silent, sends, awaits}
use coseq.Sequence.Frame.{Frame}
use coseq.Scheduler.Balance.{Book, Descending, Books, only}
use coseq.Scheduler.Balance.Entries.{Book-add, Book-later}

pub Descending-find :
    (next p : Ptr) (fs : List Fiber) (f : Fiber)
    → Descending next (ptrs fs)
    → find_fiber p fs ≡ some f
    → p < next
unfolding find_fiber ptrs
Descending-find next p [] f d e = cc
Descending-find next p (g ∷ fs) f d e = elim (Bool-cases (g.ptr == p)) [
  | inl here ↦ omega (arith, d.0, ==→eq g.ptr p here)
  | inr there ↦ omega (arith, d.0, Descending-find g.ptr p fs f d.1 (rw there at e))
]

-- The others, while fiber `p` makes one call.
pub others-step :
    (p : Ptr) (t t' : Thread)
    → Books (only p) t
    → p < t.next_ptr
    → Frame p t t'
    → Asks p t t'
    → t.next_req_id + 1 < 2 ^ 32
    → Books (only p) t'
unfolding count_for
others-step p t t' b lt fr asks room = record {
  book = λ q g skip e.
      let ne : p ≢ q = λ h. ground arith in
      let at_q : find_fiber q t.fibers ≡ some g = sym (fr.others q ne) ∙ e in
      book_step g (b.book q g skip at_q) (λ h. ne (h ∙ find_fiber-ptr q t.fibers g at_q)) asks;
  fresh = λ q le. fresh_step q (omega (arith, same_next, le)) asks;
  order =
      subst (λ n. Descending n (ptrs t'.fibers)) (sym same_next)
        (subst (Descending t.next_ptr) (sym fr.same_ptrs) b.order);
  below = own.below;
  distinct = own.distinct;
}
  where
    own : HasOwnIds t'
    own = (Asks-HasOwnIds p t t' asks room (record { below = b.below; distinct = b.distinct })).0

    same_next : t'.next_ptr ≡ t.next_ptr
    same_next = ap (λ x. x.next_ptr) fr.same_fixed

    book_step :
        (g : Fiber)
        → Book g t.pending t.next_req_id
        → p ≢ g.ptr
        → Asks p t t'
        → Book g t'.pending t'.next_req_id
    book_step g k ne (silent e h) =
        subst (λ ps. Book g ps t'.next_req_id) (sym h)
          (Book-later g t.pending t.next_req_id t'.next_req_id k (omega arith))
    book_step g k ne (sends e h) =
        subst (λ ps. Book g ps t'.next_req_id) (sym h)
          (Book-later g t.pending t.next_req_id t'.next_req_id k (omega arith))
    book_step g k ne (awaits e h) =
        subst (λ ps. Book g ps t'.next_req_id) (sym h)
          (Book-add g t.pending t.next_req_id t'.next_req_id p k ne (omega arith))

    fresh_step : (q : Ptr) → t.next_ptr ≤ q → Asks p t t' → count_for q t'.pending ≡ 0
    fresh_step q le (silent e h) = ap (count_for q) h ∙ b.fresh q le
    fresh_step q le (sends e h) = ap (count_for q) h ∙ b.fresh q le
    fresh_step q le (awaits e h) = ap (count_for q) h ∙ ground (arith, b.fresh q le)
