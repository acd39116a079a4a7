-- ===== src/Scheduler/Late.antt =====
-- A sequence that returns before the reply to its asynchronous request: `reap_done` frees the fiber
-- and leaves the entry that waits.
use coseq.Base.{
  ◌≡◌, refl, List, [], ◌∷◌, none, some, true, false, arith, ◌==◌, ==→eq, Bool-cases, inl, inr,
}
use mathlib.Core.Path.{subst}
use coseq.Types.{Ev, Fiber, Ptr, Thread}
use coseq.Waiting.{pending_peek}
use coseq.Fibers.{find_fiber, ptrs, live_fibers, is_done, reap_done}
use coseq.Fibers.Laws.{has_ptr}
use coseq.Thread.{on_module}
use coseq.Scheduler.{Turn, handle_reply}
use coseq.Scheduler.Parts.{handle_reply_freed}

-- Distinct pointers.
abbrev pub IsDistinct : List Ptr → Type 0
IsDistinct [] = Unit
IsDistinct (p ∷ ps) = (has_ptr p ps ≡ false) × IsDistinct ps

find_fiber-no_ptr :
    (p : Ptr) (fs : List Fiber) → has_ptr p (ptrs fs) ≡ false → find_fiber p fs ≡ none
unfolding has_ptr ptrs find_fiber
find_fiber-no_ptr p [] h = refl
find_fiber-no_ptr p (f ∷ fs) h = ground (arith, find_fiber-no_ptr p fs)

has_ptr-live_false :
    (p : Ptr) (fs : List Fiber)
    → has_ptr p (ptrs fs) ≡ false
    → has_ptr p (ptrs (live_fibers fs)) ≡ false
unfolding has_ptr ptrs live_fibers
has_ptr-live_false p [] h = refl
has_ptr-live_false p (f ∷ fs) h = ground (arith, has_ptr-live_false p fs)

is_done-no_ptr : (p : Ptr) (fs : List Fiber) → has_ptr p (ptrs fs) ≡ false → is_done p fs ≡ false
unfolding has_ptr ptrs is_done
is_done-no_ptr p [] h = refl
is_done-no_ptr p (f ∷ fs) h = ground (arith, is_done-no_ptr p fs)

freed :
    (p : Ptr) (fs : List Fiber)
    → IsDistinct (ptrs fs)
    → is_done p fs ≡ true
    → has_ptr p (ptrs (live_fibers fs)) ≡ false
unfolding has_ptr ptrs live_fibers is_done
freed p [] d h = refl
freed p (f ∷ fs) d h = elim (Bool-cases (f.ptr == p)) [
  | inl here ↦
      let rest : has_ptr p (ptrs (live_fibers fs)) ≡ false =
        has_ptr-live_false p fs
          (subst (λ q. has_ptr q (ptrs fs) ≡ false) (==→eq f.ptr p here) d.0) in
      ground (arith, is_done-no_ptr p fs)
  | inr there ↦ ground (arith, freed p fs d.1)
]

-- Fibers have pointers of their own. If one has returned while a request of its own still waits for its reply, the fiber is freed at
-- the end of the round, and the reply, when it comes, is read through the pointer to it.
pub late_reply_faults :
    (w : Turn) (e : Ev) (t : Thread) (p : Ptr)
    → IsDistinct (ptrs t.fibers)
    → is_done p t.fibers ≡ true
    → pending_peek t.m e.req_id ≡ some p
    → handle_reply w e (on_module reap_done t) ≡ none
unfolding reap_done pending_peek
late_reply_faults w e t p distinct returned waits =
    handle_reply_freed w e (on_module reap_done t) p waits
      (find_fiber-no_ptr p (live_fibers t.fibers) (freed p t.fibers distinct returned))
