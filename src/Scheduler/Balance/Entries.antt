-- ===== src/Scheduler/Balance/Entries.antt =====
-- What an entry that is added or taken does to the accounts of the other fibers.
use coseq.Base.{
  ℕ, ◌+◌, ◌≤◌, ◌≡◌, ◌≢◌, ap, List, ◌∷◌, arith, ◌==◌, Bool-cases, Option-cases, inl, inr, ==→eq,
}
use coseq.Types.{Fiber, Pending, Ptr}
use coseq.Waiting.{peek, unlink}
use coseq.Waiting.Laws.{count_for, count_for-unlink, peek-unlink_ne, unlink-peek-none}
use coseq.Scheduler.Balance.{Book, blocked, finds}

-- Another fiber's new entry, under an id that nobody waits for yet.
pub Book-add :
    (g : Fiber) (ps : List Pending) (next next' : ℕ) (p : Ptr)
    → Book g ps next
    → p ≢ g.ptr
    → next ≤ next'
    → Book g (record { req_id = next; f = p } ∷ ps) next'
unfolding count_for peek
Book-add g ps next next' p b ne le = record {
  owed = (b.owed.0, b.owed.1, ground (arith, b.owed.2, b.wait));
  coherent = b.coherent;
  wait = λ w. omega (arith, b.wait w);
}

pub Book-later :
    (g : Fiber) (ps : List Pending) (next next' : ℕ)
    → Book g ps next
    → next ≤ next'
    → Book g ps next'
Book-later g ps next next' b le = record {
  owed = b.owed;
  coherent = b.coherent;
  wait = λ w. omega (arith, b.wait w);
}

-- One entry fewer, whoever it was for.
pub blocked-unlink :
    (g : Fiber) (id : ℕ) (ps : List Pending)
    → blocked g ps ≤ blocked g (unlink id ps) + finds (peek id ps) g.ptr
blocked-unlink g id ps = elim (Bool-cases (g.wait_req_id == id)) [
  | inl e ↦
      let same : peek g.wait_req_id ps ≡ peek id ps =
        ap (λ i. peek i ps) (==→eq g.wait_req_id id e) in
      ground (arith, same)
  | inr n ↦ ground (arith, peek-unlink_ne id g.wait_req_id ps (λ h. ground arith))
]

pub count_for-finds :
    (p : Ptr) (id : ℕ) (ps : List Pending)
    → count_for p (unlink id ps) + finds (peek id ps) p ≡ count_for p ps
count_for-finds p id ps = elim (Option-cases (peek id ps)) [
  | inl e ↦ rw (e, unlink-peek-none id ps e) (omega arith)
  | inr (q, e) ↦ rw e (count_for-unlink p q id ps e)
]

pub Book-take :
    (g : Fiber) (id : ℕ) (ps : List Pending) (next : ℕ)
    → Book g ps next
    → Book g (unlink id ps) next
Book-take g id ps next b = record {
  owed = (
    b.owed.0,
    b.owed.1,
    omega (arith, b.owed.2, blocked-unlink g id ps, count_for-finds g.ptr id ps),
  );
  coherent = b.coherent;
  wait = b.wait;
}
