-- ===== src/Scheduler/Balance/Collected.antt =====
-- Sequences that collect their replies before they return.
use coseq.Base.{
  ℕ, zero, suc, ◌≡◌, refl, ap, sym, ◌∙◌, List, [], ◌∷◌, some, Bool, true, false, arith, pos,
  Bool-cases, inl, inr, ◌||◌, not, ◌==◌, ==→eq, some_inj, All, is_zero,
}
use mathlib.Core.Path.{subst}
use coseq.Types.{Fiber, Pending, Ptr, Thread}
use coseq.Waiting.Laws.{count_for}
use coseq.Fibers.{find_fiber, ptrs, is_done}
use coseq.Fibers.Laws.{find_fiber-ptr}
use coseq.Scheduler.Rounds.{IsTidy}
use coseq.Scheduler.Balance.{blocked, is_coherent, Book, Descending, Books, nobody}
use coseq.Scheduler.Balance.Others.{Descending-find}

-- A fiber that has returned has its replies, or has been told of each that it has none.
abbrev pub has_collected : Fiber → Bool
has_collected f = not f.done || is_zero f.async_outstanding

abbrev pub IsCollected : Thread → Type 0
IsCollected t = All (λ f. has_collected f ≡ true) t.fibers

find_fiber-All :
    (P : Fiber → Type 0) (p : Ptr) (fs : List Fiber) (f : Fiber)
    → All P fs
    → find_fiber p fs ≡ some f
    → P f
unfolding find_fiber
find_fiber-All P p [] f h e = absurd (ground arith)
find_fiber-All P p (g ∷ fs) f h e = elim (Bool-cases (g.ptr == p)) [
  | inl here ↦ subst P (some_inj (rw here at e)) h.0
  | inr there ↦ find_fiber-All P p fs f h.1 (rw there at e)
]

is_done-find :
    (n p : Ptr) (fs : List Fiber)
    → Descending n (ptrs fs)
    → is_done p fs ≡ true
    → (f : Fiber) × (find_fiber p fs ≡ some f) × (f.done ≡ true)
unfolding is_done find_fiber ptrs
is_done-find n p [] d h = absurd (ground arith)
is_done-find n p (g ∷ fs) d h = elim (Bool-cases (g.ptr == p)) [
  | inl here ↦ elim (Bool-cases g.done) [
    | inl gone ↦ (g, rw here, gone)
    | inr lives ↦
        let (f, found, _) = is_done-find g.ptr p fs d.1 (ground arith) in
        absurd (omega (arith, Descending-find g.ptr p fs f d.1 found, ==→eq g.ptr p here))
  ]
  | inr there ↦
      let (f, found, gone) = is_done-find g.ptr p fs d.1 (ground arith) in (f, rw there found, gone)
]

done_free : (f : Fiber) → is_coherent f ≡ true → f.done ≡ true → f.waiting_reply ≡ false
done_free f h gone = ground arith

is_zero-pos : (k : ℕ) → is_zero (pos k) ≡ true → k ≡ 0
is_zero-pos zero h = refl
is_zero-pos (suc k) h = absurd (ground arith)

nothing_owed :
    (f : Fiber) (ps : List Pending) (next : ℕ)
    → Book f ps next
    → f.done ≡ true
    → has_collected f ≡ true
    → count_for f.ptr ps ≡ 0
nothing_owed f ps next b gone h =
    let free : blocked f ps ≡ 0 = rw (done_free f b.coherent gone) in
    let zero_owed : b.owed.0 ≡ 0 =
      is_zero-pos b.owed.0 (subst (λ z. is_zero z ≡ true) b.owed.1 (ground arith)) in
    omega (arith, b.owed.2, free, zero_owed)

All-is_done :
    (ps : List Pending) (fs : List Fiber)
    → ((p : Ptr) → is_done p fs ≡ true → count_for p ps ≡ 0)
    → All (λ (e : Pending). is_done e.f fs ≡ false) ps
unfolding count_for
All-is_done [] fs h = tt
All-is_done (e ∷ ps) fs h = (
  elim (Bool-cases (is_done e.f fs)) [
    | inl gone ↦ absurd (ground (arith, h e.f gone))
    | inr lives ↦ lives
  ],
  All-is_done ps fs (λ p gone. omega (arith, h p gone)),
)

-- When each fiber that has returned has collected its replies, no entry names a fiber that has
-- returned.
pub collected-IsTidy : (t : Thread) → Books nobody t → IsCollected t → IsTidy t
collected-IsTidy t b h = All-is_done t.pending t.fibers (λ p gone.
    let (f, found, returned) = is_done-find t.next_ptr p t.fibers b.order gone in
    ap (λ q. count_for q t.pending) (sym (find_fiber-ptr p t.fibers f found))
    ∙ nothing_owed f t.pending t.next_req_id (b.book p f refl found) returned
        (find_fiber-All _ p t.fibers f h found))
