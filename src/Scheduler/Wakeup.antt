-- ===== src/Scheduler/Wakeup.antt =====
-- When the thread of a module is to wake: the deadline that `sched_loop` computes before it waits.
use coseq.Base.{
  ◌≡◌, ap, ◌∙◌, List, [], ◌∷◌, Option, none, some, true, false, ◌⊎◌, arith, Bool-cases, inl, inr,
  some_inj, ◌↔◌, refl, sym, Option-cases,
}
use coseq.Time.{Timespec, ts_lt}
use coseq.Time.Laws.{ts_lt_irrefl, ts_le_trans, ts_lt_asymm}
use coseq.Types.{Fiber, Module, Ptr}
use coseq.Scheduler.{may_fire, earlier, nearest_from, nearest}

-- The deadline found by the loop at its head is that of a timer that may fire, and no timer that may
-- fire has an earlier one.
abbrev FromList : Option Ptr → List Fiber → Option Timespec → Timespec → Type 0
FromList locked [] best d = best ≡ some d
FromList locked (f ∷ fs) best d =
    ((may_fire locked f ≡ true) × (f.deadline ≡ d)) ⊎ FromList locked fs best d

abbrev NotBefore : Option Ptr → List Fiber → Timespec → Type 0
NotBefore locked [] d = Unit
NotBefore locked (f ∷ fs) d =
    (may_fire locked f ≡ true → ts_lt f.deadline d ≡ false) × NotBefore locked fs d

-- No deadline before `best`.
abbrev AtLeast : Option Timespec → Timespec → Type 0
AtLeast none d = Unit
AtLeast (some b) d = ts_lt b d ≡ false

AtLeast-earlier :
    (f : Fiber) (best : Option Timespec) (d : Timespec)
    → AtLeast (earlier f best) d
    → AtLeast best d × (ts_lt f.deadline d ≡ false)
unfolding earlier
AtLeast-earlier f none d h = (tt, h)
AtLeast-earlier f (some b) d h = elim (Bool-cases (ts_lt f.deadline b)) [
  | inl sooner ↦
      let k : ts_lt f.deadline d ≡ false = rw sooner at h in
      (ts_le_trans d f.deadline b k (ts_lt_asymm f.deadline b sooner), k)
  | inr later ↦ let k : ts_lt b d ≡ false = rw later at h in (k, ts_le_trans d b f.deadline k later)
]

FromList-earlier :
    (locked : Option Ptr) (f : Fiber) (fs : List Fiber) (best : Option Timespec) (d : Timespec)
    → FromList locked fs (earlier f best) d
    → (f.deadline ≡ d) ⊎ FromList locked fs best d
unfolding earlier
FromList-earlier locked f [] none d h = inl (some_inj h)
FromList-earlier locked f [] (some b) d h = ground arith
FromList-earlier locked f (g ∷ fs) best d (inl h) = inr (inl h)
FromList-earlier locked f (g ∷ fs) best d (inr h) = elim (FromList-earlier locked f fs best d h) [
  | inl k ↦ inl k
  | inr k ↦ inr (inr k)
]

nearest_from-some :
    (locked : Option Ptr) (fs : List Fiber) (best : Option Timespec) (d : Timespec)
    → nearest_from locked fs best ≡ some d
    → FromList locked fs best d × NotBefore locked fs d × AtLeast best d
unfolding nearest_from
nearest_from-some locked [] none d h = cc
nearest_from-some locked [] (some b) d h =
    (h, tt, ap (λ x. ts_lt x d) (some_inj h) ∙ ts_lt_irrefl d)
nearest_from-some locked (f ∷ fs) best d h = elim (Bool-cases (may_fire locked f)) [
  | inl fires ↦
      let r = nearest_from-some locked fs (earlier f best) d (rw fires at h) in
      let a = AtLeast-earlier f best d r.2 in
      (
        elim (FromList-earlier locked f fs best d r.0) [ inl k ↦ inl (fires, k) | inr k ↦ inr k ],
        ((λ _. a.1), r.1),
        a.0,
      )
  | inr idle ↦
      let r = nearest_from-some locked fs best d (rw idle at h) in
      (inr r.0, ((λ fires. ground arith), r.1), r.2)
]

-- A fiber counts if it has a timer and nobody else holds the lock.
abbrev pub Counts : Option Ptr → Fiber → Type 0
Counts locked f = (f.waiting_timer ≡ true) × ((q : Ptr) → locked ≡ some q → f.ptr ≡ q)

may_fire-Counts : (locked : Option Ptr) (f : Fiber) → (may_fire locked f ≡ true) ↔ Counts locked f
may_fire-Counts none f = ((λ h. (ground arith, λ q e. cc)), (λ h. ground (arith, h.0)))
may_fire-Counts (some p) f = (
  (λ h. (ground arith, λ q e. ground (arith, some_inj e))),
  (λ h. ground (arith, h.0, h.1 p refl)),
)

-- One of the list counts and has this deadline.
abbrev pub IsDeadline : Option Ptr → List Fiber → Timespec → Type 0
IsDeadline locked [] d = ⊥
IsDeadline locked (f ∷ fs) d = (Counts locked f × (f.deadline ≡ d)) ⊎ IsDeadline locked fs d

-- Those that count have no deadline before it.
abbrev pub IsFirst : Option Ptr → List Fiber → Timespec → Type 0
IsFirst locked [] d = Unit
IsFirst locked (f ∷ fs) d = (Counts locked f → ts_lt f.deadline d ≡ false) × IsFirst locked fs d

abbrev pub NoneCounts : Option Ptr → List Fiber → Type 0
NoneCounts locked [] = Unit
NoneCounts locked (f ∷ fs) = ¬ Counts locked f × NoneCounts locked fs

FromList-IsDeadline :
    (locked : Option Ptr) (fs : List Fiber) (d : Timespec)
    → FromList locked fs none d
    → IsDeadline locked fs d
FromList-IsDeadline locked [] d h = cc
FromList-IsDeadline locked (f ∷ fs) d (inl h) = inl ((may_fire-Counts locked f).0 h.0, h.1)
FromList-IsDeadline locked (f ∷ fs) d (inr h) = inr (FromList-IsDeadline locked fs d h)

NotBefore-IsFirst :
    (locked : Option Ptr) (fs : List Fiber) (d : Timespec)
    → NotBefore locked fs d
    → IsFirst locked fs d
NotBefore-IsFirst locked [] d h = tt
NotBefore-IsFirst locked (f ∷ fs) d h =
    ((λ c. h.0 ((may_fire-Counts locked f).1 c)), NotBefore-IsFirst locked fs d h.1)

earlier-some : (f : Fiber) (best : Option Timespec) → (d : Timespec) × (earlier f best ≡ some d)
unfolding earlier
earlier-some f none = (f.deadline, refl)
earlier-some f (some b) = elim (Bool-cases (ts_lt f.deadline b)) [
  | inl sooner ↦ (f.deadline, rw sooner)
  | inr later ↦ (b, rw later)
]

nearest_from-kept :
    (locked : Option Ptr) (fs : List Fiber) (b : Timespec)
    → (d : Timespec) × (nearest_from locked fs (some b) ≡ some d)
unfolding nearest_from
nearest_from-kept locked [] b = (b, refl)
nearest_from-kept locked (f ∷ fs) b = elim (Bool-cases (may_fire locked f)) [
  | inl fires ↦
      let (c, e) = earlier-some f (some b) in
      let (d, k) = nearest_from-kept locked fs c in
      (d, rw fires (ap (nearest_from locked fs) e ∙ k))
  | inr idle ↦ let (d, k) = nearest_from-kept locked fs b in (d, rw idle k)
]

nearest_from-none :
    (locked : Option Ptr) (fs : List Fiber)
    → nearest_from locked fs none ≡ none
    → NoneCounts locked fs
unfolding nearest_from
nearest_from-none locked [] h = tt
nearest_from-none locked (f ∷ fs) h = elim (Bool-cases (may_fire locked f)) [
  | inl fires ↦
      let (d, k) = nearest_from-kept locked fs f.deadline in
      let found : nearest_from locked fs (earlier f none) ≡ none = rw fires at h in
      let bad : some d ≡ none = sym k ∙ found in cc
  | inr idle ↦ (
    (λ c. let fires = (may_fire-Counts locked f).1 c in ground arith),
    nearest_from-none locked fs (rw idle at h),
  )
]

-- The deadline until which the thread of a module sleeps. If there is one, it is that of a fiber that has a
-- timer while nobody else holds the lock, and no such fiber has an earlier one. If there is none, so that the thread
-- sleeps until an event comes, there is no such fiber.
pub nearest_lem :
    (m : Module)
    → ((d : Timespec) × (nearest m ≡ some d)
        × IsDeadline m.locked_by m.fibers d
        × IsFirst m.locked_by m.fibers d)
      ⊎ ((nearest m ≡ none) × NoneCounts m.locked_by m.fibers)
unfolding nearest
nearest_lem m = elim (Option-cases (nearest_from m.locked_by m.fibers none)) [
  | inl e ↦ inr (e, nearest_from-none m.locked_by m.fibers e)
  | inr (d, e) ↦
      let r = nearest_from-some m.locked_by m.fibers none d e in
      inl (
        d,
        e,
        FromList-IsDeadline m.locked_by m.fibers d r.0,
        NotBefore-IsFirst m.locked_by m.fibers d r.1,
      )
]
