-- ===== src/Fibers/Laws.antt =====
-- Laws of access to fibers through pointers.
use coseq.Base.{
  ◌≡◌, ◌≢◌, refl, ◌∙◌, ==_refl, List, [], ◌∷◌, some, Bool, true, false, arith, if◌then◌else◌,
  Bool-cases, inl, inr, ◌==◌,
}
use mathlib.Core.Option
use coseq.Types.{Fiber, Ptr}
use coseq.Fibers.{find_fiber, modify_fiber, ptrs}

-- A write through a pointer changes what that pointer finds, and nothing else.
pub find_fiber-modify :
    (p q : Ptr) (h : Fiber → Fiber) (fs : List Fiber)
    → ((f : Fiber) → f.ptr ≡ p → (h f).ptr ≡ p)
    → find_fiber q (modify_fiber p h fs)
      ≡ (if p == q then Option.map h (find_fiber q fs) else find_fiber q fs)
unfolding find_fiber modify_fiber
find_fiber-modify p q h [] k = ground arith
find_fiber-modify p q h (f ∷ fs) k = ground (arith, k f, find_fiber-modify p q h fs k)

pub find_fiber-modify_ne :
    (p q : Ptr) (h : Fiber → Fiber) (fs : List Fiber)
    → ((f : Fiber) → f.ptr ≡ p → (h f).ptr ≡ p)
    → p ≢ q
    → find_fiber q (modify_fiber p h fs) ≡ find_fiber q fs
find_fiber-modify_ne p q h fs k n = ground (arith, find_fiber-modify p q h fs k)

pub find_fiber-ptr : (p : Ptr) (fs : List Fiber) (f : Fiber) → find_fiber p fs ≡ some f → f.ptr ≡ p
unfolding find_fiber
find_fiber-ptr p [] f h = ground arith
find_fiber-ptr p (g ∷ fs) f h = ground (arith, find_fiber-ptr p fs f)

pub ptrs-modify :
    (p : Ptr) (h : Fiber → Fiber) (fs : List Fiber)
    → ((f : Fiber) → f.ptr ≡ p → (h f).ptr ≡ p)
    → ptrs (modify_fiber p h fs) ≡ ptrs fs
unfolding ptrs modify_fiber
ptrs-modify p h [] k = refl
ptrs-modify p h (f ∷ fs) k = ground (arith, k f, ptrs-modify p h fs k)

-- Whether a pointer is one of those in the list.
unfoldable pub has_ptr : Ptr → List Ptr → Bool
has_ptr p [] = false
has_ptr p (q ∷ qs) = if q == p then true else has_ptr p qs

pub has_ptr-find :
    (p : Ptr) (fs : List Fiber)
    → has_ptr p (ptrs fs) ≡ true
    → (f : Fiber) × (find_fiber p fs ≡ some f)
unfolding has_ptr ptrs find_fiber
has_ptr-find p [] h = cc
has_ptr-find p (g ∷ fs) h = elim (Bool-cases (g.ptr == p)) [
  | inl here ↦ (g, rw here)
  | inr there ↦ let (f, e) = has_ptr-find p fs (rw there at h) in (f, rw there e)
]

pub find-has_ptr :
    (p : Ptr) (fs : List Fiber) (f : Fiber) → find_fiber p fs ≡ some f → has_ptr p (ptrs fs) ≡ true
unfolding has_ptr ptrs find_fiber
find-has_ptr p [] f h = cc
find-has_ptr p (g ∷ fs) f h = ground (arith, find-has_ptr p fs f)

-- A write through a pointer that finds a fiber.
pub find_fiber-write :
    (p : Ptr) (h : Fiber → Fiber) (fs : List Fiber) (f : Fiber)
    → ((g : Fiber) → g.ptr ≡ p → (h g).ptr ≡ p)
    → find_fiber p fs ≡ some f
    → find_fiber p (modify_fiber p h fs) ≡ some (h f)
find_fiber-write p h fs f k e = find_fiber-modify p p h fs k ∙ rw (==_refl p, e)
