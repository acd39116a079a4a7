-- ===== src/Waiting/Laws.antt =====
-- Laws of the table of waiting requests.
use coseq.Base.{
  ℕ, ◌+◌, ◌≤◌, ◌≡◌, ◌≢◌, refl, List, [], ◌∷◌, none, some, true, arith, if◌then◌else◌, ◌==◌,
}
use coseq.Types.{Alloc, Module, Pending, Ptr}
use coseq.Waiting.{pending_add, peek, unlink, pending_peek}

-- After an entry is added, its id finds its fiber, and every other id finds what it found before.
pub pending_peek-add :
    (a : Alloc) (m : Module) (id id' : ℕ) (f : Ptr)
    → a.entry ≡ true
    → pending_peek (pending_add a m id f) id' ≡ (if id == id' then some f else pending_peek m id')
unfolding pending_peek pending_add peek
pending_peek-add a m id id' f h = ground arith

-- Taking an id leaves what the other ids find.
pub peek-unlink_ne :
    (id id' : ℕ) (ps : List Pending) → id ≢ id' → peek id' (unlink id ps) ≡ peek id' ps
unfolding peek unlink
peek-unlink_ne id id' [] h = refl
peek-unlink_ne id id' (p ∷ ps) h = ground (arith, peek-unlink_ne id id' ps h)

-- How many entries wait for a fiber.
unfoldable pub count_for : Ptr → List Pending → ℕ
count_for f [] = 0
count_for f (p ∷ ps) = (if p.f == f then 1 else 0) + count_for f ps

-- Taking an id that finds `f` removes one entry of `f`, and none of another fiber.
pub count_for-unlink :
    (g f : Ptr) (id : ℕ) (ps : List Pending)
    → peek id ps ≡ some f
    → count_for g (unlink id ps) + (if f == g then 1 else 0) ≡ count_for g ps
unfolding peek unlink count_for
count_for-unlink g f id [] h = ground arith
count_for-unlink g f id (p ∷ ps) h = ground (arith, count_for-unlink g f id ps)

pub unlink-peek-none : (id : ℕ) (ps : List Pending) → peek id ps ≡ none → unlink id ps ≡ ps
unfolding peek unlink
unlink-peek-none id [] h = refl
unlink-peek-none id (p ∷ ps) h = ground (arith, unlink-peek-none id ps)

pub count_for-unlink_le :
    (g : Ptr) (id : ℕ) (ps : List Pending) → count_for g (unlink id ps) ≤ count_for g ps
unfolding unlink count_for
count_for-unlink_le g id [] = omega arith
count_for-unlink_le g id (p ∷ ps) = ground (arith, count_for-unlink_le g id ps)

-- An id that finds a fiber shows that the fiber has an entry.
pub count_for-peek :
    (f : Ptr) (id : ℕ) (ps : List Pending) → peek id ps ≡ some f → 1 ≤ count_for f ps
unfolding peek count_for
count_for-peek f id [] h = ground arith
count_for-peek f id (p ∷ ps) h = ground (arith, count_for-peek f id ps)
