-- ===== src/Wrapper/Tables.antt =====
-- What the loop of `manager::setup` puts into its tables.
use coseq.Base.{
  ℕ, zero, suc, ◌≡◌, refl, ap, ◌∙◌, List, [], ◌∷◌, some, length, get_elem?, ◌==◌, Bool-cases, inl,
  inr,
}
use mathlib.Core.List.{map}
use mathlib.Core.Option
use coseq.Types.{Ptr}
use coseq.Wrapper.Manager.{Objects, reg_of, set_idx, tables}

pub get_elem?-map {ℓ κ} :
    {A : Type ℓ} {B : Type κ} (h : A → B) (xs : List A) (i : ℕ) (x : A)
    → get_elem? xs i ≡ some x
    → get_elem? (map h xs) i ≡ some (h x)
get_elem?-map h [] i x e = cc
get_elem?-map h (y ∷ xs) zero x e = ap (Option.map h) e
get_elem?-map h (y ∷ xs) (suc i) x e = get_elem?-map h xs i x e

pub length-map {ℓ κ} :
    {A : Type ℓ} {B : Type κ} (h : A → B) (xs : List A) → length (map h xs) ≡ length xs
length-map h [] = refl
length-map h (x ∷ xs) = ap suc (length-map h xs)

-- An index that is written changes nothing that the tables are made of.
reg_of-set_idx :
    (p q : Ptr) (i : ℕ) (objs : Objects) → reg_of q (set_idx p i objs q) ≡ reg_of q (objs q)
unfolding reg_of
reg_of-set_idx p q i objs = elim (Bool-cases (q == p)) [ inl here ↦ rw here | inr there ↦ rw there ]

sequences-set_idx :
    (p q : Ptr) (i : ℕ) (objs : Objects) → (set_idx p i objs q).sequences ≡ (objs q).sequences
sequences-set_idx p q i objs = elim (Bool-cases (q == p)) [
  | inl here ↦ rw here
  | inr there ↦ rw there
]

pub length-tables :
    (i : ℕ) (ps : List Ptr) (objs : Objects) → length (tables i ps objs).0 ≡ length ps
unfolding tables
length-tables i [] objs = refl
length-tables i (p ∷ ps) objs = ap suc (length-tables (suc i) ps (set_idx p i objs))

-- Each module has its entry, at its place.
pub tables_at :
    (i : ℕ) (ps : List Ptr) (objs : Objects) (j : ℕ) (q : Ptr)
    → get_elem? ps j ≡ some q
    → get_elem? (tables i ps objs).0 j ≡ some (reg_of q (objs q))
unfolding tables
tables_at i [] objs j q e = cc
tables_at i (p ∷ ps) objs zero q e = ap (Option.map (λ r. reg_of r (objs r))) e
tables_at i (p ∷ ps) objs (suc j) q e =
    tables_at (suc i) ps (set_idx p i objs) j q e ∙ ap some (reg_of-set_idx p q i objs)

-- No module's sequences change.
pub tables-sequences :
    (i : ℕ) (ps : List Ptr) (objs : Objects) (q : Ptr)
    → ((tables i ps objs).1 q).sequences ≡ (objs q).sequences
unfolding tables
tables-sequences i [] objs q = refl
tables-sequences i (p ∷ ps) objs q =
    tables-sequences (suc i) ps (set_idx p i objs) q ∙ sequences-set_idx p q i objs
