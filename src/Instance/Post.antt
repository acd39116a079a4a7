-- ===== src/Instance/Post.antt =====
-- Where posted events go.
use coseq.Base.{
  ℕ, suc, ◌≡◌, refl, ap, sym, ◌∙◌, Bool, ◌&&◌, List, [], ◌∷◌, ◌++◌, append-nil, append_assoc,
  Option, none, some, ℤ, arith, ◌==◌, if◌then◌else◌, get_elem?, get_elem?-modify_at, Bool-cases,
  inl, inr,
}
use mathlib.Core.Path.{subst}
use mathlib.Core.Option
use coseq.Types.{Bytes, Effect, Ev, Module, Rslt}
use coseq.Instance.{Ctx, is_module, slot, receive, post}
use coseq.Instance.Mailbox.{ext_deliver, perform}

-- The event goes to the end of the inbox of the module that is named, and no other module changes; if
-- the index names no module, none does.
pub post_lem :
    (c : Ctx) (module_idx : ℤ) (e : Ev) (j : ℕ)
    → get_elem? (post c module_idx (some e)).modules j ≡ (
        if is_module module_idx c.nr_module && slot module_idx == j
        then Option.map (receive e) (get_elem? c.modules j)
        else get_elem? c.modules j)
unfolding post
post_lem c module_idx e j = elim (Bool-cases (is_module module_idx c.nr_module)) [
  | inl valid ↦ rw valid (get_elem?-modify_at (slot module_idx) j (receive e) c.modules)
  | inr invalid ↦ rw invalid
]

-- All that a thread has done outside of its module, in order; `copied i` is for the i-th.
unfoldable pub perform_all : (ℕ → Bool) → List Effect → Ctx → Ctx
perform_all copied [] c = c
perform_all copied (x ∷ xs) c = perform_all (λ i. copied (suc i)) xs (perform (copied 0) c x)

-- The events among the effects that are posted to module `j` of `nr`, in order.
is_for : ℕ → ℕ → ℤ → Bool
is_for nr j module_idx = is_module module_idx nr && slot module_idx == j

unfoldable pub addressed : ℕ → ℕ → List Effect → List Ev
unfolding is_for
addressed nr j [] = []
addressed nr j (Effect.deliver id r msg ∷ xs) = addressed nr j xs
addressed nr j (Effect.post_to module_idx none ∷ xs) = addressed nr j xs
addressed nr j (Effect.post_to module_idx (some e) ∷ xs) =
    let rest = addressed nr j xs in if is_for nr j module_idx then e ∷ rest else rest

pub perform-nr_module :
    (copied : Bool) (c : Ctx) (x : Effect) → (perform copied c x).nr_module ≡ c.nr_module
unfolding perform
perform-nr_module copied c (Effect.post_to module_idx none) = refl
perform-nr_module copied c (Effect.post_to module_idx (some e)) = ground arith
perform-nr_module copied c (Effect.deliver id r msg) = ground arith

abbrev pub with_inbox : List Ev → Module → Module
with_inbox es m = record m { inbox = m.inbox ++ es }

with_inbox-nil : (o : Option Module) → o ≡ Option.map (with_inbox []) o
with_inbox-nil none = refl
with_inbox-nil (some m) = ap (λ es. some (record m { inbox = es })) (sym (append-nil m.inbox))

with_inbox-append :
    (es fs : List Ev) (o : Option Module)
    → Option.map (with_inbox fs) (Option.map (with_inbox es) o)
      ≡ Option.map (with_inbox (es ++ fs)) o
with_inbox-append es fs none = refl
with_inbox-append es fs (some m) =
    ap (λ gs. some (record m { inbox = gs })) (append_assoc m.inbox es fs)

ext_deliver-modules :
    (copied : Bool) (c : Ctx) (id : ℕ) (r : Rslt) (msg : Bytes)
    → (ext_deliver copied c id r msg).modules ≡ c.modules
unfolding ext_deliver
ext_deliver-modules copied c id r msg = ground arith

pub perform-modules :
    (copied : Bool) (c : Ctx) (x : Effect) (j : ℕ)
    → get_elem? (perform copied c x).modules j
      ≡ Option.map (with_inbox (addressed c.nr_module j (x ∷ []))) (get_elem? c.modules j)
unfolding perform addressed
perform-modules copied c (Effect.post_to module_idx none) j = with_inbox-nil (get_elem? c.modules j)
perform-modules copied c (Effect.post_to module_idx (some e)) j =
    post_lem c module_idx e j
    ∙ elim (Bool-cases (is_module module_idx c.nr_module && slot module_idx == j)) [
      | inl here ↦ rw here
      | inr there ↦ rw there (with_inbox-nil (get_elem? c.modules j))
    ]
perform-modules copied c (Effect.deliver id r msg) j =
    ap (λ ms. get_elem? ms j) (ext_deliver-modules copied c id r msg)
    ∙ with_inbox-nil (get_elem? c.modules j)

addressed-cons :
    (nr j : ℕ) (x : Effect) (xs : List Effect)
    → addressed nr j (x ∷ xs) ≡ addressed nr j (x ∷ []) ++ addressed nr j xs
unfolding addressed
addressed-cons nr j (Effect.post_to module_idx none) xs = refl
addressed-cons nr j (Effect.post_to module_idx (some e)) xs = ground arith
addressed-cons nr j (Effect.deliver id r msg) xs = refl

-- However many events a thread posts: each module receives exactly those that name it, in the order
-- in which they were posted, behind what its inbox held, and changes in nothing else.
pub perform_all-modules :
    (copied : ℕ → Bool) (xs : List Effect) (c : Ctx) (j : ℕ)
    → get_elem? (perform_all copied xs c).modules j
      ≡ Option.map (with_inbox (addressed c.nr_module j xs)) (get_elem? c.modules j)
unfolding perform_all
perform_all-modules copied [] c j = unfold addressed in with_inbox-nil (get_elem? c.modules j)
perform_all-modules copied (x ∷ xs) c j =
    let c' : Ctx = perform (copied 0) c x in
    let ih : get_elem? (perform_all (λ i. copied (suc i)) xs c').modules j
        ≡ Option.map (with_inbox (addressed c.nr_module j xs)) (get_elem? c'.modules j) =
      subst
        (λ n.
          get_elem? (perform_all (λ i. copied (suc i)) xs c').modules j
          ≡ Option.map (with_inbox (addressed n j xs)) (get_elem? c'.modules j))
        (perform-nr_module (copied 0) c x) (perform_all-modules (λ i. copied (suc i)) xs c' j) in
    ih
    ∙ ap (Option.map (with_inbox (addressed c.nr_module j xs))) (perform-modules (copied 0) c x j)
    ∙ with_inbox-append (addressed c.nr_module j (x ∷ [])) (addressed c.nr_module j xs)
        (get_elem? c.modules j)
    ∙ ap (λ es. Option.map (with_inbox es) (get_elem? c.modules j))
        (sym (addressed-cons c.nr_module j x xs))
