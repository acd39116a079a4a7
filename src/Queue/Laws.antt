-- ===== src/Queue/Laws.antt =====
-- The queues in memory hold lists.
use coseq.Base.{
  append-nil, ℕ, ◌≡◌, ◌≢◌, refl, ap, sym, ◌∙◌, List, [], ◌∷◌, ◌++◌, Option, none, some, some_inj,
  true, false, arith, ◌==◌, ==_refl, Bool-cases, inl, inr,
}
use mathlib.Core.Path.{subst}
use coseq.Fibers.Laws.{has_ptr}
use coseq.Queue.{Links, Ends, nothing_queued, set_next, add_last, Spliced, last_of, splice}

-- From `r` on, the links lead through `ps` to NULL.
abbrev pub IsChain : Links → Option ℕ → List ℕ → Type 0
IsChain h r [] = r ≡ none
IsChain h r (p ∷ ps) = (r ≡ some p) × IsChain h (h p) ps

abbrev pub last : List ℕ → Option ℕ
last [] = none
last (p ∷ []) = some p
last (p ∷ q ∷ ps) = last (q ∷ ps)

-- The queue holds the records `ps`, in order.
abbrev pub IsQueue : Links → Ends → List ℕ → Type 0
IsQueue h q ps = IsChain h q.head ps × (q.tail ≡ last ps)

abbrev pub AreApart : List ℕ → List ℕ → Type 0
AreApart [] qs = Unit
AreApart (p ∷ ps) qs = (has_ptr p ps ≡ false) × (has_ptr p qs ≡ false) × AreApart ps qs

-- A write to a record that is none of the chain's.
IsChain-frame :
    (h : Links) (p : ℕ) (x r : Option ℕ) (ps : List ℕ)
    → has_ptr p ps ≡ false
    → IsChain h r ps
    → IsChain (set_next p x h) r ps
unfolding has_ptr set_next
IsChain-frame h p x r [] n c = c
IsChain-frame h p x r (q ∷ qs) n c = elim (Bool-cases (q == p)) [
  | inl e ↦ absurd (ground arith)
  | inr e ↦
      let same : set_next p x h q ≡ h q = ground arith in
      (c.0, rw same (IsChain-frame h p x (h q) qs (ground arith) c.1))
]

last-has_ptr : (ps : List ℕ) (t : ℕ) → last ps ≡ some t → has_ptr t ps ≡ true
unfolding has_ptr
last-has_ptr [] t h = absurd (ground arith)
last-has_ptr (p ∷ []) t h = ground arith
last-has_ptr (p ∷ q ∷ ps) t h = ground (arith, last-has_ptr (q ∷ ps) t h)

has_ptr_ne : (p t : ℕ) (ps : List ℕ) → has_ptr p ps ≡ false → has_ptr t ps ≡ true → t ≢ p
has_ptr_ne p t ps n h e = absurd (ground arith)

set_next_here : (t : ℕ) (r : Option ℕ) (h : Links) → set_next t r h t ≡ r
unfolding set_next
set_next_here t r h = rw (==_refl t)

set_next_other : (t p : ℕ) (r : Option ℕ) (h : Links) → t ≢ p → set_next t r h p ≡ h p
unfolding set_next
set_next_other t p r h n = ground arith

-- The last record of one chain leads to another chain.
IsChain-append :
    (h : Links) (t : ℕ) (r r' : Option ℕ) (ps qs : List ℕ)
    → last ps ≡ some t
    → AreApart ps qs
    → IsChain h r ps
    → IsChain h r' qs
    → IsChain (set_next t r' h) r (ps ++ qs)
unfolding has_ptr set_next
IsChain-append h t r r' [] qs l a c d = absurd (ground arith)
IsChain-append h t r r' (p ∷ []) qs l a c d =
    let same : p ≡ t = some_inj l in
    (
      c.0,
      subst (λ x. IsChain (set_next t r' h) x qs)
          (sym (ap (set_next t r' h) same ∙ set_next_here t r' h))
          (IsChain-frame h t r' r' qs (subst (λ x. has_ptr x qs ≡ false) same a.1) d),
    )
IsChain-append h t r r' (p ∷ q ∷ ps) qs l a c d =
    let n : t ≢ p = has_ptr_ne p t (q ∷ ps) a.0 (last-has_ptr (q ∷ ps) t l) in
    (
      c.0,
      subst (λ x. IsChain (set_next t r' h) x (q ∷ ps ++ qs)) (sym (set_next_other t p r' h n))
          (IsChain-append h t (h p) r' (q ∷ ps) qs l a.2 c.1 d),
    )

last-append : (ps : List ℕ) (q : ℕ) (qs : List ℕ) → last (ps ++ q ∷ qs) ≡ last (q ∷ qs)
last-append [] q qs = refl
last-append (p ∷ []) q qs = refl
last-append (p ∷ p' ∷ ps) q qs = last-append (p' ∷ ps) q qs

last-some : (p : ℕ) (ps : List ℕ) → (t : ℕ) × (last (p ∷ ps) ≡ some t)
last-some p [] = (p, refl)
last-some p (q ∷ ps) = last-some q ps

AreApart-one : (p : ℕ) (ps : List ℕ) → AreApart ps [] → has_ptr p ps ≡ false → AreApart ps (p ∷ [])
unfolding has_ptr
AreApart-one p [] a n = tt
AreApart-one p (q ∷ ps) a n = (a.0, ground arith, AreApart-one p ps a.2 (ground arith))

add_last_behind :
    (p t : ℕ) (h : Links) (q : Ends)
    → q.tail ≡ some t
    → add_last p h q
      ≡ (set_next t (some p) (set_next p none h), record { head = q.head; tail = some p })
unfolding add_last
add_last_behind p t h q e = rw e

add_last-IsQueue :
    (h : Links) (q : Ends) (p : ℕ) (ps : List ℕ)
    → IsQueue h q ps
    → AreApart ps []
    → has_ptr p ps ≡ false
    → IsQueue (add_last p h q).0 (add_last p h q).1 (ps ++ p ∷ [])
unfolding add_last
add_last-IsQueue h q p [] k a n = rw k.1 ((refl, set_next_here p none h), refl)
add_last-IsQueue h q p (x ∷ xs) k a n =
    let (t, at) = last-some x xs in
    subst (λ (r : Links × Ends). IsQueue r.0 r.1 (x ∷ xs ++ p ∷ []))
      (sym (add_last_behind p t h q (k.1 ∙ at)))
      (
        IsChain-append (set_next p none h) t q.head (some p) (x ∷ xs) (p ∷ []) at
            (AreApart-one p (x ∷ xs) a n) (IsChain-frame h p none q.head (x ∷ xs) n k.0)
            (refl, set_next_here p none h),
        sym (last-append (x ∷ xs) p []),
      )

splice_behind :
    (h : Links) (d q : Ends) (x t : ℕ)
    → d.head ≡ some x
    → d.tail ≡ some t
    → splice h d q
      ≡ some (record {
        links = set_next t q.head h;
        inbox = record { head = some x; tail = last_of q.tail (some t) };
        deferred = nothing_queued;
      })
unfolding splice
splice_behind h d q x t e k = rw (e, k)

spliced_tail :
    (q : Ends) (t : ℕ) (ds es : List ℕ)
    → last ds ≡ some t
    → q.tail ≡ last es
    → last_of q.tail (some t) ≡ last (ds ++ es)
spliced_tail q t ds [] l e = rw (e, append-nil ds) (sym l)
spliced_tail q t ds (y ∷ ys) l e =
    let (u, at) = last-some y ys in rw (e ∙ at) (sym (last-append ds y ys ∙ at))

splice-IsQueue :
    (h : Links) (d q : Ends) (ds es : List ℕ)
    → IsQueue h d ds
    → IsQueue h q es
    → AreApart ds es
    → (s : Spliced) × (splice h d q ≡ some s)
      × IsQueue s.links s.inbox (ds ++ es)
      × IsQueue s.links s.deferred []
unfolding splice
splice-IsQueue h d q [] es k c a = (record { links = h; inbox = q; deferred = d }, rw k.0, c, k)
splice-IsQueue h d q (x ∷ xs) es k c a =
    let (t, at) = last-some x xs in
    (
      _,
      splice_behind h d q x t k.0.0 (k.1 ∙ at),
      (
        subst (λ r. IsChain (set_next t q.head h) r (x ∷ xs ++ es)) k.0.0
            (IsChain-append h t d.head q.head (x ∷ xs) es at a k.0 c.0),
        spliced_tail q t (x ∷ xs) es at c.1,
      ),
      (refl, refl),
    )

-- The pointers of a queue keep a list. With the deferred events `ds` and the inbox `es`, whose records
-- are all different: a record that is not in the inbox is its last once it is added; and the splice
-- writes through no NULL, leaves the records `ds` and then `es` in the inbox, with its head and tail at
-- the first and the last of them, and no deferred events.
pub queue_lem :
    (h : Links) (deferred inbox : Ends) (p : ℕ) (ds es : List ℕ)
    → IsQueue h deferred ds
    → IsQueue h inbox es
    → AreApart ds es
    → AreApart es []
    → has_ptr p es ≡ false
    → IsQueue (add_last p h inbox).0 (add_last p h inbox).1 (es ++ p ∷ [])
      × ((s : Spliced) × (splice h deferred inbox ≡ some s)
          × IsQueue s.links s.inbox (ds ++ es)
          × IsQueue s.links s.deferred [])
queue_lem h deferred inbox p ds es k c a b n =
    (add_last-IsQueue h inbox p es c b n, splice-IsQueue h deferred inbox ds es k c a)
