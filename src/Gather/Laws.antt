-- ===== src/Gather/Laws.antt =====
-- What `coseq_gather` hands to its callback, and when it returns.
use coseq.Base.{
  ℕ, zero, suc, ◌+◌, ◌-◌, ◌≤◌, ◌≡◌, refl, ap, sym, ◌∙◌, Bool, true, false, ◌⊎◌, List, [], ◌∷◌, ◌++◌,
  pos, dec, is_zero, arith, length, if◌then◌else◌, ◌==◌, inl, inr,
}
use mathlib.Core.Path.{subst}
use mathlib.Core.List.{map}
use coseq.Types.{Alloc, Fiber, Src}
use coseq.Gather.{
  woken, Gathered, finished, waits, gather_loop, rounds, coseq_gather, gather_resume,
}
use coseq.Gather.Sweep.{answer_of, answer_in, dec_by, Swept, gather_loop-Swept, last_left}

dec_by-pos : (n k : ℕ) → n ≤ k → dec_by n (pos k) ≡ pos (k - n)
dec_by-pos zero k h = ap pos (omega arith)
dec_by-pos (suc n) zero h = absurd (omega arith)
dec_by-pos (suc n) (suc k) h = dec_by-pos n k (omega arith) ∙ ap pos (omega arith)

Swept-pos :
    (f : Fiber) (n k : ℕ) (rs : List Src) (g : Gathered)
    → Swept f f.rq n rs g
    → f.async_outstanding ≡ pos k
    → length f.rq ≤ k
    → (g.fiber.rq ≡ [])
      × (g.n ≡ n + length f.rq)
      × (map answer_in g.replies ≡ map answer_in rs ++ map answer_of f.rq)
      × (g.fiber.async_outstanding ≡ pos (k - length f.rq))
      × (g.end ≡ (if length f.rq == k then finished else waits))
Swept-pos f n k rs g s e h =
    let left : dec_by (length f.rq) f.async_outstanding ≡ pos (k - length f.rq) =
      ap (dec_by (length f.rq)) e ∙ dec_by-pos (length f.rq) k h in
    (
      s.empty,
      s.count,
      s.answers,
      s.left ∙ left,
      s.end ∙ ap (λ x. if is_zero x then finished else waits) left ∙ last_left (length f.rq) k h,
    )

-- With `k` replies outstanding, of which those in the queue have come, `coseq_gather` gives the
-- callback these, in the order in which they came, with their request ids and results; it counts
-- them; it returns if no other reply is outstanding, and otherwise waits, with the rest outstanding.
pub coseq_gather_lem :
    (allocs : ℕ → Alloc) (f : Fiber) (k : ℕ)
    → f.async_outstanding ≡ pos k
    → length f.rq ≤ k
    → let g = coseq_gather allocs f in
      (g.fiber.rq ≡ [])
      × (g.n ≡ length f.rq)
      × (map answer_in g.replies ≡ map answer_of f.rq)
      × (g.fiber.async_outstanding ≡ pos (k - length f.rq))
      × (g.end ≡ (if length f.rq == k then finished else waits))
unfolding coseq_gather
coseq_gather_lem allocs f k e h =
    let s = Swept-pos f 0 k [] _ (gather_loop-Swept f.rq allocs f 0 [] refl) e h in
    (s.0, omega (arith, s.1), s.2, s.3, s.4)

-- When a reply ends the wait of a gather that had counted `n`, with `k` others outstanding, the count
-- goes on from `n + 1`, and the callback is given that reply and then what has come meanwhile.
pub gather_resume_lem :
    (allocs : ℕ → Alloc) (f : Fiber) (n k : ℕ)
    → f.async_outstanding ≡ pos (suc k)
    → length f.rq ≤ k
    → let g = gather_resume allocs n f in
      (g.fiber.rq ≡ [])
      × (g.n ≡ suc n + length f.rq)
      × (map answer_in g.replies ≡ answer_in f.src ∷ map answer_of f.rq)
      × (g.fiber.async_outstanding ≡ pos (k - length f.rq))
      × (g.end ≡ (if length f.rq == k then finished else waits))
unfolding gather_resume woken
gather_resume_lem allocs f n k e h =
    Swept-pos (woken f) (suc n) k (f.src ∷ []) _
      (gather_loop-Swept f.rq allocs (woken f) (suc n) (f.src ∷ []) refl) (ap dec e) h

returns_or_waits :
    (b : Bool) → let end = if b then finished else waits in (end ≡ finished) ⊎ (end ≡ waits)
returns_or_waits true = inl refl
returns_or_waits false = inr refl

-- The loop of `coseq_gather` ends for every fiber and every outcome of allocations: it returns or
-- waits, with the queue empty and each reply that was in it counted and handed over.
pub coseq_gather_ends :
    (allocs : ℕ → Alloc) (f : Fiber)
    → let g = coseq_gather allocs f in
      ((g.end ≡ finished) ⊎ (g.end ≡ waits))
      × (g.fiber.rq ≡ [])
      × (g.n ≡ length f.rq)
      × (map answer_in g.replies ≡ map answer_of f.rq)
unfolding coseq_gather
coseq_gather_ends allocs f =
    let s : Swept f f.rq 0 [] (gather_loop (rounds f.rq) allocs f 0 []) =
      gather_loop-Swept f.rq allocs f 0 [] refl in
    (
      subst (λ x. (x ≡ finished) ⊎ (x ≡ waits)) (sym s.end)
          (returns_or_waits (is_zero (dec_by (length f.rq) f.async_outstanding))),
      s.empty,
      omega (arith, s.count),
      s.answers,
    )
