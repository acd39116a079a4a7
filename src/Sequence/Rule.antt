-- ===== src/Sequence/Rule.antt =====
-- The induction rules for bursts: what every call keeps, the burst keeps.
use coseq.Base.{ℕ, ◌≡◌, refl, List, [], ◌∷◌, none, some, Bool-cases, Option-cases, inl, inr, All}
use coseq.Types.{Alloc, Fiber, Point, Ptr, Thread}
use coseq.Fibers.{find_fiber}
use coseq.Thread.{on_fiber, on_module}
use coseq.Gather.{woken, gather_resume-ptr}
use coseq.Sequence.{
  Call, Burst, exec_call, finish, run_calls, come_back_at, come_back, clear_waits, switch_to,
  resume,
}

come_back_at-ptr :
    (allocs : ℕ → Alloc) (f : Fiber) (point : Point) → (come_back_at allocs f point).0.ptr ≡ f.ptr
unfolding come_back_at woken
come_back_at-ptr allocs f Point.entry = refl
come_back_at-ptr allocs f (Point.gathering n) = gather_resume-ptr allocs n f
come_back_at-ptr allocs f point = refl

pub come_back-ptr : (allocs : ℕ → Alloc) (f : Fiber) → (come_back allocs f).0.ptr ≡ f.ptr
unfolding come_back
come_back-ptr allocs f = come_back_at-ptr allocs f f.ctx

-- `P` is kept by each call with property `Q`, and by the return of the sequence.
module _ {ℓ κ} (P : Thread → Type ℓ) (Q : Call → Type κ) (p : Ptr)
    (call : (t : Thread) (f : Fiber) (c : Call)
      → find_fiber p t.fibers ≡ some f
      → Q c
      → P t
      → P (exec_call t f c).0)
    (return : (t : Thread) → P t → P (finish p t)) where
  pub run_calls_rule : (cs : List Call) → All Q cs → (t : Thread) → P t → P (run_calls p cs t)
  unfolding run_calls
  run_calls_rule [] q t h = return t h
  run_calls_rule (c ∷ cs) q t h = elim (Option-cases (find_fiber p t.fibers)) [
    | inl e ↦ rw (e, run_calls) h
    | inr (f, e) ↦
        let one = call t f c e q.0 h in
        let more = run_calls_rule cs q.1 (exec_call t f c).0 one in
        rw (e, run_calls)
          (elim (Bool-cases (exec_call t f c).1) [
            | inl stops ↦ rw stops one
            | inr goes ↦ rw goes more
          ])
  ]

  -- The same from where the fiber is resumed; `R` holds of the thread that resumes it.
  module _ {μ} (R : Thread → Type μ) (b : Burst)
      (clear : (t : Thread)
        → R t
        → R (on_module (λ m. record m { current = some p }) (on_fiber p clear_waits t)))
      (back : (t : Thread) (f : Fiber)
        → find_fiber p t.fibers ≡ some f
        → R t
        → P (on_fiber p (λ _. (come_back b.allocs f).0) t))
      (gone : (t : Thread) → find_fiber p t.fibers ≡ none → R t → P t)
      (leave : (t : Thread) → P t → P (on_module (λ m. record m { current = none }) t)) where
    switch_to_rule : All Q b.calls → (t : Thread) → R t → P (switch_to p b t)
    unfolding switch_to
    switch_to_rule q t h = elim (Option-cases (find_fiber p t.fibers)) [
      | inl e ↦ rw (e, switch_to) (gone t e h)
      | inr (f, e) ↦
          let one = back t f e h in
          let more = run_calls_rule b.calls q _ one in
          rw (e, switch_to)
            (elim (Bool-cases (come_back b.allocs f).1) [
              | inl stops ↦ rw stops one
              | inr goes ↦ rw goes more
            ])
    ]

    pub resume_rule : All Q b.calls → (t : Thread) → R t → P (resume p b t)
    unfolding resume
    resume_rule q t h = leave _ (switch_to_rule q _ (clear t h))
