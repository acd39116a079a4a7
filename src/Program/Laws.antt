-- ===== src/Program/Laws.antt =====
-- What the code of a sequence does is what the library calls that it makes do.
use coseq.Base.{
  ℕ, suc, Bool, Option, ◌≡◌, refl, ap, sym, List, [], none, some, Bool-cases, Option-cases, inl,
  inr, arith, true, false, if◌then◌else◌,
}
use mathlib.Core.Path.{subst}
use coseq.Types.{Alloc, Fiber, Ptr, Src, Thread}
use coseq.Fibers.{find_fiber}
use coseq.Thread.{on_module, on_fiber}
use coseq.Gather.{Taken, Gathered, coseq_gather}
use coseq.Sequence.{Call, exec_call, run_calls, come_back, switch_to, resume, is_waiting, is_parked}
use coseq.Program.{
  Op, Answer, Program, returns, fails, call, reads, looks, writes, Rest, End, aborted, Ran, Env,
  call_of, Next, goes, stops, after_call, after_wait, after_gather, go_on, run, continue_with,
  switch_to_code, resume_code, wait_on, stopped,
}

-- Whether a run ends with no assertion that fails.
abbrev pub is_aborted : {G : Type 0} → End G → Bool
is_aborted aborted = true
is_aborted _ = false

abbrev does_stop : {G A : Type 0} → Next G A → Bool
does_stop (goes a) = false
does_stop (stops rest) = true

after_wait-stops :
    {G : Type 0} (k : Option Src → Program G) (w : Taken) → does_stop (after_wait k w) ≡ is_parked w
after_wait-stops k Taken.nothing = refl
after_wait-stops k Taken.parked = refl
after_wait-stops k (Taken.got s) = refl

after_gather-stops :
    {G : Type 0} (k : List Src → Program G) (g : Gathered)
    → does_stop (after_gather k g) ≡ is_waiting g.end
after_gather-stops k g = ground arith

-- The code goes on at once exactly after the calls that do not give up the processor.
after_call-stops :
    {G : Type 0} (v : Env) (t : Thread) (f : Fiber) (o : Op) (k : Answer o → Program G)
    → does_stop (after_call v t f o k) ≡ (exec_call t f (call_of v o)).1
unfolding after_call exec_call call_of
after_call-stops v t f Op.wait_one k = after_wait-stops k _
after_call-stops v t f Op.gather k = after_gather-stops k (coseq_gather v.allocs f)
after_call-stops v t f o k = refl

-- If the run is not cut off, the calls that it makes do what it does.
abbrev pub Fits : {G : Type 0} → Ptr → Thread → Ran G → Type 0
Fits p t r = is_aborted r.end ≡ false → run_calls p r.calls t ≡ r.thread

abbrev pub cut_off : {G : Type 0} → G → Thread → Ran G
cut_off g t = record { thread = t; globals = g; calls = []; end = aborted }

go_on-Fits :
    {G A : Type 0} (p : Ptr) (c : Call) (t : Thread) (f : Fiber) (again : A → Ran G) (g : G)
    (n : Next G A)
    → find_fiber p t.fibers ≡ some f
    → does_stop n ≡ (exec_call t f c).1
    → ((a : A) → Fits p (exec_call t f c).0 (again a))
    → Fits p t (go_on again g (exec_call t f c).0 c n)
unfolding go_on run_calls
go_on-Fits p c t f again g (goes a) here goes_on more fine =
    rw (here, run_calls) (rw (sym goes_on) (more a fine))
go_on-Fits p c t f again g (stops rest) here goes_on more fine =
    rw (here, run_calls) (rw (sym goes_on) refl)

module _ {G : Type 0} (p : Ptr) (envs : ℕ → Env) (g : G) (t : Thread) where
  pub run-call :
      (o : Op) (k : Answer o → Program G) (f : Fiber)
      → find_fiber p t.fibers ≡ some f
      → let u = (exec_call t f (call_of (envs 0) o)).0 in
        run p envs (call o k) g t
        ≡ go_on
            (λ a. run p (λ i. envs (suc i)) (k a) g u)
            g
            u
            (call_of (envs 0) o)
            (after_call (envs 0) t f o k)
  unfolding run
  run-call o k f e = rw (e, run)

  pub run-reads :
      (k : Fiber → Program G) (f : Fiber)
      → find_fiber p t.fibers ≡ some f
      → run p envs (reads k) g t ≡ run p envs (k f) g t
  unfolding run
  run-reads k f e = rw (e, run)

  run-call_none :
      (o : Op) (k : Answer o → Program G)
      → find_fiber p t.fibers ≡ none
      → run p envs (call o k) g t ≡ cut_off g t
  unfolding run
  run-call_none o k e = rw (e, run)

  run-reads_none :
      (k : Fiber → Program G)
      → find_fiber p t.fibers ≡ none
      → run p envs (reads k) g t ≡ cut_off g t
  unfolding run
  run-reads_none k e = rw (e, run)

run-Fits :
    {G : Type 0} (p : Ptr) (envs : ℕ → Env) (prog : Program G) (g : G) (t : Thread)
    → Fits p t (run p envs prog g t)
unfolding run run_calls
run-Fits p envs returns g t = λ fine. refl
run-Fits p envs fails g t = λ fine. cc
run-Fits p envs (call o k) g t = elim (Option-cases (find_fiber p t.fibers)) [
  | inl e ↦ subst (Fits p t) (sym (run-call_none p envs g t o k e)) (λ fine. cc)
  | inr (f, e) ↦ subst (Fits p t) (sym (run-call p envs g t o k f e)) (
      go_on-Fits p (call_of (envs 0) o) t f _ g (after_call (envs 0) t f o k) e
        (after_call-stops (envs 0) t f o k) (λ a. run-Fits p (λ i. envs (suc i)) (k a) g _))
]
run-Fits p envs (reads k) g t = elim (Option-cases (find_fiber p t.fibers)) [
  | inl e ↦ subst (Fits p t) (sym (run-reads_none p envs g t k e)) (λ fine. cc)
  | inr (f, e) ↦ subst (Fits p t) (sym (run-reads p envs g t k f e)) (run-Fits p envs (k f) g t)
]
run-Fits p envs (looks k) g t = run-Fits p envs (k g) g t
run-Fits p envs (writes h k) g t = run-Fits p envs k (h g) t

module _ {G : Type 0} (p : Ptr) (allocs : ℕ → Alloc) (envs : ℕ → Env) (rest : Rest G) (g : G) where
  FitsSwitch : Thread → Ran G → Type 0
  FitsSwitch t r =
      is_aborted r.end ≡ false
      → switch_to p (record { allocs = allocs; calls = r.calls }) t ≡ r.thread

  switch_to_code-none :
      (t : Thread)
      → find_fiber p t.fibers ≡ none
      → switch_to_code p allocs envs rest g t ≡ cut_off g t
  unfolding switch_to_code
  switch_to_code-none t e = rw (e, switch_to_code)

  -- The state in which the code goes on.
  abbrev pub back_in : Thread → Fiber → Thread
  back_in t f = on_fiber p (λ _. (come_back allocs f).0) t

  pub switch_to_code-some :
      (t : Thread) (f : Fiber)
      → find_fiber p t.fibers ≡ some f
      → switch_to_code p allocs envs rest g t ≡ (
          if (come_back allocs f).1
          then record {
            thread = back_in t f;
            globals = g;
            calls = [];
            end = stopped (wait_on allocs f rest);
          }
          else run p envs (continue_with allocs f rest) g (back_in t f))
  unfolding switch_to_code
  switch_to_code-some t f e = rw (e, switch_to_code)

  switch_to_code-FitsSwitch : (t : Thread) → FitsSwitch t (switch_to_code p allocs envs rest g t)
  unfolding FitsSwitch switch_to
  switch_to_code-FitsSwitch t = elim (Option-cases (find_fiber p t.fibers)) [
    | inl e ↦ subst (FitsSwitch t) (sym (switch_to_code-none t e)) (λ fine. cc)
    | inr (f, e) ↦
        subst (FitsSwitch t) (sym (switch_to_code-some t f e))
          (elim (Bool-cases (come_back allocs f).1) [
            | inl again ↦ rw again (λ fine. rw (e, switch_to) (rw again))
            | inr over ↦ rw over (λ fine.
                rw (e, switch_to)
                  (rw over (run-Fits p envs (continue_with allocs f rest) g (back_in t f) fine)))
          ])
  ]

  -- The code of a sequence, from one resumption to the next stop: what it does to its module and to
  -- other threads is what `resume` does with the library calls that it makes, provided that none of its assertions
  -- fails.
  pub resume_code-resume :
      (t : Thread)
      → let r = resume_code p allocs envs rest g t in
        is_aborted r.end ≡ false
        → r.thread ≡ resume p (record { allocs = allocs; calls = r.calls }) t
  unfolding resume_code resume FitsSwitch
  resume_code-resume t fine =
      ap (on_module (λ m. record m { current = none })) (sym (switch_to_code-FitsSwitch _ fine))
