-- ===== src/Instance/SetupLoops.antt =====
-- The two loops of `_setup`: what they leave at each index when they succeed.
use coseq.Base.{
  ℕ, zero, suc, ◌+◌, ◌≤◌, ◌<◌, ◌≡◌, ◌≢◌, refl, ap, sym, ◌∙◌, true, false, ◌&&◌, List, [], ◌∷◌, some,
  arith, ==_refl, length, get_elem?, modify_at, get_elem?-modify_at, length-modify_at, get_elem?-lt,
  Bool-cases, inl, inr, some_inj,
}
use mathlib.Core.Path.{subst}
use native.Mathlib.Decide.{ℕ_discrete}
use coseq.Types.{Module, Reg}
use coseq.Instance.Setup.{Pthreads, register, init_modules, start_threads}

-- The write of one module at its own index, and at another.
modify_at_here :
    (i : ℕ) (h : Module → Module) (ms : List Module) (m : Module)
    → get_elem? ms i ≡ some m
    → get_elem? (modify_at i h ms) i ≡ some (h m)
modify_at_here i h ms m e = get_elem?-modify_at i i h ms ∙ rw (==_refl i, e)

modify_at_other :
    (i j : ℕ) (h : Module → Module) (ms : List Module)
    → i ≢ j
    → get_elem? (modify_at i h ms) j ≡ get_elem? ms j
modify_at_other i j h ms n = ground (arith, get_elem?-modify_at i j h ms)

init_modules_below :
    (sys : Pthreads) (i : ℕ) (rs : List Reg) (ms : List Module) (j : ℕ)
    → j < i
    → get_elem? (init_modules sys i rs ms).0 j ≡ get_elem? ms j
unfolding init_modules
init_modules_below sys i [] ms j h = refl
init_modules_below sys i (r ∷ rs) ms j h = elim (Bool-cases (sys.mutex i && sys.cond i)) [
  | inl ok ↦ rw ok (
      init_modules_below sys (suc i) rs _ j (omega arith)
      ∙ modify_at_other i j (λ _. record (register i r) { next_req_id = 1 }) ms
          (λ e. omega (arith, e)))
  | inr fail ↦ rw fail (modify_at_other i j (λ _. register i r) ms (λ e. omega (arith, e)))
]

-- A module as the first loop leaves it.
abbrev pub registered : ℕ → Reg → Module
registered i r = record (register i r) { next_req_id = 1 }

init_modules_step :
    (sys : Pthreads) (i : ℕ) (r : Reg) (rs : List Reg) (ms : List Module)
    → (init_modules sys i (r ∷ rs) ms).1 ≡ true
    → init_modules sys i (r ∷ rs) ms
      ≡ init_modules sys (suc i) rs (modify_at i (λ _. registered i r) ms)
unfolding init_modules
init_modules_step sys i r rs ms done = elim (Bool-cases (sys.mutex i && sys.cond i)) [
  | inl ok ↦ rw ok
  | inr fail ↦ let bad : false ≡ true = rw fail at done in cc
]

pub init_modules_at :
    (sys : Pthreads) (i : ℕ) (rs : List Reg) (ms : List Module) (k j : ℕ) (r : Reg)
    → (init_modules sys i rs ms).1 ≡ true
    → i + length rs ≤ length ms
    → get_elem? rs k ≡ some r
    → i + k ≡ j
    → get_elem? (init_modules sys i rs ms).0 j ≡ some (registered j r)
init_modules_at sys i [] ms k j r done room e at_j = cc
init_modules_at sys i (r0 ∷ rs) ms zero j r done room e at_j =
    let ready : List Module = modify_at i (λ _. registered i r0) ms in
    let (m, old) = get_elem?-lt ms i (omega arith) in
    let same : i ≡ j = omega arith in
    ap (λ x. get_elem? x.0 j) (init_modules_step sys i r0 rs ms done)
    ∙ init_modules_below sys (suc i) rs ready j (omega arith)
    ∙ subst (λ k. get_elem? ready k ≡ some (registered k r0)) same
        (modify_at_here i (λ _. registered i r0) ms m old)
    ∙ ap (λ x. some (registered j x)) (some_inj e)
init_modules_at sys i (r0 ∷ rs) ms (suc k) j r done room e at_j =
    let ready : List Module = modify_at i (λ _. registered i r0) ms in
    let step = init_modules_step sys i r0 rs ms done in
    ap (λ x. get_elem? x.0 j) step
    ∙ init_modules_at sys (suc i) rs ready k j r (ap (λ x. x.1) (sym step) ∙ done)
        (omega (arith, length-modify_at i (λ _. registered i r0) ms)) e (omega arith)

pub length-init_modules :
    (sys : Pthreads) (i : ℕ) (rs : List Reg) (ms : List Module)
    → length (init_modules sys i rs ms).0 ≡ length ms
unfolding init_modules
length-init_modules sys i [] ms = refl
length-init_modules sys i (r ∷ rs) ms = elim (Bool-cases (sys.mutex i && sys.cond i)) [
  | inl ok ↦
      rw ok (length-init_modules sys (suc i) rs _ ∙ length-modify_at i (λ _. registered i r) ms)
  | inr fail ↦ rw fail (length-modify_at i (λ _. register i r) ms)
]

abbrev pub started : Module → Module
started m = record m { th_started = true }

start_threads_step :
    (sys : Pthreads) (i n : ℕ) (ms : List Module)
    → (start_threads sys i (suc n) ms).1 ≡ true
    → start_threads sys i (suc n) ms ≡ start_threads sys (suc i) n (modify_at i started ms)
unfolding start_threads
start_threads_step sys i n ms done = elim (Bool-cases (sys.create i)) [
  | inl ok ↦ rw ok
  | inr fail ↦ let bad : false ≡ true = rw fail at done in cc
]

start_threads_below :
    (sys : Pthreads) (i n : ℕ) (ms : List Module) (j : ℕ)
    → j < i
    → get_elem? (start_threads sys i n ms).0 j ≡ get_elem? ms j
unfolding start_threads
start_threads_below sys i zero ms j h = refl
start_threads_below sys i (suc n) ms j h = elim (Bool-cases (sys.create i)) [
  | inl ok ↦ rw ok (
      start_threads_below sys (suc i) n _ j (omega arith)
      ∙ modify_at_other i j started ms (λ e. omega (arith, e)))
  | inr fail ↦ rw fail
]

pub start_threads_at :
    (sys : Pthreads) (i n : ℕ) (ms : List Module) (j : ℕ) (m : Module)
    → (start_threads sys i n ms).1 ≡ true
    → i ≤ j
    → j < i + n
    → get_elem? ms j ≡ some m
    → get_elem? (start_threads sys i n ms).0 j ≡ some (started m)
start_threads_at sys i zero ms j m done lo hi e = absurd (omega arith)
start_threads_at sys i (suc n) ms j m done lo hi e =
    let step = start_threads_step sys i n ms done in
    ap (λ x. get_elem? x.0 j) step ∙ elim (ℕ_discrete i j) [
      | yes same ↦
          start_threads_below sys (suc i) n (modify_at i started ms) j (omega arith)
          ∙ subst (λ k. get_elem? (modify_at i started ms) k ≡ some (started m)) same
              (modify_at_here i started ms m (rw same e))
      | no other ↦
          start_threads_at sys (suc i) n (modify_at i started ms) j m
            (ap (λ x. x.1) (sym step) ∙ done) (omega arith) (omega arith)
            (modify_at_other i j started ms other ∙ e)
    ]

pub init_modules_ok :
    (sys : Pthreads) (i : ℕ) (rs : List Reg) (ms : List Module)
    → ((j : ℕ) → (sys.mutex j && sys.cond j) ≡ true)
    → (init_modules sys i rs ms).1 ≡ true
unfolding init_modules
init_modules_ok sys i [] ms ok = refl
init_modules_ok sys i (r ∷ rs) ms ok = rw (ok i) (init_modules_ok sys (suc i) rs _ ok)

pub start_threads_ok :
    (sys : Pthreads) (i n : ℕ) (ms : List Module)
    → ((j : ℕ) → sys.create j ≡ true)
    → (start_threads sys i n ms).1 ≡ true
unfolding start_threads
start_threads_ok sys i zero ms ok = refl
start_threads_ok sys i (suc n) ms ok = rw (ok i) (start_threads_ok sys (suc i) n _ ok)
