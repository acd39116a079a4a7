-- ===== src/Gather/Sweep.antt =====
-- The loop of `coseq_gather`: how it goes through the replies that have come.
use coseq.Base.{
  ℕ, zero, suc, ◌+◌, ◌-◌, ◌≤◌, ◌≡◌, refl, ap, sym, ◌∙◌, true, List, [], ◌∷◌, ◌++◌, append-nil,
  append_assoc, ℤ, pos, dec, is_zero, arith, length, if◌then◌else◌, ◌==◌, Bool-cases, inl, inr,
}
use mathlib.Core.Path.{subst}
use mathlib.Core.List.{map, map-append}
use coseq.Types.{Alloc, Fiber, Point, ReplyRec, Rslt, Src}
use coseq.Fibers.{set_src}
use coseq.Gather.{
  nothing, parked, got, take_reply, wait_from, wait_reply, Gathered, finished, waits, gather_next,
  gather_loop, rounds,
}

-- Whom a reply answers and how: the request's id and the result.
abbrev pub Answer : Type 0
Answer = ℕ × Rslt

abbrev pub answer_of : ReplyRec → Answer
answer_of r = (r.req_id, r.result)

abbrev pub answer_in : Src → Answer
answer_in s = (s.req_id, s.result)

abbrev pub dec_by : ℕ → ℤ → ℤ
dec_by zero x = x
dec_by (suc n) x = dec_by n (dec x)

pub wait_reply-cons :
    (a : Alloc) (point : Point) (f : Fiber) (rr : ReplyRec) (rest : List ReplyRec)
    → f.rq ≡ rr ∷ rest
    → wait_reply a point f ≡ (take_reply a f rr rest, got (take_reply a f rr rest).src)
unfolding wait_reply
wait_reply-cons a point f rr rest e = ap (wait_from a point f) e

pub wait_reply-nil :
    (a : Alloc) (point : Point) (f : Fiber)
    → f.rq ≡ []
    → wait_reply a point f ≡ (
        if is_zero f.async_outstanding
        then (f, nothing)
        else (record f { waiting_any = true; ctx = point }, parked))
unfolding wait_reply
wait_reply-nil a point f e = ap (wait_from a point f) e

take_reply-rq :
    (a : Alloc) (f : Fiber) (rr : ReplyRec) (rest : List ReplyRec)
    → (take_reply a f rr rest).rq ≡ rest
unfolding take_reply set_src
take_reply-rq a f rr rest = refl

is_zero-sub : (n k : ℕ) → n ≤ k → is_zero (pos (k - n)) ≡ (n == k)
is_zero-sub n k h = ground arith

pub last_left :
    (n k : ℕ)
    → n ≤ k
    → (if is_zero (pos (k - n)) then finished else waits) ≡ (if n == k then finished else waits)
last_left n k h = ap (λ b. if b then finished else waits) (is_zero-sub n k h)

-- From fiber `f` with the queue `rq`, count `n` and the replies `rs` given to the callback, the loop
-- ends in `g`.
pub record Swept (f : Fiber) (rq : List ReplyRec) (n : ℕ) (rs : List Src) (g : Gathered)
    : Type 0 where
  pub empty : g.fiber.rq ≡ []
  pub count : g.n ≡ n + length rq
  pub answers : map answer_in g.replies ≡ map answer_in rs ++ map answer_of rq
  pub left : g.fiber.async_outstanding ≡ dec_by (length rq) f.async_outstanding
  pub end : g.end ≡ (if is_zero (dec_by (length rq) f.async_outstanding) then finished else waits)

Swept-nil :
    (f : Fiber) (n : ℕ) (rs : List Src) (again : Fiber → ℕ → List Src → Gathered) (point : Point)
    → f.rq ≡ []
    → Swept f [] n rs (
        gather_next again n rs (
          if is_zero f.async_outstanding
          then (f, nothing)
          else (record f { waiting_any = true; ctx = point }, parked)))
unfolding gather_next
Swept-nil f n rs again point e = elim (Bool-cases (is_zero f.async_outstanding)) [
  | inl none_left ↦ rw none_left (record {
    empty = e;
    count = omega arith;
    answers = sym (append-nil (map answer_in rs));
    left = refl;
    end = rw none_left;
  })
  | inr some_left ↦ rw some_left (record {
    empty = e;
    count = omega arith;
    answers = sym (append-nil (map answer_in rs));
    left = refl;
    end = rw some_left;
  })
]

-- The loop after one more reply.
abbrev onward : ℕ → (ℕ → Alloc) → Fiber → ℕ → List Src → Gathered
onward k allocs = gather_loop k (λ i. allocs (suc i))

gather_loop-suc :
    (k : ℕ) (allocs : ℕ → Alloc) (f : Fiber) (n : ℕ) (rs : List Src)
    → gather_loop (suc k) allocs f n rs
      ≡ gather_next (onward k allocs) n rs (wait_reply (allocs 0) (Point.gathering n) f)
unfolding gather_loop
gather_loop-suc k allocs f n rs = refl

gather_next-got :
    (k : ℕ) (allocs : ℕ → Alloc) (n : ℕ) (rs : List Src) (g : Fiber) (s : Src)
    → gather_next (onward k allocs) n rs (g, got s) ≡ onward k allocs g (suc n) (rs ++ s ∷ [])
unfolding gather_next
gather_next-got k allocs n rs g s = refl

Swept-cons :
    (a : Alloc) (f : Fiber) (rr : ReplyRec) (rest : List ReplyRec) (n : ℕ) (rs : List Src)
    (g : Gathered)
    → let f' = take_reply a f rr rest in
      Swept f' rest (suc n) (rs ++ f'.src ∷ []) g → Swept f (rr ∷ rest) n rs g
unfolding take_reply set_src
Swept-cons a f rr rest n rs g s = record {
  empty = s.empty;
  count = omega (arith, s.count);
  answers =
      s.answers
      ∙ ap (λ x. x ++ map answer_of rest)
          (map-append answer_in rs ((take_reply a f rr rest).src ∷ []))
      ∙ append_assoc (map answer_in rs) (answer_of rr ∷ []) (map answer_of rest);
  left = s.left;
  end = s.end;
}

pub gather_loop-Swept :
    (rq : List ReplyRec) (allocs : ℕ → Alloc) (f : Fiber) (n : ℕ) (rs : List Src)
    → f.rq ≡ rq
    → Swept f rq n rs (gather_loop (rounds rq) allocs f n rs)
gather_loop-Swept [] allocs f n rs e =
    subst (Swept f [] n rs)
      (ap (gather_next (onward 0 allocs) n rs)
          (sym (wait_reply-nil (allocs 0) (Point.gathering n) f e))
        ∙ sym (gather_loop-suc 0 allocs f n rs))
      (Swept-nil f n rs (onward 0 allocs) (Point.gathering n) e)
gather_loop-Swept (rr ∷ rest) allocs f n rs e =
    let f' : Fiber = take_reply (allocs 0) f rr rest in
    subst (Swept f (rr ∷ rest) n rs)
      (sym (
        gather_loop-suc (rounds rest) allocs f n rs
        ∙ ap (gather_next (onward (rounds rest) allocs) n rs)
            (wait_reply-cons (allocs 0) (Point.gathering n) f rr rest e)
        ∙ gather_next-got (rounds rest) allocs n rs f' f'.src))
      (Swept-cons (allocs 0) f rr rest n rs _ (
        gather_loop-Swept rest (λ i. allocs (suc i)) f' (suc n) (rs ++ f'.src ∷ [])
          (take_reply-rq (allocs 0) f rr rest)))
