-- ===== src/Sequence/Gone.antt =====
-- An id of a request that is over stays unknown, whatever sequences call, while the counter of ids does not
-- wrap.
use coseq.Base.{
  ℕ, ◌+◌, ◌^◌, ◌<◌, ◌≡◌, ap, ◌∙◌, List, [], ◌∷◌, none, some, arith, Bool-cases, Option-cases, inl,
  inr, length,
}
use coseq.Types.{Ptr, Thread}
use coseq.Waiting.{peek}
use coseq.Fibers.{find_fiber}
use coseq.Thread.{on_module, on_fiber}
use coseq.Sequence.{
  Call, Burst, exec_call, finish, run_calls, clear_waits, come_back, switch_to, resume,
}
use coseq.Sequence.Ids.{Asks, exec_call-Asks, silent, sends, awaits}

-- The id has been given out, and no request waits under it.
pub record IsOver (id : ℕ) (t : Thread) : Type 0 where
  pub given : id < t.next_req_id
  pub unknown : peek id t.pending ≡ none

Asks-IsOver :
    (p : Ptr) (id : ℕ) (t t' : Thread)
    → Asks p t t'
    → t.next_req_id + 1 < 2 ^ 32
    → IsOver id t
    → IsOver id t' × (t'.next_req_id < t.next_req_id + 2)
unfolding peek
Asks-IsOver p id t t' (silent e k) room h = (
  record { given = omega (arith, e, h.given); unknown = ap (peek id) k ∙ h.unknown },
  omega (arith, e),
)
Asks-IsOver p id t t' (sends e k) room h = (
  record { given = omega (arith, e, h.given); unknown = ap (peek id) k ∙ h.unknown },
  omega (arith, e),
)
Asks-IsOver p id t t' (awaits e k) room h = (
  record {
    given = omega (arith, e, h.given);
    unknown = ap (peek id) k ∙ ground (arith, h.given, h.unknown);
  },
  omega (arith, e),
)

run_calls-IsOver :
    (p : Ptr) (id : ℕ) (cs : List Call) (t : Thread)
    → t.next_req_id + length cs < 2 ^ 32
    → IsOver id t
    → IsOver id (run_calls p cs t)
unfolding run_calls finish
run_calls-IsOver p id [] t room h = record { given = h.given; unknown = h.unknown }
run_calls-IsOver p id (c ∷ cs) t room h = elim (Option-cases (find_fiber p t.fibers)) [
  | inl e ↦ rw (e, run_calls) h
  | inr (f, e) ↦
      let one = Asks-IsOver f.ptr id t (exec_call t f c).0 (exec_call-Asks t f c) (omega arith) h in
      let more = run_calls-IsOver p id cs (exec_call t f c).0 (omega (arith, one.1)) one.0 in
      rw (e, run_calls)
        (elim (Bool-cases (exec_call t f c).1) [
          | inl stops ↦ rw stops one.0
          | inr goes ↦ rw goes more
        ])
]

switch_to-IsOver :
    (p : Ptr) (id : ℕ) (b : Burst) (t : Thread)
    → t.next_req_id + length b.calls < 2 ^ 32
    → IsOver id t
    → IsOver id (switch_to p b t)
unfolding switch_to
switch_to-IsOver p id b t room h = elim (Option-cases (find_fiber p t.fibers)) [
  | inl e ↦ rw (e, switch_to) h
  | inr (f, e) ↦
      let returned : Thread = on_fiber p (λ _. (come_back b.allocs f).0) t in
      let one : IsOver id returned = record { given = h.given; unknown = h.unknown } in
      let more = run_calls-IsOver p id b.calls returned room one in
      rw (e, switch_to)
        (elim (Bool-cases (come_back b.allocs f).1) [
          | inl stops ↦ rw stops one
          | inr goes ↦ rw goes more
        ])
]

pub resume-IsOver :
    (p : Ptr) (id : ℕ) (b : Burst) (t : Thread)
    → t.next_req_id + length b.calls < 2 ^ 32
    → IsOver id t
    → IsOver id (resume p b t)
unfolding resume
resume-IsOver p id b t room h =
    let u : Thread = on_module (λ m. record m { current = some p }) (on_fiber p clear_waits t) in
    let ran = switch_to-IsOver p id b u room (record { given = h.given; unknown = h.unknown }) in
    record { given = ran.given; unknown = ran.unknown }
