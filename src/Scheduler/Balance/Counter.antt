-- ===== src/Scheduler/Balance/Counter.antt =====
-- How far a burst moves the counter of request ids: by one for each call at most.
use coseq.Base.{
  ◌+◌, ◌^◌, ◌≤◌, ◌<◌, List, [], ◌∷◌, some, arith, length, Bool-cases, Option-cases, inl, inr,
}
use coseq.Types.{Ptr, Thread}
use coseq.Fibers.{find_fiber}
use coseq.Thread.{on_module, on_fiber}
use coseq.Sequence.{
  Call, Burst, exec_call, finish, run_calls, come_back, clear_waits, switch_to, resume,
}
use coseq.Sequence.Ids.{Asks, silent, sends, awaits, exec_call-Asks}

pub Asks-le :
    (p : Ptr) (t t' : Thread)
    → Asks p t t'
    → t.next_req_id + 1 < 2 ^ 32
    → t'.next_req_id ≤ t.next_req_id + 1
Asks-le p t t' (silent e k) room = omega arith
Asks-le p t t' (sends e k) room = omega arith
Asks-le p t t' (awaits e k) room = omega arith

run_calls_counter :
    (p : Ptr) (cs : List Call) (t : Thread)
    → t.next_req_id + length cs < 2 ^ 32
    → (run_calls p cs t).next_req_id ≤ t.next_req_id + length cs
unfolding run_calls finish
run_calls_counter p [] t room = omega arith
run_calls_counter p (c ∷ cs) t room = elim (Option-cases (find_fiber p t.fibers)) [
  | inl e ↦ rw (e, run_calls) (omega arith)
  | inr (f, e) ↦
      let one = Asks-le f.ptr t (exec_call t f c).0 (exec_call-Asks t f c) (omega arith) in
      let more = run_calls_counter p cs (exec_call t f c).0 (omega (arith, one)) in
      rw (e, run_calls)
        (elim (Bool-cases (exec_call t f c).1) [
          | inl stops ↦ rw stops (omega (arith, one))
          | inr goes ↦ rw goes (omega (arith, one, more))
        ])
]

pub resume_counter :
    (p : Ptr) (b : Burst) (t : Thread)
    → t.next_req_id + length b.calls < 2 ^ 32
    → (resume p b t).next_req_id ≤ t.next_req_id + length b.calls
unfolding resume switch_to clear_waits
resume_counter p b t room =
    let u : Thread = on_module (λ m. record m { current = some p }) (on_fiber p clear_waits t) in
    elim (Option-cases (find_fiber p u.fibers)) [
      | inl e ↦ rw (e, switch_to) (omega arith)
      | inr (f, e) ↦
          let more =
            run_calls_counter p b.calls (on_fiber p (λ _. (come_back b.allocs f).0) u) room in
          rw (e, switch_to)
            (elim (Bool-cases (come_back b.allocs f).1) [
              | inl stops ↦ rw stops (omega arith)
              | inr goes ↦ rw goes more
            ])
    ]
