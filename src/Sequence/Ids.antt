-- ===== src/Sequence/Ids.antt =====
-- The ids of the requests of a module that wait for a reply: as long as the 32-bit counter does not
-- wrap, no two are the same.
use coseq.Base.{
  ℕ, ◌+◌, ◌^◌, ◌≤◌, ◌<◌, ◌≡◌, refl, sym, List, [], ◌∷◌, none, some, arith, Bool-cases, Option-cases,
  inl, inr, All, length, u32,
}
use mathlib.Core.Path.{subst}
use coseq.Types.{Fiber, Pending, Ptr, Thread}
use coseq.Waiting.{peek, unlink}
use coseq.Fibers.{find_fiber}
use coseq.Thread.{on_module, on_fiber}
use coseq.Request.{
  coseq_request, coseq_request_timeout, coseq_request_async, coseq_send, coseq_reply,
  coseq_wait_timeout,
}
use coseq.Notify.{coseq_reg_notify, coseq_unreg_notify, coseq_notify}
use coseq.Lock.{coseq_lock, coseq_unlock}
use coseq.Sequence.{
  Call, Burst, exec_call, finish, run_calls, clear_waits, come_back, switch_to, resume,
}

-- The entries have different ids, all below `next`; the last added has the highest.
abbrev pub IsBelow : ℕ → List Pending → Type 0
IsBelow next ps = All (λ e. e.req_id < next) ps

abbrev pub AreDistinct : List Pending → Type 0
AreDistinct [] = Unit
AreDistinct (e ∷ ps) = (peek e.req_id ps ≡ none) × AreDistinct ps

pub record HasOwnIds (t : Thread) : Type 0 where
  pub below : IsBelow t.next_req_id t.pending
  pub distinct : AreDistinct t.pending

IsBelow-le : (n k : ℕ) (ps : List Pending) → n ≤ k → IsBelow n ps → IsBelow k ps
IsBelow-le n k [] le h = tt
IsBelow-le n k (e ∷ ps) le h = (omega (arith, h.0), IsBelow-le n k ps le h.1)

peek-IsBelow : (n : ℕ) (ps : List Pending) → IsBelow n ps → peek n ps ≡ none
unfolding peek
peek-IsBelow n [] h = refl
peek-IsBelow n (e ∷ ps) h = ground (arith, peek-IsBelow n ps h.1)

-- The counter and the entries after a call: both as they were, or one step on, with an entry for the
-- id that was taken or without memory for it.
pub data Asks (p : Ptr) (t t' : Thread) : Type 0 where
  silent : t'.next_req_id ≡ t.next_req_id → t'.pending ≡ t.pending → Asks p t t'
  sends : t'.next_req_id ≡ u32 (t.next_req_id + 1) → t'.pending ≡ t.pending → Asks p t t'
  awaits :
      t'.next_req_id ≡ u32 (t.next_req_id + 1)
      → t'.pending ≡ record { req_id = t.next_req_id; f = p } ∷ t.pending
      → Asks p t t'

pub exec_call-Asks : (t : Thread) (f : Fiber) (c : Call) → Asks f.ptr t (exec_call t f c).0
unfolding exec_call coseq_request coseq_request_timeout coseq_request_async coseq_send coseq_reply
    coseq_wait_timeout coseq_reg_notify coseq_unreg_notify coseq_notify coseq_lock coseq_unlock
exec_call-Asks t f (Call.request a mi si msg) = elim (Bool-cases a.entry) [
  | inl ok ↦ awaits refl (rw ok)
  | inr fail ↦ sends refl (rw fail)
]
exec_call-Asks t f (Call.request_timeout a now mi si msg ms) = elim (Bool-cases a.entry) [
  | inl ok ↦ awaits refl (rw ok)
  | inr fail ↦ sends refl (rw fail)
]
exec_call-Asks t f (Call.request_async a mi si msg) = elim (Bool-cases a.entry) [
  | inl ok ↦ awaits refl (rw ok)
  | inr fail ↦ sends refl (rw fail)
]
exec_call-Asks t f (Call.send a mi si msg) = sends refl refl
exec_call-Asks t f c = silent (ground arith) (ground arith)

same-HasOwnIds :
    (t t' : Thread)
    → t.next_req_id ≤ t'.next_req_id
    → t'.pending ≡ t.pending
    → HasOwnIds t
    → HasOwnIds t'
same-HasOwnIds t t' le e h = record {
  below =
      subst (IsBelow t'.next_req_id) (sym e)
        (IsBelow-le t.next_req_id t'.next_req_id t.pending le h.below);
  distinct = subst AreDistinct (sym e) h.distinct;
}

pub Asks-HasOwnIds :
    (p : Ptr) (t t' : Thread)
    → Asks p t t'
    → t.next_req_id + 1 < 2 ^ 32
    → HasOwnIds t
    → HasOwnIds t' × (t'.next_req_id ≤ t.next_req_id + 1)
Asks-HasOwnIds p t t' (silent e k) room h = (same-HasOwnIds t t' (omega arith) k h, omega arith)
Asks-HasOwnIds p t t' (sends e k) room h = (same-HasOwnIds t t' (omega arith) k h, omega arith)
Asks-HasOwnIds p t t' (awaits e k) room h = (
  record {
    below =
        subst (IsBelow t'.next_req_id) (sym k)
          (omega arith, IsBelow-le t.next_req_id t'.next_req_id t.pending (omega arith) h.below);
    distinct = subst AreDistinct (sym k) (peek-IsBelow t.next_req_id t.pending h.below, h.distinct);
  },
  omega arith,
)

run_calls-HasOwnIds :
    (p : Ptr) (cs : List Call) (t : Thread)
    → t.next_req_id + length cs < 2 ^ 32
    → HasOwnIds t
    → HasOwnIds (run_calls p cs t)
unfolding run_calls finish
run_calls-HasOwnIds p [] t room h = record { below = h.below; distinct = h.distinct }
run_calls-HasOwnIds p (c ∷ cs) t room h = elim (Option-cases (find_fiber p t.fibers)) [
  | inl e ↦ rw (e, run_calls) h
  | inr (f, e) ↦
      let one = Asks-HasOwnIds f.ptr t (exec_call t f c).0 (exec_call-Asks t f c) (omega arith) h in
      let more = run_calls-HasOwnIds p cs (exec_call t f c).0 (omega (arith, one.1)) one.0 in
      rw (e, run_calls)
        (elim (Bool-cases (exec_call t f c).1) [
          | inl stops ↦ rw stops one.0
          | inr goes ↦ rw goes more
        ])
]

switch_to-HasOwnIds :
    (p : Ptr) (b : Burst) (t : Thread)
    → t.next_req_id + length b.calls < 2 ^ 32
    → HasOwnIds t
    → HasOwnIds (switch_to p b t)
unfolding switch_to
switch_to-HasOwnIds p b t room h = elim (Option-cases (find_fiber p t.fibers)) [
  | inl e ↦ rw (e, switch_to) h
  | inr (f, e) ↦
      let returned : Thread = on_fiber p (λ _. (come_back b.allocs f).0) t in
      let one : HasOwnIds returned = record { below = h.below; distinct = h.distinct } in
      let more = run_calls-HasOwnIds p b.calls returned room one in
      rw (e, switch_to)
        (elim (Bool-cases (come_back b.allocs f).1) [
          | inl stops ↦ rw stops one
          | inr goes ↦ rw goes more
        ])
]

-- If no two waiting requests of the module have the same id, and all ids are below the counter, then
-- this still holds after a fiber has run, whatever it called, as long as it makes too few calls for
-- the 32-bit counter to wrap.
pub resume-HasOwnIds :
    (p : Ptr) (b : Burst) (t : Thread)
    → t.next_req_id + length b.calls < 2 ^ 32
    → HasOwnIds t
    → HasOwnIds (resume p b t)
unfolding resume
resume-HasOwnIds p b t room h =
    let u : Thread = on_module (λ m. record m { current = some p }) (on_fiber p clear_waits t) in
    let ran = switch_to-HasOwnIds p b u room (record { below = h.below; distinct = h.distinct }) in
    record { below = ran.below; distinct = ran.distinct }

-- Where ids are distinct, an id that is taken finds no other entry.
pub peek-unlink-none : (id : ℕ) (ps : List Pending) → AreDistinct ps → peek id (unlink id ps) ≡ none
unfolding peek unlink
peek-unlink-none id [] h = refl
peek-unlink-none id (e ∷ ps) h = ground (arith, peek-unlink-none id ps h.1)

pub IsBelow-unlink : (n id : ℕ) (ps : List Pending) → IsBelow n ps → IsBelow n (unlink id ps)
unfolding unlink
IsBelow-unlink n id [] h = tt
IsBelow-unlink n id (e ∷ ps) h = ground (arith, IsBelow-unlink n id ps h.1)

-- What finds nothing finds nothing among fewer.
peek-unlink : (id id' : ℕ) (ps : List Pending) → peek id' ps ≡ none → peek id' (unlink id ps) ≡ none
unfolding peek unlink
peek-unlink id id' [] h = refl
peek-unlink id id' (e ∷ ps) h = ground (arith, peek-unlink id id' ps)

pub AreDistinct-unlink : (id : ℕ) (ps : List Pending) → AreDistinct ps → AreDistinct (unlink id ps)
unfolding unlink
AreDistinct-unlink id [] h = tt
AreDistinct-unlink id (e ∷ ps) h =
    ground (arith, AreDistinct-unlink id ps h.1, peek-unlink id e.req_id ps h.0)
