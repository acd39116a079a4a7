-- ===== src/Program.antt =====
-- The code of a sequence as a program: what a C or C++ function that is registered as a sequence does
-- with its `coseq_if_t *`, from one call of coseq/coseq_if.h to the next.
--
-- The code is a tree: a library call goes on by what the call returns, and may never come to the next
-- one. `G` is the data of the process that the code reads and writes (its static variables). A run
-- goes from one resumption to the next stop; it says which calls the code made, and where it stands
-- then. The clock and the outcomes of allocations that the calls meet are an input (`Env`).
pub mod Laws
pub mod Host
pub mod Wakes
pub mod Rounds
pub mod Steps
use coseq.Base.{ℕ, suc, Bool, List, [], ◌∷◌, ◌++◌, Option, none, some, length, if◌then◌else◌}
use coseq.Time.{Timespec}
use coseq.Types.{Alloc, Bytes, Fiber, Point, Ptr, Rslt, Src, Thread}
use coseq.Fibers.{find_fiber}
use coseq.Thread.{on_module, on_fiber}
use coseq.Request.{coseq_request_async}
use coseq.Gather.{
  Taken, nothing, parked, got, wait_reply, woken, Gathered, coseq_gather, gather_resume,
}
use coseq.Notify.{coseq_reg_notify, coseq_unreg_notify, coseq_notify}
use coseq.Sequence.{Call, exec_call, finish, is_waiting, come_back, clear_waits}

-- The calls, without what they meet.
pub data Op : Type 0 where
  request : ℕ → ℕ → Bytes → Op
  request_timeout : ℕ → ℕ → Bytes → ℕ → Op
  request_async : ℕ → ℕ → Bytes → Op
  send : ℕ → ℕ → Bytes → Op
  reply : Rslt → Bytes → Op
  wait_timeout : ℕ → Op
  wait_one gather : Op
  reg_notify : ℕ → Op
  unreg_notify : ℕ → ℕ → Op
  notify : ℕ → Bytes → Op
  lock unlock : Op

-- What a call returns; of a gather, the sources that its callback was given. A pointer to the source
-- is what it points to: all code here reads it before its next call.
abbrev pub Answer : Op → Type 0
Answer (Op.request _ _ _) = Src
Answer (Op.request_timeout _ _ _ _) = Src
Answer (Op.request_async _ _ _) = ℕ
Answer Op.wait_one = Option Src
Answer Op.gather = List Src
Answer (Op.reg_notify _) = Option ℕ
Answer (Op.unreg_notify _ _) = Bool
Answer (Op.notify _ _) = Bool
Answer _ = Unit

-- `reads` is an accessor of the fiber (`coseq_source`, `coseq_self_seq_name`), `fails` an assertion
-- that does not hold.
pub data Program (G : Type 0) : Type 0 where
  returns fails : Program G
  call : (o : Op) → (Answer o → Program G) → Program G
  reads : (Fiber → Program G) → Program G
  looks : (G → Program G) → Program G
  writes : (G → G) → Program G → Program G

-- Where the code of a fiber stands between two runs: before its start, or in a call that waits. In a
-- gather, the replies that it has been given are kept.
pub data Rest (G : Type 0) : Type 0 where
  entry : Program G → Rest G
  in_request : (Src → Program G) → Rest G
  in_wait_timeout : Program G → Rest G
  in_wait_reply : (Option Src → Program G) → Rest G
  in_gather : List Src → (List Src → Program G) → Rest G

-- `aborted`: an assertion does not hold, or the fiber is not there.
pub data End (G : Type 0) : Type 0 where
  returned aborted : End G
  stopped : Rest G → End G

pub record Ran (G : Type 0) : Type 0 where
  pub thread : Thread
  pub globals : G
  pub calls : List Call
  pub end : End G

-- What one call meets; `allocs` for the loops of a gather and of a notification.
pub record Env : Type 0 where
  pub now : Timespec
  pub alloc : Alloc
  pub allocs : ℕ → Alloc

unfoldable pub call_of : Env → Op → Call
call_of v (Op.request mi si msg) = Call.request v.alloc mi si msg
call_of v (Op.request_timeout mi si msg ms) = Call.request_timeout v.alloc v.now mi si msg ms
call_of v (Op.request_async mi si msg) = Call.request_async v.alloc mi si msg
call_of v (Op.send mi si msg) = Call.send v.alloc mi si msg
call_of v (Op.reply r msg) = Call.reply v.alloc r msg
call_of v (Op.wait_timeout ms) = Call.wait_timeout v.now ms
call_of v Op.wait_one = Call.wait_one v.alloc
call_of v Op.gather = Call.gather v.allocs
call_of v (Op.reg_notify category) = Call.reg_notify v.alloc category
call_of v (Op.unreg_notify category id) = Call.unreg_notify category id
call_of v (Op.notify category msg) = Call.notify v.allocs category msg
call_of v Op.lock = Call.lock
call_of v Op.unlock = Call.unlock

-- How a run goes on after a call: with its answer, or not before the next resumption.
pub data Next (G : Type 0) (A : Type 0) : Type 0 where
  goes : A → Next G A
  stops : Rest G → Next G A

abbrev pub after_wait : {G : Type 0} → (Option Src → Program G) → Taken → Next G (Option Src)
after_wait k nothing = goes none
after_wait k parked = stops (in_wait_reply k)
after_wait k (got s) = goes (some s)

abbrev after_gather : {G : Type 0} → (List Src → Program G) → Gathered → Next G (List Src)
after_gather k g = if is_waiting g.end then stops (in_gather g.replies k) else goes g.replies

unfoldable pub after_call :
    {G : Type 0} → Env → Thread → Fiber → (o : Op) → (Answer o → Program G) → Next G (Answer o)
after_call v t f (Op.request mi si msg) k = stops (in_request k)
after_call v t f (Op.request_timeout mi si msg ms) k = stops (in_request k)
after_call v t f (Op.request_async mi si msg) k = goes (coseq_request_async v.alloc t f mi si msg).1
after_call v t f (Op.send mi si msg) k = goes tt
after_call v t f (Op.reply r msg) k = goes tt
after_call v t f (Op.wait_timeout ms) k = stops (in_wait_timeout (k tt))
after_call v t f Op.wait_one k = after_wait k (wait_reply v.alloc Point.waiting_one f).1
after_call v t f Op.gather k = after_gather k (coseq_gather v.allocs f)
after_call v t f (Op.reg_notify category) k = goes (coseq_reg_notify v.alloc t f category).1
after_call v t f (Op.unreg_notify category id) k = goes (coseq_unreg_notify t category id).1
after_call v t f (Op.notify category msg) k = goes (coseq_notify v.allocs t category msg).1
after_call v t f Op.lock k = goes tt
after_call v t f Op.unlock k = goes tt

unfoldable pub go_on : {G A : Type 0} → (A → Ran G) → G → Thread → Call → Next G A → Ran G
go_on again g t c (goes a) = let r = again a in record r { calls = c ∷ r.calls }
go_on again g t c (stops rest) = record {
  thread = t;
  globals = g;
  calls = c ∷ [];
  end = stopped rest;
}

-- The code on fiber `p`; its i-th call meets `envs i`.
unfoldable pub run : {G : Type 0} → Ptr → (ℕ → Env) → Program G → G → Thread → Ran G
unfolding go_on after_call
run p envs returns g t = record { thread = finish p t; globals = g; calls = []; end = returned }
run p envs fails g t = record { thread = t; globals = g; calls = []; end = aborted }
run p envs (call o k) g t = elim (find_fiber p t.fibers) [
  | none ↦ record { thread = t; globals = g; calls = []; end = aborted }
  | some f ↦
      let t' = (exec_call t f (call_of (envs 0) o)).0 in
      go_on (λ a. run p (λ i. envs (suc i)) (k a) g t') g t' (call_of (envs 0) o)
        (after_call (envs 0) t f o k)
]
run p envs (reads k) g t = elim (find_fiber p t.fibers) [
  | none ↦ record { thread = t; globals = g; calls = []; end = aborted }
  | some f ↦ run p envs (k f) g t
]
run p envs (looks k) g t = run p envs (k g) g t
run p envs (writes h k) g t = run p envs k (h g) t

-- The rest of the call in which the code had stopped: with what it goes on. `f` is the fiber as the
-- resumption finds it.
unfoldable pub continue_with : {G : Type 0} → (ℕ → Alloc) → Fiber → Rest G → Program G
unfolding woken
continue_with allocs f (entry k) = k
continue_with allocs f (in_request k) = k f.src
continue_with allocs f (in_wait_timeout k) = k
continue_with allocs f (in_wait_reply k) = k (some (woken f).src)
continue_with allocs f (in_gather had k) = k (had ++ (gather_resume allocs (length had) f).replies)

-- And where it stands if that call waits again.
unfoldable pub wait_on : {G : Type 0} → (ℕ → Alloc) → Fiber → Rest G → Rest G
wait_on allocs f (in_gather had k) =
    in_gather (had ++ (gather_resume allocs (length had) f).replies) k
wait_on allocs f rest = rest

-- `switch_to` and `resume` on a fiber whose code stands at `rest`.
unfoldable pub switch_to_code :
    {G : Type 0} → Ptr → (ℕ → Alloc) → (ℕ → Env) → Rest G → G → Thread → Ran G
unfolding run continue_with wait_on come_back
switch_to_code p allocs envs rest g t = elim (find_fiber p t.fibers) [
  | none ↦ record { thread = t; globals = g; calls = []; end = aborted }
  | some f ↦
      let back = come_back allocs f in
      let returned = on_fiber p (λ _. back.0) t in
      let ran = run p envs (continue_with allocs f rest) g returned in
      if back.1
      then record {
        thread = returned;
        globals = g;
        calls = [];
        end = stopped (wait_on allocs f rest);
      }
      else ran
]

unfoldable pub resume_code :
    {G : Type 0} → Ptr → (ℕ → Alloc) → (ℕ → Env) → Rest G → G → Thread → Ran G
unfolding switch_to_code clear_waits
resume_code p allocs envs rest g t =
    let cleared = on_fiber p clear_waits t in
    let ran =
      switch_to_code p allocs envs rest g
        (on_module (λ m. record m { current = some p }) cleared) in
    record ran { thread = on_module (λ m. record m { current = none }) ran.thread }
