-- ===== src/Samples/Locking.antt =====
-- The tests of the lock of testpp/main.cpp (7 and 8): what `lock_seq` and `nolock_seq` leave in `g_log` when
-- other requests come while they wait.
use coseq.Base.{ℕ, ◌<◌, ◌≡◌, refl, ap, ◌∙◌, [], ◌∷◌, Option, none, some, true, arith, ==_refl}
use mathlib.Core.Path.{subst}
use coseq.Types.{Alloc, Bytes, Ev, EvType, Fiber, Point, Ptr, Rslt, Src, Thread}
use coseq.Waiting.{peek, pending_add}
use coseq.Fibers.{find_fiber, modify_fiber}
use coseq.Fibers.Laws.{find_fiber-write}
use coseq.Thread.{on_module}
use coseq.Request.{coseq_request, request_common, post_start, arm_timer}
use coseq.Sequence.{Call, exec_call}
use coseq.Program.{Op, call, in_request, stopped, call_of, after_call, Rest, Env, Ran, run}
use coseq.Program.Host.{Host, Meets, Played, after_run, play_event, store_rest}
use coseq.Program.Steps.{run-stops, handed_back}
use coseq.Wrapper.Manager.{Objects, new_module, set_sequences}
use coseq.Samples.{reply_and_return}
use coseq.Samples.Methods.{sequence}
use coseq.Samples.Suite.{
  Code, Globals, nolock_seq, mod_b, b_slow_idx, open_mark, close_mark, log_mark,
}
use coseq.Samples.SuiteModules.{module_a, methods_a}
use coseq.Samples.Starting.{
  IsModuleA, code_a, first_fiber, first_thread, first_finds, first_fiber-ptr, play_method,
}

-- What is left of the two sequences once B has replied.
abbrev pub closing : Code
closing = log_mark close_mark (reply_and_return Rslt.success [])

abbrev pub rest_locked : Src → Code
rest_locked _ = call Op.unlock λ _. closing

-- Fiber `p` of module A waits for the reply to request `id`, after which `k` follows; `log` is what
-- the process has logged.
pub record Logged (p id : ℕ) (lock : Option Ptr) (k : Src → Code) (log : Bytes) (h : Host Globals)
    : Type 0 where
  pub fiber : Fiber
  pub there : find_fiber p h.thread.fibers ≡ some fiber
  pub asks : fiber.waiting_reply ≡ true
  pub asks_id : fiber.wait_req_id ≡ id
  pub at : fiber.ctx ≡ Point.requesting
  pub known : peek id h.thread.pending ≡ some p
  pub holds : h.thread.locked_by ≡ lock
  pub stands : h.rests p ≡ in_request k
  pub logs : h.globals.log ≡ log
  pub below : p < h.thread.next_ptr

module _ (p : Ptr) (envs : ℕ → Env) (g : Globals) (t : Thread) (f : Fiber)
    (here : find_fiber p t.fibers ≡ some f) where
  run-nolock_seq : run p envs nolock_seq g t ≡ record {
    thread = coseq_request (envs 0).alloc t f mod_b b_slow_idx [];
    globals = record g { log = open_mark ∷ [] };
    calls = Call.request (envs 0).alloc mod_b b_slow_idx [] ∷ [];
    end = stopped (in_request (λ _. closing));
  }
  unfolding nolock_seq run call_of after_call exec_call
  run-nolock_seq =
      run-stops p envs (record g { log = open_mark ∷ [] }) t f here (Op.request mod_b b_slow_idx [])
        (λ _. closing) (in_request (λ _. closing)) refl

-- Fiber `p`, which has logged "[", asks B.
requested :
    (p : Ptr) (a : Alloc) (u : Thread) (f : Fiber) (g : Globals) (rests : Ptr → Rest Globals)
    (k : Src → Code)
    → find_fiber p u.fibers ≡ some f
    → f.ptr ≡ p
    → a.entry ≡ true
    → p < u.next_ptr
    → Logged p u.next_req_id u.locked_by k (open_mark ∷ []) (record {
      thread =
          on_module (λ m. record m { current = none }) (coseq_request a u f mod_b b_slow_idx []);
      globals = record g { log = open_mark ∷ [] };
      rests = store_rest p (stopped (in_request k)) rests;
    })
unfolding coseq_request request_common post_start pending_add arm_timer peek store_rest
requested p a u f g rests k here same memory below = record {
  fiber = record f { waiting_reply = true; wait_req_id = u.next_req_id; ctx = Point.requesting };
  there =
      ap (λ q. find_fiber p (modify_fiber q asking u.fibers)) same
      ∙ find_fiber-write p asking u.fibers f (λ g h. h) here;
  asks = refl;
  asks_id = refl;
  at = refl;
  known = rw memory (rw (==_refl u.next_req_id) (ap some same));
  holds = refl;
  stands = rw (==_refl p) refl;
  logs = refl;
  below = below;
}
  where
    asking : Fiber → Fiber
    asking f = record f {
      waiting_reply = true;
      wait_req_id = u.next_req_id;
      ctx = Point.requesting;
    }

module _ (objs : Objects) (mb : Ptr) (name : Bytes) (que_max : ℕ)
    (object : objs mb ≡ module_a name que_max) where
  -- Memory for a new fiber, and for an entry in the table of requests.
  abbrev pub HasMemory : Meets → Type 0
  HasMemory w =
      (w.alloc.fiber ≡ true)
      × (w.alloc.stack ≡ true)
      × (w.alloc.context ≡ true)
      × ((i : ℕ) → (w.envs i).alloc.entry ≡ true)

  -- A START event for a sequence that begins as both do.
  abbrev pub Begins : Meets → Ev → Host Globals → Option Ptr → (Src → Code) → Type 0
  Begins w e h lock k =
      (r : Played Globals) × (play_event (code_a objs mb name que_max object) w e h ≡ some r)
      × Logged h.thread.next_ptr h.thread.next_req_id lock k (open_mark ∷ []) r.host
      × (r.host.thread.deferred ≡ h.thread.deferred)
      × IsModuleA name que_max r.host.thread

  module _ (w : Meets) (e : Ev) (h : Host Globals) (is : IsModuleA name que_max h.thread)
      (type : e.type ≡ EvType.start) (free : h.thread.locked_by ≡ none) (memory : HasMemory w) where
    abbrev began : Ran Globals → Played Globals
    began r = record {
      host = record {
        thread = on_module (λ m. record m { current = none }) r.thread;
        globals = r.globals;
        rests = store_rest h.thread.next_ptr r.end h.rests;
      };
      turn = record { alloc = w.alloc; burst = record { allocs = w.allocs; calls = r.calls } };
    }

    waits_now : Fiber → Thread → Host Globals
    waits_now f t = record {
      thread =
          on_module (λ m. record m { current = none })
            (coseq_request (w.envs 0).alloc t f mod_b b_slow_idx []);
      globals = record h.globals { log = open_mark ∷ [] };
      rests = store_rest h.thread.next_ptr (stopped (in_request (λ _. closing))) h.rests;
    }

    pub nolock_seq-Begins : e.seq_idx ≡ 7 → Begins w e h none (λ _. closing)
    unfolding waits_now module_a new_module set_sequences methods_a coseq_request request_common
        post_start pending_add
    nolock_seq-Begins which =
        let s = sequence 7 "nolock" in
        let f = first_fiber objs mb name que_max object w e h s in
        let t = first_thread objs mb name que_max object w e h s in
        let here = first_finds objs mb name que_max object w e h s in
        (
          began (record {
            thread = coseq_request (w.envs 0).alloc t f mod_b b_slow_idx [];
            globals = record h.globals { log = open_mark ∷ [] };
            calls = Call.request (w.envs 0).alloc mod_b b_slow_idx [] ∷ [];
            end = stopped (in_request (λ _. closing));
          }),
          play_method objs mb name que_max object w e h s is type (omega (arith, which))
                (rw which refl) free memory.0 memory.1 memory.2
              ∙ ap (λ r. after_run w h.thread.next_ptr h.rests (handed_back r))
                  (run-nolock_seq h.thread.next_ptr w.envs h.globals t f here),
          subst
              (λ l.
                Logged h.thread.next_ptr h.thread.next_req_id l (λ _. closing) (open_mark ∷ [])
                  (waits_now f t))
              free
              (requested h.thread.next_ptr (w.envs 0).alloc t f h.globals h.rests (λ _. closing)
                here (first_fiber-ptr objs mb name que_max object w e h s) (memory.3 0)
                (omega arith)),
          refl,
          record { seqs = is.seqs; nr_seq = is.nr_seq },
        )
