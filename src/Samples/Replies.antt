-- ===== src/Samples/Replies.antt =====
-- The end of almost every sequence of the samples and tests: a reply, and the return.
use coseq.Base.{ℕ, ◌≡◌, refl, ◌∷◌, [], some, List, ◌∙◌}
use coseq.Types.{Bytes, Fiber, Ptr, Rslt, Thread}
use coseq.Fibers.{find_fiber}
use coseq.Request.{coseq_reply}
use coseq.Sequence.{Call, exec_call, finish}
use coseq.Program.{Op, Program, Env, Ran, call_of, after_call, returned, run, returns}
use coseq.Program.Laws.{run-reads}
use coseq.Program.Steps.{run-goes}
use coseq.Request.{coseq_self_seq}
use coseq.Wrapper.Manager.{Objects, seq_wrapper_fn, dispatch_seq}
use coseq.Samples.{reply_and_return}
use coseq.Samples.Methods.{object_code, method}

module _ {G : Type 0} (p : Ptr) (envs : ℕ → Env) (g : G) (t : Thread) (f : Fiber)
    (here : find_fiber p t.fibers ≡ some f) where
  abbrev pub replied_with : Rslt → Bytes → Ran G
  replied_with r msg = record {
    thread = finish p (coseq_reply (envs 0).alloc t f r msg);
    globals = g;
    calls = Call.reply (envs 0).alloc r msg ∷ [];
    end = returned;
  }

  pub run-reply_and_return :
      (r : Rslt) (msg : Bytes) → run p envs (reply_and_return r msg) g t ≡ replied_with r msg
  unfolding run call_of after_call exec_call
  run-reply_and_return r msg = run-goes p envs g t f here (Op.reply r msg) (λ _. returns) tt refl

  -- The wrapper function of an object runs the method that its table names.
  pub run-object_code :
      (objs : Objects) (mb : Ptr) (methods : List (Program G)) (i : ℕ)
      → dispatch_seq objs mb f.seq_idx ≡ some i
      → run p envs (object_code objs mb methods seq_wrapper_fn) g t
        ≡ run p envs (method methods i) g t
  unfolding object_code coseq_self_seq
  run-object_code objs mb methods i e = run-reads p envs g t _ f here ∙ rw e refl
