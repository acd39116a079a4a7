-- ===== src/Samples/Register.antt =====
-- `module_c::regist` of testpp/main.cpp: what a module, and what a thread outside, gets for a registration.
use coseq.Base.{
  ℕ, suc, ◌≡◌, refl, ap, ◌∙◌, [], ◌∷◌, ◌++◌, Option, none, some, arith, pos, if◌then◌else◌, Bool,
  not, ◌&&◌, true,
}
use coseq.Types.{Bytes, Effect, EvType, Fiber, NotifyClient, Ptr, Rslt, Thread}
use coseq.Event.{make_ev}
use coseq.Fibers.{find_fiber}
use coseq.Request.{coseq_reply, is_external}
use coseq.Notify.{fresh_client_id, coseq_reg_notify}
use coseq.Sequence.{exec_call, finish}
use coseq.Program.{Op, Env, Ran, call_of, after_call, run}
use coseq.Program.Steps.{run-goes}
use coseq.Samples.Replies.{run-reply_and_return}
use coseq.Samples.Suite.{Globals, regist, registered, cat}

module _ (p : Ptr) (envs : ℕ → Env) (g : Globals) (t : Thread) (f : Fiber)
    (here : find_fiber p t.fibers ≡ some f) where
  abbrev pub new_id : ℕ
  new_id = fresh_client_id t.next_client_id

  -- Whether the registration is made.
  abbrev pub result_of : Option ℕ → Rslt
  result_of none = Rslt.error
  result_of (some id) = Rslt.success

  abbrev pub bytes_of : Option ℕ → Bytes
  bytes_of none = []
  bytes_of (some id) = id ∷ []

  run-registered :
      (v : ℕ → Env) (u : Thread) (id : Option ℕ)
      → find_fiber p u.fibers ≡ some f
      → (run p v (registered id) g u).thread
        ≡ finish p (coseq_reply (v 0).alloc u f (result_of id) (bytes_of id))
  run-registered v u none there =
      ap (λ (r : Ran Globals). r.thread) (run-reply_and_return p v g u f there Rslt.error [])
  run-registered v u (some id) there =
      ap (λ (r : Ran Globals). r.thread)
        (run-reply_and_return p v g u f there Rslt.success (id ∷ []))

  run-regist :
      let (u, id) = coseq_reg_notify (envs 0).alloc t f cat in
      find_fiber p u.fibers ≡ some f
      → (run p envs regist g t).thread
        ≡ finish p (coseq_reply (envs 1).alloc u f (result_of id) (bytes_of id))
  unfolding regist run call_of after_call exec_call
  run-regist there =
      let (u, id) = coseq_reg_notify (envs 0).alloc t f cat in
      ap (λ (r : Ran Globals). r.thread)
        (run-goes p envs g t f here (Op.reg_notify cat) registered id refl)
      ∙ run-registered (λ i. envs (suc i)) u id there

  same_fibers : (coseq_reg_notify (envs 0).alloc t f cat).0.fibers ≡ t.fibers
  unfolding coseq_reg_notify
  same_fibers = ground arith

  abbrev pub is_made : Bool
  is_made = not (is_external f.reply_to) && (envs 0).alloc.client

  -- The answer, to whom it goes.
  abbrev pub answer_to : Rslt → Bytes → Effect
  answer_to r msg =
      if is_external f.reply_to
      then Effect.deliver f.reply_req_id r msg
      else Effect.post_to f.reply_to (
          some (record {
            type = EvType.reply;
            seq_idx = 0;
            req_id = f.reply_req_id;
            requester = pos t.idx;
            result = r;
            category = 0;
            client_id = 0;
            msg = msg;
          }))

  abbrev pub client_of : ℕ → NotifyClient
  client_of id = record { category = cat; listener_module = f.reply_to; client_id = id }

  -- A call of `regist`, given memory for the answer, is answered. A module that asks, given memory for the
  -- entry, gets an id, the one byte of a reply that says success, and stands first among the listeners with that id. Anyone else, threads that
  -- are no modules above all, gets an error without a message, and the listeners are as they were.
  pub regist_answers :
      (envs 1).alloc.event ≡ true
      → (envs 1).alloc.event_msg ≡ true
      → let u = (run p envs regist g t).thread in
        (u.out
          ≡ t.out
            ++ (if is_made then answer_to Rslt.success (new_id ∷ []) else answer_to Rslt.error [])
              ∷ [])
        × (u.notify_clients
            ≡ (if is_made then client_of new_id ∷ t.notify_clients else t.notify_clients))
  unfolding coseq_reg_notify coseq_reply finish fresh_client_id make_ev
  regist_answers made copied =
      let there = ap (find_fiber p) same_fibers ∙ here in
      (
        ap (λ (u : Thread). u.out) (run-regist there) ∙ ground arith,
        ap (λ (u : Thread). u.notify_clients) (run-regist there) ∙ ground arith,
      )
