-- ===== src/Samples/Exclusion.antt =====
-- What `g_log` of testpp/main.cpp holds when B has replied to `lock_seq` and to `nolock_seq`.
use coseq.Base.{
  ℕ, suc, ◌≡◌, refl, ap, ◌∙◌, List, [], ◌∷◌, ◌++◌, Option, none, some, true, false, arith, ◌==◌,
  ==_refl, inl,
}
use coseq.Types.{Alloc, Bytes, Ev, EvType, Fiber, Ptr, Rslt, Src, Thread}
use coseq.Event.{defer_ev}
use coseq.Waiting.{peek, pending_peek, pending_take}
use coseq.Fibers.{find_fiber, set_src}
use coseq.Fibers.Laws.{find_fiber-ptr}
use coseq.Thread.{on_module}
use coseq.Request.{coseq_reply}
use coseq.Lock.{is_holder, coseq_unlock}
use coseq.Sequence.{Call, exec_call, finish, clear_waits, come_back, come_back_at}
use coseq.Scheduler.{must_defer, source_of_reply}
use coseq.Program.{Op, in_request, call_of, after_call, Env, Ran, run, continue_with, End, returned}
use coseq.Program.Host.{
  Host, Meets, Played, store_rest, idles, after_run, play, play_event, wake_event,
}
use coseq.Program.Steps.{
  run-goes, handed_back, going, going_finds, Awaits, replied, replied_in, replied_finds, play_reply,
}
use coseq.Samples.Replies.{replied_with, run-reply_and_return}
use coseq.Samples.Suite.{Code, Globals, close_mark}
use coseq.Samples.Starting.{IsModuleA}
use coseq.Samples.Locking.{closing, rest_locked, Logged}

-- A reply changes nothing in its own module.
pub coseq_reply-m :
    (a : Alloc) (t : Thread) (f : Fiber) (r : Rslt) (msg : Bytes)
    → (coseq_reply a t f r msg).m ≡ t.m
unfolding coseq_reply
coseq_reply-m a t f r msg = ground arith

-- The end of a sequence of the test, whose log is `log`, with `late` put off.
pub record Closed (name : Bytes) (que_max : ℕ) (log : Bytes) (late : List Ev) (h : Host Globals)
    : Type 0 where
  pub logs : h.globals.log ≡ log
  pub free : h.thread.locked_by ≡ none
  pub deferred : h.thread.deferred ≡ late
  pub is : IsModuleA name que_max h.thread

unlock_opens :
    (t : Thread) (f : Fiber) (p : Ptr)
    → f.ptr ≡ p
    → t.locked_by ≡ some p
    → coseq_unlock t f ≡ on_module (λ m. record m { locked_by = none }) t
unfolding coseq_unlock
unlock_opens t f p same held =
    let holder : is_holder f.ptr t.locked_by ≡ true =
      ap (λ o. is_holder f.ptr o) held ∙ ap (λ q. p == q) same ∙ ==_refl p in
    rw holder refl

-- After `coseq_unlock`.
abbrev cons_unlock : Ran Globals → Ran Globals
cons_unlock r = record r { calls = Call.unlock ∷ r.calls }

module _ (code : ℕ → Code) (w : Meets) (e : Ev) (h : Host Globals) where
  -- Under the lock of another fiber a START event is put off.
  pub defers :
      (p : Ptr)
      → e.type ≡ EvType.start
      → h.thread.locked_by ≡ some p
      → play_event code w e h ≡ play code w h (idles (on_module (λ m. defer_ev m e) h.thread))
  unfolding play_event wake_event must_defer
  defers p type held =
      let off : must_defer h.thread.m e ≡ true = rw (held, type) refl in rw (off, play_event) refl

  module _ (p id : ℕ) (lock : Option Ptr) (k : Src → Code) (log : Bytes)
      (l : Logged p id lock k log h) (type : e.type ≡ EvType.reply) (for_it : e.req_id ≡ id)
      (now : must_defer h.thread.m e ≡ false) where
    is_awaited : Awaits code w e h p (in_request k) l.fiber
    is_awaited = record {
      type = type;
      known = ap (λ i. peek i h.thread.pending) for_it ∙ l.known;
      there = l.there;
      asks = rw (l.asks, l.asks_id, for_it, ==_refl id) refl;
      now = now;
      stands = l.stands;
      waits = inl l.at;
    }

    abbrev back : Fiber
    back = clear_waits (replied code w e h l.fiber)

    comes_back : come_back w.allocs back ≡ (back, false)
    unfolding come_back come_back_at clear_waits source_of_reply set_src
    comes_back = ap (come_back_at w.allocs back) l.at

    abbrev back_in : Thread
    back_in = going p back (replied_in code w e h p)

    back_finds : find_fiber p back_in.fibers ≡ some back
    unfolding clear_waits
    back_finds =
        going_finds p (replied code w e h l.fiber) back (replied_in code w e h p)
          (replied_finds code w e h p (in_request k) l.fiber is_awaited) refl

    goes_on :
        play_event code w e h
        ≡ after_run w p h.rests (handed_back (run p w.envs (k back.src) h.globals back_in))
    unfolding continue_with
    goes_on = play_reply code w e h p (in_request k) l.fiber back is_awaited comes_back

    -- The end of both sequences, from `u` on: "]", the reply and the return.
    run-closing :
        (envs : ℕ → Env) (u : Thread)
        → (there : find_fiber p u.fibers ≡ some back)
        → run p envs closing h.globals u
          ≡ replied_with p envs
              (record h.globals { log = h.globals.log ++ close_mark ∷ [] })
              u
              back
              there
              Rslt.success
              []
    unfolding run
    run-closing envs u there =
        run-reply_and_return p envs (record h.globals { log = h.globals.log ++ close_mark ∷ [] }) u
          back there Rslt.success []

    -- The thread that the sequence leaves when it replies and returns in `u`.
    abbrev left_by : (ℕ → Env) → Thread → Thread
    left_by envs u =
        on_module (λ m. record m { current = none })
          (finish p (coseq_reply (envs 0).alloc u back Rslt.success []))

    closes :
        (name : Bytes) (que_max : ℕ) (envs : ℕ → Env) (calls : List Call) (u : Thread)
        → run p w.envs (k back.src) h.globals back_in ≡ record {
          thread = finish p (coseq_reply (envs 0).alloc u back Rslt.success []);
          globals = record h.globals { log = h.globals.log ++ close_mark ∷ [] };
          calls = calls;
          end = returned;
        }
        → u.locked_by ≡ none
        → u.deferred ≡ h.thread.deferred
        → IsModuleA name que_max u
        → (r : Played Globals) × (play_event code w e h ≡ some r)
          × Closed name que_max (log ++ close_mark ∷ []) h.thread.deferred r.host
    unfolding finish
    closes name que_max envs calls u ran free same is =
        let still = coseq_reply-m (envs 0).alloc u back Rslt.success [] in
        (
          record {
            host = record {
              thread = left_by envs u;
              globals = record h.globals { log = h.globals.log ++ close_mark ∷ [] };
              rests = store_rest p End.returned h.rests;
            };
            turn = record { alloc = w.alloc; burst = record { allocs = w.allocs; calls = calls } };
          },
          goes_on ∙ ap (λ r. after_run w p h.rests (handed_back r)) ran,
          record {
            logs = ap (λ x. x ++ close_mark ∷ []) l.logs;
            free = ap (λ m. m.locked_by) still ∙ free;
            deferred = ap (λ m. m.deferred) still ∙ same;
            is = record {
              seqs = ap (λ m. m.seqs) still ∙ is.seqs;
              nr_seq = ap (λ m. m.nr_seq) still ∙ is.nr_seq;
            };
          },
        )

module _ (name : Bytes) (que_max : ℕ) (code : ℕ → Code) (w : Meets) (e : Ev) (h : Host Globals)
    (p id : ℕ) (log : Bytes) (is : IsModuleA name que_max h.thread) (type : e.type ≡ EvType.reply)
    (for_it : e.req_id ≡ id) where
  abbrev Closes : Type 0
  Closes =
      (r : Played Globals) × (play_event code w e h ≡ some r)
      × Closed name que_max (log ++ close_mark ∷ []) h.thread.deferred r.host

  own_reply : Logged p id (some p) rest_locked log h → must_defer h.thread.m e ≡ false
  unfolding must_defer pending_peek
  own_reply l = rw (l.holds, type, for_it, l.known) (rw (l.holds, ==_refl p) refl)

  pub lock_closes : Logged p id (some p) rest_locked log h → Closes
  unfolding run call_of after_call exec_call coseq_unlock source_of_reply set_src pending_take
      clear_waits
  lock_closes l =
      let k = rest_locked in
      let now = own_reply l in
      let f = back code w e h p id (some p) k log l type for_it now in
      let t = back_in code w e h p id (some p) k log l type for_it now in
      let here = back_finds code w e h p id (some p) k log l type for_it now in
      let u : Thread = on_module (λ m. record m { locked_by = none }) t in
      let opened : coseq_unlock t f ≡ u =
        unlock_opens t f p (find_fiber-ptr p t.fibers f here) l.holds in
      closes code w e h p id (some p) k log l type for_it now name que_max (λ i. w.envs (suc i))
        (Call.unlock ∷ Call.reply (w.envs 1).alloc Rslt.success [] ∷ []) u
        (run-goes p w.envs h.globals t f here Op.unlock (λ _. closing) tt refl
          ∙ ap (λ v. cons_unlock (run p (λ i. w.envs (suc i)) closing h.globals v)) opened
          ∙ ap cons_unlock (
              run-closing code w e h p id (some p) k log l type for_it now (λ i. w.envs (suc i)) u
                here))
        refl refl (record { seqs = is.seqs; nr_seq = is.nr_seq })

  pub nolock_closes : Logged p id none (λ _. closing) log h → Closes
  unfolding must_defer pending_take
  nolock_closes l =
      let k : Src → Code = λ _. closing in
      let now : must_defer h.thread.m e ≡ false = rw l.holds refl in
      let t = back_in code w e h p id none k log l type for_it now in
      closes code w e h p id none k log l type for_it now name que_max w.envs
        (Call.reply (w.envs 0).alloc Rslt.success [] ∷ []) t
        (run-closing code w e h p id none k log l type for_it now w.envs t
          (back_finds code w e h p id none k log l type for_it now))
        l.holds refl (record { seqs = is.seqs; nr_seq = is.nr_seq })
