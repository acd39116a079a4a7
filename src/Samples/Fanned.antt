-- ===== src/Samples/Fanned.antt =====
-- A fiber that waits for any reply with several to come: what one reply does.
use coseq.Base.{
  ℕ, suc, ◌≡◌, inr, refl, ap, ◌∙◌, [], ◌∷◌, ◌++◌, Option, none, some, true, arith, ℤ, pos, dec,
  ==_refl, if◌then◌else◌,
}
use coseq.Types.{Alloc, Effect, Ev, EvType, Fiber, Point, Ptr, Rslt, Src, Thread}
use coseq.Event.{make_ev}
use coseq.Waiting.{peek, unlink, pending_take}
use coseq.Fibers.{find_fiber, set_src}
use coseq.Fibers.Laws.{find_fiber-ptr, find_fiber-write}
use coseq.Thread.{on_module, on_fiber}
use coseq.Request.{coseq_reply, is_external}
use coseq.Gather.{Taken, parked, wait_reply, woken}
use coseq.Gather.Sweep.{wait_reply-nil}
use coseq.Sequence.{Call, exec_call, finish, clear_waits, come_back, come_back_at}
use coseq.Scheduler.{must_defer, source_of_reply}
use coseq.Program.{
  Op, call, in_wait_reply, stopped, call_of, after_call, after_wait, End, run, continue_with,
}
use coseq.Program.Host.{Host, Meets, Played, store_rest, after_run, play_event}
use coseq.Program.Steps.{
  run-stops, handed_back, going, going_finds, Awaits, replied, replied_in, replied_finds,
  play_reply,
}
use coseq.Samples.{reply_and_return}
use coseq.Samples.Replies.{run-reply_and_return}
use coseq.Samples.Suite.{Code, Globals}

-- Fiber `p`, which is to answer `to` under `rid`, waits for any reply, with `suc left` outstanding and
-- none in its queue; its code goes on with `k`.
pub record Fanned (p left : ℕ) (to : ℤ) (rid : ℕ) (k : Option Src → Code) (h : Host Globals)
    : Type 0 where
  pub fiber : Fiber
  pub there : find_fiber p h.thread.fibers ≡ some fiber
  pub any : fiber.waiting_any ≡ true
  pub at : fiber.ctx ≡ Point.waiting_one
  pub empty : fiber.rq ≡ []
  pub outstanding : fiber.async_outstanding ≡ pos (suc left)
  pub stands : h.rests p ≡ in_wait_reply k
  pub free : h.thread.locked_by ≡ none
  pub answers : fiber.reply_to ≡ to
  pub answers_id : fiber.reply_req_id ≡ rid

-- The reply that `to` gets under `rid`.
abbrev pub answer_to : ℕ → ℤ → ℕ → Effect
answer_to idx to rid =
    if is_external to
    then Effect.deliver rid Rslt.success []
    else Effect.post_to to (
        some (record {
          type = EvType.reply;
          seq_idx = 0;
          req_id = rid;
          requester = pos idx;
          result = Rslt.success;
          category = 0;
          client_id = 0;
          msg = [];
        }))

coseq_reply-out :
    (a : Alloc) (t : Thread) (f : Fiber)
    → a.event ≡ true
    → (coseq_reply a t f Rslt.success []).out
      ≡ t.out ++ answer_to t.idx f.reply_to f.reply_req_id ∷ []
unfolding coseq_reply make_ev
coseq_reply-out a t f made = ground arith

-- It parks once more if a reply is outstanding.
parks_again :
    (a : Alloc) (f : Fiber) (left : ℕ)
    → f.rq ≡ []
    → f.async_outstanding ≡ pos (suc left)
    → wait_reply a Point.waiting_one f
      ≡ (record f { waiting_any = true; ctx = Point.waiting_one }, parked)
parks_again a f left empty out = wait_reply-nil a Point.waiting_one f empty ∙ rw out refl

module _ (code : ℕ → Code) (w : Meets) (e : Ev) (h : Host Globals) (p left : ℕ) (to : ℤ) (rid : ℕ)
    (k : Option Src → Code) (l : Fanned p left to rid k h) (type : e.type ≡ EvType.reply)
    (known : peek e.req_id h.thread.pending ≡ some p) where
  awaited : Awaits code w e h p (in_wait_reply k) l.fiber
  unfolding must_defer
  awaited = record {
    type = type;
    known = known;
    there = l.there;
    asks = ground (arith, l.any);
    now = rw l.free refl;
    stands = l.stands;
    waits = inr l.at;
  }

  abbrev back : Fiber
  back = woken (clear_waits (replied code w e h l.fiber))

  abbrev back_in : Thread
  back_in = going p back (replied_in code w e h p)

  abbrev source : Src
  source = (source_of_reply w.alloc e l.fiber).src

  back_finds : find_fiber p back_in.fibers ≡ some back
  unfolding clear_waits woken
  back_finds =
      going_finds p (replied code w e h l.fiber) back (replied_in code w e h p)
        (replied_finds code w e h p (in_wait_reply k) l.fiber awaited) refl

  goes_on :
      play_event code w e h
      ≡ after_run w p h.rests (handed_back (run p w.envs (k (some source)) h.globals back_in))
  unfolding continue_with clear_waits woken come_back come_back_at source_of_reply set_src
  goes_on =
      play_reply code w e h p (in_wait_reply k) l.fiber back awaited
        (ap (come_back_at w.allocs (clear_waits (replied code w e h l.fiber))) l.at)

  -- The last reply: the code replies and returns.
  pub ends :
      k (some source) ≡ reply_and_return Rslt.success []
      → (w.envs 0).alloc.event ≡ true
      → (r : Played Globals) × (play_event code w e h ≡ some r)
        × (r.host.thread.out ≡ h.thread.out ++ answer_to h.thread.idx to rid ∷ [])
        × (r.host.globals ≡ h.globals)
  unfolding finish woken clear_waits source_of_reply set_src pending_take
  ends last made = (
    record {
      host = record {
        thread =
            on_module (λ m. record m { current = none })
              (finish p (coseq_reply (w.envs 0).alloc back_in back Rslt.success []));
        globals = h.globals;
        rests = store_rest {G = Globals} p End.returned h.rests;
      };
      turn = record {
        alloc = w.alloc;
        burst = record {
          allocs = w.allocs;
          calls = Call.reply (w.envs 0).alloc Rslt.success [] ∷ [];
        };
      };
    },
    goes_on
        ∙ ap (λ k. after_run w p h.rests (handed_back (run p w.envs k h.globals back_in))) last
        ∙ ap (λ r. after_run w p h.rests (handed_back r))
            (run-reply_and_return p w.envs h.globals back_in back back_finds Rslt.success []),
    coseq_reply-out (w.envs 0).alloc back_in back made
        ∙ ap (λ x. h.thread.out ++ answer_to h.thread.idx x l.fiber.reply_req_id ∷ []) l.answers
        ∙ ap (λ x. h.thread.out ++ answer_to h.thread.idx to x ∷ []) l.answers_id,
    refl,
  )

-- One of several: the code waits once more.
pub waits_on :
    (code : ℕ → Code) (w : Meets) (e : Ev) (h : Host Globals) (p left : ℕ) (to : ℤ) (rid : ℕ)
    (k k' : Option Src → Code) (l : Fanned p (suc left) to rid k h) (type : e.type ≡ EvType.reply)
    (known : peek e.req_id h.thread.pending ≡ some p)
    → k (some (source code w e h p (suc left) to rid k l type known)) ≡ call Op.wait_one k'
    → (r : Played Globals) × (play_event code w e h ≡ some r)
      × Fanned p left to rid k' r.host
      × (r.host.thread.pending ≡ unlink e.req_id h.thread.pending)
      × (r.host.thread.out ≡ h.thread.out)
      × (r.host.thread.idx ≡ h.thread.idx)
unfolding after_call call_of exec_call woken clear_waits source_of_reply set_src pending_take
    store_rest
waits_on code w e h p left to rid k k' l type known more =
    let f = back code w e h p (suc left) to rid k l type known in
    let t = back_in code w e h p (suc left) to rid k l type known in
    let here = back_finds code w e h p (suc left) to rid k l type known in
    let waiter : Fiber = record f { waiting_any = true; ctx = Point.waiting_one } in
    let left_at : Ptr → Fiber → Option (Played Globals) = λ q g. after_run w p h.rests (
      handed_back (record {
        thread = on_fiber q (λ _. g) t;
        globals = h.globals;
        calls = Call.wait_one (w.envs 0).alloc ∷ [];
        end = stopped (in_wait_reply k');
      })) in
    let parks = parks_again (w.envs 0).alloc f left l.empty (ap dec l.outstanding) in
    (
      record {
        host = record {
          thread = on_module (λ m. record m { current = none }) (on_fiber p (λ _. waiter) t);
          globals = h.globals;
          rests = store_rest p (stopped (in_wait_reply k')) h.rests;
        };
        turn = record {
          alloc = w.alloc;
          burst = record { allocs = w.allocs; calls = Call.wait_one (w.envs 0).alloc ∷ [] };
        };
      },
      goes_on code w e h p (suc left) to rid k l type known
          ∙ ap (λ k. after_run w p h.rests (handed_back (run p w.envs k h.globals t))) more
          ∙ ap (λ r. after_run w p h.rests (handed_back r))
              (run-stops p w.envs h.globals t f here Op.wait_one k' (in_wait_reply k')
                (ap (λ (x : Fiber × Taken). after_wait k' x.1) parks))
          ∙ ap (λ (x : Fiber × Taken). left_at f.ptr x.0) parks
          ∙ ap (λ q. left_at q waiter) (find_fiber-ptr p t.fibers f here),
      record {
        fiber = waiter;
        there =
            find_fiber-write p (λ _. waiter) t.fibers f (λ _ _. find_fiber-ptr p t.fibers f here)
              here;
        any = refl;
        at = refl;
        empty = l.empty;
        outstanding = ap dec l.outstanding;
        stands = rw (==_refl p) refl;
        free = l.free;
        answers = l.answers;
        answers_id = l.answers_id;
      },
      refl,
      refl,
      refl,
    )
