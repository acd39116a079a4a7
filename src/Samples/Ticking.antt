-- ===== src/Samples/Ticking.antt =====
-- `c_loop` of samples/sample.c, round after round: the local variable `n` lives on the stack of its fiber.
use coseq.Base.{ℕ, suc, ◌≡◌, refl, ap, ◌∙◌, [], ◌∷◌, ◌++◌, none, some, true, false, ==_refl}
use coseq.Time.{Timespec, ts_add_ms}
use coseq.Types.{Bytes, Fiber, Point, Thread}
use coseq.Fibers.{find_fiber, modify_fiber}
use coseq.Fibers.Laws.{find_fiber-ptr, find_fiber-write}
use coseq.Thread.{on_module}
use coseq.Request.{coseq_wait_timeout}
use coseq.Notify.{coseq_notify, any_listener}
use coseq.Notify.Laws.{sent, subscribers, notify_posts-sent}
use mathlib.Core.List.{map}
use coseq.Sequence.{Call, exec_call, clear_waits, come_back, come_back_at}
use coseq.Scheduler.{is_due, time_out}
use coseq.Program.{
  Op, Program, call, in_wait_timeout, Env, Ran, stopped, call_of, after_call, run, continue_with,
}
use coseq.Program.Host.{
  Host, Meets, Played, wakes, wake_timer, after_run, play, play_timer, standing, store_rest,
}
use coseq.Program.Steps.{run-goes, run-stops, handed_back, going, going_finds, resume_code_goes}
use coseq.Program.{resume_code}
use coseq.Samples.{Out}
use coseq.Samples.C.{tick, notify_cat_1}

-- What the loop does when its wait is over, with `rounds` rounds to go after this one.
abbrev pub on_tick : (ℕ → Bytes) → ℕ → ℕ → Program Out
on_tick text rounds n = call (Op.notify notify_cat_1 (text (suc n))) λ _. tick text rounds (suc n)

-- Fiber `p` sleeps in the loop, `n` notifications made.
pub record Ticking (text : ℕ → Bytes) (p rounds n : ℕ) (h : Host Out) : Type 0 where
  pub fiber : Fiber
  pub there : find_fiber p h.thread.fibers ≡ some fiber
  pub at : fiber.ctx ≡ Point.sleeping
  pub asks : fiber.waiting_reply ≡ false
  pub timed : fiber.waiting_timer ≡ true
  pub stands : h.rests p ≡ in_wait_timeout (on_tick text rounds n)

module _ (text : ℕ → Bytes) (p rounds n : ℕ) (envs : ℕ → Env) (g : Out) (t : Thread) (f : Fiber)
    (here : find_fiber p t.fibers ≡ some f) where
  notified : Thread
  notified = (coseq_notify (envs 0).allocs t notify_cat_1 (text (suc n))).0

  run-on_tick : run p envs (on_tick text (suc rounds) n) g t ≡ record {
    thread = coseq_wait_timeout (envs 1).now notified f 300;
    globals = g;
    calls =
        Call.notify (envs 0).allocs notify_cat_1 (text (suc n))
        ∷ Call.wait_timeout (envs 1).now 300
        ∷ [];
    end = stopped (in_wait_timeout (on_tick text rounds (suc n)));
  }
  unfolding notified tick run call_of after_call exec_call coseq_notify
  run-on_tick =
      run-goes p envs g t f here (Op.notify notify_cat_1 (text (suc n)))
        (λ _. tick text (suc rounds) (suc n)) (any_listener notify_cat_1 t.notify_clients) refl
      ∙ ap
          (λ (r : Ran Out). record r {
            calls = Call.notify (envs 0).allocs notify_cat_1 (text (suc n)) ∷ r.calls;
          })
          (run-stops p (λ i. envs (suc i)) g notified f here (Op.wait_timeout 300)
            (λ _. on_tick text rounds (suc n)) (in_wait_timeout (on_tick text rounds (suc n))) refl)

module _ (text : ℕ → Bytes) (p rounds n : ℕ) (code : ℕ → Program Out) (now : Timespec) (w : Meets)
    (h : Host Out) (k : Ticking text p (suc rounds) n h) where
  abbrev back : Fiber
  back = clear_waits k.fiber

  abbrev at_work : Thread
  at_work = going p back h.thread

  at_work_finds : find_fiber p at_work.fibers ≡ some back
  unfolding clear_waits
  at_work_finds = going_finds p k.fiber back h.thread k.there refl

  abbrev slept : Thread
  slept =
      coseq_wait_timeout (w.envs 1).now
        (notified text p rounds n w.envs h.globals at_work back at_work_finds) back 300

  wakes_now :
      is_due now h.thread.locked_by k.fiber ≡ true
      → wake_timer now w.alloc p h.thread ≡ wakes p h.thread
  unfolding wake_timer time_out
  wakes_now due = rw (k.there, wake_timer) (rw (due, k.asks) refl)

  stands_there : standing code h.rests p h.thread ≡ in_wait_timeout (on_tick text (suc rounds) n)
  unfolding standing
  stands_there = rw (k.there, standing) (rw k.at k.stands)

  -- Whenever the timer of the loop is due, and there is memory for the events, it goes off: every listener of the category is sent
  -- the text for the next number under its own id, in the order of the list, nobody else is sent anything,
  -- and the loop sleeps for another 300 ms, one notification further.
  pub tick_lem :
      is_due now h.thread.locked_by k.fiber ≡ true
      → ((i : ℕ) → ((w.envs 0).allocs i).event ≡ true)
      → ((i : ℕ) → ((w.envs 0).allocs i).event_msg ≡ true)
      → (r : Played Out) × (play_timer code now w p h ≡ some r)
        × (r.host.thread.out
            ≡ h.thread.out
              ++ map
                  (sent h.thread.idx notify_cat_1 (text (suc n)))
                  (subscribers notify_cat_1 h.thread.notify_clients))
        × ((k' : Ticking text p rounds (suc n) r.host) × (k'.fiber.deadline
              ≡ ts_add_ms (w.envs 1).now 300))
  unfolding play_timer play store_rest notified coseq_notify coseq_wait_timeout clear_waits
      continue_with come_back come_back_at
  tick_lem due made copied = (
    record {
      host = record {
        thread = on_module (λ m. record m { current = none }) slept;
        globals = h.globals;
        rests = store_rest p (stopped (in_wait_timeout (on_tick text rounds (suc n)))) h.rests;
      };
      turn = record {
        alloc = w.alloc;
        burst = record {
          allocs = w.allocs;
          calls =
              Call.notify (w.envs 0).allocs notify_cat_1 (text (suc n))
              ∷ Call.wait_timeout (w.envs 1).now 300
              ∷ [];
        };
      };
    },
    ap (play code w h) (wakes_now due)
        ∙ ap (λ r. after_run w p h.rests (resume_code p w.allocs w.envs r h.globals h.thread))
            stands_there
        ∙ ap (after_run w p h.rests) (
            resume_code_goes p w.allocs w.envs (in_wait_timeout (on_tick text (suc rounds) n))
              h.globals h.thread k.fiber back k.there (ap (come_back_at w.allocs back) k.at))
        ∙ ap (λ r. after_run w p h.rests (handed_back r))
            (run-on_tick text p rounds n w.envs h.globals at_work back at_work_finds),
    ap (◌++◌ h.thread.out) (
        notify_posts-sent (w.envs 0).allocs h.thread.idx notify_cat_1 (text (suc n))
          h.thread.notify_clients made copied),
    (
      record {
        fiber = record back {
          waiting_timer = true;
          deadline = ts_add_ms (w.envs 1).now 300;
          ctx = Point.sleeping;
        };
        there =
            ap (λ q. find_fiber p (modify_fiber q sleeps at_work.fibers))
              (find_fiber-ptr p h.thread.fibers k.fiber k.there)
            ∙ find_fiber-write p sleeps at_work.fibers back (λ g e. e) at_work_finds;
        at = refl;
        asks = refl;
        timed = refl;
        stands = rw (==_refl p) refl;
      },
      refl,
    ),
  )
    where
      sleeps : Fiber → Fiber
      sleeps g = record g {
        waiting_timer = true;
        deadline = ts_add_ms (w.envs 1).now 300;
        ctx = Point.sleeping;
      }
