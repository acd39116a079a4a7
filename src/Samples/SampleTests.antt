-- ===== src/Samples/SampleTests.antt =====
-- The loop of the C sample on a concrete state.
use coseq.Base.{ℕ, true, [], ◌∷◌, ◌++◌, some, refl, ◌≡◌}
use mathlib.Core.List.{map}
use coseq.Time.{ts_add_ms, ts_lt}
use coseq.Types.{Bytes, Fiber, Point}
use coseq.Fibers.{find_fiber}
use coseq.Notify.Laws.{sent, subscribers}
use coseq.Program.{in_wait_timeout}
use coseq.Program.Host.{Host, Played, play_timer}
use coseq.Samples.{Out}
use coseq.Samples.C
use coseq.Samples.Ticking.{Ticking, on_tick, tick_lem}
use coseq.Fixtures.{at_sec, some_fiber, thread_with}
use coseq.Samples.Tests.{meets}

-- The loop of the C sample after its second notification, at second 9. The text is the number alone.
abbrev number_text : ℕ → Bytes
number_text n = n ∷ []

abbrev sleeper : Fiber
sleeper = record (some_fiber 10) { ctx = Point.sleeping; waiting_timer = true; deadline = at_sec 8 }

abbrev looping : Host Out
looping = record {
  thread = thread_with (sleeper ∷ []) [];
  globals = [];
  rests = λ q. in_wait_timeout (on_tick number_text 5 2);
}

is_ticking : Ticking number_text 10 5 2 looping
unfolding find_fiber
is_ticking = record {
  fiber = sleeper;
  there = refl;
  at = refl;
  asks = refl;
  timed = refl;
  stands = refl;
}

tick_lem_example :
    (r : Played Out) × (play_timer (C.sample_code number_text 5) (at_sec 9) (meets 0) 10 looping
      ≡ some r)
    × (r.host.thread.out ≡ [] ++ map (sent 1 0 (3 ∷ [])) (subscribers 0 []))
    × ((k' : Ticking number_text 10 4 3 r.host) × (k'.fiber.deadline ≡ ts_add_ms (at_sec 7) 300))
unfolding is_ticking ts_lt
tick_lem_example =
    tick_lem number_text 10 4 2 (C.sample_code number_text 5) (at_sec 9) (meets 0) looping
      is_ticking refl (λ i. refl) (λ i. refl)
