-- ===== src/Instance/Tests.antt =====
-- An instance of two modules.
use coseq.Base.{
  inl, ◌≡◌, ◌≤◌, refl, true, false, List, [], ◌∷◌, none, some, pos, length, get_elem?, arith,
}
use mathlib.Core.Option
use coseq.Types.{Effect, Module, Reg, Rslt}
use coseq.Instance.{Ctx, max_module, fresh_ctx, post}
use coseq.Instance.Mailbox.{ext_deliver, sync_begin, sync_end}
use coseq.Instance.Post.{with_inbox, addressed, perform_all, perform_all-modules}
use coseq.Instance.Sync.{outcome, request_sync_lem, request_sync_lost, request_sync_overtaken}
use coseq.Instance.Setup.{Pthreads, setup, teardown}
use coseq.Instance.Lifecycle.{fresh_module, setup_module, teardown_module}
use coseq.Fixtures.{some_reg, plenty, some_module, start_event, reply_event}

abbrev working : Pthreads
working = record { mutex = λ i. true; cond = λ i. true; create = λ i. true }

-- No thread can be made.
abbrev threadless : Pthreads
threadless = record { mutex = λ i. true; cond = λ i. true; create = λ i. false }

abbrev table : List Reg
table = some_reg ∷ record some_reg { name = none } ∷ []

setup_done : (setup working fresh_ctx table).1 ≡ true
unfolding setup
setup_done = refl

setup_module_example :
    (length table ≤ max_module)
    × ((setup working fresh_ctx table).0.nr_module ≡ length table)
    × (get_elem? (setup working fresh_ctx table).0.modules 0 ≡ some (fresh_module 0 some_reg))
setup_module_example = setup_module working fresh_ctx table 0 some_reg refl setup_done refl

setup_refused : (setup threadless fresh_ctx table).1 ≡ false
unfolding setup
setup_refused = refl

abbrev up : Module
up = record some_module { th_started = true }

abbrev running : Ctx
running = record fresh_ctx { modules = some_module ∷ up ∷ []; nr_module = 2 }

teardown_module_example :
    (get_elem? (teardown running).modules 1
      ≡ some (record up {
        stop = true;
        th_started = false;
        fibers = [];
        pending = [];
        notify_clients = [];
        inbox = [];
        deferred = [];
      }))
    × ((teardown running).nr_module ≡ 0)
    × (post (teardown running) (pos 1) (some start_event) ≡ teardown running)
    × (teardown (teardown running) ≡ teardown running)
teardown_module_example =
    teardown_module running 1 up (pos 1) (some start_event) (omega arith) refl refl

abbrev sent : List Effect
sent =
    Effect.post_to (pos 1) (some start_event)
    ∷ Effect.post_to (pos 0) (some start_event)
    ∷ Effect.post_to (pos 9) (some start_event)
    ∷ Effect.post_to (pos 1) (some (reply_event 3))
    ∷ []

perform_all-modules_example :
    get_elem? (perform_all (λ i. true) sent running).modules 1
    ≡ Option.map (with_inbox (addressed 2 1 sent)) (get_elem? running.modules 1)
perform_all-modules_example = perform_all-modules (λ i. true) sent running 1

abbrev calling : Ctx
calling = record running { ext_wait_rid = 1; ext_id = 2 }

request_sync_lem_example :
    outcome
      (sync_end true (ext_deliver true calling 1 Rslt.success (5 ∷ 6 ∷ [])) 1 0 1 (9 ∷ 9 ∷ 9 ∷ []))
    ≡ some (record {
      thread_idx = 0;
      seq_idx = 1;
      req_id = 1;
      result = Rslt.success;
      client_id = 0;
      msg = 5 ∷ 6 ∷ [];
    })
request_sync_lem_example = request_sync_lem calling 0 1 Rslt.success (5 ∷ 6 ∷ []) (9 ∷ 9 ∷ 9 ∷ [])

request_sync_overtaken_example :
    let first = sync_begin plenty running 0 1 [] in
    let second = sync_begin plenty first.0 1 0 [] in
    (ext_deliver true second.0 first.1 Rslt.success (5 ∷ []) ≡ second.0)
    × (outcome
          (sync_end true (ext_deliver true second.0 second.1 Rslt.error (6 ∷ [])) first.1 0 1 [])
        ≡ some (record {
          thread_idx = 0;
          seq_idx = 1;
          req_id = first.1;
          result = Rslt.error;
          client_id = 0;
          msg = 6 ∷ [];
        }))
request_sync_overtaken_example =
    request_sync_overtaken plenty plenty running 0 1 1 0 [] [] Rslt.success Rslt.error (5 ∷ [])
      (6 ∷ []) [] (omega arith)

-- A module that is not there.
request_sync_lost_example :
    let begun = sync_begin plenty running 2 0 (1 ∷ []) in
    (begun.0.modules ≡ running.modules)
    × (begun.0.ext_wait_rid ≡ begun.1)
    × (sync_end true begun.0 begun.1 2 0 [] ≡ none)
request_sync_lost_example =
    request_sync_lost plenty running 2 0 (1 ∷ []) true [] (inl (omega arith))
