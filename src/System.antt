-- ===== src/System.antt =====
-- The instance as a whole between `_setup` and `_teardown`: the threads of its modules (coseq/coseq.c,
-- `sched_loop`) and external callers (`_request_sync`, `_request_async`), in any interleaving.
--
-- A round of a thread is one step. What it does to others is done later, in order, one effect at a
-- time, with steps of others between; until all of it is done the thread begins no other round.
pub mod Safety
pub mod External
mod Tests
use coseq.Base.{
  ℕ, ◌+◌, ◌^◌, ◌<◌, ◌≡◌, Bool, false, List, [], ◌∷◌, some, ◌==◌, if◌then◌else◌, get_elem?,
  modify_at,
}
use coseq.Time.{Timespec}
use coseq.Types.{Alloc, Bytes, Effect, Module, Thread}
use coseq.Fibers.{reap_done}
use coseq.Thread.{on_module}
use coseq.Instance.{Ctx}
use coseq.Instance.Mailbox.{perform, sync_begin, sync_end, SyncResult, request_async}
use coseq.Scheduler.{Turn}
use coseq.Scheduler.Rounds.{round_work}
use coseq.Scheduler.Balance.Rounds.{round_calls}

-- `outs i` is what the last round of module `i` has still to do to others.
pub record System : Type 0 where
  pub ctx : Ctx
  pub outs : ℕ → List Effect

abbrev pub begun : Ctx → System
begun c = record { ctx = c; outs = λ i. [] }

abbrev pub on_thread : Module → ℕ → Thread
on_thread m next = record { m = m; next_client_id = next; out = [] }

abbrev pub set_out : ℕ → List Effect → (ℕ → List Effect) → ℕ → List Effect
set_out i xs outs j = if i == j then xs else outs j

abbrev pub after_round : ℕ → Thread → System → System
after_round i t s = record {
  ctx = record s.ctx {
    modules = modify_at i (λ _. t.m) s.ctx.modules;
    next_client_id = t.next_client_id;
  };
  outs = set_out i t.out s.outs;
}

-- One step. A round finds the counter of client ids at any number, since other threads move it
-- meanwhile; it ends, before fibers are freed, in a state with `P`, and its counter of request ids
-- does not wrap.
pub data Step (P : Thread → Type 0) : System → System → Type 0 where
  round :
      (s : System) (i next : ℕ) (m : Module) (now : Timespec) (timers events : ℕ → Turn)
      (v : Thread)
      → i < s.ctx.nr_module
      → get_elem? s.ctx.modules i ≡ some m
      → s.outs i ≡ []
      → m.stop ≡ false
      → m.next_req_id + round_calls timers events (on_thread m next) < 2 ^ 32
      → round_work now timers events (on_thread m next) ≡ some v
      → P v
      → Step P s (after_round i (on_module reap_done v) s)
  performs :
      (s : System) (i : ℕ) (copied : Bool) (x : Effect) (xs : List Effect)
      → s.outs i ≡ x ∷ xs
      → Step P s (record { ctx = perform copied s.ctx x; outs = set_out i xs s.outs })
  asks :
      (s : System) (a : Alloc) (module_idx seq_idx : ℕ) (msg : Bytes)
      → Step P s (record s { ctx = request_async a s.ctx module_idx seq_idx msg })
  sync_begins :
      (s : System) (a : Alloc) (module_idx seq_idx : ℕ) (msg : Bytes)
      → Step P s (record s { ctx = (sync_begin a s.ctx module_idx seq_idx msg).0 })
  sync_ends :
      (s : System) (grown : Bool) (rid module_idx seq_idx : ℕ) (buf : Bytes) (r : SyncResult)
      → sync_end grown s.ctx rid module_idx seq_idx buf ≡ some r
      → Step P s (record s { ctx = r.ctx })

pub data History (P : Thread → Type 0) (s : System) : System → Type 0 where
  begins : History P s s
  steps : (u v : System) → History P s u → Step P u v → History P s v
