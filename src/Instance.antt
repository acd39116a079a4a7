-- ===== src/Instance.antt =====
-- An instance: `struct coseq_ctx_private`, `post` and `create_coseq` of coseq/coseq.c, and what the
-- threads of modules do to the instance. The mailbox of external callers is Instance/Mailbox.antt,
-- setup and teardown are Instance/Setup.antt.
pub mod Post
pub mod Mailbox
pub mod Sync
pub mod Setup
pub mod SetupLoops
pub mod Lifecycle
mod Tests
use coseq.Base.{
  ℕ, zero, suc, ◌-◌, ◌^◌, Bool, true, false, ◌&&◌, List, [], ◌∷◌, ◌++◌, Option, none, some, ℤ, pos,
  negsuc, ltb, if◌then◌else◌, modify_at,
}
use coseq.Types.{Bytes, Ev, Module, Rslt}

abbrev pub max_module : ℕ
max_module = 32

-- `(uint32_t)-1`, the id that no external caller waits for.
abbrev pub no_rid : ℕ
no_rid = 2 ^ 32 - 1

-- `modules` is the array of MAX_MODULE; `ext_msg` has `ext_size` bytes, none if it is NULL.
pub record Ctx : Type 0 where
  pub modules : List Module
  pub nr_module : ℕ
  pub next_client_id : ℕ
  pub ext_ready : Bool
  pub ext_wait_rid : ℕ
  pub ext_result : Rslt
  pub ext_msg : Bytes
  pub ext_id : ℕ

-- A module after `memset` or `calloc`.
abbrev pub zero_module : Module
zero_module = record {
  idx = 0;
  name = [];
  que_max = 0;
  seqs = [];
  nr_seq = 0;
  recv_notify = none;
  user = 0;
  th_started = false;
  inbox = [];
  stop = false;
  fibers = [];
  pending = [];
  notify_clients = [];
  next_req_id = 0;
  current = none;
  locked_by = none;
  deferred = [];
  next_ptr = 0;
}

abbrev pub replicate {ℓ} : {A : Type ℓ} → ℕ → A → List A
replicate zero a = []
replicate (suc n) a = a ∷ replicate n a

abbrev pub fresh_ctx : Ctx
fresh_ctx = record {
  modules = replicate max_module zero_module;
  nr_module = 0;
  next_client_id = 0;
  ext_ready = false;
  ext_wait_rid = no_rid;
  ext_result = Rslt.ignore;
  ext_msg = [];
  ext_id = 1;
}

-- The arguments say whether `calloc`, `pthread_mutex_init` and `pthread_cond_init` succeed.
unfoldable pub create_coseq : Bool → Bool → Bool → Option Ctx
create_coseq memory mutex cond = if memory && mutex && cond then some fresh_ctx else none

-- `module_idx < 0 || module_idx >= mgr->nr_module` fails.
abbrev pub is_module : ℤ → ℕ → Bool
is_module (negsuc k) nr = false
is_module (pos i) nr = ltb i nr

abbrev pub slot : ℤ → ℕ
slot (pos i) = i
slot (negsuc k) = 0

abbrev pub receive : Ev → Module → Module
receive e m = record m { inbox = m.inbox ++ e ∷ [] }

unfoldable pub post : Ctx → ℤ → Option Ev → Ctx
post c module_idx none = c
post c module_idx (some e) =
    if is_module module_idx c.nr_module
    then record c { modules = modify_at (slot module_idx) (receive e) c.modules }
    else c
