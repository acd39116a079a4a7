-- ===== src/Instance/Setup.antt =====
-- `_setup`, `stop_modules`, `_teardown` and `_destroy` of coseq/coseq.c. Which of the calls into
-- pthreads succeed, by module, is an input. The threads run on their own; what is here is what the
-- calling thread does.
use coseq.Base.{
  ℕ, zero, suc, Bool, true, false, ◌&&◌, List, [], ◌∷◌, Option, none, some, ltb, ◌==◌,
  if◌then◌else◌, length, take, modify_at,
}
use coseq.Types.{Bytes, Module, Reg}
use coseq.Instance.{Ctx, max_module, zero_module}

pub record Pthreads : Type 0 where
  pub mutex : ℕ → Bool
  pub cond : ℕ → Bool
  pub create : ℕ → Bool

-- `tbl[i].name ? tbl[i].name : ""`.
unfoldable pub name_of : Option Bytes → Bytes
name_of none = []
name_of (some name) = name

-- What is known of the module when its mutex is made.
unfoldable pub register : ℕ → Reg → Module
unfolding name_of
register i r = record zero_module {
  idx = i;
  name = take 15 (name_of r.name);
  que_max = r.nr_que_max;
  seqs = r.seq_array;
  nr_seq = r.nr_seq_max;
  recv_notify = r.recv_notify;
  user = r.user;
}

-- The first loop, from entry `i` on: the modules, and whether all mutexes and conditions were made.
unfoldable pub init_modules : Pthreads → ℕ → List Reg → List Module → List Module × Bool
unfolding register
init_modules sys i [] ms = (ms, true)
init_modules sys i (r ∷ rs) ms =
    let ready = modify_at i (λ _. record (register i r) { next_req_id = 1 }) ms in
    let rest = init_modules sys (suc i) rs ready in
    if sys.mutex i && sys.cond i then rest else (modify_at i (λ _. register i r) ms, false)

-- A thread that was started is told to stop and is joined; then all that the module holds is freed.
-- (The pointers stay, and are not read before the `memset` of another setup.)
unfoldable pub stop_module : Module → Module
stop_module m = record m {
  stop = if m.th_started then true else m.stop;
  th_started = false;
  fibers = [];
  pending = [];
  notify_clients = [];
  inbox = [];
  deferred = [];
}

unfoldable pub stop_modules : ℕ → List Module → List Module
unfolding stop_module
stop_modules zero ms = ms
stop_modules (suc n) [] = []
stop_modules (suc n) (m ∷ ms) = stop_module m ∷ stop_modules n ms

-- The second loop, from entry `i` on with `n` to go.
unfoldable pub start_threads : Pthreads → ℕ → ℕ → List Module → List Module × Bool
start_threads sys i zero ms = (ms, true)
start_threads sys i (suc n) ms =
    let rest = start_threads sys (suc i) n (modify_at i (λ m. record m { th_started = true }) ms) in
    if sys.create i then rest else (ms, false)

-- After both loops: a failure stops and clears everything.
unfoldable pub settle : ℕ → Ctx → List Module × Bool → Ctx × Bool
unfolding stop_modules
settle n c (ms, true) = (record c { modules = ms; nr_module = n }, true)
settle n c (ms, false) = (record c { modules = stop_modules n ms; nr_module = 0 }, false)

unfoldable pub after_init : Pthreads → ℕ → Ctx → List Module × Bool → Ctx × Bool
unfolding settle start_threads
after_init sys n c (ms, true) = settle n c (start_threads sys 0 n ms)
after_init sys n c (ms, false) = (record c { modules = ms; nr_module = 0 }, false)

unfoldable pub setup : Pthreads → Ctx → List Reg → Ctx × Bool
unfolding init_modules after_init
setup sys c tbl =
    if ltb max_module (length tbl)
    then (c, false)
    else after_init sys (length tbl) c (init_modules sys 0 tbl c.modules)

unfoldable pub teardown : Ctx → Ctx
unfolding stop_modules
teardown c =
    if c.nr_module == 0
    then c
    else record c { modules = stop_modules c.nr_module c.modules; nr_module = 0 }

-- The instance as it is when its memory is freed; `none` is a NULL handle.
unfoldable pub destroy : Option Ctx → Option Ctx
unfolding teardown
destroy none = none
destroy (some c) = some (teardown c)
