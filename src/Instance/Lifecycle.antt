-- ===== src/Instance/Lifecycle.antt =====
-- What `_setup` and `_teardown` leave.
use coseq.Base.{
  ℕ, zero, suc, ◌≤◌, ◌<◌, ◌≡◌, refl, ap, ◌∙◌, Bool, true, false, ◌&&◌, List, [], ◌∷◌, Option, none,
  some, ℤ, arith, ltb, ◌==◌, if◌then◌else◌, length, get_elem?, Bool-cases, inl, inr, ltb-false,
  get_elem?-bound, ==→eq, lt→ltb, ◌⊎◌, take,
}
use mathlib.Core.Option
use coseq.Types.{Bytes, Ev, Module, Reg}
use coseq.Instance.{Ctx, max_module, post}
use coseq.Instance.SetupLoops.{
  registered, started, init_modules_at, start_threads_at, init_modules_ok, start_threads_ok,
}
use coseq.Instance.Setup.{
  Pthreads, register, name_of, init_modules, start_threads, stop_module, stop_modules, settle,
  after_init, setup, teardown,
}

settle-true :
    (n : ℕ) (c : Ctx) (x : List Module × Bool)
    → (settle n c x).1 ≡ true
    → (x.1 ≡ true) × ((settle n c x).0 ≡ record c { modules = x.0; nr_module = n })
unfolding settle
settle-true n c (ms, true) h = (refl, refl)
settle-true n c (ms, false) h = cc

after_init-true :
    (sys : Pthreads) (n : ℕ) (c : Ctx) (x : List Module × Bool)
    → (after_init sys n c x).1 ≡ true
    → let y = start_threads sys 0 n x.0 in
      (x.1 ≡ true)
      × (y.1 ≡ true)
      × ((after_init sys n c x).0 ≡ record c { modules = y.0; nr_module = n })
unfolding after_init
after_init-true sys n c (ms, true) h =
    let s = settle-true n c (start_threads sys 0 n ms) h in (refl, s.0, s.1)
after_init-true sys n c (ms, false) h = cc

pub setup_lem :
    (sys : Pthreads) (c : Ctx) (tbl : List Reg)
    → length c.modules ≡ max_module
    → (setup sys c tbl).1 ≡ true
    → (length tbl ≤ max_module)
      × ((setup sys c tbl).0.nr_module ≡ length tbl)
      × ((k : ℕ) (r : Reg)
          → get_elem? tbl k ≡ some r
          → get_elem? (setup sys c tbl).0.modules k ≡ some (started (registered k r)))
unfolding setup
setup_lem sys c tbl room done = elim (Bool-cases (ltb max_module (length tbl))) [
  | inl large ↦ let bad : false ≡ true = rw large at done in cc
  | inr small ↦
      let n : ℕ = length tbl in
      let x : List Module × Bool = init_modules sys 0 tbl c.modules in
      let a = after_init-true sys n c x (rw small at done) in
      rw small (
        ltb-false max_module (length tbl) small,
        ap (λ d. d.nr_module) a.2,
        λ k r e.
            ap (λ d. get_elem? d.modules k) a.2
            ∙ start_threads_at sys 0 n x.0 k (registered k r) a.1 (omega arith)
                (omega (arith, get_elem?-bound tbl k r e))
                (init_modules_at sys 0 tbl c.modules k k r a.0
                  (omega (arith, room, ltb-false max_module (length tbl) small)) e (omega arith)),
      )
]

-- The module that a table entry asks for, at index `k`.
abbrev pub name_in : Option Bytes → Bytes
name_in none = []
name_in (some s) = take 15 s

abbrev pub fresh_module : ℕ → Reg → Module
fresh_module k r = record {
  idx = k;
  name = name_in r.name;
  que_max = r.nr_que_max;
  seqs = r.seq_array;
  nr_seq = r.nr_seq_max;
  recv_notify = r.recv_notify;
  user = r.user;
  th_started = true;
  inbox = [];
  stop = false;
  fibers = [];
  pending = [];
  notify_clients = [];
  next_req_id = 1;
  current = none;
  locked_by = none;
  deferred = [];
  next_ptr = 0;
}

name_of-name_in : (n : Option Bytes) → take 15 (name_of n) ≡ name_in n
unfolding name_of
name_of-name_in none = refl
name_of-name_in (some s) = refl

started-registered : (k : ℕ) (r : Reg) → started (registered k r) ≡ fresh_module k r
unfolding register
started-registered k r =
    ap (λ (s : Bytes). record (fresh_module k r) { name = s }) (name_of-name_in r.name)

-- After a setup that succeeds the instance has as many modules as the table has entries, at most
-- MAX_MODULE, and the module at an entry's index has that index, the entry's sequences with their number,
-- its queue limit, handler and user data and the first 15 bytes of its name (none without one). It has no
-- fibers, events, entries, listeners and lock, its request ids start from 1, and its thread is started and
-- not told to stop.
pub setup_module :
    (sys : Pthreads) (c : Ctx) (tbl : List Reg) (k : ℕ) (r : Reg)
    → length c.modules ≡ max_module
    → (setup sys c tbl).1 ≡ true
    → get_elem? tbl k ≡ some r
    → (length tbl ≤ max_module)
      × ((setup sys c tbl).0.nr_module ≡ length tbl)
      × (get_elem? (setup sys c tbl).0.modules k ≡ some (fresh_module k r))
setup_module sys c tbl k r room done entry =
    let all = setup_lem sys c tbl room done in
    (all.0, all.1, all.2 k r entry ∙ ap some (started-registered k r))

-- If the table fits and every call into pthreads succeeds, so does the setup.
pub setup_succeeds :
    (sys : Pthreads) (c : Ctx) (tbl : List Reg)
    → length tbl ≤ max_module
    → ((j : ℕ) → (sys.mutex j && sys.cond j) ≡ true)
    → ((j : ℕ) → sys.create j ≡ true)
    → (setup sys c tbl).1 ≡ true
unfolding setup after_init settle
setup_succeeds sys c tbl small ok_init ok_create = ground (
  arith,
  init_modules_ok sys 0 tbl c.modules ok_init,
  start_threads_ok sys 0 (length tbl) (init_modules sys 0 tbl c.modules).0 ok_create,
)

-- A setup that fails leaves the instance as it was, if the table is too large, and otherwise with no
-- module.
pub setup_fails :
    (sys : Pthreads) (c : Ctx) (tbl : List Reg)
    → (setup sys c tbl).1 ≡ false
    → ((max_module < length tbl) × ((setup sys c tbl).0 ≡ c))
      ⊎ ((length tbl ≤ max_module) × ((setup sys c tbl).0.nr_module ≡ 0))
unfolding setup after_init settle
setup_fails sys c tbl done = ground arith

-- An instance with no module takes no event.
pub post-no_module :
    (c : Ctx) (module_idx : ℤ) (e : Option Ev) → c.nr_module ≡ 0 → post c module_idx e ≡ c
unfolding post
post-no_module c module_idx none h = refl
post-no_module c module_idx (some e) h = ground arith

stop_modules_at :
    (n : ℕ) (ms : List Module) (k : ℕ)
    → get_elem? (stop_modules n ms) k
      ≡ (if ltb k n then Option.map stop_module (get_elem? ms k) else get_elem? ms k)
unfolding stop_modules
stop_modules_at zero ms k = ground arith
stop_modules_at (suc n) [] k = ground arith
stop_modules_at (suc n) (m ∷ ms) zero = ground arith
stop_modules_at (suc n) (m ∷ ms) (suc k) = ground (arith, stop_modules_at n ms k)

teardown_lem :
    (c : Ctx)
    → ((teardown c).nr_module ≡ 0)
      × ((k : ℕ)
          → k < c.nr_module
          → get_elem? (teardown c).modules k ≡ Option.map stop_module (get_elem? c.modules k))
      × (teardown (teardown c) ≡ teardown c)
unfolding teardown
teardown_lem c = elim (Bool-cases (c.nr_module == 0)) [
  | inl torn ↦
      rw torn (
        ==→eq c.nr_module 0 torn,
        (λ k h. absurd (omega (arith, ==→eq c.nr_module 0 torn))),
        rw torn,
      )
  | inr up ↦
      rw up
        (refl, (λ k h. stop_modules_at c.nr_module c.modules k ∙ rw (lt→ltb k c.nr_module h)), refl)
]

-- A teardown of an instance leaves each module that it has, where its thread was started, told to stop,
-- joined and with nothing: no fibers, entries, listeners, events and deferred events. The instance has no module any
-- more, so that it takes no event, and another teardown changes nothing.
pub teardown_module :
    (c : Ctx) (k : ℕ) (m : Module) (module_idx : ℤ) (e : Option Ev)
    → k < c.nr_module
    → get_elem? c.modules k ≡ some m
    → m.th_started ≡ true
    → (get_elem? (teardown c).modules k
        ≡ some (record m {
          stop = true;
          th_started = false;
          fibers = [];
          pending = [];
          notify_clients = [];
          inbox = [];
          deferred = [];
        }))
      × ((teardown c).nr_module ≡ 0)
      × (post (teardown c) module_idx e ≡ teardown c)
      × (teardown (teardown c) ≡ teardown c)
unfolding stop_module
teardown_module c k m module_idx e there at runs =
    let all = teardown_lem c in
    (
      all.1 k there
          ∙ ap (Option.map stop_module) at
          ∙ ap (λ b. some (record (stop_module m) { stop = if b then true else m.stop })) runs,
      all.0,
      post-no_module (teardown c) module_idx e all.0,
      all.2,
    )
