-- ===== src/Wrapper/Tests.antt =====
-- A manager of two C++ modules, and a gather.
use coseq.Base.{ℕ, ◌≡◌, refl, true, List, [], ◌∷◌, none, some, get_elem?, arith}
use coseq.Types.{Alloc, Module, Ptr}
use coseq.Gather.{coseq_gather, gather_resume}
use coseq.Instance.{Ctx, fresh_ctx, replicate}
use coseq.Instance.Setup.{Pthreads}
use coseq.Wrapper.Source.{Reply, Result}
use coseq.Wrapper.Iface.{gather_all, gather_all_resume}
use coseq.Wrapper.Manager.{
  Sequence, Objects, Manager, SetUp, seq_wrapper, seq_wrapper_fn, manager_setup,
}
use coseq.Wrapper.Laws.{in_cpp, gather_all-coseq_gather, manager_setup_lem, manager_setup_truncates}
use coseq.Fixtures.{plenty, some_fiber, fanned}

abbrev allocs : ℕ → Alloc
allocs i = plenty

abbrev earlier_reply : Reply
earlier_reply = record { req_id = 6; rslt = Result.success; msg = [] }

gather_all-coseq_gather_example :
    (gather_all allocs (fanned 1) ≡ in_cpp [] (coseq_gather allocs (fanned 1)))
    × (gather_all_resume allocs 1 (earlier_reply ∷ []) (fanned 1)
        ≡ in_cpp (earlier_reply ∷ []) (gather_resume allocs 1 (fanned 1)))
gather_all-coseq_gather_example = gather_all-coseq_gather allocs (fanned 1) 1 (earlier_reply ∷ [])

abbrev working : Pthreads
working = record { mutex = λ i. true; cond = λ i. true; create = λ i. true }

abbrev a_sequence : ℕ → Sequence
a_sequence fn = record { seq = fn; name = "work" }

-- Every object has two sequences.
abbrev objects : Objects
objects p = record {
  name = 77 ∷ [];
  que_max = 10;
  idx = 0;
  sequences = a_sequence 70 ∷ a_sequence 71 ∷ [];
  on_receive_notify = 72;
}

abbrev manager : Manager
manager = record { ctx = some fresh_ctx; hold = []; c_seqs = []; c_tbl = [] }

abbrev up : SetUp
up = elim (manager_setup working objects manager (8 ∷ 9 ∷ [])) [
  | none ↦ record { mgr = manager; objs = objects; done = true }
  | some u ↦ u
]

set_up : manager_setup working objects manager (8 ∷ 9 ∷ []) ≡ some up
unfolding manager_setup
set_up = refl

set_up_done : up.done ≡ true
unfolding manager_setup coseq.Instance.Setup.setup
set_up_done = refl

manager_setup_lem_example :
    (c' : Ctx) × (m : Module) × (up.mgr.ctx ≡ some c')
    × (c'.nr_module ≡ 2)
    × (get_elem? c'.modules 1 ≡ some m)
    × (m.nr_seq ≡ 2)
    × (get_elem? m.seqs 1 ≡ some (record { fn = seq_wrapper_fn; name = "work" }))
    × (seq_wrapper up.objs (record { m = m; next_client_id = 0; out = [] }) (some_fiber 3)
        ≡ some 71)
manager_setup_lem_example =
    manager_setup_lem working objects manager fresh_ctx (8 ∷ 9 ∷ []) up 1 9 1 (a_sequence 71)
      (some_fiber 3) 0 refl refl (omega arith) set_up set_up_done refl (omega arith) refl refl

abbrev crowd : List Ptr
crowd = replicate 257 8

manager_setup_truncates_example :
    (u : SetUp) × (c' : Ctx) × (manager_setup working objects manager crowd ≡ some u)
    × (u.done ≡ true)
    × (u.mgr.ctx ≡ some c')
    × (c'.nr_module ≡ 1)
manager_setup_truncates_example =
    manager_setup_truncates working objects manager fresh_ctx crowd 1 refl refl refl (omega arith)
      (λ j. refl) (λ j. refl)
