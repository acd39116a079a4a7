-- ===== src/Wrapper/Laws.antt =====
-- What a C++ program gets from the C library through the wrapper.
use coseq.Base.{
  ℕ, zero, suc, ◌+◌, ◌≤◌, ◌<◌, ◌≡◌, refl, ap, ◌∙◌, sym, List, [], ◌∷◌, ◌++◌, append_assoc, some,
  true, arith, length, get_elem?, take, take-length_self, length-take, u8, ◌&&◌, some_inj,
}
use mathlib.Core.List.{map, map-append}
use mathlib.Core.Option
use coseq.Types.{Alloc, Fiber, Module, Point, Ptr, Reg, Src}
use coseq.Gather.{
  Taken, nothing, parked, got, Gathered, gather_next, gather_loop, rounds, wait_reply, woken,
  coseq_gather, gather_resume,
}
use coseq.Instance.{Ctx, max_module}
use coseq.Instance.Setup.{Pthreads, setup, register}
use coseq.Instance.SetupLoops.{registered, started}
use coseq.Instance.Lifecycle.{setup_lem, setup_succeeds}
use coseq.Wrapper.Source.{Reply}
use coseq.Wrapper.Iface.{
  reply_of, GatheredAll, gather_all_next, gather_all_loop, gather_all, gather_all_resume,
}
use coseq.Wrapper.Manager.{
  Sequence, Objects, Manager, SetUp, seq_wrapper, seq_wrapper_fn, dispatch_seq, seq_entry, reg_of,
  tables, manager_setup,
}
use coseq.Wrapper.Tables.{get_elem?-map, length-tables, tables_at, tables-sequences}

-- A gather in C, as what C++ makes of it after `out`.
abbrev pub in_cpp : List Reply → Gathered → GatheredAll
in_cpp out g = record { fiber = g.fiber; end = g.end; out = out ++ map reply_of g.replies }

gather_all_next_lem :
    (n : ℕ) (out : List Reply) (rs : List Src) (w : Fiber × Taken)
    (next_all : Fiber → List Reply → GatheredAll) (next : Fiber → ℕ → List Src → Gathered)
    → ((g : Fiber) (qs : List Src)
        → next_all g (out ++ map reply_of qs) ≡ in_cpp out (next g (suc n) qs))
    → gather_all_next next_all (out ++ map reply_of rs) w ≡ in_cpp out (gather_next next n rs w)
unfolding gather_all_next gather_next
gather_all_next_lem n out rs (f, nothing) next_all next same = refl
gather_all_next_lem n out rs (f, parked) next_all next same = refl
gather_all_next_lem n out rs (f, got r) next_all next same =
    ap (next_all f) (
      append_assoc out (map reply_of rs) (reply_of r ∷ [])
      ∙ ap (λ x. out ++ x) (sym (map-append reply_of rs (r ∷ []))))
    ∙ same f (rs ++ r ∷ [])

gather_all_loop_lem :
    (k : ℕ) (allocs : ℕ → Alloc) (f : Fiber) (n : ℕ) (out : List Reply) (rs : List Src)
    → gather_all_loop k allocs f n (out ++ map reply_of rs)
      ≡ in_cpp out (gather_loop k allocs f n rs)
unfolding gather_all_loop gather_loop
gather_all_loop_lem zero allocs f n out rs = refl
gather_all_loop_lem (suc k) allocs f n out rs =
    gather_all_next_lem n out rs (wait_reply (allocs 0) (Point.gathering n) f)
      (λ g out'. gather_all_loop k (λ i. allocs (suc i)) g (suc n) out')
      (gather_loop k (λ i. allocs (suc i)))
      (λ g qs. gather_all_loop_lem k (λ i. allocs (suc i)) g (suc n) out qs)

-- `gather_all` in C++ is `coseq_gather` in C: the fiber comes to the same state and waits or returns at
-- the same place, both at first and after each wait; and the vector holds, in the order in which C
-- gives replies to its callback, the id, the result and a copy of the bytes of each.
pub gather_all-coseq_gather :
    (allocs : ℕ → Alloc) (f : Fiber) (n : ℕ) (out : List Reply)
    → (gather_all allocs f ≡ in_cpp [] (coseq_gather allocs f))
      × (gather_all_resume allocs n out f ≡ in_cpp out (gather_resume allocs n f))
unfolding gather_all coseq_gather gather_all_resume gather_resume
gather_all-coseq_gather allocs f n out = (
  gather_all_loop_lem (rounds f.rq) allocs f 0 [] [],
  gather_all_loop_lem (rounds f.rq) allocs (woken f) (suc n) out (f.src ∷ []),
)

-- The table of at most 255 modules goes to the C library as a whole.
whole_table :
    (modules : List Ptr) (objs : Objects)
    → length modules < 256
    → take (u8 (length modules)) (tables 0 modules objs).0 ≡ (tables 0 modules objs).0
whole_table modules objs few =
    ap (λ n. take n (tables 0 modules objs).0) (omega (arith, length-tables 0 modules objs))
    ∙ take-length_self (tables 0 modules objs).0

-- What `manager::setup` leaves if `tbl` of its table goes to the C library.
abbrev set_up : Pthreads → Objects → Ctx → List Ptr → List Reg → SetUp
set_up sys objs c modules tbl =
    let made = tables 0 modules objs in
    let r = setup sys c tbl in
    record {
      mgr = record {
        ctx = some r.0;
        hold = modules;
        c_seqs = map (λ (reg : Reg). reg.seq_array) made.0;
        c_tbl = made.0;
      };
      objs = made.1;
      done = r.1;
    }

manager_setup_whole :
    (sys : Pthreads) (objs : Objects) (mgr : Manager) (c : Ctx) (modules : List Ptr)
    → mgr.ctx ≡ some c
    → length modules < 256
    → manager_setup sys objs mgr modules
      ≡ some (set_up sys objs c modules (tables 0 modules objs).0)
unfolding manager_setup
manager_setup_whole sys objs mgr c modules e few = rw (e, whole_table modules objs few)

-- After a setup of at most 32 modules that succeeds: the C module at a module's index has its
-- sequences under their names, all with the one wrapper function, and on that C module the wrapper
-- runs, for a fiber of sequence `k`, the `k`th sequence of that C++ object.
pub manager_setup_lem :
    (sys : Pthreads) (objs : Objects) (mgr : Manager) (c : Ctx) (modules : List Ptr) (up : SetUp)
    (i : ℕ) (p : Ptr) (k : ℕ) (s : Sequence) (f : Fiber) (next : ℕ)
    → mgr.ctx ≡ some c
    → length c.modules ≡ max_module
    → length modules ≤ max_module
    → manager_setup sys objs mgr modules ≡ some up
    → up.done ≡ true
    → get_elem? modules i ≡ some p
    → length (objs p).sequences < 256
    → get_elem? (objs p).sequences k ≡ some s
    → f.seq_idx ≡ k
    → (c' : Ctx) × (m : Module) × (up.mgr.ctx ≡ some c')
      × (c'.nr_module ≡ length modules)
      × (get_elem? c'.modules i ≡ some m)
      × (m.nr_seq ≡ length (objs p).sequences)
      × (get_elem? m.seqs k ≡ some (record { fn = seq_wrapper_fn; name = s.name }))
      × (seq_wrapper up.objs (record { m = m; next_client_id = next; out = [] }) f ≡ some s.seq)
unfolding reg_of register seq_wrapper seq_entry
manager_setup_lem sys objs mgr c modules up i p k s f next e room few set done at_i short at_k
      runs =
    let tbl : List Reg = (tables 0 modules objs).0 in
    let same : set_up sys objs c modules tbl ≡ up =
      some_inj (sym (manager_setup_whole sys objs mgr c modules e (omega arith)) ∙ set) in
    let all = setup_lem sys c tbl room (ap (λ (u : SetUp). u.done) same ∙ done) in
    (
      (setup sys c tbl).0,
      started (registered i (reg_of p (objs p))),
      ap (λ (u : SetUp). u.mgr.ctx) (sym same),
      all.1 ∙ length-tables 0 modules objs,
      all.2 i (reg_of p (objs p)) (tables_at 0 modules objs i p at_i),
      omega arith,
      get_elem?-map seq_entry (objs p).sequences k s at_k,
      ap (λ (u : SetUp). dispatch_seq u.objs p f.seq_idx) (sym same)
          ∙ ap (λ n. dispatch_seq (tables 0 modules objs).1 p n) runs
          ∙ ap (λ xs. Option.map (λ (x : Sequence). x.seq) (get_elem? xs k))
              (tables-sequences 0 modules objs p)
          ∙ ap (Option.map (λ (x : Sequence). x.seq)) at_k,
    )

-- A vector of 256 modules and `k` more, `k` at most 32: if all calls into pthreads succeed, the setup
-- reports success, but only the first `k` modules are there.
pub manager_setup_truncates :
    (sys : Pthreads) (objs : Objects) (mgr : Manager) (c : Ctx) (modules : List Ptr) (k : ℕ)
    → mgr.ctx ≡ some c
    → length c.modules ≡ max_module
    → length modules ≡ 256 + k
    → k ≤ max_module
    → ((j : ℕ) → (sys.mutex j && sys.cond j) ≡ true)
    → ((j : ℕ) → sys.create j ≡ true)
    → (up : SetUp) × (c' : Ctx) × (manager_setup sys objs mgr modules ≡ some up)
      × (up.done ≡ true)
      × (up.mgr.ctx ≡ some c')
      × (c'.nr_module ≡ k)
unfolding manager_setup
manager_setup_truncates sys objs mgr c modules k e room many few ok_init ok_create =
    let made = tables 0 modules objs in
    let tbl : List Reg = take (u8 (length modules)) made.0 in
    let short : length tbl ≡ k =
      length-take (u8 (length modules)) made.0 ∙ omega (arith, length-tables 0 modules objs) in
    let works = setup_succeeds sys c tbl (omega arith) ok_init ok_create in
    (
      set_up sys objs c modules tbl,
      (setup sys c tbl).0,
      rw e,
      works,
      refl,
      (setup_lem sys c tbl room works).1 ∙ short,
    )
