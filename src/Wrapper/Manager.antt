-- ===== src/Wrapper/Manager.antt =====
-- `module_base` of coseqpp/coseqpp_base.h, and `manager` of coseqpp/coseqpp.cpp.
--
-- Objects are found by pointers, so that a module that stands twice in a vector is one object. A
-- `std::function` and an override of `on_receive_notify` are numbers. Allocation in C++ does not fail.
use Prim.Native.String.{String}
use coseq.Base.{
  ℕ, suc, Bool, List, [], ◌∷◌, Option, none, some, u8, length, take, get_elem?, if◌then◌else◌, ◌==◌,
}
use mathlib.Core.List.{map}
use mathlib.Core.Option
use coseq.Types.{Alloc, Bytes, Fiber, Ptr, Reg, SeqEntry, Thread}
use coseq.Request.{coseq_self_seq, coseq_self_user}
use coseq.Instance.{Ctx, create_coseq}
use coseq.Instance.Mailbox.{request_async, sync_begin, sync_end, SyncResult}
use coseq.Wrapper.Source.{Source, new_source}
use coseq.Instance.Setup.{Pthreads, setup, teardown, destroy}

-- `sequence_t`.
pub record Sequence : Type 0 where
  pub seq : ℕ
  pub name : String

pub record ModuleBase : Type 0 where
  pub name : Bytes
  pub que_max : ℕ
  pub idx : ℕ
  pub sequences : List Sequence
  pub on_receive_notify : ℕ

unfoldable pub new_module : Bytes → ℕ → ℕ → ModuleBase
new_module name que_max on_receive_notify = record {
  name = name;
  que_max = que_max;
  idx = 0;
  sequences = [];
  on_receive_notify = on_receive_notify;
}

unfoldable pub set_sequences : List Sequence → ModuleBase → ModuleBase
set_sequences s mb = record mb { sequences = s }

-- From an array and a number of elements; the array has them.
unfoldable pub set_sequences_array : List Sequence → ℕ → ModuleBase → ModuleBase
set_sequences_array seqs num mb = record mb { sequences = take num seqs }

unfoldable pub reset_sequences : ModuleBase → ModuleBase
reset_sequences mb = record mb { sequences = [] }

abbrev pub Objects : Type 0
Objects = Ptr → ModuleBase

-- The two functions that every module is registered with.
abbrev pub seq_wrapper_fn : ℕ
seq_wrapper_fn = 1

abbrev pub notify_wrapper_fn : ℕ
notify_wrapper_fn = 2

-- The function that runs; `none` if `sequences_[seq_idx]` is past the end.
unfoldable pub dispatch_seq : Objects → Ptr → ℕ → Option ℕ
dispatch_seq objs mb seq_idx =
    Option.map (λ (s : Sequence). s.seq) (get_elem? (objs mb).sequences seq_idx)

unfoldable pub dispatch_notify : Objects → Ptr → ℕ
dispatch_notify objs mb = (objs mb).on_receive_notify

unfoldable pub seq_wrapper : Objects → Thread → Fiber → Option ℕ
unfolding dispatch_seq coseq_self_user coseq_self_seq
seq_wrapper objs t f = dispatch_seq objs (coseq_self_user t) (coseq_self_seq f)

unfoldable pub notify_wrapper : Objects → Thread → ℕ
unfolding dispatch_notify coseq_self_user
notify_wrapper objs t = dispatch_notify objs (coseq_self_user t)

-- `c_seqs` and `c_tbl` own what the C library points to.
pub record Manager : Type 0 where
  pub ctx : Option Ctx
  pub hold : List Ptr
  pub c_seqs : List (List SeqEntry)
  pub c_tbl : List Reg

-- The arguments are those of `create_coseq`.
unfoldable pub new_manager : Bool → Bool → Bool → Manager
unfolding create_coseq
new_manager memory mutex cond = record {
  ctx = create_coseq memory mutex cond;
  hold = [];
  c_seqs = [];
  c_tbl = [];
}

-- `~manager`: the object, and the instance as it is when its memory is freed.
unfoldable pub delete_manager : Manager → Manager × Option Ctx
unfolding destroy
delete_manager mgr = (record mgr { ctx = none }, destroy mgr.ctx)

unfoldable pub seq_entry : Sequence → SeqEntry
seq_entry s = record { fn = seq_wrapper_fn; name = s.name }

unfoldable pub reg_of : Ptr → ModuleBase → Reg
unfolding seq_entry
reg_of p mb = record {
  name = some mb.name;
  nr_que_max = mb.que_max;
  seq_array = map seq_entry mb.sequences;
  nr_seq_max = u8 (length mb.sequences);
  recv_notify = some notify_wrapper_fn;
  user = p;
}

abbrev pub set_idx : Ptr → ℕ → Objects → Objects
set_idx p i objs q = if q == p then record (objs q) { idx = u8 i } else objs q

-- The loop over the modules, from index `i` on: the table, and the objects with their indices.
unfoldable pub tables : ℕ → List Ptr → Objects → List Reg × Objects
unfolding reg_of
tables i [] objs = ([], objs)
tables i (p ∷ ps) objs =
    let rest = tables (suc i) ps (set_idx p i objs) in (reg_of p (objs p) ∷ rest.0, rest.1)

-- What `manager::setup` leaves and returns; `none` is a call through a NULL `ctx_`.
pub record SetUp : Type 0 where
  pub mgr : Manager
  pub objs : Objects
  pub done : Bool

unfoldable pub manager_setup : Pthreads → Objects → Manager → List Ptr → Option SetUp
unfolding tables
manager_setup sys objs mgr modules = elim mgr.ctx [
  | none ↦ none
  | some c ↦
      let made = tables 0 modules objs in
      let r = setup sys c (take (u8 (length modules)) made.0) in
      some (record {
        mgr = record {
          ctx = some r.0;
          hold = modules;
          c_seqs = map (λ (reg : Reg). reg.seq_array) made.0;
          c_tbl = made.0;
        };
        objs = made.1;
        done = r.1;
      })
]

unfoldable pub manager_teardown : Manager → Option Manager
manager_teardown mgr = elim mgr.ctx [
  | none ↦ none
  | some c ↦ some (record mgr { ctx = some (teardown c) })
]

unfoldable pub manager_request_async : Alloc → Manager → ℕ → ℕ → Bytes → Option Manager
manager_request_async a mgr module_idx seq_idx msg = elim mgr.ctx [
  | none ↦ none
  | some c ↦ some (record mgr { ctx = some (request_async a c module_idx seq_idx msg) })
]

-- `request_sync`, up to the wait of `_request_sync` and from its end, and the `source` that it returns.
unfoldable pub manager_sync_begin : Alloc → Manager → ℕ → ℕ → Bytes → Option (Manager × ℕ)
manager_sync_begin a mgr module_idx seq_idx msg = elim mgr.ctx [
  | none ↦ none
  | some c ↦
      let begun = sync_begin a c module_idx seq_idx msg in
      some (record mgr { ctx = some begun.0 }, begun.1)
]

unfoldable pub manager_sync_end : Bool → Ctx → ℕ → ℕ → ℕ → Bytes → Option Source
unfolding new_source
manager_sync_end grown c rid module_idx seq_idx buf =
    Option.map (λ (s : SyncResult). new_source (some s.src))
      (sync_end grown c rid module_idx seq_idx buf)
