-- ===== src/Types.antt =====
-- The data of coseq/coseq_if.h and coseq/coseq.c: results, sources, events, reply records, fibers,
-- waiting entries, listeners and modules.
--
-- A pointer to a fiber is a number, its `ptr`; fresh fibers get fresh numbers (`next_ptr`), so a
-- pointer to a freed fiber finds nothing. A function pointer and the `user` pointer are numbers. A
-- linked list with its head (and tail) is a List, first element first. A message is its bytes; a NULL
-- message and one of size 0 are both the empty list. Mutexes, condition variables, stacks and machine
-- contexts have no field; of a saved context the model keeps the library call in which it stands.
use Prim.Native.String.{String}
use coseq.Base.{ℕ, Bool, List, Option, ℤ, negsuc}
use coseq.Time.{Timespec}

abbrev pub Bytes : Type 0
Bytes = List ℕ

abbrev pub Ptr : Type 0
Ptr = ℕ

-- EXTERNAL, the requester that is no module: -1.
abbrev pub external : ℤ
external = negsuc 0

pub data Rslt : Type 0 where
  ignore success error req_timeout seq_timeout : Rslt

-- `coseq_src_t`.
pub record Src : Type 0 where
  pub thread_idx : ℕ
  pub seq_idx : ℕ
  pub req_id : ℕ
  pub result : Rslt
  pub client_id : ℕ
  pub msg : Bytes

-- `coseq_seq_t` and `coseq_reg_t`.
pub record SeqEntry : Type 0 where
  pub fn : ℕ
  pub name : String

pub record Reg : Type 0 where
  pub name : Option Bytes
  pub nr_que_max : ℕ
  pub seq_array : List SeqEntry
  pub nr_seq_max : ℕ
  pub recv_notify : Option ℕ
  pub user : ℕ

pub data EvType : Type 0 where
  start reply notify : EvType

pub record Ev : Type 0 where
  pub type : EvType
  pub seq_idx : ℕ
  pub req_id : ℕ
  pub requester : ℤ
  pub result : Rslt
  pub category : ℕ
  pub client_id : ℕ
  pub msg : Bytes

pub record ReplyRec : Type 0 where
  pub req_id : ℕ
  pub result : Rslt
  pub msg : Bytes

-- Where in the library the saved context of a fiber stands: before its first instruction, or in the
-- `swapcontext` of a call. `gathering n` is `coseq_wait_reply` called from `coseq_gather` after `n`
-- replies.
pub data Point : Type 0 where
  entry requesting waiting_one sleeping : Point
  gathering : ℕ → Point

-- `src_buf` has `src_cap` bytes; what `f->src.msg` points to is its first `src.msg.size` bytes, and
-- is written into `src.msg` as well.
pub record Fiber : Type 0 where
  pub ptr : Ptr
  pub ctx : Point
  pub fn : ℕ
  pub seq_idx : ℕ
  pub seq_name : Option String
  pub reply_to : ℤ
  pub reply_req_id : ℕ
  pub src : Src
  pub src_buf : Bytes
  pub waiting_reply : Bool
  pub wait_req_id : ℕ
  pub waiting_timer : Bool
  pub deadline : Timespec
  pub waiting_any : Bool
  pub async_outstanding : ℤ
  pub rq : List ReplyRec
  pub done : Bool

pub record Pending : Type 0 where
  pub req_id : ℕ
  pub f : Ptr

pub record NotifyClient : Type 0 where
  pub category : ℕ
  pub listener_module : ℤ
  pub client_id : ℕ

pub record Module : Type 0 where
  pub idx : ℕ
  pub name : Bytes
  pub que_max : ℕ
  pub seqs : List SeqEntry
  pub nr_seq : ℕ
  pub recv_notify : Option ℕ
  pub user : ℕ
  pub th_started : Bool
  pub inbox : List Ev
  pub stop : Bool
  pub fibers : List Fiber
  pub pending : List Pending
  pub notify_clients : List NotifyClient
  pub next_req_id : ℕ
  pub current : Option Ptr
  pub locked_by : Option Ptr
  pub deferred : List Ev
  pub next_ptr : Ptr

-- What a module's thread does to the rest of the instance: `post` to an inbox, and `ext_deliver`.
pub data Effect : Type 0 where
  post_to : ℤ → Option Ev → Effect
  deliver : ℕ → Rslt → Bytes → Effect

-- A module's thread at work: its module, the instance's client id counter, which
-- `coseq_reg_notify` advances, and what it has done to the rest of the instance, in order.
pub record Thread : Type 0 where
  pub m : Module
  pub open m use *
  pub next_client_id : ℕ
  pub out : List Effect

-- Whether the calls that can fail succeed while one event is handled or one call is served: `calloc`,
-- `malloc` and `realloc` by what they are for, and `getcontext`. Every combination is allowed.
pub record Alloc : Type 0 where
  pub event : Bool
  pub event_msg : Bool
  pub entry : Bool
  pub src : Bool
  pub reply_rec : Bool
  pub reply_msg : Bool
  pub fiber : Bool
  pub stack : Bool
  pub context : Bool
  pub client : Bool
