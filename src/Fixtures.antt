-- ===== src/Fixtures.antt =====
-- Concrete states on which the tests run: a module with two sequences, its thread, and fibers.
use coseq.Base.{ℕ, true, false, List, [], ◌∷◌, none, some, pos}
use coseq.Time.{Timespec}
use coseq.Types.{
  Reg, Alloc, Ev, EvType, Fiber, Module, Pending, Point, Ptr, Rslt, SeqEntry, Src, Thread,
}
use coseq.Sequence.{Call}
use coseq.Scheduler.{Turn}

-- Every call succeeds.
abbrev pub plenty : Alloc
plenty = record {
  event = true;
  event_msg = true;
  entry = true;
  src = true;
  reply_rec = true;
  reply_msg = true;
  fiber = true;
  stack = true;
  context = true;
  client = true;
}

-- No call succeeds.
abbrev pub no_memory : Alloc
no_memory = record {
  event = false;
  event_msg = false;
  entry = false;
  src = false;
  reply_rec = false;
  reply_msg = false;
  fiber = false;
  stack = false;
  context = false;
  client = false;
}

abbrev pub at_sec : ℕ → Timespec
at_sec s = record { tv_sec = s; tv_nsec = 0 }

abbrev pub no_src : Src
no_src = record {
  thread_idx = 0;
  seq_idx = 0;
  req_id = 0;
  result = Rslt.ignore;
  client_id = 0;
  msg = [];
}

-- A fiber that runs sequence 1 for module 2.
abbrev pub some_fiber : Ptr → Fiber
some_fiber p = record {
  ptr = p;
  ctx = Point.entry;
  fn = 40;
  seq_idx = 1;
  seq_name = some "work";
  reply_to = pos 2;
  reply_req_id = 77;
  src = no_src;
  src_buf = 0 ∷ 0 ∷ [];
  waiting_reply = false;
  wait_req_id = 0;
  waiting_timer = false;
  deadline = at_sec 0;
  waiting_any = false;
  async_outstanding = pos 0;
  rq = [];
  done = false;
}

-- It waits for the reply to request 5, at most until second 100.
abbrev pub asking : Ptr → Fiber
asking p = record (some_fiber p) {
  ctx = Point.requesting;
  waiting_reply = true;
  wait_req_id = 5;
  waiting_timer = true;
  deadline = at_sec 100;
}

-- It has two requests out and one reply in.
abbrev pub fanned : Ptr → Fiber
fanned p = record (some_fiber p) {
  async_outstanding = pos 2;
  rq = record { req_id = 8; result = Rslt.success; msg = 1 ∷ 2 ∷ 3 ∷ [] } ∷ [];
}

abbrev pub first_seq : SeqEntry
first_seq = record { fn = 40; name = "first" }

abbrev pub second_seq : SeqEntry
second_seq = record { fn = 41; name = "second" }

abbrev pub some_module : Module
some_module = record {
  idx = 1;
  name = 109 ∷ [];
  que_max = 10;
  seqs = first_seq ∷ second_seq ∷ [];
  nr_seq = 2;
  recv_notify = none;
  user = 0;
  th_started = true;
  inbox = [];
  stop = false;
  fibers = [];
  pending = [];
  notify_clients = [];
  next_req_id = 5;
  current = none;
  locked_by = none;
  deferred = [];
  next_ptr = 10;
}

abbrev pub thread_of : Module → Thread
thread_of m = record { m = m; next_client_id = 0; out = [] }

-- A thread with these fibers and entries.
abbrev pub thread_with : List Fiber → List Pending → Thread
thread_with fs ps = thread_of (record some_module { fibers = fs; pending = ps })

abbrev pub entry_for : ℕ → Ptr → Pending
entry_for id p = record { req_id = id; f = p }

abbrev pub start_event : Ev
start_event = record {
  type = EvType.start;
  seq_idx = 1;
  req_id = 30;
  requester = pos 2;
  result = Rslt.ignore;
  category = 0;
  client_id = 0;
  msg = 7 ∷ 8 ∷ [];
}

abbrev pub reply_event : ℕ → Ev
reply_event id = record {
  type = EvType.reply;
  seq_idx = 0;
  req_id = id;
  requester = pos 3;
  result = Rslt.success;
  category = 0;
  client_id = 0;
  msg = 4 ∷ 5 ∷ 6 ∷ [];
}

-- The sequence replies and returns.
abbrev pub answering : Turn
answering = record {
  alloc = plenty;
  burst = record { allocs = λ i. plenty; calls = Call.reply plenty Rslt.success (9 ∷ []) ∷ [] };
}

abbrev pub some_reg : Reg
some_reg = record {
  name = some (109 ∷ []);
  nr_que_max = 10;
  seq_array = first_seq ∷ second_seq ∷ [];
  nr_seq_max = 2;
  recv_notify = none;
  user = 0;
}
