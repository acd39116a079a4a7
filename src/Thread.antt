-- ===== src/Thread.antt =====
-- Access of the library's functions to the state of the thread that they run on: writes through a
-- fiber pointer, what is done to other threads, and `m->next_req_id++`.
use coseq.Base.{◌+◌, [], ◌∷◌, ◌++◌, u32}
use coseq.Types.{Effect, Fiber, Module, Ptr, Thread}
use coseq.Fibers.{modify_fiber}

abbrev pub on_module : (Module → Module) → Thread → Thread
on_module h t = record t { m = h t.m }

abbrev pub on_fiber : Ptr → (Fiber → Fiber) → Thread → Thread
on_fiber p h t = record t { m = record t.m { fibers = modify_fiber p h t.fibers } }

abbrev pub emit : Effect → Thread → Thread
emit e t = record t { out = t.out ++ e ∷ [] }

abbrev pub bump_req_id : Thread → Thread
bump_req_id t = record t { m = record t.m { next_req_id = u32 (t.next_req_id + 1) } }
