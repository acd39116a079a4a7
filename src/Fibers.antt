-- ===== src/Fibers.antt =====
-- Fibers: access through a pointer, `set_src`, `new_fiber` and `reap_done` of coseq/coseq.c.
pub mod Laws
pub mod Source
use coseq.Base.{
  ℕ, suc, List, [], ◌∷◌, ◌++◌, Option, none, some, Bool, true, false, ◌&&◌, if◌then◌else◌, ◌==◌,
  ltb, length, take, drop, ℤ, pos,
}
use coseq.Types.{Alloc, Bytes, Fiber, Module, Point, Ptr, Rslt, Src}

unfoldable pub find_fiber : Ptr → List Fiber → Option Fiber
find_fiber p [] = none
find_fiber p (f ∷ fs) = if f.ptr == p then some f else find_fiber p fs

-- The fibers in the order of the list.
unfoldable pub ptrs : List Fiber → List Ptr
ptrs [] = []
ptrs (f ∷ fs) = f.ptr ∷ ptrs fs

-- Writes through the pointer.
unfoldable pub modify_fiber : Ptr → (Fiber → Fiber) → List Fiber → List Fiber
modify_fiber p h [] = []
modify_fiber p h (f ∷ fs) = (if f.ptr == p then h f else f) ∷ modify_fiber p h fs

-- `memcpy` of the message over the front of the buffer.
abbrev pub copy_over : Bytes → Bytes → Bytes
copy_over msg buf = msg ++ drop (length msg) buf

-- The buffer after the growth and the copy, and the size that is kept: a message that does not fit
-- and for which there is no memory is cut to the buffer.
unfoldable pub store_msg : Alloc → Bytes → Bytes → Bytes
store_msg a msg buf =
    if ltb (length buf) (length msg)
    then (if a.src then msg else copy_over (take (length buf) msg) buf)
    else copy_over msg buf

unfoldable pub stored_size : Alloc → Bytes → Bytes → ℕ
stored_size a msg buf =
    if ltb (length buf) (length msg) then (if a.src then length msg else length buf) else length msg

unfoldable pub set_src : Alloc → Bytes → Rslt → ℕ → ℕ → ℕ → ℕ → Fiber → Fiber
unfolding store_msg stored_size
set_src a msg r thread_idx seq_idx client_id req_id f =
    let buf = store_msg a msg f.src_buf in
    let size = stored_size a msg f.src_buf in
    record f {
      src_buf = buf;
      src = record {
        thread_idx = thread_idx;
        seq_idx = seq_idx;
        req_id = req_id;
        result = r;
        client_id = client_id;
        msg = take size buf;
      };
    }

-- The fiber as `calloc` and the assignments before `set_src` leave it.
unfoldable pub blank_fiber : Ptr → ℕ → ℕ → ℤ → ℕ → Fiber
blank_fiber p fn seq_idx reply_to reply_req_id = record {
  ptr = p;
  ctx = Point.entry;
  fn = fn;
  seq_idx = seq_idx;
  seq_name = none;
  reply_to = reply_to;
  reply_req_id = reply_req_id;
  src = record {
    thread_idx = 0;
    seq_idx = 0;
    req_id = 0;
    result = Rslt.ignore;
    client_id = 0;
    msg = [];
  };
  src_buf = [];
  waiting_reply = false;
  wait_req_id = 0;
  waiting_timer = false;
  deadline = record { tv_sec = 0; tv_nsec = 0 };
  waiting_any = false;
  async_outstanding = pos 0;
  rq = [];
  done = false;
}

-- The new fiber stands first in `fibers`; `none` if it could not be made.
unfoldable pub new_fiber :
    Alloc → Module → ℕ → ℕ → ℤ → ℕ → Bytes → Rslt → ℕ → ℕ → Module × Option Ptr
unfolding blank_fiber
new_fiber a m fn seq_idx reply_to reply_req_id msg r thread_idx client_id =
    if a.fiber && a.stack && a.context
    then (
      record m {
        fibers =
            set_src a msg r thread_idx seq_idx client_id reply_req_id
              (blank_fiber m.next_ptr fn seq_idx reply_to reply_req_id)
            ∷ m.fibers;
        next_ptr = suc m.next_ptr;
      },
      some m.next_ptr,
    )
    else (m, none)

unfoldable pub live_fibers : List Fiber → List Fiber
live_fibers [] = []
live_fibers (f ∷ fs) = if f.done then live_fibers fs else f ∷ live_fibers fs

-- Whether the pointer is one of a fiber that is done.
unfoldable pub is_done : Ptr → List Fiber → Bool
is_done p [] = false
is_done p (f ∷ fs) = if f.ptr == p && f.done then true else is_done p fs

unfoldable pub reap_lock : Option Ptr → List Fiber → Option Ptr
unfolding is_done
reap_lock none fs = none
reap_lock (some p) fs = if is_done p fs then none else some p

unfoldable pub reap_done : Module → Module
unfolding live_fibers reap_lock
reap_done m = record m { fibers = live_fibers m.fibers; locked_by = reap_lock m.locked_by m.fibers }
