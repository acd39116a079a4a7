-- ===== src/Fibers/Source.antt =====
-- `set_src`: the message a fiber is given, and the bound on the copy.
use coseq.Base.{
  ℕ, ◌≤◌, ◌≡◌, refl, true, false, arith, ◌<◌, ◌⊎◌, lt→ltb, length, take, drop, length-append,
  length-take, length-drop, take-length-append, take-length_self,
}
use mathlib.Core.Path.{subst}
use coseq.Types.{Alloc, Bytes, Fiber, Rslt}
use coseq.Fibers.{copy_over, store_msg, stored_size, set_src}

length-copy_over :
    (msg buf : Bytes) → length msg ≤ length buf → length (copy_over msg buf) ≡ length buf
length-copy_over msg buf h =
    omega (arith, length-append msg (drop (length msg) buf), length-drop (length msg) buf)

take-copy_over-take :
    (n : ℕ) (msg buf : Bytes) → n ≤ length msg → take n (copy_over (take n msg) buf) ≡ take n msg
take-copy_over-take n msg buf h =
    let e : length (take n msg) ≡ n = omega (arith, length-take n msg) in
    subst (λ k. take k (copy_over (take n msg) buf) ≡ take n msg) e
      (take-length-append (take n msg) _)

store_msg_bounds :
    (a : Alloc) (msg buf : Bytes)
    → (stored_size a msg buf ≤ length (store_msg a msg buf))
      × (length buf ≤ length (store_msg a msg buf))
unfolding store_msg stored_size
store_msg_bounds a msg buf = ground (
  arith,
  length-copy_over msg buf,
  length-copy_over (take (length buf) msg) buf,
  length-take (length buf) msg,
)

-- The result, the ids and the indices are those given, whatever becomes of the message; no field that
-- says how the fiber waits is touched.
pub set_src_fields :
    (a : Alloc) (msg : Bytes) (r : Rslt) (thread_idx seq_idx client_id req_id : ℕ) (f : Fiber)
    → let g = set_src a msg r thread_idx seq_idx client_id req_id f in
      (g.src.result ≡ r)
      × (g.src.thread_idx ≡ thread_idx)
      × (g.src.seq_idx ≡ seq_idx)
      × (g.src.client_id ≡ client_id)
      × (g.src.req_id ≡ req_id)
      × (record g { src = f.src; src_buf = f.src_buf } ≡ f)
unfolding set_src
set_src_fields a msg r thread_idx seq_idx client_id req_id f = (refl, refl, refl, refl, refl, refl)

-- If the buffer is large enough or can grow, the fiber gets the whole message.
pub set_src_whole :
    (a : Alloc) (msg : Bytes) (r : Rslt) (thread_idx seq_idx client_id req_id : ℕ) (f : Fiber)
    → (length msg ≤ length f.src_buf) ⊎ (a.src ≡ true)
    → (set_src a msg r thread_idx seq_idx client_id req_id f).src.msg ≡ msg
unfolding set_src
set_src_whole a msg r thread_idx seq_idx client_id req_id f h =
    ground (arith, take-length_self msg, take-length-append msg (drop (length msg) f.src_buf))

-- If the buffer is too small and cannot grow, the fiber gets as much of the front of the message as
-- the buffer holds, and the buffer keeps its size.
pub set_src_truncated :
    (a : Alloc) (msg : Bytes) (r : Rslt) (thread_idx seq_idx client_id req_id : ℕ) (f : Fiber)
    → length f.src_buf < length msg
    → a.src ≡ false
    → let g = set_src a msg r thread_idx seq_idx client_id req_id f in
      (g.src.msg ≡ take (length f.src_buf) msg) × (length g.src_buf ≡ length f.src_buf)
unfolding set_src
set_src_truncated a msg r thread_idx seq_idx client_id req_id f h k =
    rw (lt→ltb _ _ h, k)
      (
        take-copy_over-take (length f.src_buf) msg f.src_buf (omega arith),
        length-copy_over (take (length f.src_buf) msg) f.src_buf
            (omega (arith, length-take (length f.src_buf) msg)),
      )

-- The size that the source reports never exceeds the buffer, and the buffer never shrinks: no copy
-- runs over its end.
pub set_src_bounds :
    (a : Alloc) (msg : Bytes) (r : Rslt) (thread_idx seq_idx client_id req_id : ℕ) (f : Fiber)
    → let g = set_src a msg r thread_idx seq_idx client_id req_id f in
      (stored_size a msg f.src_buf ≤ length g.src_buf)
      × (length g.src.msg ≡ stored_size a msg f.src_buf)
      × (length f.src_buf ≤ length g.src_buf)
unfolding set_src
set_src_bounds a msg r thread_idx seq_idx client_id req_id f =
    let b = store_msg_bounds a msg f.src_buf in
    (
      b.0,
      omega (arith, b.0, length-take (stored_size a msg f.src_buf) (store_msg a msg f.src_buf)),
      b.1,
    )
