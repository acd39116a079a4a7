-- ===== src/Instance/Mailbox.antt =====
-- Requests from threads that are no modules: `ext_deliver`, `_request_sync` and `_request_async` of
-- coseq/coseq.c. `_request_sync` is two steps, up to its wait and from the end of its wait, since the
-- wait releases `ext_mtx`.
use coseq.Base.{
  ℕ, ◌+◌, Bool, true, false, [], Option, none, some, pos, u32, ltb, ◌==◌, if◌then◌else◌, length,
  take,
}
use coseq.Types.{Alloc, Bytes, Effect, EvType, Rslt, Src, external}
use coseq.Event.{make_ev}
use coseq.Fibers.{copy_over}
use coseq.Instance.{Ctx, no_rid, post}

-- `copied` says whether the message can be copied; without memory the reply comes with none.
unfoldable pub ext_deliver : Bool → Ctx → ℕ → Rslt → Bytes → Ctx
ext_deliver copied c req_id r msg =
    if req_id == c.ext_wait_rid
    then record c { ext_result = r; ext_msg = if copied then msg else []; ext_ready = true }
    else c

-- What a module's thread does outside of its module.
unfoldable pub perform : Bool → Ctx → Effect → Ctx
unfolding post ext_deliver
perform copied c (Effect.post_to module_idx e) = post c module_idx e
perform copied c (Effect.deliver req_id r msg) = ext_deliver copied c req_id r msg

abbrev pub bump_ext_id : Ctx → Ctx
bump_ext_id c = record c { ext_id = u32 (c.ext_id + 1) }

-- Up to the wait: the instance, and `rid`.
unfoldable pub sync_begin : Alloc → Ctx → ℕ → ℕ → Bytes → Ctx × ℕ
unfolding make_ev post
sync_begin a c module_idx seq_idx msg =
    let rid = c.ext_id in
    let waiting = record (bump_ext_id c) { ext_wait_rid = rid; ext_ready = false } in
    (
      post waiting (pos module_idx) (make_ev a EvType.start seq_idx rid external Rslt.ignore msg),
      rid,
    )

-- The caller's buffer after it has grown and the reply is copied; `none` if it cannot grow.
unfoldable pub fill : Bool → Bytes → Bytes → Option Bytes
fill grown msg buf =
    if ltb (length buf) (length msg)
    then (if grown then some msg else none)
    else some (copy_over msg buf)

-- What the caller finds: its source, and its buffer.
pub record SyncResult : Type 0 where
  pub ctx : Ctx
  pub buf : Bytes
  pub src : Src

abbrev pub sync_result : Ctx → ℕ → ℕ → ℕ → Bytes → Bytes → SyncResult
sync_result c rid module_idx seq_idx buf msg = record {
  ctx = record c { ext_wait_rid = no_rid; ext_msg = [] };
  buf = buf;
  src = record {
    thread_idx = module_idx;
    seq_idx = seq_idx;
    req_id = rid;
    result = c.ext_result;
    client_id = 0;
    msg = msg;
  };
}

unfoldable pub sync_filled : Ctx → ℕ → ℕ → ℕ → Bytes → Option Bytes → SyncResult
sync_filled c rid module_idx seq_idx buf none = sync_result c rid module_idx seq_idx buf []
sync_filled c rid module_idx seq_idx buf (some b) =
    sync_result c rid module_idx seq_idx b (take (length c.ext_msg) b)

-- From a look at `ext_ready` after the wait: `none` waits on.
unfoldable pub sync_end : Bool → Ctx → ℕ → ℕ → ℕ → Bytes → Option SyncResult
unfolding fill sync_filled
sync_end grown c rid module_idx seq_idx buf =
    if c.ext_ready
    then some (sync_filled c rid module_idx seq_idx buf (fill grown c.ext_msg buf))
    else none

unfoldable pub request_async : Alloc → Ctx → ℕ → ℕ → Bytes → Ctx
unfolding make_ev post
request_async a c module_idx seq_idx msg =
    post (bump_ext_id c) (pos module_idx)
      (make_ev a EvType.start seq_idx c.ext_id external Rslt.ignore msg)
