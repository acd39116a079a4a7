-- ===== src/Instance/Sync.antt =====
-- What a caller of `request_sync` is given.
use coseq.Base.{
  false, ◌⊎◌, ◌≤◌, none, ℕ, ◌+◌, ◌^◌, ◌<◌, ◌≡◌, ◌≢◌, refl, ap, sym, ◌∙◌, ==_refl, [], Bool, true,
  Option, some, arith, ltb, if◌then◌else◌, length, take-length_self, take-length-append, drop,
  Bool-cases, inl, inr, u32,
}
use mathlib.Core.Option
use coseq.Types.{Alloc, Bytes, Rslt, Src}
use coseq.Event.{make_ev}
use coseq.Instance.{Ctx, post}
use coseq.Instance.Mailbox.{ext_deliver, sync_begin, sync_end, SyncResult}

-- The ids of a request that begins: it waits for the counter's value, and the counter goes on.
pub sync_begin_ids :
    (a : Alloc) (c : Ctx) (module_idx seq_idx : ℕ) (msg : Bytes)
    → let begun = sync_begin a c module_idx seq_idx msg in
      (begun.1 ≡ c.ext_id)
      × (begun.0.ext_wait_rid ≡ c.ext_id)
      × (begun.0.ext_id ≡ u32 (c.ext_id + 1))
unfolding sync_begin
sync_begin_ids a c module_idx seq_idx msg = ground arith

-- A reply under another id than the one that is waited for changes nothing: replies to
-- `request_async`, and second replies to a request that is over, are dropped.
pub ext_deliver_other :
    (copied : Bool) (c : Ctx) (req_id : ℕ) (r : Rslt) (msg : Bytes)
    → req_id ≢ c.ext_wait_rid
    → ext_deliver copied c req_id r msg ≡ c
unfolding ext_deliver
ext_deliver_other copied c req_id r msg h = ground arith

awaited :
    (copied : Bool) (c : Ctx) (r : Rslt) (msg : Bytes)
    → ext_deliver copied c c.ext_wait_rid r msg
      ≡ record c { ext_result = r; ext_msg = if copied then msg else []; ext_ready = true }
unfolding ext_deliver
awaited copied c r msg = rw (==_refl c.ext_wait_rid)

-- What the caller sees.
abbrev pub outcome : Option SyncResult → Option Src
outcome = Option.map (λ (s : SyncResult). s.src)

sync_end_ready :
    (c : Ctx) (rid module_idx seq_idx : ℕ) (buf : Bytes)
    → c.ext_ready ≡ true
    → outcome (sync_end true c rid module_idx seq_idx buf)
      ≡ some (record {
        thread_idx = module_idx;
        seq_idx = seq_idx;
        req_id = rid;
        result = c.ext_result;
        client_id = 0;
        msg = c.ext_msg;
      })
unfolding sync_end
sync_end_ready c rid module_idx seq_idx buf h =
    rw h (elim (Bool-cases (ltb (length buf) (length c.ext_msg))) [
      | inl short ↦ rw short (rw (take-length_self c.ext_msg))
      | inr fits ↦ rw fits (rw (take-length-append c.ext_msg (drop (length c.ext_msg) buf)))
    ])

-- A caller that waits for an id gets, given memory, from the reply under that id, its result and all its bytes,
-- under the id, the module and the sequence that it asked, whatever its buffer held before.
pub request_sync_lem :
    (c : Ctx) (module_idx seq_idx : ℕ) (r : Rslt) (reply buf : Bytes)
    → outcome (
        sync_end true
          (ext_deliver true c c.ext_wait_rid r reply)
          c.ext_wait_rid
          module_idx
          seq_idx
          buf)
      ≡ some (record {
        thread_idx = module_idx;
        seq_idx = seq_idx;
        req_id = c.ext_wait_rid;
        result = r;
        client_id = 0;
        msg = reply;
      })
request_sync_lem c module_idx seq_idx r reply buf =
    ap (λ x. outcome (sync_end true x c.ext_wait_rid module_idx seq_idx buf))
      (awaited true c r reply)
    ∙ sync_end_ready (record c { ext_result = r; ext_msg = reply; ext_ready = true }) c.ext_wait_rid
        module_idx seq_idx buf refl

-- A call whose event cannot be made, or that names no module, asks nobody, and waits all the same: no
-- module has changed, and the caller finds no answer but waits for one under its id.
pub request_sync_lost :
    (a : Alloc) (c : Ctx) (module_idx seq_idx : ℕ) (msg : Bytes) (grown : Bool) (buf : Bytes)
    → (c.nr_module ≤ module_idx) ⊎ (a.event ≡ false)
    → let begun = sync_begin a c module_idx seq_idx msg in
      (begun.0.modules ≡ c.modules)
      × (begun.0.ext_wait_rid ≡ begun.1)
      × (sync_end grown begun.0 begun.1 module_idx seq_idx buf ≡ none)
unfolding sync_begin sync_end make_ev post
request_sync_lost a c module_idx seq_idx msg grown buf (inl invalid) =
    let no : ltb module_idx c.nr_module ≡ false = ground arith in
    elim (Bool-cases a.event) [
      | inl made ↦ rw (made, no) (refl, refl, refl)
      | inr lost ↦ rw lost (refl, refl, refl)
    ]
request_sync_lost a c module_idx seq_idx msg grown buf (inr lost) = rw lost (refl, refl, refl)

-- Two callers: the second begins while the first waits. The reply to the first is dropped, and the
-- reply to the second, if the first wakes on it, is what the first returns, under its own id.
pub request_sync_overtaken :
    (a b : Alloc) (c : Ctx) (mi si mi' si' : ℕ) (msg msg' : Bytes) (r r' : Rslt)
    (reply reply' buf : Bytes)
    → c.ext_id < 2 ^ 32
    → let first = sync_begin a c mi si msg in
      let second = sync_begin b first.0 mi' si' msg' in
      (ext_deliver true second.0 first.1 r reply ≡ second.0)
      × (outcome (sync_end true (ext_deliver true second.0 second.1 r' reply') first.1 mi si buf)
          ≡ some (record {
            thread_idx = mi;
            seq_idx = si;
            req_id = first.1;
            result = r';
            client_id = 0;
            msg = reply';
          }))
request_sync_overtaken a b c mi si mi' si' msg msg' r r' reply reply' buf h =
    let first : Ctx × ℕ = sync_begin a c mi si msg in
    let second : Ctx × ℕ = sync_begin b first.0 mi' si' msg' in
    let i = sync_begin_ids a c mi si msg in
    let j = sync_begin_ids b first.0 mi' si' msg' in
    let waits : second.1 ≡ second.0.ext_wait_rid = j.0 ∙ sym j.1 in
    (
      ext_deliver_other true second.0 first.1 r reply (λ e. omega (arith, e, i.0, i.2, j.1)),
      ap (λ k. outcome (sync_end true (ext_deliver true second.0 k r' reply') first.1 mi si buf))
            waits
          ∙ ap (λ x. outcome (sync_end true x first.1 mi si buf)) (awaited true second.0 r' reply')
          ∙ sync_end_ready (record second.0 { ext_result = r'; ext_msg = reply'; ext_ready = true })
              first.1 mi si buf refl,
    )
