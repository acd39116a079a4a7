-- ===== src/Scheduler/Exchange.antt =====
-- From a request to the reply that ends it, over the states of both modules in which its steps happen.
use coseq.Base.{
  ℕ, ◌<◌, ◌≡◌, refl, ap, ◌∙◌, [], ◌∷◌, ◌++◌, some, true, inr, pos, to_u8, get_elem?, ==_refl,
}
use mathlib.Core.Option
use coseq.Types.{Alloc, Bytes, Effect, Ev, EvType, Fiber, Rslt, SeqEntry, Thread}
use coseq.Event.{make_ev}
use coseq.Waiting.{pending_peek}
use coseq.Fibers.{find_fiber}
use coseq.Thread.{on_fiber}
use coseq.Request.{coseq_request, coseq_reply}
use coseq.Sequence.{resume}
use coseq.Scheduler.{Turn, awaits, source_of_reply, handle_reply, start_sequence}
use coseq.Scheduler.Parts.{taken}
use coseq.Scheduler.Routing.{start_ev, coseq_request_lem, handle_reply_wakes}
use coseq.Scheduler.Start.{starting, start_sequence_lem}

-- The event of a reply `answer` of a module with index `idx` to request `id`.
abbrev pub answer_ev : ℕ → ℕ → Rslt → Bytes → Ev
answer_ev idx id r answer = record {
  type = EvType.reply;
  seq_idx = 0;
  req_id = id;
  requester = pos idx;
  result = r;
  category = 0;
  client_id = 0;
  msg = answer;
}

coseq_reply-module :
    (b : Alloc) (u : Thread) (g : Fiber) (idx id : ℕ) (r : Rslt) (answer : Bytes)
    → g.reply_to ≡ pos idx
    → g.reply_req_id ≡ id
    → b.event ≡ true
    → b.event_msg ≡ true
    → (coseq_reply b u g r answer).out
      ≡ u.out ++ Effect.post_to (pos idx) (some (answer_ev u.idx id r answer)) ∷ []
unfolding coseq_reply make_ev
coseq_reply-module b u g idx id r answer to under made copied = rw (to, under, made, copied)

-- Fiber `p` waits for request `id`.
pub record Waits (p id : ℕ) (t : Thread) : Type 0 where
  pub fiber : Fiber
  pub there : find_fiber p t.fibers ≡ some fiber
  pub asks : fiber.waiting_reply ≡ true
  pub asks_id : fiber.wait_req_id ≡ id
  pub known : pending_peek t.m id ≡ some p

Waits-awaits :
    (p id : ℕ) (t : Thread) (l : Waits p id t) (e : Ev) → e.req_id ≡ id → awaits e l.fiber ≡ true
Waits-awaits p id t l e for_it = rw (l.asks, l.asks_id, for_it) (rw (==_refl id))

-- A fiber `f` of a module `t` asks sequence `s` of the module `u`, with memory at each step. The START event
-- that is posted starts a fiber there; whenever a fiber with that one's reply address replies, the reply is
-- posted to the module that asked. The request leaves the fiber waiting for its id; and in any state
-- `t'` of its module in which it still waits for that id, the reply that comes runs it, with a source that holds the result
-- and the bytes of the reply, under the id of the request, from the module that was asked.
pub request_reply :
    (a : Alloc) (t : Thread) (f : Fiber) (seq_idx : ℕ) (msg : Bytes) (w : Turn) (u : Thread)
    (s : SeqEntry) (b : Alloc) (u' : Thread) (g' : Fiber) (r : Rslt) (answer : Bytes) (v : Turn)
    (t' : Thread) (l : Waits f.ptr t.next_req_id t')
    → (entry_made : a.entry ≡ true) (event_made : a.event ≡ true) (msg_copied : a.event_msg ≡ true)
      (there : find_fiber f.ptr t.fibers ≡ some f)
    → seq_idx < u.nr_seq
    → get_elem? u.seqs seq_idx ≡ some s
    → w.alloc.fiber ≡ true
    → w.alloc.stack ≡ true
    → w.alloc.context ≡ true
    → w.alloc.src ≡ true
    → ((g : Fiber)
        → find_fiber u.next_ptr
            (starting w
              (start_ev a t f u.idx seq_idx msg entry_made event_made msg_copied there)
              u
              s).fibers
          ≡ some g
        → (g'.reply_to ≡ g.reply_to) × (g'.reply_req_id ≡ g.reply_req_id))
    → u'.idx ≡ u.idx
    → b.event ≡ true
    → b.event_msg ≡ true
    → v.alloc.src ≡ true
    → let asked = coseq_request a t f u.idx seq_idx msg in
      let start = start_ev a t f u.idx seq_idx msg entry_made event_made msg_copied there in
      let reply = answer_ev u.idx t.next_req_id r answer in
      let woken = on_fiber f.ptr (source_of_reply v.alloc reply) (taken reply t') in
      (asked.out ≡ t.out ++ Effect.post_to (pos u.idx) (some start) ∷ [])
      × Waits f.ptr t.next_req_id asked
      × (start_sequence w start u ≡ some (resume u.next_ptr w.burst (starting w start u s)))
      × ((coseq_reply b u' g' r answer).out
          ≡ u'.out ++ Effect.post_to (pos t.idx) (some reply) ∷ [])
      × (handle_reply v reply t' ≡ some (resume f.ptr v.burst woken))
      × (Option.map (λ (x : Fiber). x.src) (find_fiber f.ptr woken.fibers)
          ≡ some (record {
            thread_idx = to_u8 (pos u.idx);
            seq_idx = l.fiber.seq_idx;
            req_id = t.next_req_id;
            result = r;
            client_id = 0;
            msg = answer;
          }))
request_reply a t f seq_idx msg w u s b u' g' r answer v t' l entry_made event_made msg_copied there
      valid at fiber stack context src address same made copied memory =
    let start = start_ev a t f u.idx seq_idx msg entry_made event_made msg_copied there in
    let reply = answer_ev u.idx t.next_req_id r answer in
    let (posted, known, parked) =
      coseq_request_lem a t f u.idx seq_idx msg entry_made event_made msg_copied there in
    let (starts, started) = start_sequence_lem w start u s valid at fiber stack context src in
    let (g, found, _, _, to, under, _) = started in
    let (to', under') = address g found in
    let woken =
      handle_reply_wakes v reply t' f.ptr l.fiber l.known l.there
        (Waits-awaits f.ptr t.next_req_id t' l reply refl) (inr memory) in
    (
      posted,
      record { fiber = _; there = parked; asks = refl; asks_id = refl; known = known },
      starts,
      coseq_reply-module b u' g' t.idx t.next_req_id r answer (to' ∙ to) (under' ∙ under) made
            copied
          ∙ ap
              (λ i.
                u'.out
                ++ Effect.post_to (pos t.idx) (some (answer_ev i t.next_req_id r answer)) ∷ [])
              same,
      woken.0,
      woken.1,
    )
