-- ===== src/Scheduler/Sender.antt =====
-- Whom a reply comes from, according to the source that a sequence is given.
use coseq.Base.{◌≡◌, refl, [], true, to_u8}
use coseq.Types.{Alloc, Ev, Fiber, Point}
use coseq.Fibers.{set_src}
use coseq.Gather.{take_reply, wait_reply}
use coseq.Scheduler.{source_of_reply, queue_reply}

-- A reply that wakes a fiber names its sender in `thread_idx`. The same reply, if it comes before
-- `coseq_wait_reply` and is taken from the queue, has the same id but says that module 0 sent it, as
-- a reply record does not keep the sender.
pub queued_reply_sender :
    (a b : Alloc) (point : Point) (e : Ev) (f : Fiber)
    → f.rq ≡ []
    → b.reply_rec ≡ true
    → let late = source_of_reply b e f in
      let early = (wait_reply a point (queue_reply b e f)).0 in
      (late.src.thread_idx ≡ to_u8 e.requester)
      × (early.src.thread_idx ≡ 0)
      × (early.src.req_id ≡ late.src.req_id)
      × (early.src.result ≡ late.src.result)
unfolding source_of_reply queue_reply wait_reply take_reply set_src
queued_reply_sender a b point e f empty rec = rw (rec, empty) (refl, refl, refl, refl)
