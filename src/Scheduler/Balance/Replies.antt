-- ===== src/Scheduler/Balance/Replies.antt =====
-- A reply that comes keeps the accounts of all fibers.
use coseq.Base.{
  ℕ, ◌+◌, ◌^◌, ◌≤◌, ◌<◌, ◌≡◌, refl, ap, ◌∙◌, List, [], ◌∷◌, Option, none, some, true, false, arith,
  length, length-append, if◌then◌else◌, Bool-cases, Option-cases, inl, inr, ◌||◌, some_inj,
}
use mathlib.Core.Path.{subst}
use coseq.Types.{Alloc, Ev, Fiber, Pending, Ptr, Thread}
use coseq.Waiting.{peek, unlink, pending_peek, pending_take}
use coseq.Waiting.Laws.{count_for, count_for-unlink, count_for-unlink_le, peek-unlink_ne}
use coseq.Fibers.{find_fiber, set_src}
use coseq.Fibers.Laws.{find_fiber-ptr, find_fiber-write}
use coseq.Thread.{on_module, on_fiber}
use coseq.Sequence.Ids.{IsBelow-unlink, AreDistinct-unlink}
use coseq.Scheduler.{Turn, queue_reply, source_of_reply, awaits, deliver_reply, handle_reply}
use coseq.Scheduler.Parts.{taken, handle_reply_found, handle_reply_unknown, handle_reply_freed}
use coseq.Scheduler.Balance.{blocked, finds, is_coherent, Covers, Book, Books, nobody}
use coseq.Scheduler.Balance.Entries.{Book-take}
use coseq.Scheduler.Balance.Bursts.{join-Books, split-Books, write-Books, due, Ready, resume-Books}
use coseq.Scheduler.Balance.Counter.{resume_counter}

pub take-Books :
    (id : ℕ) (t : Thread) → Books nobody t → Books nobody (on_module (λ m. (pending_take m id).0) t)
unfolding pending_take
take-Books id t b = record {
  book = λ q g _ e. Book-take g id t.pending t.next_req_id (b.book q g refl e);
  fresh = λ q le. omega (arith, count_for-unlink_le q id t.pending, b.fresh q le);
  order = b.order;
  below = IsBelow-unlink t.next_req_id id t.pending b.below;
  distinct = AreDistinct-unlink id t.pending b.distinct;
}

pub finds_le : (r : Option Ptr) (p : Ptr) → finds r p ≤ 1
finds_le none p = omega arith
finds_le (some q) p = ground arith

pub blocked_le : (f : Fiber) (ps : List Pending) → blocked f ps ≤ 1
blocked_le f ps = ground (arith, finds_le (peek f.wait_req_id ps) f.ptr)

-- A fiber that waits in `coseq_wait_reply` does not wait for one request, and one that waits for a
-- request is not in `coseq_wait_reply`.
pub any_here :
    (f : Fiber)
    → is_coherent f ≡ true
    → f.waiting_any ≡ true
    → (due f.ctx ≡ 1) × (f.waiting_reply ≡ false) × (f.done ≡ false)
any_here f h any = (ground arith, ground arith, ground arith)

pub one_here :
    (f : Fiber)
    → is_coherent f ≡ true
    → f.waiting_any ≡ false
    → (f.waiting_reply || f.waiting_timer) ≡ true
    → (due f.ctx ≡ 0) × (f.done ≡ false)
one_here f h any one = (ground arith, ground arith)

-- A fiber that the reply wakes.
pub woken-Covers :
    (e : Ev) (f : Fiber) (ps : List Pending) (next c : ℕ)
    → Book f ps next
    → awaits e f ≡ true
    → c + 1 ≡ count_for f.ptr ps
    → Covers (due f.ctx + c) f × (f.done ≡ false)
woken-Covers e f ps next c b now one = elim (Bool-cases f.waiting_any) [
  | inl any ↦
      let (d, reply, alive) = any_here f b.coherent any in
      let none_blocked : blocked f ps ≡ 0 = rw reply in
      ((b.owed.0, b.owed.1, omega (arith, b.owed.2, none_blocked, d, one)), alive)
  | inr not_any ↦
      let (d, alive) = one_here f b.coherent not_any (ground arith) in
      ((b.owed.0, b.owed.1, omega (arith, b.owed.2, blocked_le f ps, d, one)), alive)
]

-- A fiber that it does not wake.
queued-Book :
    (a : Alloc) (e : Ev) (f : Fiber) (ps : List Pending) (next : ℕ)
    → Book f ps next
    → awaits e f ≡ false
    → count_for f.ptr (unlink e.req_id ps) + 1 ≡ count_for f.ptr ps
    → Book (queue_reply a e f) (unlink e.req_id ps) next
unfolding queue_reply
queued-Book a e f ps next b later one = elim (Bool-cases a.reply_rec) [
  | inl kept ↦ rw kept (record {
    owed = (
      b.owed.0,
      b.owed.1,
      omega (
        arith,
        b.owed.2,
        same,
        one,
        length-append f.rq (
            record { req_id = e.req_id; result = e.result; msg = if a.reply_msg then e.msg else [] }
            ∷ []),
      ),
    );
    coherent = b.coherent;
    wait = b.wait;
  })
  | inr lost ↦ rw lost (record {
    owed = (b.owed.0, b.owed.1, omega (arith, b.owed.2, same, one));
    coherent = b.coherent;
    wait = b.wait;
  })
]
  where
    same : blocked f (unlink e.req_id ps) ≡ blocked f ps
    same = ground (arith, peek-unlink_ne e.req_id f.wait_req_id ps)

known_fiber :
    (id : ℕ) (t : Thread) (p : Ptr) (f : Fiber)
    → peek id t.pending ≡ some p
    → find_fiber p t.fibers ≡ some f
    → count_for f.ptr (unlink id t.pending) + 1 ≡ count_for f.ptr t.pending
known_fiber id t p f known here =
    let at = find_fiber-ptr p t.fibers f here in
    ground (arith, count_for-unlink f.ptr p id t.pending known)

-- The counter, before and after `n` calls.
abbrev pub Kept : ℕ → Thread → Thread → Type 0
Kept n t t' = Books nobody t' × (t'.next_req_id ≤ t.next_req_id + n)

deliver_reply-Kept :
    (w : Turn) (e : Ev) (t : Thread) (p : Ptr) (f : Fiber)
    → Books nobody t
    → peek e.req_id t.pending ≡ some p
    → find_fiber p t.fibers ≡ some f
    → t.next_req_id + length w.burst.calls < 2 ^ 32
    → Kept (length w.burst.calls) t (deliver_reply w e f (taken e t))
unfolding deliver_reply pending_take source_of_reply set_src queue_reply
deliver_reply-Kept w e t p f b known here room = elim (Bool-cases (awaits e f)) [
  | inl now ↦
      let (cov, alive) =
        woken-Covers e f t.pending t.next_req_id (count_for f.ptr (unlink e.req_id t.pending)) mine
          now one in
      let others =
        write-Books f.ptr (source_of_reply w.alloc e) (taken e t) (λ g h. h)
          (split-Books f.ptr (taken e t) less) in
      let ready : Ready f.ptr (source_of_reply w.alloc e f)
          (on_fiber f.ptr (source_of_reply w.alloc e) (taken e t)) =
        record {
          others = others;
          there = find_fiber-write f.ptr (source_of_reply w.alloc e) t.fibers f (λ g h. h) there;
          covers = cov;
          alive = alive;
        } in
      rw now (
        resume-Books f.ptr w.burst _ _ ready room,
        resume_counter f.ptr w.burst (on_fiber f.ptr (source_of_reply w.alloc e) (taken e t)) room,
      )
  | inr later ↦ rw later (
    join-Books f.ptr (on_fiber f.ptr (queue_reply w.alloc e) (taken e t)) (queue_reply w.alloc e f)
        (write-Books f.ptr (queue_reply w.alloc e) (taken e t) (λ g h. ground arith)
          (split-Books f.ptr (taken e t) less))
        (find_fiber-write f.ptr (queue_reply w.alloc e) t.fibers f (λ g h. ground arith) there)
        (queued-Book w.alloc e f t.pending t.next_req_id mine later one),
    omega arith,
  )
]
  where
    at : f.ptr ≡ p
    at = find_fiber-ptr p t.fibers f here

    there : find_fiber f.ptr t.fibers ≡ some f
    there = ap (λ q. find_fiber q t.fibers) at ∙ here

    one : count_for f.ptr (unlink e.req_id t.pending) + 1 ≡ count_for f.ptr t.pending
    one = known_fiber e.req_id t p f known here

    mine : Book f t.pending t.next_req_id
    mine = b.book f.ptr f refl there

    less : Books nobody (taken e t)
    less = take-Books e.req_id t b

-- Whatever comes out, if anything does.
abbrev pub Keeps : ℕ → Thread → Option Thread → Type 0
Keeps n t r = (t' : Thread) → r ≡ some t' → Kept n t t'

pub Keeps-some : (n : ℕ) (t t' : Thread) → Kept n t t' → Keeps n t (some t')
Keeps-some n t t' k u e = subst (Kept n t) (some_inj e) k

pub Kept-same : (n : ℕ) (t : Thread) → Books nobody t → Kept n t t
Kept-same n t b = (b, omega arith)

pub Keeps-none : (n : ℕ) (t : Thread) → Keeps n t none
Keeps-none n t u e = absurd (ground arith)

pub handle_reply-Keeps :
    (w : Turn) (e : Ev) (t : Thread)
    → Books nobody t
    → t.next_req_id + length w.burst.calls < 2 ^ 32
    → Keeps (length w.burst.calls) t (handle_reply w e t)
unfolding pending_peek
handle_reply-Keeps w e t b room = elim (Option-cases (peek e.req_id t.pending)) [
  | inl unknown ↦ rw (handle_reply_unknown w e t unknown) (Keeps-some _ t t (Kept-same _ t b))
  | inr (p, known) ↦ elim (Option-cases (find_fiber p t.fibers)) [
    | inl freed ↦ rw (handle_reply_freed w e t p known freed) (Keeps-none _ t)
    | inr (f, here) ↦
        rw (handle_reply_found w e t p f known here)
          (Keeps-some _ t _ (deliver_reply-Kept w e t p f b known here room))
  ]
]
