-- ===== src/Program/Host.antt =====
-- A module whose sequences are programs: `sched_loop` of coseq/coseq.c with the code of its fibers.
--
-- `Wake` splits a step of the scheduler at the resumption that it ends in: which fiber it resumes, in
-- which state. What the code of that fiber then does is its run from there.
use coseq.Base.{
  ℕ, zero, suc, List, [], ◌∷◌, Option, none, some, if◌then◌else◌, leb, get_elem?, to_u8, ◌==◌,
}
use Prim.Native.String.{String}
use coseq.Time.{Timespec}
use coseq.Types.{Alloc, Ev, EvType, Module, Point, Ptr, Rslt, SeqEntry, Thread, external}
use coseq.Event.{defer_ev}
use coseq.Waiting.{pending_peek, pending_take}
use coseq.Fibers.{find_fiber, new_fiber, ptrs, reap_done}
use coseq.Thread.{on_module, on_fiber}
use coseq.Sequence.{Burst, resume}
use coseq.Scheduler.{
  Turn, queue_reply, source_of_reply, awaits, must_defer, is_due, time_out, splice_deferred,
}
use coseq.Program.{Program, Rest, entry, End, Ran, Env, resume_code}
use coseq.Program.Laws.{is_aborted}

pub data Wake : Type 0 where
  idles : Thread → Wake
  wakes : Ptr → Thread → Wake

unfoldable pub woken_by : Burst → Wake → Thread
woken_by b (idles t) = t
woken_by b (wakes p t) = resume p b t

unfoldable pub wake_reply : Alloc → Ev → Thread → Option Wake
wake_reply a e t = elim (pending_peek t.m e.req_id) [
  | none ↦ some (idles t)
  | some p ↦ elim (find_fiber p t.fibers) [
    | none ↦ none
    | some f ↦
        let u = on_module (λ m. (pending_take m e.req_id).0) t in
        if awaits e f
        then some (wakes f.ptr (on_fiber f.ptr (source_of_reply a e) u))
        else some (idles (on_fiber f.ptr (queue_reply a e) u))
  ]
]

unfoldable pub wake_new : String → Thread → Module × Option Ptr → Wake
wake_new name t (m, none) = idles (record t { m = m })
wake_new name t (m, some p) =
    wakes p (on_fiber p (λ f. record f { seq_name = some name }) (record t { m = m }))

unfoldable pub wake_entry : Alloc → Ev → Thread → Option SeqEntry → Option Wake
unfolding wake_new
wake_entry a e t none = none
wake_entry a e t (some s) = some (
    wake_new s.name t
      (new_fiber a t.m s.fn e.seq_idx e.requester e.req_id e.msg Rslt.ignore (to_u8 e.requester) 0))

unfoldable pub wake_start : Alloc → Ev → Thread → Option Wake
unfolding wake_entry
wake_start a e t =
    if leb t.nr_seq e.seq_idx then some (idles t) else wake_entry a e t (get_elem? t.seqs e.seq_idx)

unfoldable pub wake_notify : Alloc → Ev → Thread → Option ℕ → Wake
unfolding wake_new
wake_notify a e t none = idles t
wake_notify a e t (some fn) =
    wake_new "recv_notify" t
      (new_fiber a t.m fn 0 external 0 e.msg Rslt.success (to_u8 e.requester) e.client_id)

unfoldable pub wake_by_type : Alloc → Ev → Thread → EvType → Option Wake
unfolding wake_start wake_reply wake_notify
wake_by_type a e t EvType.start = wake_start a e t
wake_by_type a e t EvType.reply = wake_reply a e t
wake_by_type a e t EvType.notify = some (wake_notify a e t t.recv_notify)

unfoldable pub wake_event : Alloc → Ev → Thread → Option Wake
unfolding wake_by_type
wake_event a e t =
    if must_defer t.m e
    then some (idles (on_module (λ m. defer_ev m e) t))
    else wake_by_type a e t e.type

unfoldable pub wake_timer : Timespec → Alloc → Ptr → Thread → Wake
wake_timer now a p t = elim (find_fiber p t.fibers) [
  | none ↦ idles t
  | some f ↦ if is_due now t.locked_by f then wakes p (time_out a f t) else idles t
]

-- `code` is what a function pointer stands for, `rests` where the code of a fiber stands.
pub record Host (G : Type 0) : Type 0 where
  pub thread : Thread
  pub globals : G
  pub rests : Ptr → Rest G

-- What one event, or one timer, meets: the outcomes for the scheduler, for a gather in which the
-- fiber waited, and for the calls that the code makes.
pub record Meets : Type 0 where
  pub alloc : Alloc
  pub allocs : ℕ → Alloc
  pub envs : ℕ → Env

-- A fiber that has not run begins with its function.
unfoldable pub standing : {G : Type 0} → (ℕ → Program G) → (Ptr → Rest G) → Ptr → Thread → Rest G
standing code rests p t = elim (find_fiber p t.fibers) [
  | none ↦ rests p
  | some f ↦ elim f.ctx [ Point.entry ↦ entry (code f.fn) | _ ↦ rests p ]
]

unfoldable pub store_rest : {G : Type 0} → Ptr → End G → (Ptr → Rest G) → Ptr → Rest G
store_rest p (End.stopped rest) rests q = if q == p then rest else rests q
store_rest p _ rests q = rests q

-- What a step leaves, and the turn of the scheduler that it was.
pub record Played (G : Type 0) : Type 0 where
  pub host : Host G
  pub turn : Turn

-- `none` if an assertion fails.
abbrev pub after_run : {G : Type 0} → Meets → Ptr → (Ptr → Rest G) → Ran G → Option (Played G)
after_run w p rests r =
    if is_aborted r.end
    then none
    else some (record {
      host = record { thread = r.thread; globals = r.globals; rests = store_rest p r.end rests };
      turn = record { alloc = w.alloc; burst = record { allocs = w.allocs; calls = r.calls } };
    })

unfoldable pub play : {G : Type 0} → (ℕ → Program G) → Meets → Host G → Wake → Option (Played G)
unfolding standing store_rest
play code w h (idles t) = some (record {
  host = record h { thread = t };
  turn = record { alloc = w.alloc; burst = record { allocs = w.allocs; calls = [] } };
})
play code w h (wakes p t) =
    after_run w p h.rests (resume_code p w.allocs w.envs (standing code h.rests p t) h.globals t)

unfoldable pub play_event : {G : Type 0} → (ℕ → Program G) → Meets → Ev → Host G → Option (Played G)
unfolding play wake_event
play_event code w e h = elim (wake_event w.alloc e h.thread) [
  | none ↦ none
  | some k ↦ play code w h k
]

unfoldable pub play_timer :
    {G : Type 0} → (ℕ → Program G) → Timespec → Meets → Ptr → Host G → Option (Played G)
unfolding play wake_timer
play_timer code now w p h = play code w h (wake_timer now w.alloc p h.thread)

-- Several, with the turns in order.
pub record Plays (G : Type 0) : Type 0 where
  pub host : Host G
  pub turns : ℕ → Turn

abbrev pub first_turn : Turn → (ℕ → Turn) → ℕ → Turn
first_turn w ws zero = w
first_turn w ws (suc i) = ws i

abbrev pub before_turns : {G : Type 0} → Turn → Option (Plays G) → Option (Plays G)
before_turns w none = none
before_turns w (some r) = some (record r { turns = first_turn w r.turns })

-- The i-th event meets `meets i`; where there is none, the turns are `spare`.
unfoldable pub play_events :
    {G : Type 0} → (ℕ → Program G) → (ℕ → Turn) → (ℕ → Meets) → List Ev → Host G → Option (Plays G)
unfolding play_event
play_events code spare meets [] h = some (record { host = h; turns = spare })
play_events code spare meets (e ∷ es) h = elim (play_event code (meets 0) e h) [
  | none ↦ none
  | some r ↦ before_turns r.turn (play_events code spare (λ i. meets (suc i)) es r.host)
]

unfoldable pub play_timers :
    {G : Type 0}
    → (ℕ → Program G)
    → Timespec
    → (ℕ → Turn)
    → (ℕ → Meets)
    → List Ptr
    → Host G
    → Option (Plays G)
unfolding play_timer
play_timers code now spare meets [] h = some (record { host = h; turns = spare })
play_timers code now spare meets (p ∷ ps) h = elim (play_timer code now (meets 0) p h) [
  | none ↦ none
  | some r ↦ before_turns r.turn (play_timers code now spare (λ i. meets (suc i)) ps r.host)
]

-- What a round does between the removal of the fibers that are done and the splice: timers, events.
pub record Round (G : Type 0) : Type 0 where
  pub host : Host G
  pub timers : ℕ → Turn
  pub events : ℕ → Turn

unfoldable pub play_work :
    {G : Type 0}
    → (ℕ → Program G)
    → Timespec
    → (ℕ → Turn)
    → (ℕ → Meets)
    → (ℕ → Meets)
    → List Ev
    → Host G
    → Option (Round G)
unfolding play_timers play_events
play_work code now spare tm em evs h =
    elim (play_timers code now spare tm (ptrs h.thread.fibers) h) [
      | none ↦ none
      | some early ↦ elim (play_events code spare em evs early.host) [
        | none ↦ none
        | some late ↦ some (record { host = late.host; timers = early.turns; events = late.turns })
      ]
    ]

abbrev pub on_host : {G : Type 0} → (Thread → Thread) → Host G → Host G
on_host φ h = record h { thread = φ h.thread }

-- A round of `sched_loop` that is not told to stop.
unfoldable pub play_round :
    {G : Type 0}
    → (ℕ → Program G)
    → Timespec
    → (ℕ → Turn)
    → (ℕ → Meets)
    → (ℕ → Meets)
    → Host G
    → Option (Round G)
unfolding play_work
play_round code now spare tm em h =
    let top = on_module splice_deferred h.thread in
    elim (play_work code now spare tm em top.inbox
      (record h { thread = on_module (λ m. record m { inbox = [] }) top })) [
        | none ↦ none
        | some r ↦ some (record r { host = on_host (on_module reap_done) r.host })
      ]
