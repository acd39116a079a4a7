-- ===== src/Program/Steps.antt =====
-- How a module whose sequences are programs goes on at an event: a START event runs the code of a new
-- fiber, a reply the rest of the code that asked.
use coseq.Base.{
  List, ℕ, suc, ◌<◌, ◌≡◌, ◌⊎◌, inl, inr, refl, ap, ◌∙◌, [], ◌∷◌, none, some, true, false, get_elem?,
  leb_of_lt,
}
use coseq.Types.{Alloc, Ev, EvType, Fiber, Point, Ptr, SeqEntry, Thread}
use coseq.Waiting.{peek, pending_peek, pending_take}
use coseq.Fibers.{find_fiber, new_fiber, set_src, blank_fiber}
use coseq.Fibers.Laws.{find_fiber-write, find_fiber-ptr}
use coseq.Thread.{on_module, on_fiber}
use coseq.Sequence.{exec_call, come_back, come_back_at, clear_waits}
use coseq.Scheduler.{Turn, must_defer, awaits, source_of_reply}
use coseq.Scheduler.Start.{starter, starting, starting_finds}
use coseq.Program.{
  Op, Answer, Program, call, Rest, entry, Env, Ran, call_of, goes, stops, stopped, after_call,
  go_on, run, continue_with, switch_to_code, resume_code,
}
use coseq.Program.Laws.{run-call, switch_to_code-some}
use coseq.Program.Host.{
  Played, Plays, play_events, first_turn, before_turns, wakes, wake_reply, wake_new, wake_entry,
  wake_start, wake_by_type, wake_event, Host, Meets, after_run, play, play_event, standing,
}

module _ {G : Type 0} (p : Ptr) (envs : ℕ → Env) (g : G) (t : Thread) (f : Fiber)
    (here : find_fiber p t.fibers ≡ some f) where
  -- A call that does not give up the processor, and one that does.
  pub run-goes :
      (o : Op) (k : Answer o → Program G) (a : Answer o)
      → after_call (envs 0) t f o k ≡ goes a
      → let c = call_of (envs 0) o in
        let r = run p (λ i. envs (suc i)) (k a) g (exec_call t f c).0 in
        run p envs (call o k) g t ≡ record r { calls = c ∷ r.calls }
  unfolding go_on
  run-goes o k a on = run-call p envs g t o k f here ∙ rw on refl

  pub run-stops :
      (o : Op) (k : Answer o → Program G) (rest : Rest G)
      → after_call (envs 0) t f o k ≡ stops rest
      → let c = call_of (envs 0) o in
        run p envs (call o k) g t
        ≡ record { thread = (exec_call t f c).0; globals = g; calls = c ∷ []; end = stopped rest }
  unfolding go_on
  run-stops o k rest on = run-call p envs g t o k f here ∙ rw on refl

-- The turn of a scheduler whose sequence makes no call.
abbrev pub turn_of : Meets → Turn
turn_of w = record { alloc = w.alloc; burst = record { allocs = w.allocs; calls = [] } }

-- What a run leaves once the scheduler has the processor again.
abbrev pub handed_back : {G : Type 0} → Ran G → Ran G
handed_back r = record r { thread = on_module (λ m. record m { current = none }) r.thread }

-- The state in which code goes on: its fiber marked as running, its waits cleared.
abbrev pub current_of : Ptr → Thread → Thread
current_of p t = on_module (λ m. record m { current = some p }) (on_fiber p clear_waits t)

abbrev pub going : Ptr → Fiber → Thread → Thread
going p f t = on_fiber p (λ _. f) (current_of p t)

-- It finds its fiber there.
pub going_finds :
    (p : Ptr) (f f' : Fiber) (t : Thread)
    → find_fiber p t.fibers ≡ some f
    → f'.ptr ≡ f.ptr
    → find_fiber p (going p f' t).fibers ≡ some f'
unfolding clear_waits
going_finds p f f' t here same =
    find_fiber-write p (λ _. f') (current_of p t).fibers (clear_waits f)
      (λ g h. same ∙ find_fiber-ptr p t.fibers f here)
      (find_fiber-write p clear_waits t.fibers f (λ g h. h) here)

-- Fiber `f` comes back from its call as `f'`, and does not wait again.
abbrev pub ComesBack : (ℕ → Alloc) → Fiber → Fiber → Type 0
ComesBack allocs f f' = come_back allocs (clear_waits f) ≡ (f', false)

switch_goes :
    {G : Type 0} (p : Ptr) (allocs : ℕ → Alloc) (envs : ℕ → Env) (rest : Rest G) (g : G)
    (u : Thread) (f f' : Fiber)
    → find_fiber p u.fibers ≡ some f
    → come_back allocs f ≡ (f', false)
    → switch_to_code p allocs envs rest g u
      ≡ run p envs (continue_with allocs f rest) g (on_fiber p (λ _. f') u)
switch_goes p allocs envs rest g u f f' there back =
    switch_to_code-some p allocs envs rest g u f there ∙ rw back refl

pub resume_code_goes :
    {G : Type 0} (p : Ptr) (allocs : ℕ → Alloc) (envs : ℕ → Env) (rest : Rest G) (g : G)
    (t : Thread) (f f' : Fiber)
    → find_fiber p t.fibers ≡ some f
    → ComesBack allocs f f'
    → resume_code p allocs envs rest g t
      ≡ handed_back (run p envs (continue_with allocs (clear_waits f) rest) g (going p f' t))
unfolding resume_code clear_waits
resume_code_goes p allocs envs rest g t f f' here back = ap handed_back (
    switch_goes p allocs envs rest g (current_of p t) (clear_waits f) f'
      (find_fiber-write p clear_waits t.fibers f (λ g h. h) here) back)

module _ {G : Type 0} (code : ℕ → Program G) (w : Meets) (e : Ev) (h : Host G) where
  -- An event that resumes a fiber whose code stands at `rest`.
  pub play_event_wakes :
      (p : Ptr) (u : Thread) (f f' : Fiber) (rest : Rest G)
      → wake_event w.alloc e h.thread ≡ some (wakes p u)
      → standing code h.rests p u ≡ rest
      → find_fiber p u.fibers ≡ some f
      → ComesBack w.allocs f f'
      → play_event code w e h
        ≡ after_run w p h.rests (
            handed_back
              (run p w.envs (continue_with w.allocs (clear_waits f) rest) h.globals (going p f' u)))
  unfolding play_event play
  play_event_wakes p u f f' rest woken stands here back =
      rw (woken, play_event)
        (ap (λ r. after_run w p h.rests (resume_code p w.allocs w.envs r h.globals u)) stands
          ∙ ap (after_run w p h.rests)
              (resume_code_goes p w.allocs w.envs rest h.globals u f f' here back))

  -- The new fiber of a START event, as it first runs.
  abbrev pub newcomer : SeqEntry → Fiber
  newcomer s = record (starter (turn_of w) e h.thread s) { seq_name = some s.name }

  abbrev pub newcomer_in : SeqEntry → Thread
  newcomer_in s = starting (turn_of w) e h.thread s

  -- A START event for entry `s`, given memory for the fiber, while no lock is held.
  pub play_start :
      (s : SeqEntry)
      → e.type ≡ EvType.start
      → h.thread.locked_by ≡ none
      → e.seq_idx < h.thread.nr_seq
      → get_elem? h.thread.seqs e.seq_idx ≡ some s
      → w.alloc.fiber ≡ true
      → w.alloc.stack ≡ true
      → w.alloc.context ≡ true
      → play_event code w e h
        ≡ after_run w h.thread.next_ptr h.rests (
            handed_back (
              run h.thread.next_ptr w.envs
                (code s.fn)
                h.globals
                (going h.thread.next_ptr (clear_waits (newcomer s)) (newcomer_in s))))
  unfolding continue_with wake_event wake_by_type wake_start wake_entry wake_new new_fiber
      must_defer standing set_src blank_fiber clear_waits come_back come_back_at
  play_start s type free valid at fiber stack context =
      play_event_wakes h.thread.next_ptr (newcomer_in s) (newcomer s) (clear_waits (newcomer s))
        (entry (code s.fn))
        (rw (free, type, leb_of_lt e.seq_idx h.thread.nr_seq valid, at, fiber, stack, context) refl)
        (rw (starting_finds (turn_of w) e h.thread s, standing) refl)
        (starting_finds (turn_of w) e h.thread s) refl

  -- Fiber `p` waits for this reply, at `rest`.
  pub record Awaits (p : Ptr) (rest : Rest G) (f : Fiber) : Type 0 where
    pub type : e.type ≡ EvType.reply
    pub known : peek e.req_id h.thread.pending ≡ some p
    pub there : find_fiber p h.thread.fibers ≡ some f
    pub asks : awaits e f ≡ true
    pub now : must_defer h.thread.m e ≡ false
    pub stands : h.rests p ≡ rest
    pub waits : (f.ctx ≡ Point.requesting) ⊎ (f.ctx ≡ Point.waiting_one)

  abbrev pub replied : Fiber → Fiber
  replied f = source_of_reply w.alloc e f

  abbrev pub replied_in : Ptr → Thread
  replied_in p =
      on_fiber p (source_of_reply w.alloc e) (on_module (λ m. (pending_take m e.req_id).0) h.thread)

  wakes_reply :
      (p : Ptr) (rest : Rest G) (f : Fiber)
      → Awaits p rest f
      → wake_reply w.alloc e h.thread ≡ some (wakes p (replied_in p))
  unfolding wake_reply pending_peek
  wakes_reply p rest f a =
      rw (a.known, wake_reply)
        (rw (a.there) (
          rw (a.asks)
            (ap (λ q. some (wakes q (replied_in q))) (find_fiber-ptr p h.thread.fibers f a.there))))

  wakes_it :
      (p : Ptr) (rest : Rest G) (f : Fiber)
      → Awaits p rest f
      → wake_event w.alloc e h.thread ≡ some (wakes p (replied_in p))
  unfolding wake_event wake_by_type
  wakes_it p rest f a =
      rw (a.now, wake_event) (ap (wake_by_type w.alloc e h.thread) a.type ∙ wakes_reply p rest f a)

  pub replied_finds :
      (p : Ptr) (rest : Rest G) (f : Fiber) (a : Awaits p rest f)
      → find_fiber p (replied_in p).fibers ≡ some (replied f)
  unfolding source_of_reply set_src pending_take
  replied_finds p rest f a =
      find_fiber-write p (source_of_reply w.alloc e) h.thread.fibers f (λ g h. h) a.there

  stands_there :
      (p : Ptr) (rest : Rest G) (f : Fiber)
      → Awaits p rest f
      → standing code h.rests p (replied_in p) ≡ rest
  unfolding standing source_of_reply set_src
  stands_there p rest f a =
      rw (replied_finds p rest f a, standing)
        (elim a.waits [ inl at ↦ rw at a.stands | inr at ↦ rw at a.stands ])

  -- A reply to the request for which the code of `p` waits, or to code that waits for any reply.
  pub play_reply :
      (p : Ptr) (rest : Rest G) (f f' : Fiber)
      → Awaits p rest f
      → ComesBack w.allocs (replied f) f'
      → play_event code w e h
        ≡ after_run w p h.rests (
            handed_back (
              run p w.envs
                (continue_with w.allocs (clear_waits (replied f)) rest)
                h.globals
                (going p f' (replied_in p))))
  play_reply p rest f f' a back =
      play_event_wakes p (replied_in p) (replied f) f' rest (wakes_it p rest f a)
        (stands_there p rest f a) (replied_finds p rest f a) back

-- One event, then the others.
pub play_events-cons :
    {G : Type 0} (code : ℕ → Program G) (spare : ℕ → Turn) (meets : ℕ → Meets) (e : Ev)
    (es : List Ev) (h : Host G) (r : Played G) (rs : Plays G)
    → play_event code (meets 0) e h ≡ some r
    → play_events code spare (λ i. meets (suc i)) es r.host ≡ some rs
    → play_events code spare meets (e ∷ es) h
      ≡ some (record rs { turns = first_turn r.turn rs.turns })
unfolding play_events
play_events-cons code spare meets e es h r rs first more =
    rw (first, play_events) (ap (before_turns r.turn) more)
