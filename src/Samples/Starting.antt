-- ===== src/Samples/Starting.antt =====
-- A START event to module A of testpp/main.cpp: the wrapper of the C++ layer runs the method that the
-- event names.
use coseq.Base.{ℕ, ◌<◌, ◌≡◌, ◌≢◌, refl, ap, ◌∙◌, ◌∷◌, none, some, true, get_elem?, arith}
use mathlib.Core.List.{map}
use mathlib.Core.Option
use coseq.Types.{Bytes, Ev, EvType, Fiber, Ptr, Thread}
use coseq.Fibers.{find_fiber, modify_fiber, set_src, blank_fiber}
use coseq.Sequence.{clear_waits}
use coseq.Scheduler.Start.{starter, starting_finds}
use coseq.Scheduler.Parts.{find_fiber-cons_ne}
use coseq.Fibers.Laws.{find_fiber-modify_ne}
use coseq.Program.{run}
use coseq.Program.Host.{Host, Meets, after_run, play_event}
use coseq.Program.Steps.{
  handed_back, going, going_finds, newcomer, newcomer_in, play_start, turn_of,
}
use coseq.Wrapper.Tables.{get_elem?-map}
use coseq.Wrapper.Manager.{ModuleBase, Sequence, Objects, dispatch_seq, seq_entry}
use coseq.Samples.Methods.{object_code, method}
use coseq.Samples.Suite.{Code, Globals}
use coseq.Samples.SuiteModules.{module_a, methods_a}
use coseq.Samples.Replies.{run-object_code}

-- The thread of a module that is registered with the sequences of `module_a`.
pub record IsModuleA (name : Bytes) (que_max : ℕ) (t : Thread) : Type 0 where
  pub seqs : t.seqs ≡ map seq_entry (module_a name que_max).sequences
  pub nr_seq : t.nr_seq ≡ 12

module _ (objs : Objects) (mb : Ptr) (name : Bytes) (que_max : ℕ)
    (object : objs mb ≡ module_a name que_max) where
  abbrev pub code_a : ℕ → Code
  code_a = object_code objs mb methods_a

  module _ (w : Meets) (e : Ev) (h : Host Globals) where
    abbrev pub first_fiber : Sequence → Fiber
    first_fiber s = clear_waits (newcomer code_a w e h (seq_entry s))

    abbrev pub first_thread : Sequence → Thread
    first_thread s =
        going h.thread.next_ptr (first_fiber s) (newcomer_in code_a w e h (seq_entry s))

    pub first_finds :
        (s : Sequence) → find_fiber h.thread.next_ptr (first_thread s).fibers ≡ some (first_fiber s)
    unfolding clear_waits
    first_finds s =
        going_finds h.thread.next_ptr (newcomer code_a w e h (seq_entry s)) (first_fiber s)
          (newcomer_in code_a w e h (seq_entry s))
          (starting_finds (turn_of w) e h.thread (seq_entry s)) refl

    pub first_fiber-ptr : (s : Sequence) → (first_fiber s).ptr ≡ h.thread.next_ptr
    unfolding clear_waits set_src blank_fiber
    first_fiber-ptr s = refl

    -- The other fibers are as they were.
    pub first_thread_others :
        (s : Sequence) (p : Ptr)
        → p < h.thread.next_ptr
        → find_fiber p (first_thread s).fibers ≡ find_fiber p h.thread.fibers
    unfolding clear_waits set_src blank_fiber
    first_thread_others s p older =
        let q : Ptr = h.thread.next_ptr in
        let new : q ≢ p = λ e. omega (arith, e) in
        let entry = seq_entry s in
        let named : Fiber → Fiber = λ f. record f { seq_name = some entry.name } in
        find_fiber-modify_ne q p (λ _. first_fiber s)
          (modify_fiber q clear_waits
            (modify_fiber q named (starter (turn_of w) e h.thread entry ∷ h.thread.fibers)))
          (λ _ _. refl) new
        ∙ find_fiber-modify_ne q p clear_waits
            (modify_fiber q named (starter (turn_of w) e h.thread entry ∷ h.thread.fibers))
            (λ _ k. k) new
        ∙ find_fiber-modify_ne q p named (starter (turn_of w) e h.thread entry ∷ h.thread.fibers)
            (λ _ k. k) new
        ∙ find_fiber-cons_ne p (starter (turn_of w) e h.thread entry) h.thread.fibers new

    pub play_method :
        (s : Sequence)
        → IsModuleA name que_max h.thread
        → e.type ≡ EvType.start
        → e.seq_idx < 12
        → get_elem? (module_a name que_max).sequences e.seq_idx ≡ some s
        → h.thread.locked_by ≡ none
        → w.alloc.fiber ≡ true
        → w.alloc.stack ≡ true
        → w.alloc.context ≡ true
        → play_event code_a w e h
          ≡ after_run w h.thread.next_ptr h.rests (
              handed_back
                (run h.thread.next_ptr w.envs (method methods_a s.seq) h.globals (first_thread s)))
    unfolding dispatch_seq clear_waits set_src blank_fiber seq_entry
    play_method s is type valid at free fiber stack context =
        play_start code_a w e h (seq_entry s) type free (omega (arith, is.nr_seq, valid))
          (ap (λ es. get_elem? es e.seq_idx) is.seqs
            ∙ get_elem?-map seq_entry (module_a name que_max).sequences e.seq_idx s at)
          fiber stack context
        ∙ ap (λ r. after_run w h.thread.next_ptr h.rests (handed_back r))
            (run-object_code h.thread.next_ptr w.envs h.globals (first_thread s) (first_fiber s)
              (first_finds s) objs mb methods_a s.seq
              (ap
                  (λ (o : ModuleBase).
                    Option.map (λ (q : Sequence). q.seq) (get_elem? o.sequences e.seq_idx))
                  object
                ∙ ap (Option.map (λ (q : Sequence). q.seq)) at))
