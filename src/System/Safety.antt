-- ===== src/System/Safety.antt =====
-- In any interleaving each module lives as it does alone.
use coseq.Base.{
  pos, ℕ, zero, suc, ◌≤◌, ◌<◌, ◌≡◌, ◌≢◌, refl, ap, sym, ◌∙◌, ==→eq, Bool, true, false, List, [],
  ◌∷◌, append-nil, append_assoc, some, some_inj, ◌==◌, get_elem?, get_elem?-modify_at, get_elem?-lt,
  Bool-cases, inl, inr, length, All, arith,
}
use mathlib.Core.Path.{subst}
use mathlib.Core.Option
use coseq.Time.{Timespec}
use coseq.Types.{Bytes, Effect, Ev, Module, Reg, Thread}
use coseq.Fibers.{reap_done}
use coseq.Thread.{on_module}
use coseq.Instance.{Ctx, max_module}
use coseq.Instance.Mailbox.{
  perform, sync_begin, sync_end, sync_filled, SyncResult, request_async, bump_ext_id,
}
use coseq.Instance.Post.{with_inbox, addressed, perform-modules, perform-nr_module}
use coseq.Instance.Setup.{Pthreads, setup}
use coseq.Instance.SetupLoops.{registered, started}
use coseq.Instance.Lifecycle.{setup_lem}
use coseq.Scheduler.{Turn, sched_round, fault}
use coseq.Scheduler.Reach.{first_thread}
use coseq.Scheduler.Balance.Collected.{IsCollected}
use coseq.Scheduler.Balance.Life.{Runs, collected_no_fault}
use coseq.System.{System, begun, on_thread, Step, History}

-- Events that come to the inbox one after the other.
Runs-inbox :
    (P : Thread → Type 0) (t : Thread) (es : List Ev) (m : Module) (next : ℕ)
    → Runs P t (on_thread m next)
    → Runs P t (on_thread (with_inbox es m) next)
Runs-inbox P t [] m next way =
    subst (λ q. Runs P t (on_thread (record m { inbox = q }) next)) (sym (append-nil m.inbox)) way
Runs-inbox P t (e ∷ es) m next way =
    subst (λ q. Runs P t (on_thread (record m { inbox = q }) next))
      (append_assoc m.inbox (e ∷ []) es)
      (Runs-inbox P t es (with_inbox (e ∷ []) m) next (Runs.arrives (on_thread m next) e way))

-- Each module of the table has come to its state by a life of its own.
record Follows (P : Thread → Type 0) (tbl : List Reg) (c : Ctx) : Type 0 where
  nr : c.nr_module ≡ length tbl
  lives :
      (i : ℕ) (r : Reg)
      → get_elem? tbl i ≡ some r
      → (m : Module) × (get_elem? c.modules i ≡ some m)
        × Runs P (first_thread 0 i r) (on_thread m 0)

sync_end_same :
    (c : Ctx) (r : SyncResult) (grown : Bool) (rid mi si : ℕ) (buf : Bytes)
    → sync_end grown c rid mi si buf ≡ some r
    → (r.ctx.modules ≡ c.modules) × (r.ctx.nr_module ≡ c.nr_module)
unfolding sync_end sync_filled
sync_end_same c r grown rid mi si buf e = (ground arith, ground arith)

module _ (P : Thread → Type 0) (tbl : List Reg) where
  setup-Follows :
      (sys : Pthreads) (c : Ctx)
      → length c.modules ≡ max_module
      → (setup sys c tbl).1 ≡ true
      → Follows P tbl (setup sys c tbl).0
  setup-Follows sys c room done =
      let all = setup_lem sys c tbl room done in
      record { nr = all.1; lives = λ i r e. (started (registered i r), all.2 i r e, Runs.begins) }

  perform-Follows :
      (copied : Bool) (c : Ctx) (x : Effect) → Follows P tbl c → Follows P tbl (perform copied c x)
  perform-Follows copied c x h = record {
    nr = perform-nr_module copied c x ∙ h.nr;
    lives = λ i r e.
        let (m, at, way) = h.lives i r e in
        let es : List Ev = addressed c.nr_module i (x ∷ []) in
        (
          with_inbox es m,
          perform-modules copied c x i ∙ ap (Option.map (with_inbox es)) at,
          Runs-inbox P _ es m 0 way,
        );
  }

  -- A change of other fields.
  same-Follows :
      (c c' : Ctx)
      → c'.modules ≡ c.modules
      → c'.nr_module ≡ c.nr_module
      → Follows P tbl c
      → Follows P tbl c'
  same-Follows c c' ms n h = record {
    nr = n ∙ h.nr;
    lives = λ i r e. let (m, at, way) = h.lives i r e in (m, ap (λ l. get_elem? l i) ms ∙ at, way);
  }

  Step-Follows : {s u : System} → Step P s u → Follows P tbl s.ctx → Follows P tbl u.ctx
  unfolding request_async sync_begin perform
  Step-Follows (Step.round s i next m now timers events v lt at out runs room work end) h = record {
    nr = h.nr;
    lives = λ j r e. elim (Bool-cases (i == j)) [
      | inl here ↦
          let (m', at', way) = h.lives j r e in
          let same : m' ≡ m =
            some_inj (sym at' ∙ ap (get_elem? s.ctx.modules) (sym (==→eq i j here)) ∙ at) in
          let started_here =
            Runs.counts (on_thread m 0) next []
              (subst (λ q. Runs P (first_thread 0 j r) (on_thread q 0)) same way) in
          let over =
            Runs.turns (on_thread m next) v now timers events started_here runs room work end in
          (
            (on_module reap_done v).m,
            get_elem?-modify_at i j (λ _. reap_done v.m) s.ctx.modules ∙ rw (here, at'),
            Runs.counts (on_module reap_done v) 0 [] over,
          )
      | inr there ↦
          let (m', at', way) = h.lives j r e in
          (m', get_elem?-modify_at i j (λ _. reap_done v.m) s.ctx.modules ∙ rw there at', way)
    ];
  }
  Step-Follows (Step.performs s i copied x xs e) h = perform-Follows copied s.ctx x h
  Step-Follows (Step.asks s a mi si msg) h =
      perform-Follows true _ (Effect.post_to (pos mi) _)
        (same-Follows s.ctx (bump_ext_id s.ctx) refl refl h)
  Step-Follows (Step.sync_begins s a mi si msg) h =
      perform-Follows true _ (Effect.post_to (pos mi) _) (
        same-Follows s.ctx
          (record (bump_ext_id s.ctx) { ext_wait_rid = s.ctx.ext_id; ext_ready = false }) refl refl
          h)
  Step-Follows (Step.sync_ends s grown rid mi si buf r e) h =
      same-Follows s.ctx r.ctx (sync_end_same s.ctx r grown rid mi si buf e).0
        (sync_end_same s.ctx r grown rid mi si buf e).1 h

  History-Follows : {s u : System} → History P s u → Follows P tbl s.ctx → Follows P tbl u.ctx
  History-Follows History.begins h = h
  History-Follows (History.steps u v way st) h = Step-Follows st (History-Follows way h)

-- The table has the entries that it says.
abbrev pub IsWhole : Reg → Type 0
IsWhole r = r.nr_seq_max ≤ length r.seq_array

All-get_elem? {ℓ κ} :
    {A : Type ℓ} (Q : A → Type κ) (xs : List A) (i : ℕ) (x : A)
    → All Q xs
    → get_elem? xs i ≡ some x
    → Q x
All-get_elem? Q [] i x h e = absurd (ground arith)
All-get_elem? Q (y ∷ xs) zero x h e = subst Q (some_inj e) h.0
All-get_elem? Q (y ∷ xs) (suc i) x h e = All-get_elem? Q xs i x h.1 e

module _ (sys : Pthreads) (c : Ctx) (tbl : List Reg) (s : System) (i next : ℕ) (m : Module)
    (now : Timespec) (timers events : ℕ → Turn) where
  -- An instance that `_setup` set up, with tables of sequences that have their `nr_seq_max` entries.
  -- In every state that it comes to, its modules' rounds, what they do to each other and the calls of
  -- external threads in any interleaving, through any sequences and allocations, while no module's
  -- counter of request ids has wrapped and as long as each sequence that returns has collected the
  -- replies to its asynchronous requests: the next round of no module reads through a freed fiber or
  -- past the table.
  pub instance_no_fault :
      length c.modules ≡ max_module
      → All IsWhole tbl
      → (setup sys c tbl).1 ≡ true
      → History IsCollected (begun (setup sys c tbl).0) s
      → i < s.ctx.nr_module
      → get_elem? s.ctx.modules i ≡ some m
      → sched_round now timers events (on_thread m next) ≢ fault
  instance_no_fault room whole done way lt at =
      let h = History-Follows IsCollected tbl way (setup-Follows IsCollected tbl sys c room done) in
      let (r, entry) = get_elem?-lt tbl i (omega (arith, h.nr)) in
      let (m', at', life) = h.lives i r entry in
      let same : m' ≡ m = some_inj (sym at' ∙ at) in
      collected_no_fault 0 i r (on_thread m next) now timers events
        (All-get_elem? IsWhole tbl i r whole entry)
        (Runs.counts (on_thread m 0) next []
          (subst (λ q. Runs IsCollected (first_thread 0 i r) (on_thread q 0)) same life))
