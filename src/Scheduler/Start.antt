-- ===== src/Scheduler/Start.antt =====
-- What a START event comes to.
use coseq.Base.{
  suc, ◌≤◌, ◌<◌, ◌≡◌, refl, ap, ◌∷◌, some, true, arith, ==_refl, leb_of_lt, inr, to_u8, get_elem?,
}
use coseq.Types.{Ev, Fiber, Rslt, SeqEntry, Thread}
use coseq.Fibers.{find_fiber, set_src, new_fiber, blank_fiber}
use coseq.Fibers.Source.{set_src_whole}
use coseq.Thread.{on_fiber}
use coseq.Sequence.{resume}
use coseq.Scheduler.{Turn, start_entry, start_sequence, launch}
use coseq.Fibers.Laws.{find_fiber-write}

module _ (w : Turn) (e : Ev) (t : Thread) where
  -- The fiber that `new_fiber` makes for a sequence `s` that event `e` starts.
  abbrev pub starter : SeqEntry → Fiber
  starter s =
      set_src w.alloc e.msg Rslt.ignore (to_u8 e.requester) e.seq_idx 0 e.req_id
        (blank_fiber t.next_ptr s.fn e.seq_idx e.requester e.req_id)

  -- The thread that resumes it for the first time.
  abbrev pub starting : SeqEntry → Thread
  starting s =
      on_fiber t.next_ptr (λ f. record f { seq_name = some s.name })
        (record t { m = record t.m { fibers = starter s ∷ t.fibers; next_ptr = suc t.next_ptr } })

  pub starting_finds :
      (s : SeqEntry)
      → find_fiber t.next_ptr (starting s).fibers
        ≡ some (record (starter s) { seq_name = some s.name })
  unfolding find_fiber set_src blank_fiber
  starting_finds s =
      find_fiber-write t.next_ptr (λ f. record f { seq_name = some s.name }) (starter s ∷ t.fibers)
        (starter s) (λ g h. h) (rw (==_refl t.next_ptr))

  -- A START event whose index is not below `nr_seq` starts nothing and changes nothing.
  pub start_sequence_invalid : t.nr_seq ≤ e.seq_idx → start_sequence w e t ≡ some t
  unfolding start_sequence
  start_sequence_invalid h = ground arith

  -- A START event that names an entry `s` of the table, given memory: a fiber with a pointer of its own runs the
  -- function of `s` under the name of `s`; it is to reply to the module that asked, under the id of
  -- the request, and its source holds that id, that module and the whole message.
  pub start_sequence_lem :
      (s : SeqEntry)
      → e.seq_idx < t.nr_seq
      → get_elem? t.seqs e.seq_idx ≡ some s
      → w.alloc.fiber ≡ true
      → w.alloc.stack ≡ true
      → w.alloc.context ≡ true
      → w.alloc.src ≡ true
      → (start_sequence w e t ≡ some (resume t.next_ptr w.burst (starting s)))
        × ((g : Fiber) × (find_fiber t.next_ptr (starting s).fibers ≡ some g)
            × (g.fn ≡ s.fn)
            × (g.seq_name ≡ some s.name)
            × (g.reply_to ≡ e.requester)
            × (g.reply_req_id ≡ e.req_id)
            × (g.src ≡ record {
              thread_idx = to_u8 e.requester;
              seq_idx = e.seq_idx;
              req_id = e.req_id;
              result = Rslt.ignore;
              client_id = 0;
              msg = e.msg;
            }))
  unfolding start_sequence start_entry launch new_fiber set_src blank_fiber
  start_sequence_lem s valid entry fiber stack context memory = (
    rw (leb_of_lt e.seq_idx t.nr_seq valid, entry, fiber, stack, context),
    (
      record (starter s) { seq_name = some s.name },
      starting_finds s,
      refl,
      refl,
      refl,
      refl,
      ap (λ m. record (starter s).src { msg = m })
          (set_src_whole w.alloc e.msg Rslt.ignore (to_u8 e.requester) e.seq_idx 0 e.req_id
            (blank_fiber t.next_ptr s.fn e.seq_idx e.requester e.req_id) (inr memory)),
    ),
  )
