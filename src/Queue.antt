-- ===== src/Queue.antt =====
-- The queues of coseq/coseq.c in memory: `inbox_head` and `inbox_tail`, `deferred_head` and
-- `deferred_tail` of `module_t`, and `rq_head` and `rq_tail` of `fiber_t`. Elsewhere they are lists;
-- Queue/Laws.antt shows that the pointers keep such a list.
--
-- An address is a number, and NULL is `none`. Of the memory only the `next` fields matter here.
pub mod Laws
mod Tests
use coseq.Base.{ℕ, Option, none, some, ◌==◌, if◌then◌else◌}

abbrev pub Links : Type 0
Links = ℕ → Option ℕ

pub record Ends : Type 0 where
  pub head : Option ℕ
  pub tail : Option ℕ

abbrev pub nothing_queued : Ends
nothing_queued = record { head = none; tail = none }

-- `p->next = r`.
unfoldable pub set_next : ℕ → Option ℕ → Links → Links
set_next p r h q = if p == q then r else h q

-- `e->next = NULL`, and the record goes behind the last.
unfoldable pub add_last : ℕ → Links → Ends → Links × Ends
unfolding set_next
add_last p h q = elim q.tail [
  | none ↦ (set_next p none h, record { head = some p; tail = some p })
  | some t ↦ (set_next t (some p) (set_next p none h), record { head = q.head; tail = some p })
]

-- What the splice of a round leaves: the links, the inbox and the deferred events.
pub record Spliced : Type 0 where
  pub links : Links
  pub inbox : Ends
  pub deferred : Ends

-- `inbox_tail`, unless it is NULL.
abbrev pub last_of : Option ℕ → Option ℕ → Option ℕ
last_of none t = t
last_of (some q) t = some q

-- What a round does when no fiber holds the lock: the deferred events go before those of the inbox;
-- `none` is a write through NULL.
unfoldable pub splice : Links → Ends → Ends → Option Spliced
unfolding set_next
splice h deferred inbox = elim deferred.head [
  | none ↦ some (record { links = h; inbox = inbox; deferred = deferred })
  | some p ↦ elim deferred.tail [
    | none ↦ none
    | some t ↦ some (record {
      links = set_next t inbox.head h;
      inbox = record { head = some p; tail = last_of inbox.tail (some t) };
      deferred = nothing_queued;
    })
  ]
]
