-- ===== src/Queue/Tests.antt =====
-- Two deferred events and an inbox of one.
use coseq.Base.{◌==◌, if◌then◌else◌, ◌≡◌, refl, [], ◌∷◌, none, some}
use coseq.Fibers.Laws.{has_ptr}
use coseq.Queue.{Links, Ends, add_last, Spliced, splice}
use coseq.Queue.Laws.{IsQueue, queue_lem}

-- The record at 1 is followed by that at 2.
abbrev links : Links
links n = if n == 1 then some 2 else none

abbrev deferred : Ends
deferred = record { head = some 1; tail = some 2 }

abbrev inbox : Ends
inbox = record { head = some 3; tail = some 3 }

queue_lem_example :
    IsQueue (add_last 4 links inbox).0 (add_last 4 links inbox).1 (3 ∷ 4 ∷ [])
    × ((s : Spliced) × (splice links deferred inbox ≡ some s)
        × IsQueue s.links s.inbox (1 ∷ 2 ∷ 3 ∷ [])
        × IsQueue s.links s.deferred [])
unfolding has_ptr
queue_lem_example =
    queue_lem links deferred inbox 4 (1 ∷ 2 ∷ []) (3 ∷ []) ((refl, (refl, refl)), refl)
      ((refl, refl), refl) (refl, refl, (refl, refl, tt)) (refl, refl, tt) refl
