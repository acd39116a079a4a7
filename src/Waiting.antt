-- ===== src/Waiting.antt =====
-- The table of requests that wait for a reply: `pending_add`, `pending_peek` and `pending_take` of
-- coseq/coseq.c.
pub mod Laws
use coseq.Base.{ℕ, List, [], ◌∷◌, Option, none, some, if◌then◌else◌, ◌==◌}
use coseq.Types.{Alloc, Module, Pending, Ptr}

unfoldable pub pending_add : Alloc → Module → ℕ → Ptr → Module
pending_add a m req_id f = record m {
  pending = if a.entry then record { req_id = req_id; f = f } ∷ m.pending else m.pending;
}

-- The first entry with the id.
unfoldable pub peek : ℕ → List Pending → Option Ptr
peek req_id [] = none
peek req_id (p ∷ ps) = if p.req_id == req_id then some p.f else peek req_id ps

-- The list without that entry.
unfoldable pub unlink : ℕ → List Pending → List Pending
unlink req_id [] = []
unlink req_id (p ∷ ps) = if p.req_id == req_id then ps else p ∷ unlink req_id ps

unfoldable pub pending_peek : Module → ℕ → Option Ptr
pending_peek m req_id = peek req_id m.pending

unfoldable pub pending_take : Module → ℕ → Module × Option Ptr
pending_take m req_id = (record m { pending = unlink req_id m.pending }, peek req_id m.pending)
