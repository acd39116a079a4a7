-- ===== src/Gather/Tests.antt =====
-- A gather of two replies, of which one has come.
use coseq.Base.{◌⊎◌, length, ℕ, ◌≡◌, []}
use mathlib.Core.List.{map}
use coseq.Types.{Alloc}
use coseq.Gather.{waits, coseq_gather, finished}
use coseq.Gather.Sweep.{answer_in, answer_of}
use coseq.Gather.Laws.{coseq_gather_ends}
use coseq.Fixtures.{plenty, fanned}

abbrev allocs : ℕ → Alloc
allocs i = plenty

coseq_gather_ends_example :
    let g = coseq_gather allocs (fanned 1) in
    ((g.end ≡ finished) ⊎ (g.end ≡ waits))
    × (g.fiber.rq ≡ [])
    × (g.n ≡ length (fanned 1).rq)
    × (map answer_in g.replies ≡ map answer_of (fanned 1).rq)
coseq_gather_ends_example = coseq_gather_ends allocs (fanned 1)
