-- ===== src/Notify/Tests.antt =====
-- Registration and delivery with two listeners of category 6.
use coseq.Base.{some, ℕ, ◌+◌, ◌<◌, ◌≡◌, ◌≢◌, ◌↔◌, refl, pos, false, [], ◌∷◌, ◌++◌, arith}
use mathlib.Core.List.{map}
use coseq.Types.{Alloc, NotifyClient, Thread}
use coseq.Notify.{coseq_notify}
use coseq.Notify.Laws.{
  Registration, id_given, client_ids_distinct, subscribers, sent, coseq_notify_lem,
}
use coseq.Fixtures.{plenty, some_fiber, some_module, thread_of}

abbrev allocs : ℕ → Alloc
allocs i = plenty

abbrev listener : ℕ → ℕ → NotifyClient
listener category id = record { category = category; listener_module = pos 2; client_id = id }

abbrev listened : Thread
listened =
    thread_of
      (record some_module { notify_clients = listener 6 0 ∷ listener 3 1 ∷ listener 6 2 ∷ [] })

coseq_notify_lem_example :
    let r = coseq_notify allocs listened 6 (1 ∷ []) in
    (r.0.out ≡ [] ++ map (sent 1 6 (1 ∷ [])) (subscribers 6 listened.notify_clients))
    × (r.0.m ≡ listened.m)
    × ((r.1 ≡ false) ↔ (subscribers 6 listened.notify_clients ≡ []))
coseq_notify_lem_example = coseq_notify_lem allocs listened 6 (1 ∷ []) (λ i. refl) (λ i. refl)

-- The counter is at 254; the eighth registration is the last of those compared.
abbrev registering : ℕ → Registration
registering i = record {
  alloc = plenty;
  thread = listened;
  fiber = record (some_fiber 3) { reply_to = pos 2 };
  category = 6;
  asked = refl;
  memory = refl;
}

client_ids_distinct_example :
    (a : ℕ) × (b : ℕ) × (id_given registering 3 254 ≡ some a)
    × (id_given registering 7 254 ≡ some b)
    × (a < 0xff)
    × (a ≢ b)
    × (id_given registering (3 + 255) 254 ≡ some a)
client_ids_distinct_example =
    client_ids_distinct registering 3 7 254 (omega arith) (omega arith) (omega arith)
