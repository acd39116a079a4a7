-- ===== src/Notify/Laws.antt =====
-- Client ids, registration and delivery of notifications.
use coseq.Base.{
  ℕ, zero, suc, ◌+◌, ◌%◌, ◌≤◌, ◌<◌, ◌≡◌, ◌≢◌, refl, ap, ◌∙◌, ◌↔◌, true, false, List, [], ◌∷◌, ◌++◌,
  Option, some, pos, u8, arith, if◌then◌else◌, ◌==◌,
}
use mathlib.Core.List.{map}
use coseq.Types.{Alloc, Bytes, Effect, EvType, Fiber, NotifyClient, Rslt, Thread}
use coseq.Request.{is_external}
use coseq.Notify.{
  fresh_client_id, coseq_reg_notify, coseq_unreg_notify, notify_posts, any_listener, coseq_notify,
}

-- The counter after `k` registrations.
unfoldable pub counter_after : ℕ → ℕ → ℕ
counter_after zero next = next
counter_after (suc k) next = counter_after k (u8 (fresh_client_id next + 1))

-- A registration by a sequence that a module asked for, with memory, hands out the next id, advances
-- the counter, and puts the requesting module first among the listeners.
pub coseq_reg_notify_lem :
    (a : Alloc) (t : Thread) (f : Fiber) (category : ℕ)
    → is_external f.reply_to ≡ false
    → a.client ≡ true
    → let r = coseq_reg_notify a t f category in
      (r.1 ≡ some (fresh_client_id t.next_client_id))
      × (r.0.next_client_id ≡ counter_after 1 t.next_client_id)
      × (r.0.notify_clients
          ≡ record {
            category = category;
            listener_module = f.reply_to;
            client_id = fresh_client_id t.next_client_id;
          }
            ∷ t.notify_clients)
unfolding coseq_reg_notify counter_after
coseq_reg_notify_lem a t f category h k = ground arith

fresh_step :
    (next : ℕ)
    → next ≤ 0xff
    → (fresh_client_id next < 0xff)
      × (u8 (fresh_client_id next + 1) ≤ 0xff)
      × (fresh_client_id (u8 (fresh_client_id next + 1)) ≡ (fresh_client_id next + 1) % 255)
unfolding fresh_client_id
fresh_step next h = ground arith

-- The id of the `k`-th registration from now, counted from 0: the ids go up by one, modulo 255.
pub client_ids :
    (k next : ℕ)
    → next ≤ 0xff
    → fresh_client_id (counter_after k next) ≡ (fresh_client_id next + k) % 255
unfolding counter_after
client_ids zero next h = omega (arith, (fresh_step next h).0)
client_ids (suc k) next h =
    let s = fresh_step next h in
    client_ids k (u8 (fresh_client_id next + 1)) s.1 ∙ omega (arith, s.2)

-- A registration in whichever module, with memory, by a sequence that a module asked for.
pub record Registration : Type 0 where
  pub alloc : Alloc
  pub thread : Thread
  pub fiber : Fiber
  pub category : ℕ
  pub asked : is_external fiber.reply_to ≡ false
  pub memory : alloc.client ≡ true

-- `coseq_reg_notify` with the instance's counter at `next`.
abbrev pub registers : Registration → ℕ → Thread × Option ℕ
registers r next =
    coseq_reg_notify r.alloc (record r.thread { next_client_id = next }) r.fiber r.category

-- The counter that `k` registrations, one after the other, leave.
unfoldable pub counter_left : (ℕ → Registration) → ℕ → ℕ → ℕ
counter_left rs zero next = next
counter_left rs (suc k) next =
    counter_left (λ i. rs (suc i)) k (registers (rs 0) next).0.next_client_id

-- The result of the `k`-th, counted from 0.
abbrev pub id_given : (ℕ → Registration) → ℕ → ℕ → Option ℕ
id_given rs k next = (registers (rs k) (counter_left rs k next)).1

counter_left_lem :
    (rs : ℕ → Registration) (k next : ℕ) → counter_left rs k next ≡ counter_after k next
unfolding counter_left counter_after
counter_left_lem rs zero next = refl
counter_left_lem rs (suc k) next =
    let r = rs 0 in
    let one =
      coseq_reg_notify_lem r.alloc (record r.thread { next_client_id = next }) r.fiber r.category
        r.asked r.memory in
    ap (counter_left (λ i. rs (suc i)) k) one.1 ∙ counter_left_lem (λ i. rs (suc i)) k _

id_given_lem :
    (rs : ℕ → Registration) (k next : ℕ)
    → next ≤ 0xff
    → id_given rs k next ≡ some ((fresh_client_id next + k) % 255)
id_given_lem rs k next h =
    let r = rs k in
    let here : Thread = record r.thread { next_client_id = counter_left rs k next } in
    (coseq_reg_notify_lem r.alloc here r.fiber r.category r.asked r.memory).0
    ∙ ap (λ n. some (fresh_client_id n)) (counter_left_lem rs k next)
    ∙ ap some (client_ids k next h)

-- Registrations one after the other, in whichever modules, each by a sequence that a module asked for and with
-- memory: each gets an id below 0xff, no two of any 255 in a row get the same, and the one 255 places later
-- gets the same id again.
pub client_ids_distinct :
    (rs : ℕ → Registration) (i j next : ℕ)
    → next ≤ 0xff
    → i < j
    → j < i + 255
    → (a : ℕ) × (b : ℕ) × (id_given rs i next ≡ some a)
      × (id_given rs j next ≡ some b)
      × (a < 0xff)
      × (a ≢ b)
      × (id_given rs (i + 255) next ≡ some a)
client_ids_distinct rs i j next h lo hi =
    let n = fresh_client_id next in
    (
      (n + i) % 255,
      (n + j) % 255,
      id_given_lem rs i next h,
      id_given_lem rs j next h,
      omega arith,
      (λ e. omega (arith, e)),
      id_given_lem rs (i + 255) next h
          ∙ ap some (let same : (n + (i + 255)) % 255 ≡ (n + i) % 255 = omega arith in same),
    )

-- A registration that is taken back leaves the listeners as they were.
pub unreg_notify-reg_notify :
    (a : Alloc) (t : Thread) (f : Fiber) (category : ℕ)
    → is_external f.reply_to ≡ false
    → a.client ≡ true
    → let r = coseq_reg_notify a t f category in
      let u = coseq_unreg_notify r.0 category (fresh_client_id t.next_client_id) in
      (u.1 ≡ true) × (u.0.notify_clients ≡ t.notify_clients)
unfolding coseq_reg_notify coseq_unreg_notify
unreg_notify-reg_notify a t f category h k = ground arith

-- The listeners of a category, in the order of the list.
unfoldable pub subscribers : ℕ → List NotifyClient → List NotifyClient
subscribers category [] = []
subscribers category (nc ∷ rest) =
    if nc.category == category then nc ∷ subscribers category rest else subscribers category rest

-- The event that a listener is sent.
abbrev pub sent : ℕ → ℕ → Bytes → NotifyClient → Effect
sent idx category msg nc = Effect.post_to nc.listener_module (
    some (record {
      type = EvType.notify;
      seq_idx = 0;
      req_id = 0;
      requester = pos idx;
      result = Rslt.success;
      category = category;
      client_id = nc.client_id;
      msg = msg;
    }))

pub notify_posts-sent :
    (allocs : ℕ → Alloc) (idx category : ℕ) (msg : Bytes) (ncs : List NotifyClient)
    → ((i : ℕ) → (allocs i).event ≡ true)
    → ((i : ℕ) → (allocs i).event_msg ≡ true)
    → notify_posts allocs idx category msg ncs
      ≡ map (sent idx category msg) (subscribers category ncs)
unfolding notify_posts subscribers
notify_posts-sent allocs idx category msg [] h k = refl
notify_posts-sent allocs idx category msg (nc ∷ rest) h k = ground (
  arith,
  h 0,
  k 0,
  notify_posts-sent (λ i. allocs (suc i)) idx category msg rest (λ i. h (suc i)) (λ i. k (suc i)),
)

any_listener_lem :
    (category : ℕ) (ncs : List NotifyClient)
    → (any_listener category ncs ≡ false) ↔ (subscribers category ncs ≡ [])
unfolding any_listener subscribers
any_listener_lem category [] = ((λ h. refl), (λ h. refl))
any_listener_lem category (nc ∷ rest) = ground (arith, any_listener_lem category rest)

-- With memory, `coseq_notify` posts one event to each listener of the category, in the order of the
-- list, with the listener's id and the whole message, and nothing else; it is false exactly if the
-- category has no listener.
pub coseq_notify_lem :
    (allocs : ℕ → Alloc) (t : Thread) (category : ℕ) (msg : Bytes)
    → ((i : ℕ) → (allocs i).event ≡ true)
    → ((i : ℕ) → (allocs i).event_msg ≡ true)
    → let r = coseq_notify allocs t category msg in
      (r.0.out ≡ t.out ++ map (sent t.idx category msg) (subscribers category t.notify_clients))
      × (r.0.m ≡ t.m)
      × ((r.1 ≡ false) ↔ (subscribers category t.notify_clients ≡ []))
unfolding coseq_notify
coseq_notify_lem allocs t category msg h k = (
  ap (◌++◌ t.out) (notify_posts-sent allocs t.idx category msg t.notify_clients h k),
  refl,
  any_listener_lem category t.notify_clients,
)
