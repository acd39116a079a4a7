-- ===== src/Notify.antt =====
-- Publish and subscribe: `coseq_reg_notify`, `coseq_unreg_notify` and `coseq_notify` of
-- coseq/coseq.c. An id that is handed out is the result `some id`, `false` is `none`.
pub mod Laws
mod Tests
use coseq.Base.{
  ℕ, suc, ◌+◌, Bool, true, false, ◌&&◌, List, [], ◌∷◌, ◌++◌, Option, none, some, pos, u8, ◌==◌,
  if◌then◌else◌,
}
use mathlib.Core.Option
use coseq.Types.{Alloc, Bytes, Effect, Ev, EvType, Fiber, NotifyClient, Rslt, Thread}
use coseq.Event.{make_ev}
use coseq.Thread.{on_module}
use coseq.Request.{is_external}

-- 0xff stands for "not registered" and is skipped.
unfoldable pub fresh_client_id : ℕ → ℕ
fresh_client_id next = if next == 0xff then 0 else next

unfoldable pub coseq_reg_notify : Alloc → Thread → Fiber → ℕ → Thread × Option ℕ
unfolding fresh_client_id
coseq_reg_notify a t f category =
    let id = fresh_client_id t.next_client_id in
    let counted = record t { next_client_id = u8 (id + 1) } in
    if is_external f.reply_to
    then (t, none)
    else if a.client
    then (
      on_module
          (λ m. record m {
            notify_clients =
                record { category = category; listener_module = f.reply_to; client_id = id }
                ∷ m.notify_clients;
          })
          counted,
      some id,
    )
    else (counted, none)

abbrev pub matches : ℕ → ℕ → NotifyClient → Bool
matches category client_id nc = nc.category == category && nc.client_id == client_id

unfoldable pub is_registered : ℕ → ℕ → List NotifyClient → Bool
is_registered category client_id [] = false
is_registered category client_id (nc ∷ rest) =
    if matches category client_id nc then true else is_registered category client_id rest

-- The list without the first match.
unfoldable pub remove_client : ℕ → ℕ → List NotifyClient → List NotifyClient
remove_client category client_id [] = []
remove_client category client_id (nc ∷ rest) =
    if matches category client_id nc then rest else nc ∷ remove_client category client_id rest

unfoldable pub coseq_unreg_notify : Thread → ℕ → ℕ → Thread × Bool
unfolding is_registered remove_client
coseq_unreg_notify t category client_id = (
  on_module (λ m. record m { notify_clients = remove_client category client_id m.notify_clients })
      t,
  is_registered category client_id t.notify_clients,
)

-- The event for one listener.
unfoldable pub notify_ev : Alloc → ℕ → ℕ → ℕ → Bytes → Option Ev
unfolding make_ev
notify_ev a idx category client_id msg =
    Option.map {A = Ev} (λ e. record e { category = category; client_id = client_id })
      (make_ev a EvType.notify 0 0 (pos idx) Rslt.success msg)

-- `allocs i` are the outcomes for the i-th listener of the list.
unfoldable pub notify_posts : (ℕ → Alloc) → ℕ → ℕ → Bytes → List NotifyClient → List Effect
unfolding notify_ev
notify_posts allocs idx category msg [] = []
notify_posts allocs idx category msg (nc ∷ rest) =
    let more = notify_posts (λ i. allocs (suc i)) idx category msg rest in
    if nc.category == category
    then Effect.post_to nc.listener_module (notify_ev (allocs 0) idx category nc.client_id msg)
      ∷ more
    else more

unfoldable pub any_listener : ℕ → List NotifyClient → Bool
any_listener category [] = false
any_listener category (nc ∷ rest) =
    if nc.category == category then true else any_listener category rest

unfoldable pub coseq_notify : (ℕ → Alloc) → Thread → ℕ → Bytes → Thread × Bool
unfolding notify_posts any_listener
coseq_notify allocs t category msg = (
  record t { out = t.out ++ notify_posts allocs t.idx category msg t.notify_clients },
  any_listener category t.notify_clients,
)
