-- ===== src/Event.antt =====
-- Events between modules: `make_ev` and `defer_ev` of coseq/coseq.c.
use coseq.Base.{ℕ, Option, none, some, [], ◌∷◌, ◌++◌, if◌then◌else◌, ℤ}
use coseq.Types.{Alloc, Bytes, Ev, EvType, Module, Rslt}

-- A message that cannot be copied is dropped, the event is made without it.
unfoldable pub make_ev : Alloc → EvType → ℕ → ℕ → ℤ → Rslt → Bytes → Option Ev
make_ev a type seq_idx req_id requester result msg =
    if a.event
    then some (record {
      type = type;
      seq_idx = seq_idx;
      req_id = req_id;
      requester = requester;
      result = result;
      category = 0;
      client_id = 0;
      msg = if a.event_msg then msg else [];
    })
    else none

unfoldable pub defer_ev : Module → Ev → Module
defer_ev m e = record m { deferred = m.deferred ++ e ∷ [] }
