-- ===== src/Lock.antt =====
-- `coseq_lock` and `coseq_unlock` of coseq/coseq.c.
use coseq.Base.{Bool, false, Option, none, some, ◌==◌, if◌then◌else◌}
use coseq.Types.{Fiber, Ptr, Thread}
use coseq.Thread.{on_module}

-- `m->locked_by == f`.
abbrev pub is_holder : Ptr → Option Ptr → Bool
is_holder p none = false
is_holder p (some q) = q == p

unfoldable pub coseq_lock : Thread → Fiber → Thread
coseq_lock t f = on_module (λ m. record m { locked_by = some f.ptr }) t

unfoldable pub coseq_unlock : Thread → Fiber → Thread
coseq_unlock t f =
    if is_holder f.ptr t.locked_by then on_module (λ m. record m { locked_by = none }) t else t
