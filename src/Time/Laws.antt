-- ===== src/Time/Laws.antt =====
-- What `ts_add_ms` and `ts_lt` compute, in nanoseconds.
use coseq.Base.{ℕ, ◌+◌, ◌*◌, ◌<◌, ◌≡◌, ◌↔◌, true, false, arith}
use coseq.Time.{Timespec, ts_add_ms, ts_lt}

-- The time as one number of nanoseconds.
abbrev pub nanos : Timespec → ℕ
nanos t = t.tv_sec * 1000000000 + t.tv_nsec

abbrev pub IsNormal : Timespec → Type 0
IsNormal t = t.tv_nsec < 1000000000

-- Adding `ms` milliseconds to a normalised time gives a normalised time that is exactly that much
-- later, whatever `ms` is.
pub ts_add_ms_exact :
    (t : Timespec) (ms : ℕ)
    → IsNormal t
    → IsNormal (ts_add_ms t ms) × (nanos (ts_add_ms t ms) ≡ nanos t + ms * 1000000)
unfolding ts_add_ms
ts_add_ms_exact t ms h = ground arith

-- On normalised times `ts_lt` holds exactly when the first is earlier in nanoseconds.
pub ts_lt_iff :
    (a b : Timespec) → IsNormal a → IsNormal b → (ts_lt a b ≡ true) ↔ (nanos a < nanos b)
unfolding ts_lt
ts_lt_iff a b ha hb = ground arith

-- For any times: the test is irreflexive and transitive, and failing both ways it is an equivalence.
pub ts_lt_irrefl : (a : Timespec) → ts_lt a a ≡ false
unfolding ts_lt
ts_lt_irrefl a = ground arith

pub ts_lt_trans : (a b c : Timespec) → ts_lt a b ≡ true → ts_lt b c ≡ true → ts_lt a c ≡ true
unfolding ts_lt
ts_lt_trans a b c h k = ground arith

pub ts_le_trans : (a b c : Timespec) → ts_lt b a ≡ false → ts_lt c b ≡ false → ts_lt c a ≡ false
unfolding ts_lt
ts_le_trans a b c h k = ground arith

pub ts_lt_asymm : (a b : Timespec) → ts_lt a b ≡ true → ts_lt b a ≡ false
unfolding ts_lt
ts_lt_asymm a b h = ground arith
