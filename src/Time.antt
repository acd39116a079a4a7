-- ===== src/Time.antt =====
-- The time helpers of coseq/coseq.c: `struct timespec`, `now_ts`, `ts_add_ms` and `ts_lt`. `time_t` and `long`
-- have 64 bits and are taken as numbers that do not wrap; a clock reading before 1970 does not occur.
pub mod Laws
mod Tests
use coseq.Base.{
  ℕ, ◌+◌, ◌-◌, ◌*◌, ◌/◌, ◌%◌, Bool, ◌&&◌, ◌||◌, ltb, leb, ◌==◌, if◌then◌else◌, Option, none, some,
}

pub record Timespec : Type 0 where
  pub tv_sec : ℕ
  pub tv_nsec : ℕ

-- What the clock gives; `none` is a `clock_gettime` that fails.
unfoldable pub now_ts : Option Timespec → Timespec
now_ts none = record { tv_sec = 0; tv_nsec = 0 }
now_ts (some t) = t

carry : Timespec → Timespec
carry t =
    if leb 1000000000 t.tv_nsec
    then record { tv_sec = t.tv_sec + 1; tv_nsec = t.tv_nsec - 1000000000 }
    else t

unfoldable pub ts_add_ms : Timespec → ℕ → Timespec
unfolding carry
ts_add_ms t ms =
    carry (record { tv_sec = t.tv_sec + ms / 1000; tv_nsec = t.tv_nsec + ms % 1000 * 1000000 })

unfoldable pub ts_lt : Timespec → Timespec → Bool
ts_lt a b = ltb a.tv_sec b.tv_sec || (a.tv_sec == b.tv_sec && ltb a.tv_nsec b.tv_nsec)
