-- ===== src/Time/Tests.antt =====
-- Runs of the time helpers.
use coseq.Base.{◌≡◌, refl}
use coseq.Time.{Timespec, ts_add_ms}

abbrev late : Timespec
late = record { tv_sec = 7; tv_nsec = 999000000 }

abbrev sum : Timespec
sum = record { tv_sec = 10; tv_nsec = 499000000 }

add_carries : ts_add_ms late 2500 ≡ sum
unfolding ts_add_ms
add_carries = refl
