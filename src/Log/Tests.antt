-- ===== src/Log/Tests.antt =====
-- Logging at the default minimum.
use coseq.Base.{◌≡◌, none, some, [], ◌∷◌, take, arith}
use coseq.Log.{LogLevel, rank, LogCb, Logging, log_at, set_log_cb, set_log_cb_lem}

abbrev in_c : Logging
in_c = record { log_cb = some (LogCb.user 4); log_fn = none }

set_log_cb_lem_example :
    (log_at LogLevel.info (set_log_cb (some 9) in_c) LogLevel.error (87 ∷ 88 ∷ [])
      ≡ some (record { fn = 9; level = LogLevel.error; msg = take 255 (87 ∷ 88 ∷ []) }))
    × (log_at LogLevel.info (set_log_cb (some 9) in_c) LogLevel.debug (87 ∷ 88 ∷ []) ≡ none)
    × (log_at LogLevel.info (set_log_cb none in_c) LogLevel.error (87 ∷ 88 ∷ []) ≡ none)
unfolding rank
set_log_cb_lem_example =
    set_log_cb_lem LogLevel.info LogLevel.error LogLevel.debug in_c 9 (87 ∷ 88 ∷ []) (omega arith)
      (omega arith)
