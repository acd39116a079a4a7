-- ===== src/Log.antt =====
-- Log messages: `coseq_set_log_cb`, `coseq__log` and the LOGD, LOGI, LOGW, LOGE macros of coseq/coseq.c,
-- and `set_log_cb` and `log_wrapper` of coseqpp/coseqpp.cpp. The text of a message is what `vsnprintf`
-- would write without a limit; a function of the program is a number.
mod Tests
use coseq.Base.{
  ℕ, suc, ◌≤◌, ◌<◌, ◌≡◌, refl, ap, ◌∙◌, Bool, true, false, Option, none, some, leb, leb_of_le,
  leb_of_lt, take, take-take_of_le, arith, if◌then◌else◌,
}
use coseq.Types.{Bytes}

-- COSEQ_LOG_DEBUG to COSEQ_LOG_ERROR.
pub data LogLevel : Type 0 where
  debug info warn error : LogLevel

-- The level's number, plus one.
unfoldable pub rank : LogLevel → ℕ
rank LogLevel.debug = 0
rank LogLevel.info = 1
rank LogLevel.warn = 2
rank LogLevel.error = 3

-- `log_wrapper`, or a function of a C program.
pub data LogCb : Type 0 where
  wrapper : LogCb
  user : ℕ → LogCb

-- `g_log_cb` and `g_log_fn`.
pub record Logging : Type 0 where
  pub log_cb : Option LogCb
  pub log_fn : Option ℕ

-- A function that is called, with what it is given.
pub record Logged : Type 0 where
  pub fn : ℕ
  pub level : LogLevel
  pub msg : Bytes

unfoldable pub coseq_set_log_cb : Option LogCb → Logging → Logging
coseq_set_log_cb cb g = record g { log_cb = cb }

-- What fits into `char buf[256]` before its final 0.
abbrev buf_text : Bytes → Bytes
buf_text = take 255

unfoldable pub log_wrapper : Logging → LogLevel → Bytes → Option Logged
log_wrapper g level text = elim g.log_fn [
  | none ↦ none
  | some fn ↦ some (record { fn = fn; level = level; msg = buf_text text })
]

unfoldable pub call_log_cb : Logging → LogCb → LogLevel → Bytes → Option Logged
unfolding log_wrapper
call_log_cb g LogCb.wrapper level text = log_wrapper g level text
call_log_cb g (LogCb.user fn) level text = some (record { fn = fn; level = level; msg = text })

unfoldable pub coseq_log : Logging → LogLevel → Bytes → Option Logged
unfolding call_log_cb
coseq_log g level text = elim g.log_cb [
  | none ↦ none
  | some cb ↦ call_log_cb g cb level (buf_text text)
]

-- The four macros; `min` is COSEQ_LOG_MIN.
unfoldable pub log_at : LogLevel → Logging → LogLevel → Bytes → Option Logged
unfolding rank coseq_log
log_at min g level text = if leb (rank min) (rank level) then coseq_log g level text else none

unfoldable pub set_log_cb : Option ℕ → Logging → Logging
unfolding coseq_set_log_cb
set_log_cb fn g =
    coseq_set_log_cb (elim fn [ none ↦ none | some _ ↦ some LogCb.wrapper ])
      (record g { log_fn = fn })

-- After `set_log_cb` in C++, whatever was set before, a message whose level is not below the minimum
-- comes to the function, under its level, with its first 255 bytes; below the minimum, and after the
-- function was taken away, none comes to any function.
pub set_log_cb_lem :
    (min level low : LogLevel) (g : Logging) (fn : ℕ) (text : Bytes)
    → rank min ≤ rank level
    → rank low < rank min
    → (log_at min (set_log_cb (some fn) g) level text
        ≡ some (record { fn = fn; level = level; msg = take 255 text }))
      × (log_at min (set_log_cb (some fn) g) low text ≡ none)
      × (log_at min (set_log_cb none g) level text ≡ none)
unfolding log_at set_log_cb
set_log_cb_lem min level low g fn text h k = (
  rw (leb_of_le (rank min) (rank level) h)
      (ap (λ m. some (record { fn = fn; level = level; msg = m })) (take-take_of_le 255 text)),
  rw (leb_of_lt (rank low) (rank min) k),
  rw (leb_of_le (rank min) (rank level) h),
)
