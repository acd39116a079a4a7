-- ===== src/Wrapper/Source.antt =====
-- `result`, `reply` and `source` of coseqpp/coseqpp_if.h.
use coseq.Base.{ℕ, ◌≡◌, refl, [], Option, none, some}
use coseq.Types.{Bytes, Rslt, Src}

pub data Result : Type 0 where
  ignore success error request_timeout sequence_timeout : Result

-- The two `static_cast`s.
unfoldable pub to_result : Rslt → Result
to_result Rslt.ignore = Result.ignore
to_result Rslt.success = Result.success
to_result Rslt.error = Result.error
to_result Rslt.req_timeout = Result.request_timeout
to_result Rslt.seq_timeout = Result.sequence_timeout

unfoldable pub to_rslt : Result → Rslt
to_rslt Result.ignore = Rslt.ignore
to_rslt Result.success = Rslt.success
to_rslt Result.error = Rslt.error
to_rslt Result.request_timeout = Rslt.req_timeout
to_rslt Result.sequence_timeout = Rslt.seq_timeout

pub record Reply : Type 0 where
  pub req_id : ℕ
  pub rslt : Result
  pub msg : Bytes

-- `src` is `none` for NULL; `message` is what `data_` and `length_` show.
pub record Source : Type 0 where
  pub src : Option Src
  pub message : Bytes

-- A NULL leaves the message that was there.
unfoldable pub set : Option Src → Source → Source
set none s = record s { src = none }
set (some p) s = record { src = some p; message = p.msg }

unfoldable pub new_source : Option Src → Source
unfolding set
new_source p = set p (record { src = none; message = [] })

-- The getters; `none` is a read through NULL.
unfoldable pub get_result : Source → Option Result
unfolding to_result
get_result s = elim s.src [ none ↦ none | some p ↦ some (to_result p.result) ]

unfoldable pub get_message : Source → Bytes
get_message s = s.message

unfoldable pub get_client_id : Source → Option ℕ
get_client_id s = elim s.src [ none ↦ none | some p ↦ some p.client_id ]

unfoldable pub get_thread_idx : Source → Option ℕ
get_thread_idx s = elim s.src [ none ↦ none | some p ↦ some p.thread_idx ]

unfoldable pub get_sequence_idx : Source → Option ℕ
get_sequence_idx s = elim s.src [ none ↦ none | some p ↦ some p.seq_idx ]

unfoldable pub get_request_id : Source → Option ℕ
get_request_id s = elim s.src [ none ↦ none | some p ↦ some p.req_id ]

pub to_result-to_rslt : (r : Result) → to_result (to_rslt r) ≡ r
unfolding to_result to_rslt
to_result-to_rslt Result.ignore = refl
to_result-to_rslt Result.success = refl
to_result-to_rslt Result.error = refl
to_result-to_rslt Result.request_timeout = refl
to_result-to_rslt Result.sequence_timeout = refl
