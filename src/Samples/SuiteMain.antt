-- ===== src/Samples/SuiteMain.antt =====
-- testpp/main.cpp: the main function and its log callback. The numbers of the parts are those of the source.
-- What it prints is left out.
use coseq.Base.{ℕ, ◌+◌, Bool, false, [], ◌∷◌, ℤ, pos, negsuc, ◌==◌, length, if◌then◌else◌}
use coseq.Types.{Bytes}
use coseq.Log.{LogLevel}
use coseq.Wrapper.Source.{Result, get_message}
use coseq.Samples.Methods.{result_is, same_bytes}
use coseq.Samples.Client.{
  Ask, Client, exits, aborts, ask, glances, check, sync_only, async, pause, milliseconds,
}
use coseq.Samples.Suite.{
  Globals, seen, mod_a, mod_c, c_register_idx, c_sink_idx, open_mark, close_mark, probe_mark,
}
use coseq.Samples.SuiteModules.{module_a, module_b, module_c}
use coseq.Samples.C.{module_name}

-- The log callback.
unfoldable pub count_error : LogLevel → Globals → Globals
count_error LogLevel.error g = record g { log_errors = g.log_errors + 1 }
count_error _ g = g

-- "ping".
abbrev pub ping : Bytes
ping = 112 ∷ 105 ∷ 110 ∷ 103 ∷ []

abbrev pub Main : Type 0
Main = Client Globals

-- A request to module A without a message that must succeed.
abbrev pub must_succeed : ℕ → Main → Main
must_succeed seq_idx k =
    ask (Ask.request_sync mod_a seq_idx []) λ r. check (result_is Result.success (seen r)) k

abbrev is_len : ℤ → ℕ → Bool
is_len (pos n) m = n == m
is_len (negsuc n) m = false

abbrev pub counts : ℕ → ℕ → Main → Main
counts n len k =
    glances λ g. check (g.notify_count == n) (glances λ h. check (is_len h.notify_last_len len) k)

unfoldable pub test_echo : Main → Main
unfolding result_is same_bytes
test_echo k = ask (Ask.request_sync mod_a 0 ping) λ r.
    check (result_is Result.success (seen r)) (check (same_bytes (get_message (seen r)) ping) k)

abbrev pub client_byte : Bytes → (ℕ → Main) → Main
client_byte [] k = aborts
client_byte (b ∷ bs) k = k b

-- 6.
unfoldable pub test_notify : Main → Main
unfolding result_is
test_notify k = ask (Ask.request_sync mod_a 5 []) λ r. check (result_is Result.success (seen r)) (
    check (length (get_message (seen r)) == 1) (
      client_byte (get_message (seen r)) λ client_id. sync_only mod_c 2 (
        pause (milliseconds 100) (
          counts 1 5 (
            sync_only mod_c 4 (
              pause (milliseconds 100) (
                counts 2 0 (
                  ask (Ask.request_sync mod_c 3 (client_id ∷ [])) λ ur.
                    check (result_is Result.success (seen ur)) (
                      sync_only mod_c 2 (
                        pause (milliseconds 100)
                          (glances λ g. check (g.notify_count == 2) k)))))))))))

-- 7 and 8: the sequence of index `seq_idx`, and a probe while it waits.
unfoldable pub test_log : ℕ → Bytes → Main → Main
unfolding same_bytes
test_log seq_idx log k = async mod_a seq_idx (
    pause (milliseconds 50) (
      async mod_a 8 (
        pause (milliseconds 400) (
          ask (Ask.request_sync mod_a 9 []) λ r. check (same_bytes (get_message (seen r)) log) k))))

-- 9b.
unfoldable pub test_send : Main → Main
test_send k = glances λ g. sync_only mod_a 11 (
    async mod_c c_sink_idx
      (pause (milliseconds 100) (glances λ h. check (h.sink_count == g.sink_count + 2) k)))

-- 10.
unfoldable pub test_errors : Main → Main
unfolding result_is
test_errors k = glances λ g. ask (Ask.request_async 99 0 (1 ∷ 2 ∷ 3 ∷ 4 ∷ [])) λ _. async mod_c 99 (
    pause (milliseconds 100) (
      glances λ h. check (h.log_errors == g.log_errors + 2) (
        ask (Ask.request_sync mod_c c_register_idx [])
          λ r. check (result_is Result.error (seen r)) k)))

-- 1 to 9b, after which no line of level error has been logged.
unfoldable pub suite : Main → Main
unfolding test_echo test_notify test_log test_send result_is
suite k = test_echo (
    must_succeed 1 (
      must_succeed 2 (
        must_succeed 3 (
          must_succeed 4 (
            test_notify (
              must_succeed 10 (
                test_log 6 (open_mark ∷ close_mark ∷ probe_mark ∷ []) (
                  test_log 7 (open_mark ∷ probe_mark ∷ close_mark ∷ [])
                    (test_send (glances λ g. check (g.log_errors == 0) k))))))))))

-- At the end `~manager` frees the instance.
unfoldable pub suite_main : Main
unfolding suite test_errors
suite_main = ask Ask.create λ made.
    if made
    then (ask
        (Ask.setup_modules (
          module_a (module_name 65) 10
          ∷ module_b (module_name 66) 10
          ∷ module_c (module_name 67) 10
          ∷ []))
        λ done.
          check done (suite (test_errors (ask Ask.teardown λ _. ask Ask.destroy λ _. exits 0))))
    else aborts
