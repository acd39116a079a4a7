-- ===== src/Samples/Mains.antt =====
-- The main functions of samples/sample.c and samplespp/sample.cpp, and their log callbacks.
use Prim.Native.String.{String}
use coseq.Base.{[], ◌∷◌, ◌++◌, Option, none, some, ◌*◌, if◌then◌else◌}
use coseq.Types.{Bytes, Src}
use coseq.Log.{LogLevel}
use coseq.Wrapper.Source.{Source, new_source, get_result, get_message, to_rslt}
use coseq.Samples.{Arg, Out, rslt_int}
use coseq.Samples.Client.{
  Ask, Client, exits, aborts, ask, say, sync_only, async, pause, milliseconds,
}
use coseq.Samples.C
use coseq.Samples.Cpp

-- The letter that the log callbacks print for a level.
abbrev pub level_letter : LogLevel → String
level_letter LogLevel.error = "E"
level_letter LogLevel.warn = "W"
level_letter LogLevel.info = "I"
level_letter LogLevel.debug = "D"

-- `sample_log`, and the log callback of the C++ sample; `msg` is the text that is logged.
unfoldable pub sample_log : LogLevel → Bytes → Out → Out
sample_log level msg out =
    out
    ++ record {
      format = "  [coseq %s] %s";
      args = Arg.text (level_letter level) ∷ Arg.bytes msg ∷ [];
    }
      ∷ []

-- "test-message".
abbrev test_message : Bytes
test_message = 116 ∷ 101 ∷ 115 ∷ 116 ∷ 45 ∷ 109 ∷ 101 ∷ 115 ∷ 115 ∷ 97 ∷ 103 ∷ 101 ∷ []

-- `main` of the C sample after `setup`.
unfoldable pub c_session : Client Out
unfolding say rslt_int
c_session = say "=== 1) echo ===" [] (
    ask (Ask.request_sync C.mod_a 0 test_message) λ r.
      say "reply [%d] [%.*s]" (Arg.int (rslt_int r.result) ∷ Arg.bytes r.msg ∷ []) (
        say "\n=== 2) chain (+lock): A -> B -> C ===" [] (
          ask (Ask.request_sync C.mod_a 1 []) λ s.
            say "reply [%d]" (Arg.int (rslt_int s.result) ∷ []) (
              say "\n=== 3) subscribe ===" [] (
                sync_only C.mod_a 2 (
                  say "\n=== 4) request_timeout ===" [] (
                    sync_only C.mod_a 3 (
                      say "\n=== 5) notify loop (~3 ticks) ===" [] (
                        async C.mod_c 0 (
                          pause (1000 * 1000) (
                            say "\n=== 6) fan-out (wait_reply per reply) ===" [] (
                              sync_only C.mod_a 4 (
                                say "\n=== 7) gather (wait all) ===" [] (
                                  sync_only C.mod_a 5 (
                                    say "\n=== teardown ===" [] (
                                      ask Ask.teardown λ _.
                                        ask Ask.destroy λ _. say "done" [] (exits 0)))))))))))))))))

unfoldable pub c_main : Client Out
unfolding c_session
c_main = ask Ask.create λ made. if made then (ask (Ask.setup C.tbl 3) λ _. c_session) else aborts

abbrev told_value : {A : Type 0} → Option A → (A → Client Out) → Client Out
told_value none k = aborts
told_value (some x) k = k x

abbrev told_source : Src → Source
told_source r = new_source (some r)

-- `main` of the C++ sample after `setup`; at its end `~manager` frees the instance.
unfoldable pub cpp_session : Client Out
unfolding say rslt_int get_result to_rslt
cpp_session = say "=== 1) echo ===" [] (
    ask (Ask.request_sync Cpp.module_a_idx 0 test_message) λ r.
      told_value (get_result (told_source r)) λ x.
        say "reply [%d] [%s]"
          (Arg.int (Cpp.result_int x) ∷ Arg.bytes (get_message (told_source r)) ∷ [])
          (say "\n=== 2) chain (+lock): A -> B -> C ===" [] (
            ask (Ask.request_sync Cpp.module_a_idx 1 []) λ s.
              told_value (get_result (told_source s)) λ y.
                say "reply [%d]" (Arg.int (Cpp.result_int y) ∷ []) (
                  say "\n=== 3) subscribe ===" [] (
                    sync_only Cpp.module_a_idx 2 (
                      say "\n=== 4) request_timeout ===" [] (
                        sync_only Cpp.module_a_idx 3 (
                          say "\n=== 5) notify loop (~3 ticks) ===" [] (
                            async Cpp.module_c_idx 0 (
                              pause (milliseconds 1000) (
                                say "\n=== 6) fan-out (wait_reply per reply) ===" [] (
                                  sync_only Cpp.module_a_idx 4 (
                                    say "\n=== 7) gather (wait all) ===" [] (
                                      sync_only Cpp.module_a_idx 5 (
                                        say "\n=== teardown ===" [] (
                                          ask Ask.teardown λ _.
                                            say "done" []
                                              (ask Ask.destroy λ _. exits 0)))))))))))))))))

-- "ModuleA", 10 and so on.
unfoldable pub cpp_main : Client Out
unfolding cpp_session
cpp_main = ask Ask.create λ made.
    if made
    then (ask
        (Ask.setup_modules (
          Cpp.module_a (C.module_name 65) 10
          ∷ Cpp.module_b (C.module_name 66) 10
          ∷ Cpp.module_c (C.module_name 67) 10
          ∷ []))
        λ _. cpp_session)
    else aborts
