-- ===== src/Samples/SuiteModules.antt =====
-- testpp/main.cpp: the three modules. The number of a sequence is its place among the methods of its
-- class here.
use coseq.Base.{ℕ, List, [], ◌∷◌}
use coseq.Types.{Bytes}
use coseq.Wrapper.Manager.{ModuleBase, new_module, set_sequences, set_sequences_array}
use coseq.Program.{returns}
use coseq.Samples.Methods.{sequence}
use coseq.Samples.Suite.{
  Code, echo, chain, reqto, fanout, gather, subscribe, lock_seq, nolock_seq, probe, getlog, reqmsg,
  do_send, on_receive_notify, chain_b, slow, echo_b, work, regist, notify_once, unregist,
  notify_empty, sink,
}

-- `que_max` is a `uint8_t`.
unfoldable pub module_a : Bytes → ℕ → ModuleBase
unfolding new_module set_sequences
module_a name que_max =
    set_sequences
      (sequence 0 "echo"
        ∷ sequence 1 "chain"
        ∷ sequence 2 "reqto"
        ∷ sequence 3 "fanout"
        ∷ sequence 4 "gather"
        ∷ sequence 5 "subscribe"
        ∷ sequence 6 "lock"
        ∷ sequence 7 "nolock"
        ∷ sequence 8 "probe"
        ∷ sequence 9 "getlog"
        ∷ sequence 10 "reqmsg"
        ∷ sequence 11 "do_send"
        ∷ [])
      (new_module name que_max 12)

unfoldable pub methods_a : List Code
methods_a =
    echo ∷ chain ∷ reqto ∷ fanout ∷ gather ∷ subscribe ∷ lock_seq ∷ nolock_seq ∷ probe ∷ getlog
    ∷ reqmsg ∷ do_send ∷ on_receive_notify ∷ []

-- `module_base::on_receive_notify`, which does nothing, is method 3 of module B and 6 of module C.
unfoldable pub module_b : Bytes → ℕ → ModuleBase
unfolding new_module set_sequences_array
module_b name que_max =
    set_sequences_array (sequence 0 "chain" ∷ sequence 1 "slow" ∷ sequence 2 "echo" ∷ []) 3
      (new_module name que_max 3)

unfoldable pub methods_b : List Code
methods_b = chain_b ∷ slow ∷ echo_b ∷ returns ∷ []

unfoldable pub module_c : Bytes → ℕ → ModuleBase
unfolding new_module set_sequences
module_c name que_max =
    set_sequences
      (sequence 0 "work"
        ∷ sequence 1 "register"
        ∷ sequence 2 "notify_once"
        ∷ sequence 3 "unregister"
        ∷ sequence 4 "notify_empty"
        ∷ sequence 5 "sink"
        ∷ [])
      (new_module name que_max 6)

unfoldable pub methods_c : List Code
methods_c = work ∷ regist ∷ notify_once ∷ unregist ∷ notify_empty ∷ sink ∷ returns ∷ []
