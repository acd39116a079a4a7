-- ===== src/Samples/Cpp.antt =====
-- samplespp/sample.cpp: the sequences of its modules. What it prints through `std::cout` up to `std::endl` is one line, its literal
-- parts as a format.
use Prim.Native.String.{String}
use coseq.Base.{ℕ, zero, suc, List, [], ◌∷◌, Option, none, some, ◌==◌, length, if◌then◌else◌}
use mathlib.Core.List.{map}
use coseq.Types.{Bytes, Rslt, Src}
use coseq.Request.{coseq_source}
use coseq.Program.{Op, Program, returns, fails, call, reads}
use coseq.Wrapper.Source.{
  Result, Reply, Source, to_rslt, new_source, get_result, get_message, get_client_id,
  get_request_id,
}
use coseq.Wrapper.Iface.{reply_of}
use coseq.Wrapper.Manager.{ModuleBase, new_module, set_sequences}
use coseq.Samples.{Arg, Out, printf, rslt_int, reply_and_return}
use coseq.Samples.Methods.{collect_all, sequence, same_result}

abbrev pub module_a_idx : ℕ
module_a_idx = 0

abbrev pub module_b_idx : ℕ
module_b_idx = 1

abbrev pub module_c_idx : ℕ
module_c_idx = 2

abbrev pub b_chain_idx : ℕ
b_chain_idx = 0

abbrev pub b_slow_idx : ℕ
b_slow_idx = 1

abbrev pub c_register_idx : ℕ
c_register_idx = 1

abbrev pub c_work_idx : ℕ
c_work_idx = 2

abbrev pub notify_cat_1 : ℕ
notify_cat_1 = 0

-- `(int)` of a `coseq::result`, whose values are those of C.
abbrev pub result_int : Result → ℕ
result_int r = rslt_int (to_rslt r)

-- What a getter returns; `none` is a read through NULL, at which the program ends.
abbrev pub with_value : {A : Type 0} → Option A → (A → Program Out) → Program Out
with_value none k = fails
with_value (some x) k = k x

abbrev seen : Src → Source
seen r = new_source (some r)

unfoldable pub echo : Program Out
unfolding coseq_source
echo = reads λ f. reply_and_return Rslt.success (get_message (seen (coseq_source f)))

unfoldable pub chain : Program Out
unfolding printf get_result rslt_int to_rslt
chain = printf "[A::chain] lock + request B::chain" [] (
    call Op.lock λ _. call (Op.request module_b_idx b_chain_idx []) λ r. call Op.unlock λ _.
      with_value (get_result (seen r)) λ x.
        printf "[A::chain] reply from B [%d]" (Arg.int (result_int x) ∷ [])
          (reply_and_return Rslt.success []))

abbrev first_or_ff : Bytes → ℕ
first_or_ff [] = 0xff
first_or_ff (b ∷ bs) = b

unfoldable pub sub : Program Out
unfolding printf
sub = printf "[A::sub] request C::register" [] (
    call (Op.request module_c_idx c_register_idx []) λ r.
      printf "[A::sub] subscribed. client_id=%d" (Arg.int (first_or_ff (get_message (seen r))) ∷ [])
        (reply_and_return Rslt.success []))

abbrev timeout_or_other : Result → String
timeout_or_other x = if same_result x Result.request_timeout then "REQ_TIMEOUT" else "other"

unfoldable pub reqto : Program Out
unfolding printf get_result rslt_int to_rslt
reqto = printf "[A::reqto] request_timeout B::slow (100ms, B takes 300ms)" [] (
    call (Op.request_timeout module_b_idx b_slow_idx [] 100) λ r.
      with_value (get_result (seen r)) λ x.
        printf "[A::reqto] result [%d] (%s)"
          (Arg.int (result_int x) ∷ Arg.text (timeout_or_other x) ∷ [])
          (reply_and_return Rslt.success []))

abbrev who : ℕ → ℕ → ℕ → String
who id_b id_c id = if id == id_b then "B::slow" else if id == id_c then "C::work" else "?"

unfoldable pub report : ℕ → ℕ → Program Out → Option Src → Program Out
unfolding printf get_request_id get_result rslt_int to_rslt
report id_b id_c more none = fails
report id_b id_c more (some s) = with_value (get_request_id (seen s)) λ id.
    with_value (get_result (seen s)) λ x.
      printf "[A::fanout] got id=%d (%s) result=%d"
        (Arg.int id ∷ Arg.text (who id_b id_c id) ∷ Arg.int (result_int x) ∷ []) more

unfoldable pub collect : ℕ → ℕ → ℕ → Program Out
unfolding report
collect id_b id_c zero = reply_and_return Rslt.success []
collect id_b id_c (suc n) =
    let more = collect id_b id_c n in call Op.wait_one (report id_b id_c more)

unfoldable pub fanout : Program Out
unfolding printf collect
fanout = call (Op.request_async module_b_idx b_slow_idx []) λ id_b.
    call (Op.request_async module_c_idx c_work_idx []) λ id_c.
      printf "[A::fanout] fired B(id=%d) & C(id=%d), gather..." (Arg.int id_b ∷ Arg.int id_c ∷ [])
        (collect id_b id_c 2)

unfoldable pub print_replies : Program Out → List Reply → Program Out
unfolding printf rslt_int to_rslt
print_replies k [] = k
print_replies k (r ∷ rs) =
    printf "[A::gather] reply id=%d result=%d" (Arg.int r.req_id ∷ Arg.int (result_int r.rslt) ∷ [])
      (print_replies k rs)

unfoldable pub gather : Program Out
unfolding printf print_replies reply_of collect_all
gather = call (Op.request_async module_b_idx b_slow_idx []) λ _.
    call (Op.request_async module_c_idx c_work_idx []) λ _. collect_all 3 [] λ rs.
      print_replies
        (printf "[A::gather] all %d replies gathered" (Arg.int (length (map reply_of rs)) ∷ [])
          (reply_and_return Rslt.success []))
        (map reply_of rs)

unfoldable pub on_receive_notify : Program Out
unfolding printf coseq_source get_client_id
on_receive_notify = reads λ f. with_value (get_client_id (seen (coseq_source f))) λ id.
    printf "    [A::recv_notify] client_id=%d msg=[%s]"
      (Arg.int id ∷ Arg.bytes (get_message (seen (coseq_source f))) ∷ []) returns

unfoldable pub chain_b : Program Out
unfolding printf get_result rslt_int to_rslt
chain_b = printf "  [B::chain] request C::work" [] (
    call (Op.request module_c_idx c_work_idx []) λ r. with_value (get_result (seen r)) λ x.
      printf "  [B::chain] reply from C [%d]" (Arg.int (result_int x) ∷ [])
        (reply_and_return Rslt.success []))

unfoldable pub slow : Program Out
slow = call (Op.wait_timeout 300) λ _. reply_and_return Rslt.success []

-- `rounds` and `text` as in the C sample; the text is "notify #" and `std::to_string` of n.
unfoldable pub tick : (ℕ → Bytes) → ℕ → ℕ → Program Out
tick text zero n = fails
tick text (suc rounds) n =
    call (Op.wait_timeout 300)
      λ _. call (Op.notify notify_cat_1 (text (suc n))) λ _. tick text rounds (suc n)

unfoldable pub loop : (ℕ → Bytes) → ℕ → Program Out
unfolding tick
loop text rounds = call (Op.reply Rslt.success []) λ _. tick text rounds 0

unfoldable pub regist : Program Out
regist = call (Op.reg_notify notify_cat_1) λ ok. elim ok [
  | some client_id ↦ reply_and_return Rslt.success (client_id ∷ [])
  | none ↦ reply_and_return Rslt.error []
]

unfoldable pub work : Program Out
work = call (Op.wait_timeout 100) λ _. reply_and_return Rslt.success []

-- The three modules; `on_receive_notify` of modules B and C is that of `module_base`.
unfoldable pub module_a : Bytes → ℕ → ModuleBase
unfolding new_module set_sequences
module_a name que_max =
    set_sequences
      (sequence 0 "echo"
        ∷ sequence 1 "chain"
        ∷ sequence 2 "sub"
        ∷ sequence 3 "reqto"
        ∷ sequence 4 "fanout"
        ∷ sequence 5 "gather"
        ∷ [])
      (new_module name que_max 6)

unfoldable pub methods_a : List (Program Out)
methods_a = echo ∷ chain ∷ sub ∷ reqto ∷ fanout ∷ gather ∷ on_receive_notify ∷ []

unfoldable pub module_b : Bytes → ℕ → ModuleBase
unfolding new_module set_sequences
module_b name que_max =
    set_sequences (sequence 0 "chain" ∷ sequence 1 "slow" ∷ []) (new_module name que_max 2)

unfoldable pub methods_b : List (Program Out)
methods_b = chain_b ∷ slow ∷ returns ∷ []

unfoldable pub module_c : Bytes → ℕ → ModuleBase
unfolding new_module set_sequences
module_c name que_max =
    set_sequences (sequence 0 "loop" ∷ sequence 1 "register" ∷ sequence 2 "work" ∷ [])
      (new_module name que_max 3)

unfoldable pub methods_c : (ℕ → Bytes) → ℕ → List (Program Out)
methods_c text rounds = loop text rounds ∷ regist ∷ work ∷ returns ∷ []
