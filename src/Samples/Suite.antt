-- ===== src/Samples/Suite.antt =====
-- testpp/main.cpp: the data of the process, and the sequences of the test modules.
use coseq.Base.{
  ℕ, zero, suc, ◌+◌, Bool, true, false, ◌&&◌, List, [], ◌∷◌, ◌++◌, Option, none, some, ℤ, pos,
  negsuc, ltb, ◌==◌, length, if◌then◌else◌,
}
use coseq.Types.{Bytes, Rslt, Src}
use coseq.Request.{coseq_source, coseq_self_seq_name}
use coseq.Program.{Op, Program, returns, fails, call, reads, looks, writes}
use coseq.Wrapper.Source.{
  Result, Reply, Source, new_source, get_message, get_thread_idx, get_sequence_idx,
}
use coseq.Wrapper.Iface.{reply_of}
use coseq.Samples.{assert, reply_and_return}
use coseq.Samples.Methods.{collect_all, same_result, result_is, same_name, same_bytes}
use mathlib.Core.List.{map}

abbrev pub mod_a : ℕ
mod_a = 0

abbrev pub mod_b : ℕ
mod_b = 1

abbrev pub mod_c : ℕ
mod_c = 2

-- The indices of sequences that the modules use among themselves.
abbrev pub b_chain_idx : ℕ
b_chain_idx = 0

abbrev pub b_slow_idx : ℕ
b_slow_idx = 1

abbrev pub b_echo_idx : ℕ
b_echo_idx = 2

abbrev pub c_work_idx : ℕ
c_work_idx = 0

abbrev pub c_register_idx : ℕ
c_register_idx = 1

abbrev pub c_sink_idx : ℕ
c_sink_idx = 5

abbrev pub cat : ℕ
cat = 0

-- The static variables, with their values at the start. `log` is written by the thread of module A only.
pub record Globals : Type 0 where
  pub notify_count : ℕ
  pub notify_last_len : ℤ
  pub log_errors : ℕ
  pub sink_count : ℕ
  pub log : Bytes

unfoldable pub initial : Globals
initial = record {
  notify_count = 0;
  notify_last_len = negsuc 0;
  log_errors = 0;
  sink_count = 0;
  log = [];
}

abbrev pub Code : Type 0
Code = Program Globals

-- "[", "]" and "P".
abbrev pub open_mark : ℕ
open_mark = 91

abbrev pub close_mark : ℕ
close_mark = 93

abbrev pub probe_mark : ℕ
probe_mark = 80

abbrev pub clear_log : Code → Code
clear_log k = writes (λ g. record g { log = [] }) k

abbrev pub log_mark : ℕ → Code → Code
log_mark c k = writes (λ g. record g { log = g.log ++ c ∷ [] }) k

-- What a call that returns a `coseq_src_t *` gives through `source`.
abbrev pub seen : Src → Source
seen r = new_source (some r)

-- Module A.
unfoldable pub echo : Code
unfolding coseq_source coseq_self_seq_name
echo = reads λ f.
    assert (same_name (coseq_self_seq_name f) "echo")
      (reply_and_return Rslt.success (get_message (seen (coseq_source f))))

unfoldable pub chain : Code
unfolding result_is
chain =
    call (Op.request mod_b b_chain_idx [])
      λ r. assert (result_is Result.success (seen r)) (reply_and_return Rslt.success [])

unfoldable pub reqto : Code
unfolding result_is
reqto =
    call (Op.request_timeout mod_b b_slow_idx [] 100)
      λ r. assert (result_is Result.request_timeout (seen r)) (reply_and_return Rslt.success [])

-- The body of the loop on a reply: which of the two counts goes up.
unfoldable pub judge : ℕ → ℕ → Code → Code → Option Src → Code
unfolding result_is
judge id_b id_c from_b from_c none = fails
judge id_b id_c from_b from_c (some s) =
    assert (result_is Result.success (seen s))
      (if s.req_id == id_b then from_b else if s.req_id == id_c then from_c else fails)

-- The loop and what follows it, with the counts of replies so far.
unfoldable pub collect : ℕ → ℕ → ℕ → ℕ → ℕ → Code
unfolding judge
collect id_b id_c zero got_b got_c =
    assert (got_b == 1 && got_c == 1) (reply_and_return Rslt.success [])
collect id_b id_c (suc n) got_b got_c =
    let from_b = collect id_b id_c n (suc got_b) got_c in
    let from_c = collect id_b id_c n got_b (suc got_c) in
    call Op.wait_one (judge id_b id_c from_b from_c)

unfoldable pub fanout : Code
unfolding collect
fanout =
    call (Op.request_async mod_b b_slow_idx [])
      λ id_b. call (Op.request_async mod_c c_work_idx []) λ id_c. collect id_b id_c 2 0 0

unfoldable pub all_success : List Reply → Bool
all_success [] = true
all_success (r ∷ rs) = same_result r.rslt Result.success && all_success rs

unfoldable pub gather : Code
unfolding all_success reply_of collect_all
gather = call (Op.request_async mod_b b_slow_idx []) λ _.
    call (Op.request_async mod_c c_work_idx []) λ _.
      call (Op.request_async mod_c c_work_idx []) λ _. collect_all 4 [] λ rs.
        assert (length (map reply_of rs) == 3)
          (assert (all_success (map reply_of rs)) (reply_and_return Rslt.success []))

-- `data()[0]` of a message of length 1.
abbrev first_byte : Bytes → (ℕ → Code) → Code
first_byte [] k = fails
first_byte (b ∷ bs) k = k b

unfoldable pub subscribe : Code
unfolding result_is
subscribe = call (Op.request mod_c c_register_idx []) λ r.
    assert (result_is Result.success (seen r)) (
      assert (length (get_message (seen r)) == 1)
        (first_byte (get_message (seen r)) λ cid. reply_and_return Rslt.success (cid ∷ [])))

unfoldable pub lock_seq : Code
lock_seq = clear_log (
    log_mark open_mark (
      call Op.lock λ _.
        call (Op.request mod_b b_slow_idx [])
          λ _. call Op.unlock λ _. log_mark close_mark (reply_and_return Rslt.success [])))

unfoldable pub nolock_seq : Code
nolock_seq = clear_log (
    log_mark open_mark (
      call (Op.request mod_b b_slow_idx [])
        λ _. log_mark close_mark (reply_and_return Rslt.success [])))

unfoldable pub probe : Code
probe = log_mark probe_mark (reply_and_return Rslt.success [])

unfoldable pub getlog : Code
getlog = looks λ g. reply_and_return Rslt.success g.log

-- "xyz".
abbrev pub xyz : Bytes
xyz = 120 ∷ 121 ∷ 122 ∷ []

unfoldable pub reqmsg : Code
unfolding result_is same_bytes
reqmsg = call (Op.request mod_b b_echo_idx xyz) λ r.
    assert (result_is Result.success (seen r))
      (assert (same_bytes (get_message (seen r)) xyz) (reply_and_return Rslt.success []))

unfoldable pub do_send : Code
do_send = call (Op.send mod_c c_sink_idx []) λ _. reply_and_return Rslt.success []

-- "hello".
abbrev pub hello : Bytes
hello = 104 ∷ 101 ∷ 108 ∷ 108 ∷ 111 ∷ []

abbrev count_notify : ℕ → Code → Code
count_notify n k =
    writes (λ g. record g { notify_count = g.notify_count + 1; notify_last_len = pos n }) k

unfoldable pub on_receive_notify : Code
unfolding coseq_source same_bytes
on_receive_notify = reads λ f.
    let msg = get_message (seen (coseq_source f)) in
    if ltb 0 (length msg)
    then assert (same_bytes msg hello) (count_notify (length msg) returns)
    else count_notify (length msg) returns

-- Module B.
unfoldable pub chain_b : Code
unfolding result_is
chain_b =
    call (Op.request mod_c c_work_idx [])
      λ r. assert (result_is Result.success (seen r)) (reply_and_return Rslt.success [])

unfoldable pub slow : Code
slow = call (Op.wait_timeout 300) λ _. reply_and_return Rslt.success []

abbrev is_number : ℕ → Option ℕ → Bool
is_number n none = false
is_number n (some k) = k == n

unfoldable pub echo_b : Code
unfolding coseq_source get_thread_idx get_sequence_idx
echo_b = reads λ f.
    let s = seen (coseq_source f) in
    assert (is_number mod_a (get_thread_idx s)) (
      assert (is_number b_echo_idx (get_sequence_idx s))
        (reply_and_return Rslt.success (get_message s)))

-- Module C.
unfoldable pub work : Code
work = call (Op.wait_timeout 100) λ _. reply_and_return Rslt.success []

abbrev pub registered : Option ℕ → Code
registered (some client_id) = reply_and_return Rslt.success (client_id ∷ [])
registered none = reply_and_return Rslt.error []

unfoldable pub regist : Code
regist = call (Op.reg_notify cat) registered

unfoldable pub notify_once : Code
notify_once = call (Op.notify cat hello) λ _. reply_and_return Rslt.success []

-- `*data()` of the message; without one it is a read through NULL.
unfoldable pub unregist : Code
unfolding coseq_source
unregist = reads λ f. first_byte (get_message (seen (coseq_source f))) λ client_id.
    call (Op.unreg_notify cat client_id)
      λ ok. reply_and_return (if ok then Rslt.success else Rslt.error) []

unfoldable pub notify_empty : Code
notify_empty = call (Op.notify cat []) λ _. reply_and_return Rslt.success []

unfoldable pub sink : Code
sink = writes (λ g. record g { sink_count = g.sink_count + 1 }) returns
