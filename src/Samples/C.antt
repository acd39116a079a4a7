-- ===== src/Samples/C.antt =====
-- samples/sample.c: the sequences of its modules, their tables, and `main`.
use Prim.Native.String.{String}
use coseq.Base.{
  ℕ, zero, suc, List, [], ◌∷◌, Option, none, some, ◌==◌, length, get_elem?, if◌then◌else◌,
}
use coseq.Types.{Bytes, Reg, Rslt, SeqEntry, Src}
use coseq.Request.{coseq_source}
use coseq.Program.{Op, Program, returns, fails, call, reads}
use coseq.Samples.{Arg, Out, printf, rslt_int, reply_and_return}

abbrev pub mod_a : ℕ
mod_a = 0

abbrev pub mod_b : ℕ
mod_b = 1

abbrev pub mod_c : ℕ
mod_c = 2

-- The enumerations of sequences, by module.
abbrev pub seq_a_echo : ℕ
seq_a_echo = 0

abbrev pub seq_a_chain : ℕ
seq_a_chain = 1

abbrev pub seq_a_sub : ℕ
seq_a_sub = 2

abbrev pub seq_a_reqto : ℕ
seq_a_reqto = 3

abbrev pub seq_a_fanout : ℕ
seq_a_fanout = 4

abbrev pub seq_a_gather : ℕ
seq_a_gather = 5

abbrev pub seq_b_chain : ℕ
seq_b_chain = 0

abbrev pub seq_b_slow : ℕ
seq_b_slow = 1

abbrev pub seq_c_loop : ℕ
seq_c_loop = 0

abbrev pub seq_c_register : ℕ
seq_c_register = 1

abbrev pub seq_c_work : ℕ
seq_c_work = 2

abbrev pub notify_cat_1 : ℕ
notify_cat_1 = 0

unfoldable pub a_echo : Program Out
unfolding coseq_source
a_echo = reads λ f. reply_and_return Rslt.success (coseq_source f).msg

unfoldable pub a_chain : Program Out
unfolding printf
a_chain = printf "[A::chain] lock + request B::chain\n" [] (
    call Op.lock λ _. call (Op.request mod_b seq_b_chain []) λ r. call Op.unlock λ _.
      printf "[A::chain] reply from B [%d]\n" (Arg.int (rslt_int r.result) ∷ [])
        (reply_and_return Rslt.success []))

abbrev first_or_ff : Bytes → ℕ
first_or_ff [] = 0xff
first_or_ff (b ∷ bs) = b

unfoldable pub a_sub : Program Out
unfolding printf
a_sub = printf "[A::sub] request C::register (subscribe NOTIFY_CAT_1)\n" [] (
    call (Op.request mod_c seq_c_register []) λ r.
      printf "[A::sub] subscribed. client_id=%u\n" (Arg.int (first_or_ff r.msg) ∷ [])
        (reply_and_return Rslt.success []))

abbrev timeout_or_other : Rslt → String
timeout_or_other Rslt.req_timeout = "REQ_TIMEOUT"
timeout_or_other _ = "other"

unfoldable pub a_reqto : Program Out
unfolding printf
a_reqto = printf "[A::reqto] request_timeout B::slow (timeout 100ms, B takes 300ms)\n" [] (
    call (Op.request_timeout mod_b seq_b_slow [] 100) λ r.
      printf "[A::reqto] result [%d] (%s)\n"
        (Arg.int (rslt_int r.result) ∷ Arg.text (timeout_or_other r.result) ∷ [])
        (reply_and_return Rslt.success []))

abbrev who : ℕ → ℕ → ℕ → String
who id_b id_c id = if id == id_b then "B::slow" else if id == id_c then "C::work" else "?"

-- The body of the loop; a NULL from `coseq_wait_reply` is read through.
unfoldable pub report : ℕ → ℕ → Program Out → Option Src → Program Out
unfolding printf
report id_b id_c more none = fails
report id_b id_c more (some s) =
    printf "[A::fanout] got id=%u (%s) result=%d\n"
      (Arg.int s.req_id ∷ Arg.text (who id_b id_c s.req_id) ∷ Arg.int (rslt_int s.result) ∷ []) more

-- The loop, with `n` rounds to go.
unfoldable pub collect : ℕ → ℕ → ℕ → Program Out
unfolding report
collect id_b id_c zero = reply_and_return Rslt.success []
collect id_b id_c (suc n) =
    let more = collect id_b id_c n in call Op.wait_one (report id_b id_c more)

unfoldable pub a_fanout : Program Out
unfolding printf collect
a_fanout = call (Op.request_async mod_b seq_b_slow []) λ id_b.
    call (Op.request_async mod_c seq_c_work []) λ id_c.
      printf "[A::fanout] fired B(id=%u) & C(id=%u), gather...\n" (Arg.int id_b ∷ Arg.int id_c ∷ [])
        (collect id_b id_c 2)

-- `gather_cb` prints one line for each reply, in their order. (The lines stand here together; in C each is
-- printed when its reply comes, and lines of other fibers may come between.)
unfoldable pub gather_cb : Program Out → List Src → Program Out
unfolding printf
gather_cb k [] = k
gather_cb k (r ∷ rs) =
    printf "[A::gather] reply id=%u result=%d\n"
      (Arg.int r.req_id ∷ Arg.int (rslt_int r.result) ∷ []) (gather_cb k rs)

unfoldable pub a_gather : Program Out
unfolding printf gather_cb
a_gather = call (Op.request_async mod_b seq_b_slow []) λ _.
    call (Op.request_async mod_c seq_c_work []) λ _. call Op.gather λ rs.
      gather_cb
        (printf "[A::gather] all %d replies gathered\n" (Arg.int (length rs) ∷ [])
          (reply_and_return Rslt.success []))
        rs

unfoldable pub a_recv_notify : Program Out
unfolding printf coseq_source
a_recv_notify = reads λ f.
    printf "    [A::recv_notify] client_id=%u msg=[%.*s]\n"
      (Arg.int (coseq_source f).client_id ∷ Arg.bytes (coseq_source f).msg ∷ []) returns

unfoldable pub b_chain : Program Out
unfolding printf
b_chain = printf "  [B::chain] request C::work\n" [] (
    call (Op.request mod_c seq_c_work []) λ r.
      printf "  [B::chain] reply from C [%d]\n" (Arg.int (rslt_int r.result) ∷ [])
        (reply_and_return Rslt.success []))

unfoldable pub b_slow : Program Out
b_slow = call (Op.wait_timeout 300) λ _. reply_and_return Rslt.success []

-- The endless loop, for `rounds` rounds; `n` stands in the saved stack of the fiber. `text n` is what
-- `snprintf` writes for "notify #%d" and n.
unfoldable pub tick : (ℕ → Bytes) → ℕ → ℕ → Program Out
tick text zero n = fails
tick text (suc rounds) n =
    call (Op.wait_timeout 300)
      λ _. call (Op.notify notify_cat_1 (text (suc n))) λ _. tick text rounds (suc n)

unfoldable pub c_loop : (ℕ → Bytes) → ℕ → Program Out
unfolding tick
c_loop text rounds = call (Op.reply Rslt.success []) λ _. tick text rounds 0

unfoldable pub c_register : Program Out
c_register = call (Op.reg_notify notify_cat_1) λ ok. elim ok [
  | some client_id ↦ reply_and_return Rslt.success (client_id ∷ [])
  | none ↦ reply_and_return Rslt.error []
]

unfoldable pub c_work : Program Out
c_work = call (Op.wait_timeout 100) λ _. reply_and_return Rslt.success []

-- The function pointers of the tables, by number.
unfoldable pub sample_code : (ℕ → Bytes) → ℕ → ℕ → Program Out
sample_code text rounds fn =
    elim (get_elem?
      (a_echo
        ∷ a_chain
        ∷ a_sub
        ∷ a_reqto
        ∷ a_fanout
        ∷ a_gather
        ∷ a_recv_notify
        ∷ b_chain
        ∷ b_slow
        ∷ c_loop text rounds
        ∷ c_register
        ∷ c_work
        ∷ [])
      fn) [ none ↦ fails | some k ↦ k ]

abbrev pub entry_of : ℕ → String → SeqEntry
entry_of fn name = record { fn = fn; name = name }

unfoldable pub a_seqs : List SeqEntry
a_seqs =
    entry_of 0 "echo"
    ∷ entry_of 1 "chain"
    ∷ entry_of 2 "sub"
    ∷ entry_of 3 "reqto"
    ∷ entry_of 4 "fanout"
    ∷ entry_of 5 "gather"
    ∷ []

unfoldable pub b_seqs : List SeqEntry
b_seqs = entry_of 7 "chain" ∷ entry_of 8 "slow" ∷ []

unfoldable pub c_seqs : List SeqEntry
c_seqs = entry_of 9 "loop" ∷ entry_of 10 "register" ∷ entry_of 11 "work" ∷ []

-- "ModuleA", "ModuleB", "ModuleC"; the rest of an entry is zero.
abbrev pub module_name : ℕ → Bytes
module_name letter = 77 ∷ 111 ∷ 100 ∷ 117 ∷ 108 ∷ 101 ∷ letter ∷ []

abbrev reg : Bytes → List SeqEntry → ℕ → Option ℕ → Reg
reg name seqs n recv = record {
  name = some name;
  nr_que_max = 10;
  seq_array = seqs;
  nr_seq_max = n;
  recv_notify = recv;
  user = 0;
}

unfoldable pub tbl : List Reg
unfolding a_seqs b_seqs c_seqs
tbl =
    reg (module_name 65) a_seqs 6 (some 6)
    ∷ reg (module_name 66) b_seqs 2 none
    ∷ reg (module_name 67) c_seqs 3 none
    ∷ []
