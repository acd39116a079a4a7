-- ===== src/Samples/Methods.antt =====
-- What the C++ sample and the C++ tests share: their modules are objects of `module_base`, whose
-- sequences are methods, and which read results through `source`.
use Prim.Native.String.{String, compare}
use text.Mathlib.Text.{is_eq}
use coseq.Base.{
  ℕ, zero, suc, ◌++◌, Bool, true, false, List, [], ◌∷◌, ◌==◌, ◌&&◌, if◌then◌else◌, none, some,
  get_elem?,
}
use coseq.Types.{Bytes, Ptr, Src}
use coseq.Request.{coseq_self_seq}
use coseq.Program.{Op, Program, call, fails, reads}
use coseq.Wrapper.Source.{Result, Source, get_result}
use coseq.Wrapper.Manager.{
  Sequence, Objects, seq_wrapper_fn, notify_wrapper_fn, dispatch_seq, dispatch_notify,
}

-- `==` of results.
abbrev pub same_result : Result → Result → Bool
same_result Result.ignore Result.ignore = true
same_result Result.success Result.success = true
same_result Result.error Result.error = true
same_result Result.request_timeout Result.request_timeout = true
same_result Result.sequence_timeout Result.sequence_timeout = true
same_result _ _ = false

-- `s.get_result() == r`; the program ends at a read through NULL, as at an assertion.
unfoldable pub result_is : Result → Source → Bool
unfolding get_result
result_is r s = elim (get_result s) [ none ↦ false | some x ↦ same_result x r ]

-- `==` of names.
abbrev pub same_name : String → String → Bool
same_name s t = is_eq (compare s t)

-- `==` of byte strings.
unfoldable pub same_bytes : Bytes → Bytes → Bool
same_bytes [] [] = true
same_bytes [] (y ∷ ys) = false
same_bytes (x ∷ xs) [] = false
same_bytes (x ∷ xs) (y ∷ ys) = x == y && same_bytes xs ys

abbrev pub method : {G : Type 0} → List (Program G) → ℕ → Program G
method methods i = elim (get_elem? methods i) [ none ↦ fails | some k ↦ k ]

-- The code of a module whose `user` is the object `mb`: `seq_wrapper` and `notify_wrapper` of
-- coseqpp/coseqpp.cpp find the method.
unfoldable pub object_code : {G : Type 0} → Objects → Ptr → List (Program G) → ℕ → Program G
unfolding dispatch_seq dispatch_notify coseq_self_seq
object_code objs mb methods fn =
    if fn == seq_wrapper_fn
    then reads (λ f. elim (dispatch_seq objs mb (coseq_self_seq f)) [
      | none ↦ fails
      | some i ↦ method methods i
    ])
    else if fn == notify_wrapper_fn
    then method methods (dispatch_notify objs mb)
    else fails

abbrev pub sequence : ℕ → String → Sequence
sequence i name = record { seq = i; name = name }

-- `iface::gather_all` as a sequence calls it, a loop of `wait_reply` until there is no reply; the vector is handed to `k`.
-- It has `turns` turns to go; the sequences here give it one more than they have requests out.
unfoldable pub collect_all : {G : Type 0} → ℕ → List Src → (List Src → Program G) → Program G
collect_all zero rs k = fails
collect_all (suc turns) rs k =
    call Op.wait_one λ r. elim r [ none ↦ k rs | some s ↦ collect_all turns (rs ++ s ∷ []) k ]
