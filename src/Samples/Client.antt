-- ===== src/Samples/Client.antt =====
-- The main function of a sample or of the tests as a program over the calls of an instance: `create_coseq`
-- and the functions of `coseq_ctx_if_t` in coseq/coseq_if.h, directly or through `manager` of
-- coseqpp/coseqpp.h. It goes on by what a call returns; `G` is the data of the process.
use coseq.Base.{ℕ, Bool, if◌then◌else◌, List, [], ◌∷◌, ◌++◌, ◌*◌}
use coseq.Types.{Bytes, Reg, Src}
use coseq.Wrapper.Manager.{ModuleBase}
use coseq.Samples.{Arg, Out}
use Prim.Native.String.{String}

-- `setup_modules` is `manager::setup`, `sleep` a pause of the thread in microseconds.
pub data Ask : Type 0 where
  create : Ask
  setup : List Reg → ℕ → Ask
  setup_modules : List ModuleBase → Ask
  request_sync : ℕ → ℕ → Bytes → Ask
  request_async : ℕ → ℕ → Bytes → Ask
  sleep : ℕ → Ask
  teardown destroy : Ask

-- `create` says whether there is an instance. A source is read before the next call.
abbrev pub Told : Ask → Type 0
Told Ask.create = Bool
Told (Ask.setup _ _) = Bool
Told (Ask.setup_modules _) = Bool
Told (Ask.request_sync _ _ _) = Src
Told _ = Unit

-- `aborts` is a call or a read through NULL, or a check that fails.
pub data Client (G : Type 0) : Type 0 where
  exits : ℕ → Client G
  aborts : Client G
  ask : (a : Ask) → (Told a → Client G) → Client G
  glances : (G → Client G) → Client G
  changes : (G → G) → Client G → Client G

-- `CHECK`.
abbrev pub check : {G : Type 0} → Bool → Client G → Client G
check b k = if b then k else aborts

-- A request whose result is not looked at.
abbrev pub sync_only : {G : Type 0} → ℕ → ℕ → Client G → Client G
sync_only module_idx seq_idx k = ask (Ask.request_sync module_idx seq_idx []) λ _. k

abbrev pub async : {G : Type 0} → ℕ → ℕ → Client G → Client G
async module_idx seq_idx k = ask (Ask.request_async module_idx seq_idx []) λ _. k

abbrev pub pause : {G : Type 0} → ℕ → Client G → Client G
pause us k = ask (Ask.sleep us) λ _. k

abbrev pub milliseconds : ℕ → ℕ
milliseconds n = n * 1000

unfoldable pub say : String → List Arg → Client Out → Client Out
say format args k = changes (λ out. out ++ record { format = format; args = args } ∷ []) k
