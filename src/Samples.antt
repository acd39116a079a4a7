-- ===== src/Samples.antt =====
-- The programs that come with the library: the samples samples/sample.c and samplespp/sample.cpp, and
-- the tests testpp/main.cpp. Their sequences are programs over the calls of the library,
-- and their main functions are programs over the calls of an instance.
--
-- A line that a sample prints is its format and what is put into it. A byte sequence that stands in
-- the source as a string literal is the list of its characters.
pub mod C
pub mod Methods
pub mod Suite
pub mod SuiteModules
pub mod Cpp
pub mod Replies
pub mod Starting
pub mod Locking
pub mod Exclusion
pub mod Verdicts
pub mod LockRounds
pub mod Register
pub mod Ticking
pub mod Fanned
pub mod FanOut
pub mod Client
pub mod Mains
pub mod SuiteMain
pub mod Targets
mod Tests
mod SampleTests
use Prim.Native.String.{String}
use coseq.Base.{ℕ, Bool, List, [], ◌∷◌, ◌++◌, if◌then◌else◌}
use coseq.Types.{Bytes, Rslt}
use coseq.Program.{Op, Program, returns, fails, call, writes}

pub data Arg : Type 0 where
  int : ℕ → Arg
  text : String → Arg
  bytes : Bytes → Arg

pub record Line : Type 0 where
  pub format : String
  pub args : List Arg

-- What has been printed.
abbrev pub Out : Type 0
Out = List Line

unfoldable pub printf : String → List Arg → Program Out → Program Out
printf format args k = writes (λ out. out ++ record { format = format; args = args } ∷ []) k

-- `(int)r->result`, the enumerator's value.
unfoldable pub rslt_int : Rslt → ℕ
rslt_int Rslt.ignore = 0
rslt_int Rslt.success = 1
rslt_int Rslt.error = 2
rslt_int Rslt.req_timeout = 3
rslt_int Rslt.seq_timeout = 4

-- `assert`, in a build that does not leave it out.
abbrev pub assert : {G : Type 0} → Bool → Program G → Program G
assert b k = if b then k else fails

-- The last call of a sequence.
abbrev pub reply_and_return : {G : Type 0} → Rslt → Bytes → Program G
reply_and_return r msg = call (Op.reply r msg) λ _. returns
