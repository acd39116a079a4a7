-- ===== src/Samples/Targets.antt =====
-- Which sequences the main functions of the samples and tests ask for: those that `setup` registers.
use coseq.Base.{ℕ, Bool, true, false, ◌≡◌, refl, List, [], ◌∷◌, none, some, get_elem?, length, ltb}
use mathlib.Core.List.{map}
use coseq.Types.{Bytes, Reg}
use coseq.Wrapper.Manager.{ModuleBase, new_module, set_sequences, set_sequences_array}
use coseq.Wrapper.Source.{get_message, get_result, to_result, new_source}
use coseq.Samples.Client.{Ask, Told, Client, exits, aborts, ask, glances, changes, check, say}
use coseq.Samples.Mains.{c_session, cpp_session}
use coseq.Samples.Suite.{seen}
use coseq.Samples.SuiteMain.{
  Main, counts, client_byte, must_succeed, suite, test_echo, test_notify, test_log, test_send,
}
use coseq.Samples.SuiteModules.{module_a, module_b, module_c}
use coseq.Samples.C.{module_name, tbl}

-- Whether there is sequence `seq_idx` of module `module_idx`, for the numbers of the modules' sequences.
abbrev has : List ℕ → ℕ → ℕ → Bool
has sizes module_idx seq_idx = elim (get_elem? sizes module_idx) [
  | none ↦ false
  | some n ↦ ltb seq_idx n
]

abbrev pub asks_known : List ℕ → Ask → Bool
asks_known sizes (Ask.request_sync module_idx seq_idx _) = has sizes module_idx seq_idx
asks_known sizes (Ask.request_async module_idx seq_idx _) = has sizes module_idx seq_idx
asks_known sizes _ = true

-- Every call that the program can make passes the test.
unfoldable pub AsksOnly : {G : Type 0} → (Ask → Bool) → Client G → Type 0
AsksOnly ok (exits n) = Unit
AsksOnly ok aborts = Unit
AsksOnly ok (ask a k) = (ok a ≡ true) × ((x : Told a) → AsksOnly ok (k x))
AsksOnly {G} ok (glances k) = (g : G) → AsksOnly ok (k g)
AsksOnly ok (changes h k) = AsksOnly ok k

-- The numbers of sequences in the tables of the samples and of the tests.
abbrev pub sample_sizes : List ℕ
sample_sizes = map (λ (r : Reg). r.nr_seq_max) tbl

abbrev pub suite_sizes : List ℕ
suite_sizes =
    map (λ (m : ModuleBase). length m.sequences)
      (module_a (module_name 65) 10
        ∷ module_b (module_name 66) 10
        ∷ module_c (module_name 67) 10
        ∷ [])

checked :
    {G : Type 0} (ok : Ask → Bool) (b : Bool) (k : Client G)
    → AsksOnly ok k
    → AsksOnly ok (check b k)
unfolding AsksOnly
checked ok true k h = h
checked ok false k h = tt

c_session-AsksOnly : AsksOnly (asks_known sample_sizes) c_session
unfolding AsksOnly c_session say tbl
c_session-AsksOnly = (
  refl,
  λ _. (
    refl,
    λ _. (
      refl,
      λ _. (
        refl,
        λ _. (refl, λ _. (refl, λ _. (refl, λ _. (refl, λ _. (refl, λ _. (refl, λ _. tt)))))),
      ),
    ),
  ),
)

cpp_session-AsksOnly : AsksOnly (asks_known sample_sizes) cpp_session
unfolding AsksOnly cpp_session say tbl get_result to_result new_source
cpp_session-AsksOnly = (
  refl,
  λ _. (
    refl,
    λ _. (
      refl,
      λ _. (
        refl,
        λ _. (refl, λ _. (refl, λ _. (refl, λ _. (refl, λ _. (refl, λ _. (refl, λ _. tt)))))),
      ),
    ),
  ),
)

asked :
    {G : Type 0} (ok : Ask → Bool) (a : Ask) (k : Told a → Client G)
    → ok a ≡ true
    → ((x : Told a) → AsksOnly ok (k x))
    → AsksOnly ok (ask a k)
unfolding AsksOnly
asked ok a k passes h = (passes, h)

glanced :
    {G : Type 0} (ok : Ask → Bool) (k : G → Client G)
    → ((g : G) → AsksOnly ok (k g))
    → AsksOnly ok (glances k)
unfolding AsksOnly
glanced ok k h = h

-- The calls of the tests ask for what is in their tables.
abbrev IsKnown : Main → Type 0
IsKnown k = AsksOnly (asks_known suite_sizes) k

abbrev known : Ask → Bool
known a = asks_known suite_sizes a

succeeds :
    (seq_idx : ℕ) (k : Main)
    → asks_known suite_sizes (Ask.request_sync 0 seq_idx []) ≡ true
    → IsKnown k
    → IsKnown (must_succeed seq_idx k)
succeeds seq_idx k there h = asked known _ _ there (λ r. checked known _ k h)

echo-IsKnown : (k : Main) → IsKnown k → IsKnown (test_echo k)
unfolding test_echo module_a module_b module_c new_module set_sequences
echo-IsKnown k h = asked known _ _ refl (λ r. checked known _ _ (checked known _ k h))

log-IsKnown :
    (seq_idx : ℕ) (log : Bytes) (k : Main)
    → asks_known suite_sizes (Ask.request_async 0 seq_idx []) ≡ true
    → IsKnown k
    → IsKnown (test_log seq_idx log k)
unfolding test_log module_a module_b module_c new_module set_sequences
log-IsKnown seq_idx log k there h = asked known _ _ there (λ _. asked known _ _ refl (λ _.
    asked known _ _ refl
      (λ _. asked known _ _ refl (λ _. asked known _ _ refl (λ r. checked known _ k h)))))

send-IsKnown : (k : Main) → IsKnown k → IsKnown (test_send k)
unfolding test_send module_a module_b module_c new_module set_sequences set_sequences_array
send-IsKnown k h = glanced known _ (λ g. asked known _ _ refl (λ _.
    asked known _ _ refl
      (λ _. asked known _ _ refl (λ _. glanced known _ (λ g'. checked known _ k h)))))

counts-IsKnown : (n len : ℕ) (k : Main) → IsKnown k → IsKnown (counts n len k)
counts-IsKnown n len k h =
    glanced known _ (λ g. checked known _ _ (glanced known _ (λ g'. checked known _ k h)))

byte-IsKnown :
    (msg : Bytes) (k : ℕ → Main) → ((b : ℕ) → IsKnown (k b)) → IsKnown (client_byte msg k)
unfolding AsksOnly
byte-IsKnown [] k h = tt
byte-IsKnown (b ∷ bs) k h = h b

notify-IsKnown : (k : Main) → IsKnown k → IsKnown (test_notify k)
unfolding test_notify module_a module_b module_c new_module set_sequences set_sequences_array
notify-IsKnown k h = asked known _ _ refl (λ r. checked known _ _ (
    checked known _ _ (
      byte-IsKnown (get_message (seen r)) _ (λ client_id. asked known _ _ refl (λ _.
        asked known _ _ refl (λ _. counts-IsKnown 1 5 _ (
          asked known _ _ refl (λ _. asked known _ _ refl (λ _. counts-IsKnown 2 0 _ (
            asked known _ _ refl (λ ur. checked known _ _ (
              asked known _ _ refl (λ _.
                asked known _ _ refl (λ _. glanced known _ (λ g. checked known _ k h)))))))))))))))

suite-IsKnown : (k : Main) → IsKnown k → IsKnown (suite k)
unfolding suite module_a module_b module_c new_module set_sequences set_sequences_array
suite-IsKnown k h = echo-IsKnown _ (
    succeeds 1 _ refl (
      succeeds 2 _ refl (
        succeeds 3 _ refl (
          succeeds 4 _ refl (
            notify-IsKnown _ (
              succeeds 10 _ refl (
                log-IsKnown 6 _ _ refl (
                  log-IsKnown 7 _ _ refl
                    (send-IsKnown _ (glanced known _ (λ g. checked known _ k h)))))))))))

-- For all answers of the library, the main functions of the samples after `setup`, and that of the tests up to
-- the part that provokes errors, ask only for sequences that their tables register.
pub mains_known :
    AsksOnly (asks_known sample_sizes) c_session
    × AsksOnly (asks_known sample_sizes) cpp_session
    × AsksOnly (asks_known suite_sizes) (suite (exits 0))
unfolding AsksOnly
mains_known = (c_session-AsksOnly, cpp_session-AsksOnly, suite-IsKnown (exits 0) tt)
