-- ===== src/Samples/FanOut.antt =====
-- `fanout` of testpp/main.cpp: two requests at once, whose replies come in either order.
use coseq.Base.{
  true, ℕ, suc, ◌≡◌, ◌≢◌, ◌⊎◌, inl, inr, refl, ap, ◌∙◌, [], ◌∷◌, ◌++◌, Option, some, false, arith,
  ◌==◌, ℤ, ==_refl,
}
use coseq.Types.{Ev, EvType, Rslt, Src}
use coseq.Waiting.{peek, unlink}
use coseq.Fibers.{set_src}
use coseq.Scheduler.{Turn, source_of_reply}
use coseq.Program.{Op, call}
use coseq.Program.Host.{Host, Meets, Plays, first_turn, play_events}
use coseq.Program.Steps.{play_events-cons}
use coseq.Wrapper.Source.{to_result, new_source, get_result}
use coseq.Samples.{reply_and_return}
use coseq.Samples.Methods.{result_is}
use coseq.Samples.Suite.{Code, Globals, judge, collect}
use coseq.Samples.Fanned.{Fanned, answer_to, waits_on, ends}

-- A reply to B, and one to C.
judge_b :
    (id_b id_c : ℕ) (x y : Code) (s : Src)
    → s.result ≡ Rslt.success
    → s.req_id ≡ id_b
    → judge id_b id_c x y (some s) ≡ x
unfolding judge result_is get_result to_result new_source
judge_b id_b id_c x y s fine for_b = rw (fine, for_b) (rw (==_refl id_b) refl)

judge_c :
    (id_b id_c : ℕ) (x y : Code) (s : Src)
    → id_b ≢ id_c
    → s.result ≡ Rslt.success
    → s.req_id ≡ id_c
    → judge id_b id_c x y (some s) ≡ y
unfolding judge result_is get_result to_result new_source
judge_c id_b id_c x y s differ fine for_c =
    let other : (id_c == id_b) ≡ false = ground arith in
    rw (fine, for_c) (rw (other, ==_refl id_c) refl)

module _ (code : ℕ → Code) (spare : ℕ → Turn) (meets : ℕ → Meets) (h : Host Globals) (p : ℕ)
    (to : ℤ) (rid id_b id_c : ℕ) (e e' : Ev) where
  -- Both replies come, and `to` is answered.
  abbrev pub IsAnswered : Type 0
  IsAnswered =
      (r : Plays Globals) × (play_events code spare meets (e ∷ e' ∷ []) h ≡ some r)
      × (r.host.thread.out ≡ h.thread.out ++ answer_to h.thread.idx to rid ∷ [])

  two_replies :
      (k k' : Option Src → Code) (l : Fanned p 1 to rid k h) (type : e.type ≡ EvType.reply)
      (known : peek e.req_id h.thread.pending ≡ some p)
      → e'.type ≡ EvType.reply
      → peek e'.req_id (unlink e.req_id h.thread.pending) ≡ some p
      → ((s : Src) → s.result ≡ e.result → s.req_id ≡ e.req_id → k (some s) ≡ call Op.wait_one k')
      → ((s : Src)
          → s.result ≡ e'.result
          → s.req_id ≡ e'.req_id
          → k' (some s) ≡ reply_and_return Rslt.success [])
      → ((meets 1).envs 0).alloc.event ≡ true
      → IsAnswered
  unfolding source_of_reply set_src play_events
  two_replies k k' l type known type' known' first second made =
      let (r, played, l', pending, out, idx) =
        waits_on code (meets 0) e h p 0 to rid k k' l type known (first _ refl refl) in
      let known'' : peek e'.req_id r.host.thread.pending ≡ some p =
        ap (peek e'.req_id) pending ∙ known' in
      let (r', played', answered, _) =
        ends code (meets 1) e' r.host p 0 to rid k' l' type' known'' (second _ refl refl) made in
      (
        record { host = r'.host; turns = first_turn r.turn (first_turn r'.turn spare) },
        play_events-cons code spare meets e (e' ∷ []) h r
            (record { host = r'.host; turns = first_turn r'.turn spare }) played
            (play_events-cons code spare (λ i. meets (suc i)) e' [] r.host r'
              (record { host = r'.host; turns = spare }) played' refl),
        answered
            ∙ ap (λ o. o ++ answer_to r.host.thread.idx to rid ∷ []) out
            ∙ ap (λ i. h.thread.out ++ answer_to i to rid ∷ []) idx,
      )

  -- `fanout` of the tests waits for its two replies, and there is memory for its own. They come with success, in either order, to requests with
  -- different ids. Then none of its assertions fails: it counts one reply of each, and whoever asked for it
  -- gets a reply that says success.
  pub fanout_collects :
      id_b ≢ id_c
      → Fanned p 1 to rid (judge id_b id_c (collect id_b id_c 1 1 0) (collect id_b id_c 1 0 1)) h
      → e.type ≡ EvType.reply
      → e'.type ≡ EvType.reply
      → e.result ≡ Rslt.success
      → e'.result ≡ Rslt.success
      → ((e.req_id ≡ id_b) × (e'.req_id ≡ id_c)) ⊎ ((e.req_id ≡ id_c) × (e'.req_id ≡ id_b))
      → peek e.req_id h.thread.pending ≡ some p
      → peek e'.req_id (unlink e.req_id h.thread.pending) ≡ some p
      → ((meets 1).envs 0).alloc.event ≡ true
      → IsAnswered
  unfolding collect
  fanout_collects differ l type type' fine fine' (inl (b, c)) known known' made =
      two_replies _ (judge id_b id_c (collect id_b id_c 0 2 0) (collect id_b id_c 0 1 1)) l type
        known type' known' (λ s r i. judge_b id_b id_c _ _ s (r ∙ fine) (i ∙ b))
        (λ s r i. judge_c id_b id_c _ _ s differ (r ∙ fine') (i ∙ c)) made
  fanout_collects differ l type type' fine fine' (inr (c, b)) known known' made =
      two_replies _ (judge id_b id_c (collect id_b id_c 0 1 1) (collect id_b id_c 0 0 2)) l type
        known type' known' (λ s r i. judge_c id_b id_c _ _ s differ (r ∙ fine) (i ∙ c))
        (λ s r i. judge_b id_b id_c _ _ s (r ∙ fine') (i ∙ b)) made
