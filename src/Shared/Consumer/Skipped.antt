-- ===== src/Shared/Consumer/Skipped.antt =====
-- What a commit does to the messages before it.
use stablecoin_infrastructur.Base.{
  ℕ, ◌+◌, ◌<◌, ◌≡◌, refl, sym, ◌∙◌, String, true, false, [], ◌∷◌, Option, some, arith, leb, eq_iff,
}
use stablecoin_infrastructur.Shared.Consumer.{
  Message, Commits, message, Consumer, running, Handler, count_of, position_of, on_failure, attempt,
  on_message, poll_once, consume_loop,
}

-- What a later run finds of a message: the group's position lies behind it.
abbrev pub IsSkipped : {S : Type 0} → Message → Consumer S → Type 0
IsSkipped m c = (n : ℕ) × (position_of m.topic m.partition c.committed ≡ some n) × (m.offset < n)

module _ {S P : Type 0} (handler : Handler S P) (loads : String → Option P)
    (max_errors retries : ℕ) where
  failed-round :
      (m : Message) (commits : Commits) (c : Consumer S)
      → count_of m c.retry_tracker + 1 < retries
      → (attempt handler loads m commits c.handled).0 ≡ false
      → (c' : Consumer S) × (on_message handler loads retries m commits c ≡ running c')
        × (c'.handled ≡ (attempt handler loads m commits c.handled).1)
        × (c'.dlq ≡ c.dlq)
        × (c'.committed ≡ c.committed)
  unfolding on_message on_failure
  failed-round m commits c few failed =
      let again : leb retries (count_of m c.retry_tracker + 1) ≡ false = ground arith in
      rw (failed, again) (_, refl, refl, refl, refl)

  handled-round :
      (m : Message) (commits : Commits) (c : Consumer S)
      → (attempt handler loads m commits c.handled).0 ≡ true
      → (c' : Consumer S) × (on_message handler loads retries m commits c ≡ running c')
        × (c'.dlq ≡ c.dlq)
        × (position_of m.topic m.partition c'.committed ≡ some (m.offset + 1))
  unfolding on_message
  handled-round m commits c done =
      rw done (_, refl, refl, ground (arith, (eq_iff m.topic m.topic).1 refl))

  -- A message fails, and has tries left; the next one on its partition is handled and its commit
  -- succeeds. Then the loop runs on, nothing was handed to the dead-letter topic, and the committed
  -- position lies behind the failed message: a restart does not read it again.
  pub consume_loop-skips :
      (m n : Message) (first second : Commits) (c : Consumer S)
      → count_of m c.retry_tracker + 1 < retries
      → n.topic ≡ m.topic
      → n.partition ≡ m.partition
      → m.offset < n.offset
      → (attempt handler loads m first c.handled).0 ≡ false
      → (attempt handler loads n second (attempt handler loads m first c.handled).1).0 ≡ true
      → (c' : Consumer S) × (consume_loop handler loads max_errors retries
            (message m first ∷ message n second ∷ [])
            c
          ≡ running c')
        × (c'.dlq ≡ c.dlq)
        × IsSkipped m c'
  unfolding consume_loop poll_once
  consume_loop-skips m n first second c few same_topic same_partition later failed done =
      let (c1, ran, kept, silent, _) = failed-round m first c few failed in
      let (c2, ran2, silent2, at_n) = handled-round n second c1 (rw kept done) in
      (
        c2,
        rw (ran, ran2) refl,
        silent2 ∙ silent,
        (n.offset + 1, rw (sym same_topic, sym same_partition) at_n, omega arith),
      )
