-- ===== src/Shared/Consumer/Tests.antt =====
-- Runs of the consumer loop.
use stablecoin_infrastructur.Base.{
  ℕ, ◌≡◌, refl, String, true, false, List, [], ◌∷◌, some, arith, str_eq, if◌then◌else◌,
}
use stablecoin_infrastructur.Shared.Consumer.{
  Message, Position, Commits, Polled, nothing, message, Consumer, running, Handler, consumer_of,
  consume_loop, attempt,
}
use stablecoin_infrastructur.Shared.Consumer.Skipped.{IsSkipped, consume_loop-skips}
use stablecoin_infrastructur.Shared.Consumer.Once.{consume_loop-dlq}

-- A handler that keeps what it is given, and raises on one text.
abbrev keep : Handler (List String) String
keep topic payload s = if str_eq payload "bad" then (false, s) else (true, payload ∷ s)

abbrev at : ℕ → String → Message
at offset raw = record { topic = "fx.rate.updated"; partition = 0; offset = offset; raw = raw }

abbrev position : ℕ → Position
position n = record { on_topic = "fx.rate.updated"; on_partition = 0; next_offset = n }

abbrev both : Commits
both = record { after_handler = true; after_dlq = true }

abbrev fresh : Consumer (List String)
fresh = record {
  handled = [];
  retry_tracker = [];
  committed = [];
  dlq = [];
  consecutive_errors = 0;
}

-- The second message fails, and the third is handled.
abbrev polled : List Polled
polled =
    message (at 4 "a") both ∷ nothing ∷ message (at 5 "bad") both ∷ message (at 6 "b") both ∷ []

-- The commit of the third moves the group past the second, which is neither handled nor a dead
-- letter.
consume_loop-run :
    consume_loop keep some 10 3 polled fresh
    ≡ running (record {
      handled = "b" ∷ "a" ∷ [];
      retry_tracker = (at 5 "bad", 1) ∷ [];
      committed = position 7 ∷ [];
      dlq = [];
      consecutive_errors = 0;
    })
unfolding consume_loop
consume_loop-run = refl

-- Delivered three times, it is a dead letter.
consume_loop_redelivered :
    consume_loop keep some 10 3
      (message (at 5 "bad") both ∷ message (at 5 "bad") both ∷ message (at 5 "bad") both ∷ [])
      fresh
    ≡ running (record {
      handled = [];
      retry_tracker = [];
      committed = position 6 ∷ [];
      dlq = (record { original = at 5 "bad"; retry_count = 3 }) ∷ [];
      consecutive_errors = 0;
    })
unfolding consume_loop
consume_loop_redelivered = refl

consume_loop-dlq_example : (consumer_of (consume_loop keep some 10 3 polled fresh)).dlq ≡ []
consume_loop-dlq_example =
    consume_loop-dlq keep some 10 3 (omega arith) polled fresh
      ((refl, (refl, tt)), ((refl, tt), (tt, tt))) (tt, (tt, (tt, tt)))

failed : (attempt keep some (at 5 "bad") both []).0 ≡ false
unfolding attempt
failed = refl

handled : (attempt keep some (at 6 "b") both (attempt keep some (at 5 "bad") both []).1).0 ≡ true
unfolding attempt
handled = refl

consume_loop-skips_example :
    (c : Consumer (List String)) × (consume_loop keep some 10 3
        (message (at 5 "bad") both ∷ message (at 6 "b") both ∷ [])
        fresh
      ≡ running c)
    × (c.dlq ≡ [])
    × IsSkipped (at 5 "bad") c
consume_loop-skips_example =
    consume_loop-skips keep some 10 3 (at 5 "bad") (at 6 "b") both both fresh (omega arith) refl
      refl (omega arith) failed handled
