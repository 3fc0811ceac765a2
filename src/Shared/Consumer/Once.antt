-- ===== src/Shared/Consumer/Once.antt =====
-- Messages that the consumer polls once each.
use stablecoin_infrastructur.Base.{
  ℕ, ◌+◌, ◌≤◌, ◌≡◌, inl, inr, refl, ◌∙◌, String, false, List, [], ◌∷◌, Option, arith, Bool-cases,
  leb,
}
use stablecoin_infrastructur.Shared.Consumer.{
  Message, Commits, Polled, nothing, partition_eof, consumer_error, message, same_key, Tracker,
  count_of, pop, set_count, Consumer, Loop, running, raised, Handler, consumer_of, on_failure,
  on_error, attempt, on_message, poll_once, consume_loop, go_on,
}

-- The messages among what is polled.
abbrev pub messages : List Polled → List Message
messages [] = []
messages (message m commits ∷ ps) = m ∷ messages ps
messages (_ ∷ ps) = messages ps

abbrev pub DiffersFrom : Message → List Message → Type 0
DiffersFrom m [] = Unit {0}
DiffersFrom m (n ∷ ns) = (same_key m n ≡ false) × DiffersFrom m ns

-- No two have the same topic, partition and offset.
abbrev pub Distinct : List Message → Type 0
Distinct [] = Unit {0}
Distinct (m ∷ ms) = DiffersFrom m ms × Distinct ms

abbrev pub Absent : Message → Tracker → Type 0
Absent m [] = Unit {0}
Absent m (t ∷ ts) = (same_key t.0 m ≡ false) × Absent m ts

-- None of them has failed yet.
abbrev pub Untried : Tracker → List Message → Type 0
Untried ts [] = Unit {0}
Untried ts (m ∷ ms) = Absent m ts × Untried ts ms

count_of-Absent : (m : Message) (ts : Tracker) → Absent m ts → count_of m ts ≡ 0
count_of-Absent m [] h = refl
count_of-Absent m (t ∷ ts) h = rw h.0 (count_of-Absent m ts h.1)

Absent-pop : (m n : Message) (ts : Tracker) → Absent n ts → Absent n (pop m ts)
Absent-pop m n [] h = tt
Absent-pop m n (t ∷ ts) h = elim (Bool-cases (same_key t.0 m)) [
  | inl e ↦ rw e (Absent-pop m n ts h.1)
  | inr e ↦ rw e (h.0, Absent-pop m n ts h.1)
]

Untried-pop :
    (m : Message) (ts : Tracker) (ns : List Message) → Untried ts ns → Untried (pop m ts) ns
Untried-pop m ts [] h = tt
Untried-pop m ts (n ∷ ns) h = (Absent-pop m n ts h.0, Untried-pop m ts ns h.1)

Untried-set_count :
    (m : Message) (k : ℕ) (ts : Tracker) (ns : List Message)
    → DiffersFrom m ns
    → Untried ts ns
    → Untried (set_count m k ts) ns
Untried-set_count m k ts [] d h = tt
Untried-set_count m k ts (n ∷ ns) d h =
    ((d.0, Absent-pop m n ts h.0), Untried-set_count m k ts ns d.1 h.1)

-- What one round leaves for the messages to come.
record Calm {S : Type 0} (ns : List Message) (c c' : Consumer S) : Type 0 where
  silent : c'.dlq ≡ c.dlq
  untried : Untried c'.retry_tracker ns

module _ {S P : Type 0} (handler : Handler S P) (loads : String → Option P) (max_errors retries : ℕ)
    (patient : 2 ≤ retries) where
  on_failure-Calm :
      (m : Message) (commits : Commits) (c : Consumer S) (ns : List Message)
      → Absent m c.retry_tracker
      → DiffersFrom m ns
      → Untried c.retry_tracker ns
      → Calm ns c (consumer_of (on_failure retries m commits c))
  unfolding on_failure
  on_failure-Calm m commits c ns absent d h =
      let first : count_of m c.retry_tracker ≡ 0 = count_of-Absent m c.retry_tracker absent in
      let again : leb retries (count_of m c.retry_tracker + 1) ≡ false = ground arith in
      rw again (record {
        silent = refl;
        untried = Untried-set_count m (count_of m c.retry_tracker + 1) c.retry_tracker ns d h;
      })

  on_message-Calm :
      (m : Message) (commits : Commits) (c : Consumer S) (ns : List Message)
      → Absent m c.retry_tracker
      → DiffersFrom m ns
      → Untried c.retry_tracker ns
      → Calm ns c (consumer_of (on_message handler loads retries m commits c))
  unfolding on_message
  on_message-Calm m commits c ns absent d h =
      elim (Bool-cases (attempt handler loads m commits c.handled).0) [
        | inl done ↦
            rw done (record { silent = refl; untried = Untried-pop m c.retry_tracker ns h })
        | inr failed ↦
            let t : Consumer S = record c {
              handled = (attempt handler loads m commits c.handled).1;
              consecutive_errors = 0;
            } in
            let k = on_failure-Calm m commits t ns absent d h in
            rw failed (record { silent = k.silent; untried = k.untried })
      ]

  on_error-Calm :
      (c : Consumer S) (ns : List Message)
      → Untried c.retry_tracker ns
      → Calm ns c (consumer_of (on_error max_errors c))
  unfolding on_error
  on_error-Calm c ns h = elim (Bool-cases (leb max_errors (c.consecutive_errors + 1))) [
    | inl e ↦ rw e (record { silent = refl; untried = h })
    | inr e ↦ rw e (record { silent = refl; untried = h })
  ]

  go_on-dlq :
      (ns : List Message) (c : Consumer S) (l : Loop S) (k : Consumer S → Loop S)
      → ((v : Consumer S) → Untried v.retry_tracker ns → (consumer_of (k v)).dlq ≡ v.dlq)
      → Calm ns c (consumer_of l)
      → (consumer_of (go_on l k)).dlq ≡ c.dlq
  go_on-dlq ns c (running v) k f calm = f v calm.untried ∙ calm.silent
  go_on-dlq ns c (raised v) k f calm = calm.silent

  -- If more than one try is allowed, no message is polled twice, as Kafka does within one
  -- subscription, and none of them has failed before, then nothing is handed to the dead-letter topic,
  -- whatever fails and however often: a failed message is tried once.
  pub consume_loop-dlq :
      (ps : List Polled) (c : Consumer S)
      → Distinct (messages ps)
      → Untried c.retry_tracker (messages ps)
      → (consumer_of (consume_loop handler loads max_errors retries ps c)).dlq ≡ c.dlq
  unfolding consume_loop poll_once
  consume_loop-dlq [] c d h = refl
  consume_loop-dlq (nothing ∷ ps) c d h = consume_loop-dlq ps c d h
  consume_loop-dlq (partition_eof ∷ ps) c d h = consume_loop-dlq ps c d h
  consume_loop-dlq (consumer_error ∷ ps) c d h =
      go_on-dlq (messages ps) c (on_error max_errors c)
        (consume_loop handler loads max_errors retries ps) (λ v. consume_loop-dlq ps v d)
        (on_error-Calm c (messages ps) h)
  consume_loop-dlq (message m commits ∷ ps) c d h =
      go_on-dlq (messages ps) c (on_message handler loads retries m commits c)
        (consume_loop handler loads max_errors retries ps) (λ v. consume_loop-dlq ps v d.1)
        (on_message-Calm m commits c (messages ps) h.0 d.0 h.1)
