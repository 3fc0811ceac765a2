-- ===== src/Shared/Consumer.antt =====
-- `consume_loop` of shared/kafka_client.py, under which fx-settlement and compliance-monitor handle
-- their messages. The handler, `json.loads`, what the consumer polls and whether its commits succeed
-- are arguments.
pub mod Skipped
pub mod Once
mod Tests
use stablecoin_infrastructur.Base.{
  ℕ, suc, ◌+◌, String, Bool, true, false, not, ◌&&◌, List, [], ◌∷◌, Option, none, some, ◌==◌, leb,
  str_eq, if◌then◌else◌, select,
}

pub record Message : Type 0 where
  pub topic : String
  pub partition : ℕ
  pub offset : ℕ
  pub raw : String

-- Whether the commit behind the handler, and the one behind the dead letter, succeed.
pub record Commits : Type 0 where
  pub after_handler : Bool
  pub after_dlq : Bool

-- What `consumer.poll` returns.
pub data Polled : Type 0 where
  nothing partition_eof consumer_error : Polled
  message : Message → Commits → Polled

-- `f"{topic}:{partition}:{offset}"`, by its parts.
abbrev pub same_key : Message → Message → Bool
same_key m n = str_eq m.topic n.topic && m.partition == n.partition && m.offset == n.offset

-- `_retry_tracker`, with a message for each key.
abbrev pub Tracker : Type 0
Tracker = List (Message × ℕ)

abbrev pub count_of : Message → Tracker → ℕ
count_of m [] = 0
count_of m ((n, k) ∷ ts) = if same_key n m then k else count_of m ts

abbrev pub pop : Message → Tracker → Tracker
pop m ts = select (λ t. not (same_key t.0 m)) ts

abbrev pub set_count : Message → ℕ → Tracker → Tracker
set_count m k ts = (m, k) ∷ pop m ts

-- The group's position on a partition: the offset that is read next after a restart.
pub record Position : Type 0 where
  pub on_topic : String
  pub on_partition : ℕ
  pub next_offset : ℕ

abbrev pub is_at : String → ℕ → Position → Bool
is_at topic partition p = str_eq p.on_topic topic && p.on_partition == partition

-- `none` where nothing was committed.
abbrev pub position_of : String → ℕ → List Position → Option ℕ
position_of topic partition [] = none
position_of topic partition (p ∷ ps) =
    if is_at topic partition p then some p.next_offset else position_of topic partition ps

-- `commit(message=m)`: Kafka keeps one number for a partition, which becomes the message's offset plus
-- one, whatever became of the messages before it.
abbrev pub set_position : Message → List Position → List Position
set_position m ps =
    (record { on_topic = m.topic; on_partition = m.partition; next_offset = m.offset + 1 })
    ∷ select (λ p. not (is_at m.topic m.partition p)) ps

-- The fields of a dead letter that tell what failed.
pub record DeadLetter : Type 0 where
  pub original : Message
  pub retry_count : ℕ

-- What the loop keeps and does: the handler's own state, the committed positions and the dead letters
-- handed to the producer, the newest first.
pub record Consumer (S : Type 0) : Type 0 where
  pub handled : S
  pub retry_tracker : Tracker
  pub committed : List Position
  pub dlq : List DeadLetter
  pub consecutive_errors : ℕ

-- The loop goes on, or an exception ends it.
pub data Loop (S : Type 0) : Type 0 where
  running : Consumer S → Loop S
  raised : Consumer S → Loop S

-- A handler gives its new state, and `false` where it raises.
abbrev pub Handler : Type 0 → Type 0 → Type 0
Handler S P = String → P → S → Bool × S

module _ {S : Type 0} where
  abbrev pub consumer_of : Loop S → Consumer S
  consumer_of (running c) = c
  consumer_of (raised c) = c

  -- A commit, and the end of the count of failures.
  abbrev pub commit : Message → Consumer S → Consumer S
  commit m c = record c {
    committed = set_position m c.committed;
    retry_tracker = pop m c.retry_tracker;
  }

  -- The `except` branch.
  unfoldable pub on_failure : (max_handler_retries : ℕ) → Message → Commits → Consumer S → Loop S
  on_failure max_handler_retries m commits c =
      let count = count_of m c.retry_tracker + 1 in
      let tracked : Consumer S = record c { retry_tracker = set_count m count c.retry_tracker } in
      let dead : Consumer S = record tracked {
        dlq = (record { original = m; retry_count = count }) ∷ c.dlq;
      } in
      if leb max_handler_retries count
      then if commits.after_dlq then running (commit m dead) else raised dead
      else running tracked

  unfoldable pub on_error : (max_errors : ℕ) → Consumer S → Loop S
  on_error max_errors c =
      let c' : Consumer S = record c { consecutive_errors = c.consecutive_errors + 1 } in
      if leb max_errors c'.consecutive_errors then raised c' else running c'

  abbrev pub go_on : Loop S → (Consumer S → Loop S) → Loop S
  go_on (running c) k = k c
  go_on (raised c) k = raised c

module _ {S P : Type 0} (handler : Handler S P) (loads : String → Option P) where
  -- The body of the `try`.
  unfoldable pub attempt : Message → Commits → S → Bool × S
  attempt m commits s = elim (loads m.raw) [
    | none ↦ (false, s)
    | some payload ↦
        let (done, s') = handler m.topic payload s in (done && commits.after_handler, s')
  ]

  unfoldable pub on_message : (max_handler_retries : ℕ) → Message → Commits → Consumer S → Loop S
  unfolding attempt on_failure
  on_message max_handler_retries m commits c =
      let (done, s) = attempt m commits c.handled in
      let c' : Consumer S = record c { handled = s; consecutive_errors = 0 } in
      if done then running (commit m c') else on_failure max_handler_retries m commits c'

module _ {S P : Type 0} (handler : Handler S P) (loads : String → Option P)
    (max_errors max_handler_retries : ℕ) where
  -- One round of the loop.
  unfoldable pub poll_once : Polled → Consumer S → Loop S
  unfolding on_message on_error
  poll_once nothing c = running c
  poll_once partition_eof c = running c
  poll_once consumer_error c = on_error max_errors c
  poll_once (message m commits) c = on_message handler loads max_handler_retries m commits c

  -- The loop over what is polled.
  unfoldable pub consume_loop : List Polled → Consumer S → Loop S
  unfolding poll_once
  consume_loop [] c = running c
  consume_loop (p ∷ ps) c = go_on (poll_once p c) (consume_loop ps)
