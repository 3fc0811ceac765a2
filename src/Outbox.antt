-- ===== src/Outbox.antt =====
-- services/outbox-publisher/main.py: the rows of `outbox_events` are sent to Kafka and marked. The
-- producer is the environment: what becomes of each message is an argument.
pub mod Rows
pub mod Delivery
pub mod Drain
mod Tests
use stablecoin_infrastructur.Base.{
  ℕ, String, Bool, true, false, List, [], ◌∷◌, ◌++◌, map, Option, none, some, ◌==◌, if◌then◌else◌,
  length, select, exists, update, take,
}
use stablecoin_infrastructur.Models.Refs.{Ref}
use stablecoin_infrastructur.Models.Events.{Event}
use stablecoin_infrastructur.Models.Rows.{OutboxEvent}

pub record Message : Type 0 where
  pub topic : String
  pub key : Ref
  pub value : Event

abbrev pub message_of : OutboxEvent → Message
message_of r = record { topic = r.event_type; key = r.aggregate_id; value = r.payload }

-- What `send_and_wait` may do: return when the broker has the message, or raise, with or without the
-- broker having it.
pub data SendOutcome : Type 0 where
  acknowledged : SendOutcome
  failed : (arrived : Bool) → SendOutcome

-- The table, its newest row first, and what the broker has, the oldest message first.
pub record Outbox : Type 0 where
  pub rows : List OutboxEvent
  pub broker : List Message

abbrev pub is_unpublished : OutboxEvent → Bool
is_unpublished r = elim r.published_at [ none ↦ true | some t ↦ false ]

-- ORDER BY created_at: the rows of a table stand newest first.
unfoldable pub oldest_first : List OutboxEvent → List OutboxEvent
oldest_first [] = []
oldest_first (r ∷ rs) = oldest_first rs ++ (r ∷ [])

abbrev pub pending : List OutboxEvent → List OutboxEvent
pending rows = oldest_first (select is_unpublished rows)

abbrev pub batch_size : ℕ
batch_size = 100

-- `FETCH_QUERY`
abbrev pub fetch : List OutboxEvent → List OutboxEvent
fetch rows = take batch_size (pending rows)

-- The loop over the rows: whether it came to its end, and what the broker has.
unfoldable pub send_all :
    (OutboxEvent → SendOutcome) → List OutboxEvent → List Message → Bool × List Message
send_all producer [] broker = (true, broker)
send_all producer (r ∷ rs) broker = elim (producer r) [
  | acknowledged ↦ send_all producer rs (broker ++ (message_of r ∷ []))
  | failed arrived ↦ (false, if arrived then broker ++ (message_of r ∷ []) else broker)
]

abbrev pub is_among : List OutboxEvent → OutboxEvent → Bool
is_among batch r = exists (λ s. s.id == r.id) batch

abbrev pub published : ℕ → OutboxEvent → OutboxEvent
published now r = record r { published_at = some now }

-- `MARK_PUBLISHED_QUERY`
abbrev pub mark_published : ℕ → List OutboxEvent → List OutboxEvent → List OutboxEvent
mark_published now batch rows = update (is_among batch) (published now) rows

-- `publish_batch`: the number of rows, or none where a send raised; then the transaction is rolled back,
-- but the broker keeps what it has.
unfoldable pub publish_batch : (OutboxEvent → SendOutcome) → (now : ℕ) → Outbox → Option ℕ × Outbox
unfolding send_all
publish_batch producer now o =
    let sent = send_all producer (fetch o.rows) o.broker in
    if sent.0
    then (
      some (length (fetch o.rows)),
      record { rows = mark_published now (fetch o.rows) o.rows; broker = sent.1 },
    )
    else (none, record { rows = o.rows; broker = sent.1 })

-- `poll_loop` runs it again and again, whatever came of it.
