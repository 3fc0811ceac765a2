-- ===== src/Shared/Status.antt =====
-- shared/status.py and shared/outbox.py: append-only status histories, and events written in the
-- transaction of the change that they announce.
use stablecoin_infrastructur.Base.{ℕ, String, ◌∷◌, Option, none, some, ◌&&◌, ◌==◌, find}
use stablecoin_infrastructur.Models.Refs.{Ref}
use stablecoin_infrastructur.Models.Events.{Event}
use stablecoin_infrastructur.Models.Rows.{StatusHistory, StatusRow, OutboxEvent}
use stablecoin_infrastructur.Models.Database.{Database}
use stablecoin_infrastructur.Shared.Session.{Action, modify, uuid4, ◌>>=◌}

abbrev table_ordinal : StatusHistory → ℕ
table_ordinal StatusHistory.transaction = 0
table_ordinal StatusHistory.rtgs_settlement = 1
table_ordinal StatusHistory.fx_settlement = 2
table_ordinal StatusHistory.escrow = 3
table_ordinal StatusHistory.conditional_payment = 4
table_ordinal StatusHistory.token_issuance = 5

abbrev add_status : StatusRow → Database → Database
add_status row db = record db { status_history = row ∷ db.status_history }

-- `record_status` with the extra fields `block_number` (and `tx_hash`) and `actor_id`.
unfoldable pub record_status_with :
    StatusHistory → ℕ → String → (block_number actor_id : Option ℕ) → Action (Unit {0})
record_status_with table entity_id status block_number actor_id = modify (
    add_status (record {
      table = table;
      entity_id = entity_id;
      status = status;
      block_number = block_number;
      actor_id = actor_id;
    }))

unfoldable pub record_status : StatusHistory → ℕ → String → Action (Unit {0})
unfolding record_status_with
record_status table entity_id status = record_status_with table entity_id status none none

-- The newest row of the entity's history; rows stand newest first.
unfoldable pub get_current_status : StatusHistory → ℕ → Database → Option String
get_current_status table entity_id db =
    elim (find (λ r. table_ordinal r.table == table_ordinal table && r.entity_id == entity_id)
      db.status_history) [ none ↦ none | some r ↦ some r.status ]

abbrev add_event : OutboxEvent → Database → Database
add_event row db = record db { outbox_events = row ∷ db.outbox_events }

unfoldable pub insert_outbox_event : Ref → String → Event → Action (Unit {0})
insert_outbox_event aggregate_id event_type event = do
  id ← uuid4
  modify (
      add_event (record {
        id = id;
        aggregate_id = aggregate_id;
        event_type = event_type;
        payload = event;
        published_at = none;
      }))
