-- ===== src/Outbox/Tests.antt =====
-- Runs of outbox-publisher.
use stablecoin_infrastructur.Base.{ℕ, ◌≡◌, arith, refl, true, [], ◌∷◌, none, ◌==◌, if◌then◌else◌}
use stablecoin_infrastructur.Models.Refs.{key}
use stablecoin_infrastructur.Models.Events.{Event}
use stablecoin_infrastructur.Models.Rows.{OutboxEvent}
use stablecoin_infrastructur.Outbox.{
  message_of, SendOutcome, acknowledged, failed, Outbox, pending, oldest_first, send_all,
  publish_batch,
}
use stablecoin_infrastructur.Outbox.Drain.{drain, drain-pending}
use stablecoin_infrastructur.Outbox.Delivery.{
  Delivered, inserts, publishes, at_start, after, Reached-Delivered,
}

abbrev row : ℕ → OutboxEvent
row n = record {
  id = n;
  aggregate_id = key "F1";
  event_type = "fx.settlement.failed";
  payload = Event.fx_settlement_failed (key "F1");
  published_at = none;
}

-- The second send fails, although its message arrives.
abbrev shaky : OutboxEvent → SendOutcome
shaky r = if r.id == 2 then failed true else acknowledged

abbrev steady : OutboxEvent → SendOutcome
steady r = acknowledged

abbrev two_rows : Outbox
two_rows = record { rows = row 2 ∷ row 1 ∷ []; broker = [] }

-- Nothing is marked by the batch that failed, so both messages are sent again.
repeated-run :
    (publish_batch steady 9 (publish_batch shaky 8 two_rows).1).1.broker
    ≡ message_of (row 1) ∷ message_of (row 2) ∷ message_of (row 1) ∷ message_of (row 2) ∷ []
unfolding publish_batch oldest_first send_all
repeated-run = refl

Reached-Delivered_example : Delivered (publish_batch steady 9 (publish_batch shaky 8 two_rows).1).1
Reached-Delivered_example =
    Reached-Delivered (publish_batch steady 9 (publish_batch shaky 8 two_rows).1).1 (
      after
        (after (after (after at_start (inserts (row 1) refl refl)) (inserts (row 2) refl refl))
          (publishes shaky 8))
        (publishes steady 9))

drain-pending_example :
    (pending (drain 1 9 two_rows).rows ≡ [])
    × ((drain 1 9 two_rows).broker ≡ message_of (row 1) ∷ message_of (row 2) ∷ [])
unfolding oldest_first
drain-pending_example = drain-pending 1 9 two_rows (refl, (refl, tt)) (omega arith)
