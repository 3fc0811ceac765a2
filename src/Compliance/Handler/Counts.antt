-- ===== src/Compliance/Handler/Counts.antt =====
-- The statistics.
use stablecoin_infrastructur.Base.{◌+◌, ◌≡◌, length}
use stablecoin_infrastructur.Compliance.{Monitor}

-- Every screening has written one event and was counted once, as an alert or as a pass.
abbrev pub Counted : Monitor → Type 0
Counted m =
    (m.events_processed ≡ m.alerts_raised + m.passes) × (m.events_processed ≡ length m.events)
