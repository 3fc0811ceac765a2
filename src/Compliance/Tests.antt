-- ===== src/Compliance/Tests.antt =====
-- Runs of compliance-monitor.
use stablecoin_infrastructur.Base.{ℕ, ◌*◌, ◌^◌, ◌≡◌, refl, String, Option, [], ◌∷◌, List, some}
use stablecoin_infrastructur.Compliance.{Monitor, run_screening}
use stablecoin_infrastructur.Compliance.Handler.{Payload, handle_event, handle_all}
use stablecoin_infrastructur.Compliance.Handler.Once.{handle_event-once}

abbrev fresh : Monitor
fresh = record {
  tracker = [];
  processed = [];
  events = [];
  events_processed = 0;
  alerts_raised = 0;
  passes = 0;
}

abbrev names : String → Option String
names a = some "Sanctioned Bank"

-- Two million dollars, issued to an account with a listed name.
abbrev issuance : Payload
issuance = record {
  texts = ("event_id", "e1") ∷ ("account_id", "a1") ∷ ("currency", "USD") ∷ [];
  amounts = ("amount", 2000000 * 10 ^ 18) ∷ [];
}

issuance-run : (handle_event names "token.issuance.completed" issuance 5 fresh).alerts_raised ≡ 1
unfolding handle_event run_screening
issuance-run = refl

handle_event-once_example :
    handle_event names "escrow.released" issuance 9
      (handle_all names [] (handle_event names "token.issuance.completed" issuance 5 fresh))
    ≡ handle_all names [] (handle_event names "token.issuance.completed" issuance 5 fresh)
handle_event-once_example =
    handle_event-once names "token.issuance.completed" "escrow.released" issuance issuance 5 9 []
      fresh "e1" refl refl

abbrev messages : List (String × Payload × ℕ)
messages =
    ("token.issuance.completed", issuance, 5) ∷ ("rtgs.settlement.completed", issuance, 6) ∷ []
