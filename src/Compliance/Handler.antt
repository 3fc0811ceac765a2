-- ===== src/Compliance/Handler.antt =====
-- `handle_event` of services/compliance-monitor/main.py. The table of accounts is read through the name
-- of an account. The database is available.
pub mod Once
pub mod Counts
use stablecoin_infrastructur.Base.{
  ℕ, String, Bool, true, false, List, [], ◌∷◌, Option, none, some, str_eq, if◌then◌else◌, exists,
}
use stablecoin_infrastructur.Compliance.{Screening, Monitor, run_screening}

-- The fields of a message that the handler reads: texts, and amounts in units of 10^-18.
pub record Payload : Type 0 where
  pub texts : List (String × String)
  pub amounts : List (String × ℕ)

abbrev pub find_key : {A : Type 0} → String → List (String × A) → Option A
find_key k [] = none
find_key k ((j, v) ∷ d) = if str_eq j k then some v else find_key k d

abbrev pub get_text : String → String → Payload → String
get_text k default p = elim (find_key k p.texts) [ none ↦ default | some s ↦ s ]

abbrev pub or_zero : Option ℕ → ℕ
or_zero none = 0
or_zero (some n) = n

abbrev pub get_amount : String → Payload → ℕ
get_amount k p = or_zero (find_key k p.amounts)

abbrev pub screening_of :
    (entity_type account_key amount_key currency_key event_type : String) → Payload → Screening
screening_of entity_type account_key amount_key currency_key event_type p = record {
  entity_type = entity_type;
  account_id = get_text account_key "" p;
  amount = get_amount amount_key p;
  currency = get_text currency_key "USD" p;
  event_type = event_type;
}

abbrev is_issuance : String → Bool
is_issuance topic =
    if str_eq topic "token.issuance.completed"
    then true
    else str_eq topic "token.redemption.completed"

-- The screenings of a message by its topic; an unknown topic has none.
unfoldable pub screenings_of : String → Payload → List Screening
screenings_of topic p =
    if is_issuance topic
    then screening_of "token_issuance" "account_id" "amount" "currency" "issuance_screen" p ∷ []
    else if str_eq topic "rtgs.settlement.completed"
    then screening_of "rtgs_settlement" "sending_account_id" "amount" "currency" "rtgs_screen" p
      ∷ screening_of "rtgs_settlement" "receiving_account_id" "amount" "currency"
          "rtgs_screen_receiver" p
      ∷ []
    else if str_eq topic "payment.conditional.completed"
    then screening_of "conditional_payment" "payer_account_id" "amount" "currency"
        "conditional_payment_screen" p
      ∷ []
    else if str_eq topic "escrow.released"
    then screening_of "escrow" "released_to" "amount" "currency" "escrow_screen" p ∷ []
    else if str_eq topic "fx.settlement.completed"
    then screening_of "fx_settlement" "sending_account_id" "sell_amount" "sell_currency" "fx_screen"
        p
      ∷ []
    else []

abbrev pub is_duplicate_event : String → Monitor → Bool
is_duplicate_event e m = exists (λ x. str_eq x e) m.processed

abbrev pub mark_event_processed : String → Monitor → Monitor
mark_event_processed e m = record m { processed = e ∷ m.processed }

-- An empty event id counts as none.
abbrev pub event_id : Payload → Option String
event_id p = elim (find_key "event_id" p.texts) [
  | none ↦ none
  | some e ↦ if str_eq e "" then none else some e
]

module _ (account_name : String → Option String) where
  abbrev pub resolve_account_name : String → String
  resolve_account_name a = elim (account_name a) [ none ↦ "UNKNOWN" | some n ↦ n ]

  unfoldable pub screen_all : ℕ → List Screening → Monitor → Monitor
  screen_all now [] m = m
  screen_all now (s ∷ rest) m =
      screen_all now rest (run_screening (resolve_account_name s.account_id) now s m)

  abbrev pub screen_new : Option String → String → Payload → ℕ → Monitor → Monitor
  screen_new none topic p now m = screen_all now (screenings_of topic p) m
  screen_new (some e) topic p now m =
      if is_duplicate_event e m
      then m
      else screen_all now (screenings_of topic p) (mark_event_processed e m)

  unfoldable pub handle_event : String → Payload → (now : ℕ) → Monitor → Monitor
  unfolding screenings_of screen_all
  handle_event topic p now m = screen_new (event_id p) topic p now m

  -- One message after another, each with its topic and its time.
  unfoldable pub handle_all : List (String × Payload × ℕ) → Monitor → Monitor
  handle_all [] m = m
  handle_all ((topic, p, now) ∷ rest) m = handle_all rest (handle_event topic p now m)
