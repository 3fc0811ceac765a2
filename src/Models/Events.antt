-- ===== src/Models/Events.antt =====
-- The events that the services write to the outbox (shared/events.py), with the fields that they
-- set. `event_id`, `event_time` and `service` are of `BaseEvent` and are not kept.
use stablecoin_infrastructur.Base.{ℕ, String, List, Option}
use stablecoin_infrastructur.Base.Int.{ℤ}
use stablecoin_infrastructur.Models.Enums.{CurrencyCode, ConditionType, SettlementRails}
use stablecoin_infrastructur.Models.Refs.{Ref}
use stablecoin_infrastructur.Models.Json.{JsonDict}

pub data Event : Type 0 where
  token_issuance_completed :
      (issuance_ref : Ref) (account_id : ℕ) (currency : CurrencyCode) (amount : ℕ) (new_balance : ℤ)
      → Event
  token_redemption_completed :
      (issuance_ref : Ref) (account_id : ℕ) (currency : CurrencyCode) (amount : ℕ) (new_balance : ℤ)
      → Event
  token_balance_updated :
      (account_id : ℕ) (currency : CurrencyCode) (old_balance new_balance : ℤ) (reason : String)
      → Event
  rtgs_settlement_submitted :
      (settlement_ref : Ref) (sending_account_id receiving_account_id : ℕ) (currency : CurrencyCode)
      (amount : ℕ) (priority : String)
      → Event
  rtgs_settlement_processing : (settlement_ref : Ref) (started_at : ℕ) → Event
  rtgs_settlement_completed :
      (settlement_ref : Ref) (sending_account_id receiving_account_id : ℕ) (currency : CurrencyCode)
      (amount transaction_id settled_at : ℕ)
      → Event
  rtgs_settlement_failed : (settlement_ref : Ref) (retry_count : ℕ) → Event
  conditional_payment_created :
      (payment_ref : Ref) (payer_account_id payee_account_id : ℕ) (currency : CurrencyCode)
      (amount : ℕ) (condition_type : ConditionType) (condition_params : JsonDict)
      → Event
  conditional_payment_triggered :
      (payment_ref : Ref) (trigger_data : JsonDict) (triggered_by : String) → Event
  conditional_payment_completed : (payment_ref : Ref) (transaction_id executed_at : ℕ) → Event
  escrow_created :
      (contract_ref : Ref) (depositor_account_id beneficiary_account_id : ℕ)
      (currency : CurrencyCode) (amount : ℕ) (conditions : JsonDict) (expires_at : ℕ)
      → Event
  escrow_released :
      (contract_ref : Ref) (release_txn_id : Option ℕ) (released_to : ℕ) (triggered_by : String)
      (amount : ℕ)
      → Event
  escrow_expired : (contract_ref : Ref) (refunded_account_id amount : ℕ) → Event
  fx_settlement_initiated :
      (settlement_ref : Ref) (sending_account_id receiving_account_id : ℕ)
      (sell_currency : CurrencyCode) (sell_amount : ℕ) (buy_currency : CurrencyCode)
      (buy_amount applied_rate : ℕ) (rails : SettlementRails)
      → Event
  fx_settlement_leg_completed :
      (settlement_ref : Ref) (leg : String) (transaction_id amount : ℕ) (currency : CurrencyCode)
      → Event
  fx_settlement_completed : (settlement_ref : Ref) (sell_txn_id buy_txn_id settled_at : ℕ) → Event
  fx_settlement_failed : (settlement_ref : Ref) → Event
  compliance_event :
      (entity_type entity_id event_type result : String) (score : ℕ) (flags : List String) → Event
