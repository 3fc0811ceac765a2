-- ===== src/Models/Rows.antt =====
-- The rows of the tables of shared/models.py. Amounts are counted in units of 10^-18, the scale of
-- the journal's columns. Ids are uuids, here numbers; times are numbers. Free texts that no code
-- reads back (narratives, JSON details) and the audit columns that no service fills are left out.
use stablecoin_infrastructur.Base.{ℕ, String, Bool, Option}
use stablecoin_infrastructur.Models.Enums.{
  TxnStatus, SettlementStatus, EscrowStatus, CurrencyCode, SettlementRails, ConditionType, HoldType,
  CoaCode,
}
use stablecoin_infrastructur.Models.Refs.{Ref}
use stablecoin_infrastructur.Models.Json.{JsonDict}
use stablecoin_infrastructur.Models.Events.{Event}

pub record Account : Type 0 where
  pub id : ℕ
  pub entity_name : String
  pub account_type : String
  pub is_active : Bool
  pub kyc_verified : Bool
  pub aml_cleared : Bool

pub record JournalEntry : Type 0 where
  pub journal_id : ℕ
  pub account_id : ℕ
  pub coa_code : CoaCode
  pub currency : CurrencyCode
  pub debit : ℕ
  pub credit : ℕ
  pub entry_type : String
  pub reference_id : ℕ

pub record EscrowHold : Type 0 where
  pub hold_ref : Ref
  pub account_id : ℕ
  pub currency : CurrencyCode
  pub amount : ℕ
  pub hold_type : HoldType
  pub related_entity_id : Option ℕ

pub record OutboxEvent : Type 0 where
  pub id : ℕ
  pub aggregate_id : Ref
  pub event_type : String
  pub payload : Event
  pub published_at : Option ℕ

-- The tables `*_status_history`: one row type, with the table that the row stands in.
pub data StatusHistory : Type 0 where
  transaction rtgs_settlement fx_settlement escrow conditional_payment token_issuance :
      StatusHistory

pub record StatusRow : Type 0 where
  pub table : StatusHistory
  pub entity_id : ℕ
  pub status : String
  pub block_number : Option ℕ
  pub actor_id : Option ℕ

-- A receipt of the simulated chain. A hash is represented by the text that is hashed, which is
-- fixed by the transaction, the operation and the extra seed.
pub record Receipt : Type 0 where
  pub transaction_id : Ref
  pub operation : String
  pub extra_seed : String
  pub block_number : ℕ

pub record FiatReceipt : Type 0 where
  pub transaction_id : Ref
  pub rail : String
  pub settled_at : Option ℕ

pub record TokenIssuance : Type 0 where
  pub id : ℕ
  pub issuance_ref : Ref
  pub account_id : ℕ
  pub currency : CurrencyCode
  pub amount : ℕ
  pub backing_ref : Option String
  pub custodian : Option String
  pub issuance_type : String
  pub status : TxnStatus
  pub issued_at : Option ℕ
  pub redeemed_at : Option ℕ

pub record Transaction : Type 0 where
  pub id : ℕ
  pub txn_ref : Ref
  pub debit_account_id : ℕ
  pub credit_account_id : ℕ
  pub currency : CurrencyCode
  pub amount : ℕ
  pub txn_type : String
  pub status : TxnStatus
  pub idempotency_key : Option Ref
  pub settled_at : Option ℕ

pub record RtgsSettlement : Type 0 where
  pub id : ℕ
  pub settlement_ref : Ref
  pub sending_account_id : ℕ
  pub receiving_account_id : ℕ
  pub currency : CurrencyCode
  pub amount : ℕ
  pub priority : String
  pub status : SettlementStatus
  pub transaction_id : Option ℕ
  pub queued_at : ℕ
  pub processing_started : Option ℕ
  pub settled_at : Option ℕ
  pub retry_count : ℕ
  pub approved_by : Option ℕ
  pub approved_at : Option ℕ
  pub signed_by : Option ℕ
  pub signed_at : Option ℕ
  pub token_leg : Option Receipt
  pub fiat_leg : Option FiatReceipt

pub record EscrowContract : Type 0 where
  pub id : ℕ
  pub contract_ref : Ref
  pub depositor_account_id : ℕ
  pub beneficiary_account_id : ℕ
  pub currency : CurrencyCode
  pub amount : ℕ
  pub conditions : JsonDict
  pub status : EscrowStatus
  pub release_txn_id : Option ℕ
  pub arbiter_account_id : Option ℕ
  pub expires_at : ℕ
  pub released_at : Option ℕ
  pub release_triggered_by : Option String

pub record ConditionalPayment : Type 0 where
  pub id : ℕ
  pub payment_ref : Ref
  pub payer_account_id : ℕ
  pub payee_account_id : ℕ
  pub currency : CurrencyCode
  pub amount : ℕ
  pub condition_type : ConditionType
  pub condition_params : JsonDict
  pub status : TxnStatus
  pub trigger_data : Option JsonDict
  pub transaction_id : Option ℕ
  pub executed_at : Option ℕ
  pub expires_at : Option ℕ
  pub token_leg : Option Receipt
  pub fiat_leg : Option FiatReceipt

-- The legacy balance table; `reserved` is still written by payment-engine.
pub record TokenBalance : Type 0 where
  pub account_id : ℕ
  pub currency : CurrencyCode
  pub balance : ℕ
  pub reserved : ℕ
  pub version : ℕ

-- Rates are counted in units of 10^-8 and spreads in units of 10^-4 basis points.
-- Rates are in units of 10^-8 and spreads in units of 10^-4, the scales of their columns.
pub record FxRate : Type 0 where
  pub id : ℕ
  pub base_currency : CurrencyCode
  pub quote_currency : CurrencyCode
  pub mid_rate : ℕ
  pub bid_rate : Option ℕ
  pub ask_rate : Option ℕ
  pub spread_bps : Option ℕ
  pub source : String
  pub is_active : Bool
  pub valid_from : ℕ

pub record FxSettlement : Type 0 where
  pub id : ℕ
  pub settlement_ref : Ref
  pub sending_account_id : ℕ
  pub receiving_account_id : ℕ
  pub sell_currency : CurrencyCode
  pub sell_amount : ℕ
  pub buy_currency : CurrencyCode
  pub buy_amount : ℕ
  pub applied_rate : ℕ
  pub fx_rate_id : ℕ
  pub rails : SettlementRails
  pub status : SettlementStatus
  pub sell_txn_id : Option ℕ
  pub buy_txn_id : Option ℕ
  pub created_at : ℕ
  pub settled_at : Option ℕ
  pub token_leg : Option Receipt
  pub fiat_leg : Option FiatReceipt
