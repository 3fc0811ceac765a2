-- ===== src/Models/Database.antt =====
-- The database: one list of rows for each table, the newest row first.
use stablecoin_infrastructur.Base.{List, []}
use stablecoin_infrastructur.Models.Rows.{
  Account, JournalEntry, EscrowHold, OutboxEvent, StatusRow, TokenIssuance, Transaction,
  RtgsSettlement, EscrowContract, ConditionalPayment, TokenBalance, FxRate, FxSettlement,
}

pub record Database : Type 0 where
  pub accounts : List Account
  pub journal_entries : List JournalEntry
  pub escrow_holds : List EscrowHold
  pub outbox_events : List OutboxEvent
  pub status_history : List StatusRow
  pub token_issuances : List TokenIssuance
  pub transactions : List Transaction
  pub rtgs_settlements : List RtgsSettlement
  pub escrow_contracts : List EscrowContract
  pub conditional_payments : List ConditionalPayment
  pub token_balances : List TokenBalance
  pub fx_rates : List FxRate
  pub fx_settlements : List FxSettlement

abbrev pub empty_database : Database
empty_database = record {
  accounts = [];
  journal_entries = [];
  escrow_holds = [];
  outbox_events = [];
  status_history = [];
  token_issuances = [];
  transactions = [];
  rtgs_settlements = [];
  escrow_contracts = [];
  conditional_payments = [];
  token_balances = [];
  fx_rates = [];
  fx_settlements = [];
}
