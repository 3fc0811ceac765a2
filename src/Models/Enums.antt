-- ===== src/Models/Enums.antt =====
-- The enumerations of shared/models.py. Python compares members with `==`; here each enumeration
-- has an ordinal, and members are compared by it.
use stablecoin_infrastructur.Base.{
  ℕ, ◌+◌, String, ◌≡◌, ◌≢◌, inl, inr, Bool, false, Bool-cases, ◌==◌, arith,
}

pub data TxnStatus : Type 0 where
  pending processing completed failed reversed : TxnStatus

pub data SettlementStatus : Type 0 where
  pending approved signed queued processing : SettlementStatus
  broadcasted confirmed settled failed cancelled : SettlementStatus

pub data EscrowStatus : Type 0 where
  pending active released refunded expired : EscrowStatus

pub data CurrencyCode : Type 0 where
  usd eur gbp jpy sgd chf hkd : CurrencyCode

pub data SettlementRails : Type 0 where
  blockchain swift internal fedwire target2 : SettlementRails

pub data ConditionType : Type 0 where
  time_lock oracle_trigger multi_sig delivery_confirmation kyc_verified : ConditionType

pub data HoldType : Type 0 where
  reserve release : HoldType

pub data UserRole : Type 0 where
  admin approver signer trader auditor : UserRole

-- The codes of the chart of accounts that the services write. `fx_nostro c` is the code that
-- fx-settlement builds as `f"FX_NOSTRO_{currency}"`.
pub data CoaCode : Type 0 where
  omnibus_reserve institution_liability : CoaCode
  fx_nostro : CurrencyCode → CoaCode

abbrev pub txn_ordinal : TxnStatus → ℕ
txn_ordinal TxnStatus.pending = 0
txn_ordinal TxnStatus.processing = 1
txn_ordinal TxnStatus.completed = 2
txn_ordinal TxnStatus.failed = 3
txn_ordinal TxnStatus.reversed = 4

abbrev pub settlement_ordinal : SettlementStatus → ℕ
settlement_ordinal SettlementStatus.pending = 0
settlement_ordinal SettlementStatus.approved = 1
settlement_ordinal SettlementStatus.signed = 2
settlement_ordinal SettlementStatus.queued = 3
settlement_ordinal SettlementStatus.processing = 4
settlement_ordinal SettlementStatus.broadcasted = 5
settlement_ordinal SettlementStatus.confirmed = 6
settlement_ordinal SettlementStatus.settled = 7
settlement_ordinal SettlementStatus.failed = 8
settlement_ordinal SettlementStatus.cancelled = 9

abbrev pub escrow_ordinal : EscrowStatus → ℕ
escrow_ordinal EscrowStatus.pending = 0
escrow_ordinal EscrowStatus.active = 1
escrow_ordinal EscrowStatus.released = 2
escrow_ordinal EscrowStatus.refunded = 3
escrow_ordinal EscrowStatus.expired = 4

abbrev pub currency_ordinal : CurrencyCode → ℕ
currency_ordinal usd = 0
currency_ordinal eur = 1
currency_ordinal gbp = 2
currency_ordinal jpy = 3
currency_ordinal sgd = 4
currency_ordinal chf = 5
currency_ordinal hkd = 6

-- The value of the enum, which is the code's text.
abbrev pub currency_value : CurrencyCode → String
currency_value usd = "USD"
currency_value eur = "EUR"
currency_value gbp = "GBP"
currency_value jpy = "JPY"
currency_value sgd = "SGD"
currency_value chf = "CHF"
currency_value hkd = "HKD"

abbrev pub coa_ordinal : CoaCode → ℕ
coa_ordinal omnibus_reserve = 0
coa_ordinal institution_liability = 1
coa_ordinal (fx_nostro c) = currency_ordinal c + 2

abbrev pub hold_ordinal : HoldType → ℕ
hold_ordinal reserve = 0
hold_ordinal release = 1

abbrev pub same_currency : CurrencyCode → CurrencyCode → Bool
same_currency a b = currency_ordinal a == currency_ordinal b

abbrev pub same_coa : CoaCode → CoaCode → Bool
same_coa a b = coa_ordinal a == coa_ordinal b

abbrev pub is_txn : TxnStatus → TxnStatus → Bool
is_txn a b = txn_ordinal a == txn_ordinal b

abbrev pub is_settlement : SettlementStatus → SettlementStatus → Bool
is_settlement a b = settlement_ordinal a == settlement_ordinal b

abbrev pub is_escrow : EscrowStatus → EscrowStatus → Bool
is_escrow a b = escrow_ordinal a == escrow_ordinal b

abbrev pub is_hold : HoldType → HoldType → Bool
is_hold a b = hold_ordinal a == hold_ordinal b

-- Ordinals tell the members apart.
pub settlement_ordinal_injective :
    (a b : SettlementStatus) → settlement_ordinal a ≡ settlement_ordinal b → a ≡ b
settlement_ordinal_injective a b h = ground arith

-- The `.value` of a member, the text that status histories and requests hold.
abbrev pub txn_value : TxnStatus → String
txn_value TxnStatus.pending = "pending"
txn_value TxnStatus.processing = "processing"
txn_value TxnStatus.completed = "completed"
txn_value TxnStatus.failed = "failed"
txn_value TxnStatus.reversed = "reversed"

abbrev pub settlement_value : SettlementStatus → String
settlement_value SettlementStatus.pending = "pending"
settlement_value SettlementStatus.approved = "approved"
settlement_value SettlementStatus.signed = "signed"
settlement_value SettlementStatus.queued = "queued"
settlement_value SettlementStatus.processing = "processing"
settlement_value SettlementStatus.broadcasted = "broadcasted"
settlement_value SettlementStatus.confirmed = "confirmed"
settlement_value SettlementStatus.settled = "settled"
settlement_value SettlementStatus.failed = "failed"
settlement_value SettlementStatus.cancelled = "cancelled"

abbrev pub escrow_value : EscrowStatus → String
escrow_value EscrowStatus.pending = "pending"
escrow_value EscrowStatus.active = "active"
escrow_value EscrowStatus.released = "released"
escrow_value EscrowStatus.refunded = "refunded"
escrow_value EscrowStatus.expired = "expired"

abbrev pub rails_value : SettlementRails → String
rails_value blockchain = "blockchain"
rails_value swift = "swift"
rails_value internal = "internal"
rails_value fedwire = "fedwire"
rails_value target2 = "target2"

abbrev pub role_value : UserRole → String
role_value admin = "admin"
role_value approver = "approver"
role_value signer = "signer"
role_value trader = "trader"
role_value auditor = "auditor"

currency_ordinal_injective : (a b : CurrencyCode) → currency_ordinal a ≡ currency_ordinal b → a ≡ b
currency_ordinal_injective a b h = ground arith

coa_ordinal_injective : (a b : CoaCode) → coa_ordinal a ≡ coa_ordinal b → a ≡ b
coa_ordinal_injective a b h = ground arith

pub not_same_currency : (d c : CurrencyCode) → c ≢ d → same_currency d c ≡ false
not_same_currency d c h = elim (Bool-cases (same_currency d c)) [
  | inl same ↦
      let e : currency_ordinal c ≡ currency_ordinal d = ground arith in
      absurd (h (currency_ordinal_injective c d e))
  | inr other ↦ other
]

pub not_same_coa : (m k : CoaCode) → k ≢ m → same_coa m k ≡ false
not_same_coa m k h = elim (Bool-cases (same_coa m k)) [
  | inl same ↦
      let e : coa_ordinal k ≡ coa_ordinal m = ground arith in
      absurd (h (coa_ordinal_injective k m e))
  | inr other ↦ other
]
