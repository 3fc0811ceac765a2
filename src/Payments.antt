-- ===== src/Payments.antt =====
-- services/payment-engine/main.py: transfers, holds on funds, and escrow contracts.
pub mod Escrow
pub mod Holds
pub mod Reserve
pub mod Transfer
pub mod Release
pub mod Expiry
pub mod Outstanding
pub mod Condition
pub mod Conditional
pub mod Checker
mod Tests
mod ConditionalTests
use stablecoin_infrastructur.Base.{
  ℕ, suc, ◌-◌, String, Bool, true, false, not, ◌&&◌, ◌∷◌, Option, none, some, ◌==◌, ltb, leb,
  if◌then◌else◌, update,
}
use stablecoin_infrastructur.Base.Int.{pos, ltb_ℤ}
use stablecoin_infrastructur.Models.Enums.{
  CurrencyCode, HoldType, reserve, release, TxnStatus, institution_liability, same_currency,
}
use stablecoin_infrastructur.Models.Refs.{minted}
use stablecoin_infrastructur.Models.Rows.{EscrowHold, TokenBalance}
use stablecoin_infrastructur.Models.Database.{Database}
use stablecoin_infrastructur.Shared.Session.{
  Action, value_error, insufficient, pure, gets, raise_if, modify, uuid4, ◌>>=◌, ◌>>◌,
}
use stablecoin_infrastructur.Shared.Journal.{
  record_journal_pair, get_available_balance, acquire_balance_lock,
}
use stablecoin_infrastructur.Shared.Tables.{insert_transaction}

abbrev pub add_hold : EscrowHold → Database → Database
add_hold h db = record db { escrow_holds = h ∷ db.escrow_holds }

-- A hold row under a fresh reference.
unfoldable pub insert_hold : String → ℕ → CurrencyCode → ℕ → HoldType → Option ℕ → Action (Unit {0})
insert_hold prefix account_id currency amount hold_type related_entity_id = do
  hold_id ← uuid4
  modify (
      add_hold (record {
        hold_ref = minted prefix hold_id;
        account_id = account_id;
        currency = currency;
        amount = amount;
        hold_type = hold_type;
        related_entity_id = related_entity_id;
      }))

abbrev min : ℕ → ℕ → ℕ
min a b = if leb a b then a else b

-- The legacy column `reserved` is lowered by at most what it holds.
unfoldable pub lower_reserved : ℕ → CurrencyCode → ℕ → Database → Database
lower_reserved account_id currency amount db = record db {
  token_balances =
      update (λ b. b.account_id == account_id && same_currency b.currency currency)
        (λ b. record b { reserved = b.reserved - min amount b.reserved; version = suc b.version })
        db.token_balances;
}

-- The release hold of an escrow, and the legacy column with it.
unfoldable pub release_hold : ℕ → CurrencyCode → ℕ → Option ℕ → Action (Unit {0})
unfolding insert_hold
release_hold account_id currency amount related_entity_id = do
  insert_hold "REL" account_id currency amount release related_entity_id
  modify (lower_reserved account_id currency amount)

-- `if release_reserve: …`
abbrev release_if : Bool → ℕ → CurrencyCode → ℕ → Action (Unit {0})
release_if true account_id currency amount = release_hold account_id currency amount none
release_if false account_id currency amount = pure tt

-- `_locked_transfer`: the id of the transaction. With `release_reserve` the funds are not checked.
unfoldable pub locked_transfer :
    (debit_id credit_id : ℕ)
    → CurrencyCode
    → ℕ
    → (txn_type : String) → (release_reserve : Bool) → Action ℕ
unfolding record_journal_pair insert_transaction release_hold
locked_transfer debit_id credit_id currency amount txn_type release_reserve = do
  acquire_balance_lock debit_id currency
  available ← gets (λ w. get_available_balance debit_id currency w.db)
  raise_if (not release_reserve && ltb_ℤ available (pos amount))
      (value_error (insufficient available amount))
  ref_id ← uuid4
  txn_id ← uuid4
  now ← gets (λ w. w.now)
  insert_transaction (record {
    id = txn_id;
    txn_ref = minted "PE" ref_id;
    debit_account_id = debit_id;
    credit_account_id = credit_id;
    currency = currency;
    amount = amount;
    txn_type = txn_type;
    status = TxnStatus.completed;
    idempotency_key = none;
    settled_at = some now;
  })
  record_journal_pair debit_id institution_liability currency amount txn_type txn_id credit_id
      institution_liability
  release_if release_reserve debit_id currency amount
  pure txn_id

-- `_reserve_funds`
unfoldable pub reserve_funds : ℕ → CurrencyCode → ℕ → Action (Unit {0})
unfolding insert_hold
reserve_funds account_id currency amount = do
  available ← gets (λ w. get_available_balance account_id currency w.db)
  raise_if (ltb_ℤ available (pos amount)) (value_error (insufficient available amount))
  insert_hold "HOLD" account_id currency amount reserve none
