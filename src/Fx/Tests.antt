-- ===== src/Fx/Tests.antt =====
-- Runs of fx-settlement.
use stablecoin_infrastructur.Base.{◌≡◌, ◌⊎◌, refl, [], ◌∷◌, false, none}
use stablecoin_infrastructur.Base.Int.{pos, sub_ℕ}
use stablecoin_infrastructur.Models.Enums.{
  SettlementStatus, fedwire, usd, eur, omnibus_reserve, institution_liability,
}
use stablecoin_infrastructur.Models.Refs.{minted}
use stablecoin_infrastructur.Models.Rows.{FxSettlement}
use stablecoin_infrastructur.Models.Database.{empty_database}
use stablecoin_infrastructur.Shared.Session.{World, ok, err, integrity_error}
use stablecoin_infrastructur.Shared.Journal.{post_pair, get_balance, debits, credits, is_asset}
use stablecoin_infrastructur.Shared.Tables.{accepts_transaction}
use stablecoin_infrastructur.Fx.{
  process_fx_settlement, exchange, run_leg, execute_leg, fail, finalise, start_exchange,
}
use stablecoin_infrastructur.Fx.Endings.{IsExchanged, IsUnfunded, IsOneLegged}
use stablecoin_infrastructur.Fx.Outcome.{process_fx_settlement-Outcome}

abbrev eighty_for_seventy : FxSettlement
eighty_for_seventy = record {
  id = 6;
  settlement_ref = minted "FX" 6;
  sending_account_id = 10;
  receiving_account_id = 11;
  sell_currency = usd;
  sell_amount = 80;
  buy_currency = eur;
  buy_amount = 70;
  applied_rate = 87500000;
  fx_rate_id = 1;
  rails = fedwire;
  status = SettlementStatus.queued;
  sell_txn_id = none;
  buy_txn_id = none;
  created_at = 1;
  settled_at = none;
  token_leg = none;
  fiat_leg = none;
}

-- The sender has 100 dollars, and the nostro of euros has nothing.
abbrev start : World
start = record {
  db =
      record (post_pair 0 1 omnibus_reserve usd 100 "seed" 0 10 institution_liability
        empty_database) { fx_settlements = eighty_for_seventy ∷ [] };
  now = 7;
  next_uuid = 20;
  block_counter = 0;
  locks = [];
}

-- The sender has paid, and the receiver has nothing.
one_legged :
    let o = process_fx_settlement eighty_for_seventy start in
    (o.0 ≡ ok false)
    × (get_balance 10 usd institution_liability o.1.db ≡ pos 20)
    × (get_balance 11 eur institution_liability o.1.db ≡ pos 0)
unfolding process_fx_settlement start_exchange exchange run_leg execute_leg fail finalise
    accepts_transaction get_balance debits credits is_asset sub_ℕ
one_legged = (refl, refl, refl)

process_fx_settlement-Outcome_example :
    let o = process_fx_settlement eighty_for_seventy start in
    IsExchanged eighty_for_seventy start.db o
    ⊎ (IsUnfunded eighty_for_seventy start.db o
        ⊎ (IsOneLegged eighty_for_seventy start.db o ⊎ (o.0 ≡ err integrity_error)))
process_fx_settlement-Outcome_example = process_fx_settlement-Outcome eighty_for_seventy start
