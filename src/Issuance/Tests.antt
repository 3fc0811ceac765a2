-- ===== src/Issuance/Tests.antt =====
-- Runs of token-issuance.
use stablecoin_infrastructur.Base.{ℕ, ◌*◌, ◌^◌, ◌≡◌, refl, [], ◌∷◌, true, some, none}
use stablecoin_infrastructur.Base.Int.{pos, sub_ℕ, ◌-ℤ◌}
use stablecoin_infrastructur.Models.Enums.{TxnStatus, usd, omnibus_reserve, institution_liability}
use stablecoin_infrastructur.Models.Refs.{key, minted}
use stablecoin_infrastructur.Models.Rows.{Account}
use stablecoin_infrastructur.Models.Database.{empty_database}
use stablecoin_infrastructur.Shared.Session.{World, ok, err, value_error, not_enough_values}
use stablecoin_infrastructur.Shared.Journal.{
  post_pair, get_balance, get_available_balance, holds, debits, credits, is_asset,
}
use stablecoin_infrastructur.Shared.Chain.{has_fiat_leg}
use stablecoin_infrastructur.Shared.Tables.{accepts_transaction}
use stablecoin_infrastructur.Issuance.{IssueRequest, RedeemRequest, book_issuance, issue_new, issue}
use stablecoin_infrastructur.Issuance.Redeem.{book_redemption, redeem_new, redeem}
use stablecoin_infrastructur.Issuance.Routes.{IssuanceResponse, answer, issue_tokens, redeem_tokens}
use stablecoin_infrastructur.Issuance.Effects.{
  IsMint, IsBurn, issue_tokens-IsMint, redeem_tokens-IsBurn,
}
use stablecoin_infrastructur.Issuance.Replay.{issue_tokens-replay}

-- One unit of a currency.
abbrev unit : ℕ
unit = 10 ^ 18

abbrev bank : Account
bank = record {
  id = 2;
  entity_name = "Bank";
  account_type = "institutional";
  is_active = true;
  kyc_verified = true;
  aml_cleared = true;
}

-- A cleared account, and 100 units in the reserve.
abbrev start : World
start = record {
  db =
      record (post_pair 0 1 omnibus_reserve usd (100 * unit) "seed" 0 9 institution_liability
        empty_database) { accounts = bank ∷ [] };
  now = 7;
  next_uuid = 10;
  block_counter = 0;
  locks = [];
}

abbrev issue_5 : IssueRequest
issue_5 = record {
  account_id = 2;
  currency = usd;
  amount = record { digits = 50; scale = 1 };
  backing_ref = "WIRE-1";
  custodian = none;
  idempotency_key = some (key "K1");
}

abbrev redeem_2 : RedeemRequest
redeem_2 = record {
  account_id = 2;
  currency = usd;
  amount = record { digits = 2; scale = 0 };
  settlement_ref = none;
  idempotency_key = none;
}

abbrev issued_5 : IssuanceResponse
issued_5 = record {
  issuance_ref = key "K1";
  account_id = 2;
  currency = usd;
  amount = 5 * unit;
  new_balance = pos (5 * unit);
  status = TxnStatus.completed;
  blockchain = record {
    transaction_id = key "K1";
    operation = "token_issuance";
    extra_seed = "USD";
    block_number = 1;
  };
  fiat_leg = some (record { transaction_id = key "K1"; rail = "fedwire"; settled_at = some 7 });
}

issue-run : (issue_tokens issue_5 start).0 ≡ ok issued_5
unfolding issue_tokens answer issue issue_new book_issuance get_balance debits credits is_asset
    sub_ℕ accepts_transaction has_fiat_leg
issue-run = refl

issue_tokens-IsMint_example : IsMint issue_5 start (issue_tokens issue_5 start).1 issued_5
issue_tokens-IsMint_example = issue_tokens-IsMint issue_5 start issued_5 issue-run

issue_tokens-replay_example :
    let w' = (issue_tokens issue_5 start).1 in
    ((issue_tokens issue_5 w').0 ≡ err (value_error not_enough_values))
    × ((issue_tokens issue_5 w').1.db ≡ w'.db)
issue_tokens-replay_example = issue_tokens-replay issue_5 start issued_5 (key "K1") refl issue-run

-- The account with 5 units of its own.
abbrev funded : World
funded = record start {
  db =
      post_pair 1 1 omnibus_reserve usd (5 * unit) "token_issuance" 0 2 institution_liability
        start.db;
}

abbrev redeemed_2 : IssuanceResponse
redeemed_2 = record {
  issuance_ref = minted "RED" 10;
  account_id = 2;
  currency = usd;
  amount = 2 * unit;
  new_balance = pos (3 * unit);
  status = TxnStatus.completed;
  blockchain = record {
    transaction_id = minted "RED" 10;
    operation = "token_redemption";
    extra_seed = "USD";
    block_number = 1;
  };
  fiat_leg =
      some (record { transaction_id = minted "RED" 10; rail = "fedwire"; settled_at = some 7 });
}

redeem-run : (redeem_tokens redeem_2 funded).0 ≡ ok redeemed_2
unfolding redeem_tokens answer redeem redeem_new book_redemption get_balance get_available_balance
    holds debits credits is_asset sub_ℕ accepts_transaction has_fiat_leg ◌-ℤ◌
redeem-run = refl

redeem_tokens-IsBurn_example : IsBurn redeem_2 funded (redeem_tokens redeem_2 funded).1 redeemed_2
redeem_tokens-IsBurn_example = redeem_tokens-IsBurn redeem_2 funded redeemed_2 redeem-run
