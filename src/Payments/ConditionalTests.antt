-- ===== src/Payments/ConditionalTests.antt =====
-- Runs of the conditional payments of payment-engine.
use stablecoin_infrastructur.Base.{
  ℕ, ◌^◌, ◌*◌, ◌≡◌, ◌↔◌, refl, String, [], ◌∷◌, true, Option, some, none,
}
use stablecoin_infrastructur.Base.Int.{sub_ℕ, ◌-ℤ◌}
use stablecoin_infrastructur.Models.Enums.{
  TxnStatus, usd, omnibus_reserve, institution_liability, time_lock, multi_sig,
}
use stablecoin_infrastructur.Models.Refs.{key}
use stablecoin_infrastructur.Models.Json.{Json, JsonDict}
use stablecoin_infrastructur.Models.Rows.{Account, ConditionalPayment, Receipt}
use stablecoin_infrastructur.Models.Database.{empty_database}
use stablecoin_infrastructur.Shared.Session.{World, ok}
use stablecoin_infrastructur.Shared.Journal.{
  post_pair, get_balance, get_available_balance, holds, debits, credits, is_asset,
}
use stablecoin_infrastructur.Shared.Tables.{accepts_transaction}
use stablecoin_infrastructur.Shared.Chain.{has_fiat_leg}
use stablecoin_infrastructur.Payments.{locked_transfer}
use stablecoin_infrastructur.Payments.Condition.{evaluate_condition, common, to_set}
use stablecoin_infrastructur.Payments.Condition.Signers.{HasSigners, evaluate_condition-HasSigners}
use stablecoin_infrastructur.Payments.Conditional.{
  TriggerRequest, executed, start_payment, finish_payment, execute_payment, if_satisfied,
  trigger_conditional_payment,
}
use stablecoin_infrastructur.Payments.Conditional.Execute.{
  IsExecuted, trigger_conditional_payment-IsExecuted,
}
use stablecoin_infrastructur.Payments.Checker.{checker_cycle, pending_payments}
use stablecoin_infrastructur.Payments.Checker.Stuck.{IsMalformed, checker_cycle-stuck}

-- A clock that reads one date only.
abbrev fromisoformat : String → Option ℕ
fromisoformat s = some 5

-- Two of three signers are asked for; "a" has signed twice.
abbrev params : JsonDict
params = ("required_signers", Json.texts ("a" ∷ "b" ∷ "c" ∷ [])) ∷ ("threshold", Json.num 2) ∷ []

abbrev signed : JsonDict
signed = ("signatures", Json.texts ("a" ∷ "a" ∷ "c" ∷ [])) ∷ []

evaluate_condition-HasSigners_example :
    (evaluate_condition fromisoformat 7 multi_sig params signed ≡ ok true)
    ↔ HasSigners 2 ("a" ∷ "b" ∷ "c" ∷ []) ("a" ∷ "a" ∷ "c" ∷ [])
evaluate_condition-HasSigners_example =
    evaluate_condition-HasSigners fromisoformat 7 params signed ("a" ∷ "b" ∷ "c" ∷ [])
      ("a" ∷ "a" ∷ "c" ∷ []) 2 refl refl refl refl

signed-run : evaluate_condition fromisoformat 7 multi_sig params signed ≡ ok true
unfolding evaluate_condition common to_set
signed-run = refl

abbrev payee : ℕ → Account
payee id = record {
  id = id;
  entity_name = "Bank";
  account_type = "institutional";
  is_active = true;
  kyc_verified = true;
  aml_cleared = true;
}

abbrev payment : ConditionalPayment
payment = record {
  id = 4;
  payment_ref = key "CP1";
  payer_account_id = 2;
  payee_account_id = 3;
  currency = usd;
  amount = 60 * 10 ^ 18;
  condition_type = multi_sig;
  condition_params = params;
  status = TxnStatus.pending;
  trigger_data = none;
  transaction_id = none;
  executed_at = none;
  expires_at = some 1;
  token_leg = none;
  fiat_leg = none;
}

-- The payer has 100 units; the payment's time has passed.
abbrev start : World
start = record {
  db =
      record (post_pair 0 1 omnibus_reserve usd (100 * 10 ^ 18) "seed" 0 2 institution_liability
        empty_database) { accounts = payee 2 ∷ payee 3 ∷ []; conditional_payments = payment ∷ [] };
  now = 7;
  next_uuid = 10;
  block_counter = 0;
  locks = [];
}

abbrev request : TriggerRequest
request = record { trigger_data = signed; triggered_by = "agent" }

abbrev receipt : Receipt
receipt = record {
  transaction_id = key "CP1";
  operation = "conditional_payment";
  extra_seed = "";
  block_number = 1;
}

trigger-run :
    (trigger_conditional_payment fromisoformat (key "CP1") request start).0
    ≡ ok (executed 11 7 receipt)
unfolding trigger_conditional_payment evaluate_condition common to_set if_satisfied execute_payment
    start_payment finish_payment locked_transfer accepts_transaction has_fiat_leg
    get_available_balance get_balance holds debits credits is_asset sub_ℕ ◌-ℤ◌
trigger-run = refl

trigger_conditional_payment-IsExecuted_example :
    (payment.status ≡ TxnStatus.pending)
    × (evaluate_condition fromisoformat 7 multi_sig params signed ≡ ok true)
    × IsExecuted payment start.db
        (trigger_conditional_payment fromisoformat (key "CP1") request start).1.db
trigger_conditional_payment-IsExecuted_example =
    trigger_conditional_payment-IsExecuted fromisoformat (key "CP1") request start payment 11 7
      receipt refl trigger-run

-- A time lock that was created without parameters.
abbrev malformed : ConditionalPayment
malformed = record payment { condition_type = time_lock; condition_params = []; expires_at = none }

abbrev blocked : World
blocked = record start { db = record start.db { conditional_payments = malformed ∷ [] } }

malformed-IsMalformed : IsMalformed malformed
malformed-IsMalformed = record { never_expires = refl; is_time_lock = refl; lacks_key = refl }

checker_cycle-stuck_example :
    ((checker_cycle fromisoformat blocked).db ≡ blocked.db)
    × (pending_payments (checker_cycle fromisoformat blocked).db ≡ malformed ∷ [])
checker_cycle-stuck_example =
    checker_cycle-stuck fromisoformat [] [] malformed blocked refl malformed-IsMalformed
