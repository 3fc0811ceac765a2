-- ===== src/Payments/Checker.antt =====
-- `_check_conditions` of services/payment-engine/main.py: one cycle of the background checker.
pub mod Stuck
use stablecoin_infrastructur.Base.{
  ℕ, String, Bool, true, false, ◌&&◌, ◌||◌, List, [], ◌∷◌, Option, none, some, ltb, if◌then◌else◌,
  select,
}
use stablecoin_infrastructur.Models.Enums.{
  ConditionType, time_lock, oracle_trigger, multi_sig, delivery_confirmation, kyc_verified,
  TxnStatus, is_txn,
}
use stablecoin_infrastructur.Models.Json.{Json, JsonDict}
use stablecoin_infrastructur.Models.Rows.{Account, ConditionalPayment, StatusHistory}
use stablecoin_infrastructur.Models.Database.{Database}
use stablecoin_infrastructur.Shared.Session.{
  World, Action, Result, pure, gets, modify, get_db_session, ◌>>=◌, ◌>>◌,
}
use stablecoin_infrastructur.Shared.Status.{record_status}
use stablecoin_infrastructur.Shared.Tables.{get_account}
use stablecoin_infrastructur.Payments.Condition.{evaluate_condition}
use stablecoin_infrastructur.Payments.Conditional.{change_payment, execute_payment}
use stablecoin_infrastructur.Payments.Escrow.{expire_due}

-- `auto_types`
abbrev pub is_auto : ConditionType → Bool
is_auto time_lock = true
is_auto kyc_verified = true
is_auto _ = false

abbrev pub pending_payments : Database → List ConditionalPayment
pending_payments db =
    select (λ p. is_txn p.status TxnStatus.pending && is_auto p.condition_type)
      db.conditional_payments

-- `cp.expires_at and now > cp.expires_at`
abbrev pub is_expired : ℕ → ConditionalPayment → Bool
is_expired now cp = elim cp.expires_at [ none ↦ false | some t ↦ ltb t now ]

-- `payee and payee.kyc_verified and payee.aml_cleared`
abbrev kyc_cleared : Option Account → Bool
kyc_cleared none = false
kyc_cleared (some a) = a.kyc_verified && a.aml_cleared

abbrev pub auto_trigger : ConditionType → Option Account → JsonDict
auto_trigger kyc_verified payee = ("kyc_cleared", Json.bool (kyc_cleared payee)) ∷ []
auto_trigger _ payee = []

abbrev lift : {A : Type 0} → Result A → Action A
lift r w = (r, w)

unfoldable pub expire_payment : ConditionalPayment → Action (Unit {0})
unfolding record_status
expire_payment cp = do
  modify (change_payment cp.id (λ r. record r { status = TxnStatus.failed }))
  record_status StatusHistory.conditional_payment cp.id "failed"

abbrev pub execute_if : Bool → ConditionalPayment → JsonDict → Action (Unit {0})
execute_if false cp trigger = pure tt
execute_if true cp trigger = execute_payment cp trigger >> pure tt

module _ (fromisoformat : String → Option ℕ) where
  -- One round of the loop over the pending payments.
  unfoldable pub check_payment : ConditionalPayment → Action (Unit {0})
  unfolding expire_payment
  check_payment cp w =
      if is_expired w.now cp
      then expire_payment cp w
      else (do
        payee ← gets (λ v. get_account cp.payee_account_id v.db)
        let trigger : JsonDict = auto_trigger cp.condition_type payee
        satisfied ←
            lift
              (evaluate_condition fromisoformat w.now cp.condition_type cp.condition_params trigger)
        execute_if satisfied cp trigger)
          w

  unfoldable pub check_payments : List ConditionalPayment → Action (Unit {0})
  check_payments [] = pure tt
  check_payments (cp ∷ rest) = do check_payment cp; check_payments rest

  -- The cycle commits, or is rolled back by any exception.
  unfoldable pub checker_cycle : World → World
  checker_cycle w = (get_db_session (do check_payments (pending_payments w.db); expire_due) w).1
