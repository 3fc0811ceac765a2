-- ===== src/Payments/Checker/Stuck.antt =====
-- A pending time lock that has no release time.
use stablecoin_infrastructur.Base.{
  ◌≡◌, String, ℕ, List, [], ◌∷◌, ◌++◌, refl, sym, ap, subst, ◌∙◌, Option, none, inl, inr, arith,
}
use stablecoin_infrastructur.Models.Enums.{time_lock}
use stablecoin_infrastructur.Models.Json.{get, JsonDict}
use stablecoin_infrastructur.Models.Rows.{ConditionalPayment}
use stablecoin_infrastructur.Shared.Session.{
  World, err, Error, key_error, bind_err, bind_returned, get_db_session-rollback, Result-cases,
  ◌>>◌,
}
use stablecoin_infrastructur.Shared.Tables.{get_account}
use stablecoin_infrastructur.Payments.Condition.{evaluate_condition}
use stablecoin_infrastructur.Payments.Escrow.{expire_due}
use stablecoin_infrastructur.Payments.Checker.{
  auto_trigger, pending_payments, check_payment, check_payments, checker_cycle,
}

-- It never expires, and its parameters lack the key that the evaluation reads.
pub record IsMalformed (cp : ConditionalPayment) : Type 0 where
  pub never_expires : cp.expires_at ≡ none
  pub is_time_lock : cp.condition_type ≡ time_lock
  pub lacks_key : get "release_at" cp.condition_params ≡ none

module _ (iso : String → Option ℕ) where
  evaluate-raises :
      (cp : ConditionalPayment) (now : ℕ) (trigger : JsonDict)
      → IsMalformed cp
      → evaluate_condition iso now cp.condition_type cp.condition_params trigger ≡ err key_error
  unfolding evaluate_condition
  evaluate-raises cp now trigger h = rw (h.is_time_lock, evaluate_condition, h.lacks_key) refl

  check_payment-raises :
      (cp : ConditionalPayment) (v : World)
      → IsMalformed cp
      → (check_payment iso cp v).0 ≡ err key_error
  unfolding check_payment
  check_payment-raises cp v h = ground (
    arith,
    h.never_expires,
    evaluate-raises cp v.now (auto_trigger cp.condition_type (get_account cp.payee_account_id v.db))
        h,
  )

  -- The loop raises there, if not before.
  check_payments-raises :
      (xs ys : List ConditionalPayment) (cp : ConditionalPayment) (v : World)
      → IsMalformed cp
      → (e : Error) × ((check_payments iso (xs ++ (cp ∷ ys)) v).0 ≡ err e)
  unfolding check_payments
  check_payments-raises [] ys cp v h = (
    key_error,
    bind_err (check_payment iso cp) (λ _. check_payments iso ys) v key_error
        (check_payment-raises cp v h),
  )
  check_payments-raises (x ∷ xs) ys cp v h = elim (Result-cases (check_payment iso x v).0) [
    | inl (u, returned) ↦
        let (e, raised) = check_payments-raises xs ys cp (check_payment iso x v).1 h in
        (
          e,
          rw
              (bind_returned (check_payment iso x) (λ _. check_payments iso (xs ++ (cp ∷ ys))) v u
                returned)
              raised,
        )
    | inr (e, raised) ↦
        (e, bind_err (check_payment iso x) (λ _. check_payments iso (xs ++ (cp ∷ ys))) v e raised)
  ]

  -- One pending time lock without an expiry and without "release_at" stops the whole checker: its cycle
  -- leaves the database as it is, so no other payment is executed or expired, and no escrow either,
  -- in this cycle and, the payment being pending still, in every later one.
  pub checker_cycle-stuck :
      (xs ys : List ConditionalPayment) (cp : ConditionalPayment) (w : World)
      → pending_payments w.db ≡ xs ++ (cp ∷ ys)
      → IsMalformed cp
      → ((checker_cycle iso w).db ≡ w.db)
        × (pending_payments (checker_cycle iso w).db ≡ xs ++ (cp ∷ ys))
  unfolding checker_cycle
  checker_cycle-stuck xs ys cp w e h =
      let (x, raised) = check_payments-raises xs ys cp w h in
      let kept : (checker_cycle iso w).db ≡ w.db =
        get_db_session-rollback (check_payments iso (pending_payments w.db) >> expire_due) w x (
          bind_err (check_payments iso (pending_payments w.db)) (λ _. expire_due) w x
            (subst (λ l. (check_payments iso l w).0 ≡ err x) (sym e) raised)) in
      (kept, ap pending_payments kept ∙ e)
