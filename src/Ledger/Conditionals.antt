-- ===== src/Ledger/Conditionals.antt =====
-- The totals of the journal, through conditional payments and the condition checker.
use stablecoin_infrastructur.Base.{
  ℕ, ◌≡◌, inl, inr, String, Bool, true, false, List, [], ◌∷◌, Option, some, none, subst, sym, ap,
  ◌∙◌, arith, Option-cases, Bool-cases, select, ◌&&◌, leb,
}
use stablecoin_infrastructur.Models.Enums.{EscrowStatus, is_escrow}
use stablecoin_infrastructur.Models.Refs.{Ref}
use stablecoin_infrastructur.Models.Json.{JsonDict}
use stablecoin_infrastructur.Models.Rows.{ConditionalPayment, EscrowContract}
use stablecoin_infrastructur.Shared.Session.{World, Result, ok, err, Error, Result-cases, pure}
use stablecoin_infrastructur.Shared.Tables.{get_account}
use stablecoin_infrastructur.Payments.Condition.{evaluate_condition}
use stablecoin_infrastructur.Payments.Conditional.{
  CreateConditionalPaymentRequest, create_payment_new, create_conditional_payment, TriggerRequest,
  TriggerResult, condition_not_satisfied, executed, payment_of, execute_payment, if_satisfied,
  trigger_conditional_payment,
}
use stablecoin_infrastructur.Payments.Conditional.Execute.{
  execute-IsExecuted, trigger_conditional_payment-IsExecuted,
}
use stablecoin_infrastructur.Payments.Escrow.{expire_escrow, expire_all, expire_due}
use stablecoin_infrastructur.Payments.Expiry.{expire_escrow-IsLifted}
use stablecoin_infrastructur.Payments.Checker.{
  is_expired, auto_trigger, execute_if, check_payment, check_payments, checker_cycle,
  pending_payments,
}
use stablecoin_infrastructur.Ledger.{
  IsBalanced, IsBalanced-Posted, IsBalanced-same, Preserves, bind-Preserves, session-IsBalanced,
  Unposted,
}
use stablecoin_infrastructur.Models.Database.{Database}

pub create_conditional-Unposted :
    (req : CreateConditionalPaymentRequest) → Unposted (create_conditional_payment req)
unfolding create_conditional_payment create_payment_new
create_conditional-Unposted req w = ground arith

module _ (o : Database) where
  execute-Preserves :
      (cp : ConditionalPayment) (trigger : JsonDict) → Preserves o (execute_payment cp trigger)
  execute-Preserves cp trigger w x returned h =
      IsBalanced-Posted o _ w.db (execute_payment cp trigger w).1.db
        (execute-IsExecuted cp trigger w x returned).posted h

  expire_all-Preserves : (es : List EscrowContract) → Preserves o (expire_all es)
  unfolding expire_all
  expire_all-Preserves [] = λ w u returned h. h
  expire_all-Preserves (e ∷ rest) =
      bind-Preserves o (expire_escrow e) (λ _. expire_all rest)
        (λ w u returned h.
          IsBalanced-same o w.db (expire_escrow e w).1.db (expire_escrow-IsLifted e w).unposted h)
        (λ _. expire_all-Preserves rest)

  expire_due-Preserves : Preserves o expire_due
  unfolding expire_due
  expire_due-Preserves w =
      expire_all-Preserves
        (select (λ e. is_escrow e.status EscrowStatus.active && leb e.expires_at w.now)
          w.db.escrow_contracts)
        w

  execute_if-Preserves :
      (b : Bool) (cp : ConditionalPayment) (trigger : JsonDict)
      → Preserves o (execute_if b cp trigger)
  execute_if-Preserves false cp trigger = λ w u returned h. h
  execute_if-Preserves true cp trigger =
      bind-Preserves o (execute_payment cp trigger) (λ _. pure tt) (execute-Preserves cp trigger)
        (λ _ w u returned h. h)

module _ (iso : String → Option ℕ) where
  abbrev trigger_of : ConditionalPayment → World → JsonDict
  trigger_of cp w = auto_trigger cp.condition_type (get_account cp.payee_account_id w.db)

  abbrev condition : ConditionalPayment → World → Result Bool
  condition cp w =
      evaluate_condition iso w.now cp.condition_type cp.condition_params (trigger_of cp w)

  trigger-unsatisfied :
      (ref : Ref) (req : TriggerRequest) (w : World)
      → (trigger_conditional_payment iso ref req w).0 ≡ ok condition_not_satisfied
      → (trigger_conditional_payment iso ref req w).1.db.journal_entries ≡ w.db.journal_entries
  unfolding trigger_conditional_payment if_satisfied
  trigger-unsatisfied ref req w h = ground arith

  trigger-unknown :
      (ref : Ref) (req : TriggerRequest) (w : World)
      → payment_of ref w.db ≡ none
      → (trigger_conditional_payment iso ref req w).1.db.journal_entries ≡ w.db.journal_entries
  unfolding trigger_conditional_payment
  trigger-unknown ref req w h = ground arith

  trigger-err :
      (ref : Ref) (req : TriggerRequest) (w : World) (e : Error)
      → (trigger_conditional_payment iso ref req w).0 ≡ err e
      → (trigger_conditional_payment iso ref req w).1.db ≡ w.db
  unfolding trigger_conditional_payment
  trigger-err ref req w e h = ground arith

module _ (o : Database) (iso : String → Option ℕ) where
  check_payment-Preserves : (cp : ConditionalPayment) → Preserves o (check_payment iso cp)
  unfolding check_payment
  check_payment-Preserves cp w u returned h = elim (Bool-cases (is_expired w.now cp)) [
    | inl late ↦ IsBalanced-same o w.db (check_payment iso cp w).1.db (ground (arith, late)) h
    | inr open_ ↦ elim (Result-cases (condition iso cp w)) [
      | inl (b, value) ↦
          let same : check_payment iso cp w ≡ execute_if b cp (trigger_of iso cp w) w =
            ground (arith, open_, value) in
          subst (λ r. IsBalanced o r.1.db) (sym same)
            (execute_if-Preserves o b cp (trigger_of iso cp w) w u
              (ap (λ r. r.0) (sym same) ∙ returned) h)
      | inr (e, raised) ↦ absurd (ground arith)
    ]
  ]

  check_payments-Preserves : (cps : List ConditionalPayment) → Preserves o (check_payments iso cps)
  unfolding check_payments
  check_payments-Preserves [] = λ w u returned h. h
  check_payments-Preserves (cp ∷ rest) =
      bind-Preserves o (check_payment iso cp) (λ _. check_payments iso rest)
        (check_payment-Preserves cp) (λ _. check_payments-Preserves rest)

  pub checker_cycle-IsBalanced :
      (w : World) → IsBalanced o w.db → IsBalanced o (checker_cycle iso w).db
  unfolding checker_cycle
  checker_cycle-IsBalanced w h =
      session-IsBalanced o _ w
        (bind-Preserves o (check_payments iso (pending_payments w.db)) (λ _. expire_due)
          (check_payments-Preserves (pending_payments w.db)) (λ _. expire_due-Preserves o))
        h

  answered-IsBalanced :
      (ref : Ref) (req : TriggerRequest) (w : World) (cp : ConditionalPayment) (x : TriggerResult)
      → payment_of ref w.db ≡ some cp
      → (trigger_conditional_payment iso ref req w).0 ≡ ok x
      → IsBalanced o w.db
      → IsBalanced o (trigger_conditional_payment iso ref req w).1.db
  answered-IsBalanced ref req w cp condition_not_satisfied found returned h =
      IsBalanced-same o w.db (trigger_conditional_payment iso ref req w).1.db
        (trigger-unsatisfied iso ref req w returned) h
  answered-IsBalanced ref req w cp (executed t n r) found returned h =
      IsBalanced-Posted o _ w.db (trigger_conditional_payment iso ref req w).1.db
        (trigger_conditional_payment-IsExecuted iso ref req w cp t n r found returned).2.posted h

  pub trigger-IsBalanced :
      (ref : Ref) (req : TriggerRequest) (w : World)
      → IsBalanced o w.db
      → IsBalanced o (trigger_conditional_payment iso ref req w).1.db
  trigger-IsBalanced ref req w h = elim (Option-cases (payment_of ref w.db)) [
    | inl unknown ↦
        IsBalanced-same o w.db (trigger_conditional_payment iso ref req w).1.db
          (trigger-unknown iso ref req w unknown) h
    | inr (cp, found) ↦ elim (Result-cases (trigger_conditional_payment iso ref req w).0) [
      | inl (x, returned) ↦ answered-IsBalanced ref req w cp x found returned h
      | inr (e, raised) ↦ subst (IsBalanced o) (sym (trigger-err iso ref req w e raised)) h
    ]
  ]
