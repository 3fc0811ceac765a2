-- ===== src/Payments/Outstanding/Checker.antt =====
-- The condition checker and the conditional payments keep holds and contracts matched.
use stablecoin_infrastructur.Base.{
  ℕ, String, Bool, ◌≡◌, inl, inr, ◌∷◌, List, [], refl, sym, subst, ◌∙◌, true, false, Option, arith,
  Option-cases, Bool-cases,
}
use stablecoin_infrastructur.Models.Json.{JsonDict}
use stablecoin_infrastructur.Models.Refs.{Ref}
use stablecoin_infrastructur.Models.Rows.{ConditionalPayment}
use stablecoin_infrastructur.Shared.Session.{
  World, Action, Result, Result-cases, pure, bind_returned, bind_raised, ◌>>=◌,
}
use stablecoin_infrastructur.Payments.{locked_transfer}
use stablecoin_infrastructur.Shared.Tables.{get_account}
use stablecoin_infrastructur.Payments.Condition.{evaluate_condition}
use stablecoin_infrastructur.Payments.Conditional.{
  CreateConditionalPaymentRequest, create_payment_new, create_conditional_payment, TriggerRequest,
  payment_of, start_payment, finish_payment, execute_payment, if_satisfied,
  trigger_conditional_payment,
}
use stablecoin_infrastructur.Payments.Checker.{
  is_expired, auto_trigger, execute_if, check_payment, check_payments,
}
use stablecoin_infrastructur.Payments.Outstanding.Effects.{Untouched}

abbrev pub Leaves : {A : Type 0} → Action A → Type 0
Leaves m = (w : World) → Untouched w (m w).1

pub create_conditional-Leaves :
    (req : CreateConditionalPaymentRequest) → Leaves (create_conditional_payment req)
unfolding create_conditional_payment create_payment_new
create_conditional-Leaves req w = record {
  held = ground arith;
  contracts = ground arith;
  drawn = ground arith;
}

execute-Leaves :
    (cp : ConditionalPayment) (trigger : JsonDict) → Leaves (execute_payment cp trigger)
unfolding execute_payment start_payment locked_transfer finish_payment
execute-Leaves cp trigger w = record {
  held = ground arith;
  contracts = ground arith;
  drawn = ground arith;
}

if_satisfied-Leaves :
    (b : Bool) (cp : ConditionalPayment) (req : TriggerRequest) → Leaves (if_satisfied b cp req)
unfolding if_satisfied
if_satisfied-Leaves false cp req w = record { held = refl; contracts = refl; drawn = omega arith }
if_satisfied-Leaves true cp req w =
    let u = execute-Leaves cp req.trigger_data w in
    record {
      held = ground (arith, u.held);
      contracts = ground (arith, u.contracts);
      drawn = ground (arith, u.drawn);
    }

Untouched-trans : (u v w : World) → Untouched u v → Untouched v w → Untouched u w
Untouched-trans u v w p q = record {
  held = q.held ∙ p.held;
  contracts = q.contracts ∙ p.contracts;
  drawn = omega (arith, p.drawn, q.drawn);
}

pub bind-Leaves :
    {A B : Type 0} (m : Action A) (k : A → Action B)
    → Leaves m
    → ((a : A) → Leaves (k a))
    → Leaves (m >>= k)
bind-Leaves m k p q w = elim (Result-cases (m w).0) [
  | inl (a, returned) ↦
      subst (λ o. Untouched w o.1) (sym (bind_returned m k w a returned))
        (Untouched-trans w (m w).1 (k a (m w).1).1 (p w) (q a (m w).1))
  | inr (e, raised) ↦
      subst (λ o. Untouched w o.1) (sym (bind_raised m k w (m w).1 e (ground (arith, raised))))
        (p w)
]

execute_if-Leaves :
    (b : Bool) (cp : ConditionalPayment) (trigger : JsonDict) → Leaves (execute_if b cp trigger)
execute_if-Leaves false cp trigger =
    λ w. record { held = refl; contracts = refl; drawn = omega arith }
execute_if-Leaves true cp trigger =
    bind-Leaves (execute_payment cp trigger) (λ _. pure tt) (execute-Leaves cp trigger)
      (λ a w. record { held = refl; contracts = refl; drawn = omega arith })

module _ (iso : String → Option ℕ) where
  abbrev trigger_of : ConditionalPayment → World → JsonDict
  trigger_of cp w = auto_trigger cp.condition_type (get_account cp.payee_account_id w.db)

  abbrev condition : ConditionalPayment → World → Result Bool
  condition cp w =
      evaluate_condition iso w.now cp.condition_type cp.condition_params (trigger_of cp w)

  pub trigger-Leaves :
      (ref : Ref) (req : TriggerRequest) → Leaves (trigger_conditional_payment iso ref req)
  unfolding trigger_conditional_payment
  trigger-Leaves ref req w = elim (Option-cases (payment_of ref w.db)) [
    | inl unknown ↦ record { held = ground arith; contracts = ground arith; drawn = ground arith }
    | inr (cp, found) ↦
        elim (Result-cases
          (evaluate_condition iso w.now cp.condition_type cp.condition_params req.trigger_data)) [
            | inl (b, value) ↦
                let u = if_satisfied-Leaves b cp req w in
                record {
                  held = ground (arith, found, value, u.held);
                  contracts = ground (arith, found, value, u.contracts);
                  drawn = ground (arith, found, value, u.drawn);
                }
            | inr (x, raised) ↦ record {
              held = ground (arith, found, raised);
              contracts = ground (arith, found, raised);
              drawn = ground (arith, found, raised);
            }
          ]
  ]

  check_payment-Leaves : (cp : ConditionalPayment) → Leaves (check_payment iso cp)
  unfolding check_payment
  check_payment-Leaves cp w = elim (Bool-cases (is_expired w.now cp)) [
    | inl late ↦ record {
      held = ground (arith, late);
      contracts = ground (arith, late);
      drawn = ground (arith, late);
    }
    | inr open_ ↦ elim (Result-cases (condition cp w)) [
      | inl (b, value) ↦
          let same : check_payment iso cp w ≡ execute_if b cp (trigger_of cp w) w =
            ground (arith, open_, value) in
          subst (λ o. Untouched w o.1) (sym same) (execute_if-Leaves b cp (trigger_of cp w) w)
      | inr (e, raised) ↦ record {
        held = ground (arith, open_, raised);
        contracts = ground (arith, open_, raised);
        drawn = ground (arith, open_, raised);
      }
    ]
  ]

  pub check_payments-Leaves : (cps : List ConditionalPayment) → Leaves (check_payments iso cps)
  unfolding check_payments
  check_payments-Leaves [] = λ w. record { held = refl; contracts = refl; drawn = omega arith }
  check_payments-Leaves (cp ∷ rest) =
      bind-Leaves (check_payment iso cp) (λ _. check_payments iso rest) (check_payment-Leaves cp)
        (λ _. check_payments-Leaves rest)
