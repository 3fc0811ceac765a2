-- ===== src/Payments/Conditional/Execute.antt =====
-- What the execution of a conditional payment does.
use stablecoin_infrastructur.Base.{
  ℕ, suc, String, ◌≡◌, ◌≢◌, [], ◌∷◌, List, true, false, Bool, refl, sym, ap, subst, Option, some,
  inl, inr, arith, update, ◌==◌,
}
use stablecoin_infrastructur.Base.Int.{pos, ◌≤ℤ◌, ltb_ℤ-false}
use stablecoin_infrastructur.Models.Enums.{TxnStatus, institution_liability}
use stablecoin_infrastructur.Models.Refs.{Ref}
use stablecoin_infrastructur.Models.Json.{JsonDict}
use stablecoin_infrastructur.Models.Rows.{ConditionalPayment, Receipt}
use stablecoin_infrastructur.Models.Database.{Database}
use stablecoin_infrastructur.Shared.Session.{
  World, Action, Result, ok, pure, bind_ok, bind_err, ◌>>=◌,
}
use stablecoin_infrastructur.Shared.Journal.{
  get_available_balance, get_balance, debits, credits, holds,
}
use stablecoin_infrastructur.Shared.Journal.Posting.{Posting, Posted}
use stablecoin_infrastructur.Payments.{locked_transfer}
use stablecoin_infrastructur.Payments.Transfer.{moved, IsMoved, locked_transfer-plain}
use stablecoin_infrastructur.Payments.Condition.{evaluate_condition}
use stablecoin_infrastructur.Payments.Conditional.{
  TriggerRequest, executed, payment_of, start_payment, finish_payment, execute_payment,
  if_satisfied, trigger_conditional_payment,
}

abbrev pub payment_posting : ConditionalPayment → Posting
payment_posting cp = record {
  debit_account = cp.payer_account_id;
  debit_coa = institution_liability;
  credit_account = cp.payee_account_id;
  credit_coa = institution_liability;
  currency = cp.currency;
  amount = cp.amount;
}

-- The payment is covered by what the payer has available, posted, and completed in place.
pub record IsExecuted (cp : ConditionalPayment) (db db' : Database) : Type 0 where
  pub covered : pos cp.amount ≤ℤ get_available_balance cp.payer_account_id cp.currency db
  pub others : cp.payer_account_id ≢ cp.payee_account_id
  pub posted : Posted (payment_posting cp) db db'
  pub held : db'.escrow_holds ≡ db.escrow_holds
  pub complete : ConditionalPayment → ConditionalPayment
  pub completed : (r : ConditionalPayment) → (complete r).status ≡ TxnStatus.completed
  pub same_ref : (r : ConditionalPayment) → (complete r).payment_ref ≡ r.payment_ref
  pub saved :
      db'.conditional_payments ≡ update (λ r. r.id == cp.id) complete db.conditional_payments

update-update {ℓ} :
    {A : Type ℓ} (p : A → Bool) (f g : A → A) (xs : List A)
    → ((a : A) → p (f a) ≡ p a)
    → update p g (update p f xs) ≡ update p (λ a. g (f a)) xs
update-update p f g [] h = refl
update-update p f g (x ∷ xs) h = ground (arith, update-update p f g xs, h x)

module _ (cp : ConditionalPayment) (trigger : JsonDict) (w : World) where
  abbrev begun : World
  begun = (start_payment cp trigger w).1

  -- The start changes neither the journal nor the holds.
  begun-available :
      get_available_balance cp.payer_account_id cp.currency begun.db
      ≡ get_available_balance cp.payer_account_id cp.currency w.db
  unfolding start_payment get_available_balance get_balance debits credits holds
  begun-available = refl

  abbrev after_transfer : ℕ → Action (ℕ × Receipt)
  after_transfer t = finish_payment cp t w.now >>= λ r. pure (t, r)

  abbrev transfer : Action ℕ
  transfer =
      locked_transfer cp.payer_account_id cp.payee_account_id cp.currency cp.amount
        "conditional_payment" false

  execute-begun : execute_payment cp trigger w ≡ (transfer >>= after_transfer) begun
  unfolding execute_payment start_payment
  execute-begun = refl

  abbrev is_done : World
  is_done =
      moved cp.payer_account_id cp.payee_account_id cp.currency cp.amount "conditional_payment"
        begun

  finish-IsExecuted :
      IsMoved cp.payer_account_id cp.payee_account_id cp.currency cp.amount "conditional_payment"
        begun
      → (t : ℕ) → IsExecuted cp w.db (after_transfer t is_done).1.db
  unfolding finish_payment start_payment
  finish-IsExecuted m t = record {
    covered = rw (← begun-available) (
        ltb_ℤ-false (get_available_balance cp.payer_account_id cp.currency begun.db) (pos cp.amount)
          m.covered);
    others = m.others;
    posted = record {
      journal_id = suc (suc w.next_uuid);
      entry_type = "conditional_payment";
      reference_id = suc w.next_uuid;
      entries = refl;
    };
    held = refl;
    complete = _;
    completed = λ r. refl;
    same_ref = λ r. refl;
    saved = update-update (λ r. r.id == cp.id) _ _ w.db.conditional_payments (λ a. refl);
  }

  pub execute-IsExecuted :
      (x : ℕ × Receipt)
      → (execute_payment cp trigger w).0 ≡ ok x
      → IsExecuted cp w.db (execute_payment cp trigger w).1.db
  execute-IsExecuted x h =
      elim (locked_transfer-plain cp.payer_account_id cp.payee_account_id cp.currency cp.amount
        "conditional_payment" begun) [
          | inl (e, raised) ↦ absurd (
              ground (
                arith,
                h,
                ap (λ (o : Result (ℕ × Receipt) × World). o.0) execute-begun,
                bind_err transfer after_transfer begun e raised,
              ))
          | inr m ↦
              rw
                (
                  execute-begun,
                  bind_ok transfer after_transfer begun is_done (suc begun.next_uuid) m.returned,
                )
                (finish-IsExecuted m (suc begun.next_uuid))
        ]

module _ (iso : String → Option ℕ) (ref : Ref) (req : TriggerRequest) (w : World)
    (cp : ConditionalPayment) where
  abbrev condition : Result Bool
  condition = evaluate_condition iso w.now cp.condition_type cp.condition_params req.trigger_data

  -- An answer "executed" comes from the branch of a pending payment whose condition holds.
  trigger-branch :
      (t n : ℕ) (r : Receipt)
      → payment_of ref w.db ≡ some cp
      → (trigger_conditional_payment iso ref req w).0 ≡ ok (executed t n r)
      → (cp.status ≡ TxnStatus.pending)
        × (condition ≡ ok true)
        × ((execute_payment cp req.trigger_data w).0 ≡ ok (t, r))
        × ((trigger_conditional_payment iso ref req w).1.db
            ≡ (execute_payment cp req.trigger_data w).1.db)
  unfolding trigger_conditional_payment if_satisfied
  trigger-branch t n r found h = (ground arith, ground arith, ground arith, ground arith)

-- A trigger that answers "executed" found a pending payment whose condition holds of the trigger
-- data; the payer had the amount available, holds set aside, and paid it to another account by one
-- posting; the payment is completed. Nothing is asked of its `expires_at`.
pub trigger_conditional_payment-IsExecuted :
    (iso : String → Option ℕ) (ref : Ref) (req : TriggerRequest) (w : World)
    (cp : ConditionalPayment) (t n : ℕ) (r : Receipt)
    → payment_of ref w.db ≡ some cp
    → (trigger_conditional_payment iso ref req w).0 ≡ ok (executed t n r)
    → (cp.status ≡ TxnStatus.pending)
      × (evaluate_condition iso w.now cp.condition_type cp.condition_params req.trigger_data
          ≡ ok true)
      × IsExecuted cp w.db (trigger_conditional_payment iso ref req w).1.db
trigger_conditional_payment-IsExecuted iso ref req w cp t n r found h =
    let (pending, holds_true, returned, same) = trigger-branch iso ref req w cp t n r found h in
    (
      pending,
      holds_true,
      subst (λ d. IsExecuted cp w.db d) (sym same)
          (execute-IsExecuted cp req.trigger_data w (t, r) returned),
    )
