-- ===== src/Rtgs/Outcome.antt =====
-- How the processing of one settlement ends.
use stablecoin_infrastructur.Base.{
  ℕ, suc, ◌+◌, ◌≡◌, ◌≢◌, ◌⊎◌, inl, inr, ◌∷◌, [], List, sym, subst, ◌∙◌, refl, true, false, Bool,
  some, none, arith, Bool-cases, update, ◌==◌,
}
use stablecoin_infrastructur.Base.Int.{ℤ, pos, ◌≤ℤ◌, ltb_ℤ, ltb_ℤ-false}
use stablecoin_infrastructur.Models.Enums.{SettlementStatus, institution_liability}
use stablecoin_infrastructur.Models.Rows.{RtgsSettlement}
use stablecoin_infrastructur.Shared.Session.{
  catch_returned, catch_raised, catch_passes, catch_value_error, World, Result, ok, err,
  integrity_error, insufficient, value_error,
}
use stablecoin_infrastructur.Shared.Journal.{get_balance, debits, credits}
use stablecoin_infrastructur.Shared.Chain.{stamp_receipt, record_fiat_rail}
use stablecoin_infrastructur.Shared.Journal.Posting.{Posting, Posted}
use stablecoin_infrastructur.Rtgs.{
  save, process_one_settlement, started, start_processing, settle, give_up, transfer_balances,
}

-- The pair of a settlement: both sides are liabilities.
abbrev pub settlement_posting : RtgsSettlement → Posting
settlement_posting s = record {
  debit_account = s.sending_account_id;
  debit_coa = institution_liability;
  credit_account = s.receiving_account_id;
  credit_coa = institution_liability;
  currency = s.currency;
  amount = s.amount;
}

update_twice {ℓ} :
    {A : Type ℓ} (p : A → Bool) (a b : A) (xs : List A)
    → p b ≡ true
    → update p (λ _. a) (update p (λ _. b) xs) ≡ update p (λ _. a) xs
update_twice p a b [] h = refl
update_twice p a b (x ∷ xs) h = ground (arith, update_twice p a b xs h)

-- The funds moved, and the row is settled.
pub record IsSettled (s : RtgsSettlement) (w : World) (o : Result Bool × World) : Type 0 where
  pub returned : o.0 ≡ ok true
  pub covered :
      pos s.amount ≤ℤ get_balance s.sending_account_id s.currency institution_liability w.db
  pub posted : Posted (settlement_posting s) w.db o.1.db
  pub row : RtgsSettlement
  pub same_id : row.id ≡ s.id
  pub actors : (row.approved_by ≡ s.approved_by) × (row.signed_by ≡ s.signed_by)
  pub status : row.status ≡ SettlementStatus.settled
  pub linked : row.transaction_id ≢ none
  pub saved : o.1.db.rtgs_settlements ≡ (save row w.db).rtgs_settlements

-- The funds do not suffice: no entry is posted, and the row is failed.
pub record IsFailed (s : RtgsSettlement) (w : World) (o : Result Bool × World) : Type 0 where
  pub returned : o.0 ≡ ok false
  pub uncovered :
      ltb_ℤ (get_balance s.sending_account_id s.currency institution_liability w.db) (pos s.amount)
      ≡ true
  pub unposted : o.1.db.journal_entries ≡ w.db.journal_entries
  pub row : RtgsSettlement
  pub same_id : row.id ≡ s.id
  pub actors : (row.approved_by ≡ s.approved_by) × (row.signed_by ≡ s.signed_by)
  pub status : row.status ≡ SettlementStatus.failed
  pub saved : o.1.db.rtgs_settlements ≡ (save row w.db).rtgs_settlements

module _ (s : RtgsSettlement) (v : World) where
  -- A shortfall raises before anything is written.
  transfer-short :
      ltb_ℤ (get_balance s.sending_account_id s.currency institution_liability v.db) (pos s.amount)
        ≡ true
      → transfer_balances s v ≡ (
        err (
            value_error (
              insufficient
                (get_balance s.sending_account_id s.currency institution_liability v.db)
                s.amount)),
        record v { locks = (s.sending_account_id, s.currency) ∷ v.locks },
      )
  unfolding transfer_balances
  transfer-short h = rw h

  -- Covered, the transfer is accepted or refused by a constraint of `transactions`.
  transfer-covered :
      ltb_ℤ (get_balance s.sending_account_id s.currency institution_liability v.db) (pos s.amount)
        ≡ false
      → ((transfer_balances s v).0 ≡ err integrity_error)
        ⊎ ((txn : ℕ) × ((transfer_balances s v).0 ≡ ok txn))
  unfolding transfer_balances
  transfer-covered h = grind arith

  -- Then so is the settlement.
  settle-covered :
      ltb_ℤ (get_balance s.sending_account_id s.currency institution_liability v.db) (pos s.amount)
        ≡ false
      → ((settle s v).0 ≡ err integrity_error) ⊎ ((settle s v).0 ≡ ok true)
  unfolding settle
  settle-covered h = elim (transfer-covered h) [
    | inl refused ↦ inl (ground (arith, refused))
    | inr (txn, done) ↦ inr (ground (arith, done))
  ]

  settle-short :
      ltb_ℤ (get_balance s.sending_account_id s.currency institution_liability v.db) (pos s.amount)
        ≡ true
      → settle s v ≡ (
        err (
            value_error (
              insufficient
                (get_balance s.sending_account_id s.currency institution_liability v.db)
                s.amount)),
        record v { locks = (s.sending_account_id, s.currency) ∷ v.locks },
      )
  unfolding settle
  settle-short h = ground (arith, transfer-short h)

  settle-IsSettled : (settle s v).0 ≡ ok true → IsSettled s v (settle s v)
  unfolding settle transfer_balances
  settle-IsSettled h = record {
    returned = h;
    covered =
        ltb_ℤ-false (get_balance s.sending_account_id s.currency institution_liability v.db)
          (pos s.amount) (ground arith);
    posted = record {
      journal_id = v.next_uuid;
      entry_type = "rtgs_settlement";
      reference_id = s.id;
      entries = ground arith;
    };
    row = record s {
      status = SettlementStatus.settled;
      settled_at = some v.now;
      transaction_id = some (suc v.next_uuid);
      token_leg = some (record {
        transaction_id = s.settlement_ref;
        operation = "rtgs_settlement";
        extra_seed = "";
        block_number = suc v.block_counter;
      });
      fiat_leg = stamp_receipt v.now (record_fiat_rail s.settlement_ref "fedwire");
    };
    same_id = refl;
    actors = (refl, refl);
    status = refl;
    linked = λ e. cc;
    saved = ground arith;
  }

  -- The handler of a shortfall fails the row for good, whatever the number of tries.
  give_up-fails :
      (a : ℤ) (n : ℕ)
      → ((give_up s (insufficient a n) v).0 ≡ ok false)
        × ((give_up s (insufficient a n) v).1.db.journal_entries ≡ v.db.journal_entries)
        × ((give_up s (insufficient a n) v).1.db.rtgs_settlements
            ≡ (save
                (record s { retry_count = s.retry_count + 1; status = SettlementStatus.failed })
                v.db).rtgs_settlements)
  unfolding give_up
  give_up-fails a n = ground arith

-- Processing starts by marking the row; balances stay as they are.
module _ (s : RtgsSettlement) (w : World) where
  pub start-journal : (start_processing s w).1.db.journal_entries ≡ w.db.journal_entries
  unfolding start_processing
  start-journal = refl

  pub start-balance :
      get_balance s.sending_account_id s.currency institution_liability (start_processing s w).1.db
      ≡ get_balance s.sending_account_id s.currency institution_liability w.db
  unfolding start_processing get_balance debits credits
  start-balance = refl

  start-rows :
      (row : RtgsSettlement)
      → row.id ≡ s.id
      → (save row (start_processing s w).1.db).rtgs_settlements ≡ (save row w.db).rtgs_settlements
  unfolding start_processing
  start-rows row e =
      subst
        (λ k.
          update (λ r. r.id == k) (λ _. row)
            (update (λ r. r.id == s.id) (λ _. started s w) w.db.rtgs_settlements)
          ≡ update (λ r. r.id == k) (λ _. row) w.db.rtgs_settlements)
        (sym e)
        (update_twice (λ r. r.id == s.id) row (started s w) w.db.rtgs_settlements (ground arith))

  pub process-catches :
      process_one_settlement s w
      ≡ catch_value_error (settle (started s w)) (give_up (started s w)) (start_processing s w).1
  unfolding process_one_settlement start_processing
  process-catches = refl

module _ (s : RtgsSettlement) (w : World) where
  -- A settlement of the marked row is one of the row.
  started-IsSettled :
      (o : Result Bool × World)
      → IsSettled (started s w) (start_processing s w).1 o
      → IsSettled s w o
  started-IsSettled o h = record {
    returned = h.returned;
    covered = rw (← start-balance s w) h.covered;
    posted = record {
      journal_id = h.posted.journal_id;
      entry_type = h.posted.entry_type;
      reference_id = h.posted.reference_id;
      entries = cc (h.posted.entries, start-journal s w);
    };
    row = h.row;
    same_id = h.same_id;
    actors = h.actors;
    status = h.status;
    linked = h.linked;
    saved = h.saved ∙ start-rows s w h.row h.same_id;
  }

  short-IsFailed :
      ltb_ℤ
          (get_balance s.sending_account_id s.currency institution_liability
            (start_processing s w).1.db)
          (pos s.amount)
        ≡ true
      → IsFailed s w (process_one_settlement s w)
  short-IsFailed h =
      let v : World = (start_processing s w).1 in
      let s' : RtgsSettlement = started s w in
      let v' : World = record v { locks = (s.sending_account_id, s.currency) ∷ v.locks } in
      let available = get_balance s.sending_account_id s.currency institution_liability v.db in
      let fails = give_up-fails s' v' available s.amount in
      let raised : settle s' v ≡ (err (value_error (insufficient available s.amount)), v') =
        settle-short s' v h in
      let caught : process_one_settlement s w ≡ give_up s' (insufficient available s.amount) v' =
        process-catches s w
        ∙ catch_raised (settle s') (give_up s') v v' (insufficient available s.amount) raised in
      rw caught (record {
        returned = fails.0;
        uncovered = rw (← start-balance s w) h;
        unposted = fails.1 ∙ start-journal s w;
        row = record s' { retry_count = s.retry_count + 1; status = SettlementStatus.failed };
        same_id = refl;
        actors = (refl, refl);
        status = refl;
        saved =
            fails.2
            ∙ start-rows s w
                (record s' { retry_count = s.retry_count + 1; status = SettlementStatus.failed })
                refl;
      })

-- Each processing settles the row, fails it for want of funds, or raises an integrity error; the
-- branch that would send it back to SIGNED for another try is never taken.
pub process_one_settlement-Outcome :
    (s : RtgsSettlement) (w : World)
    → IsSettled s w (process_one_settlement s w)
      ⊎ (IsFailed s w (process_one_settlement s w)
          ⊎ ((process_one_settlement s w).0 ≡ err integrity_error))
process_one_settlement-Outcome s w =
    let v : World = (start_processing s w).1 in
    let s' : RtgsSettlement = started s w in
    elim (Bool-cases (
      ltb_ℤ (get_balance s.sending_account_id s.currency institution_liability v.db)
        (pos s.amount))) [
          | inl short ↦ inr (inl (short-IsFailed s w short))
          | inr enough ↦ elim (settle-covered s' v enough) [
            | inl refused ↦
                inr
                  (inr (rw (process-catches s w) (catch_passes (settle s') (give_up s') v refused)))
            | inr done ↦ inl (
                rw (process-catches s w, catch_returned (settle s') (give_up s') v true done)
                  (started-IsSettled s w (settle s' v) (settle-IsSettled s' v done)))
          ]
        ]
