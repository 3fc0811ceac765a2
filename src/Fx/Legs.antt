-- ===== src/Fx/Legs.antt =====
-- What one leg does.
use stablecoin_infrastructur.Base.{
  ℕ, suc, ◌≡◌, ◌∷◌, ◌⊎◌, refl, inl, inr, true, false, arith, Bool-cases,
}
use stablecoin_infrastructur.Base.Int.{pos, ltb_ℤ}
use stablecoin_infrastructur.Models.Rows.{FxSettlement}
use stablecoin_infrastructur.Shared.Session.{
  World, ok, err, integrity_error, value_error, insufficient,
}
use stablecoin_infrastructur.Shared.Journal.{get_balance, post_pair}
use stablecoin_infrastructur.Shared.Journal.Posting.{Posting, Posted}
use stablecoin_infrastructur.Fx.{
  LegType, debit_of, credit_of, currency_of, amount_of, debit_coa, credit_coa, set_txn, run_leg,
}
use stablecoin_infrastructur.Fx.Saved.{Rewrites}
use stablecoin_infrastructur.Models.Database.{Database}

abbrev pub leg_posting : LegType → FxSettlement → Posting
leg_posting l fx = record {
  debit_account = debit_of l fx;
  debit_coa = debit_coa l (currency_of l fx);
  credit_account = credit_of l fx;
  credit_coa = credit_coa l (currency_of l fx);
  currency = currency_of l fx;
  amount = amount_of l fx;
}

-- The debited side has the amount.
abbrev pub IsCovered : LegType → FxSettlement → Database → Type 0
IsCovered l fx db =
    ltb_ℤ (get_balance (debit_of l fx) (currency_of l fx) (debit_coa l (currency_of l fx)) db)
      (pos (amount_of l fx))
    ≡ false

module _ (l : LegType) (fx : FxSettlement) (v : World) where
  -- The debited side does not have the amount.
  abbrev pub IsShort : Type 0
  IsShort =
      ltb_ℤ (get_balance (debit_of l fx) (currency_of l fx) (debit_coa l (currency_of l fx)) v.db)
        (pos (amount_of l fx))
      ≡ true

  -- It has, and the leg is posted under the id of a transaction, which the row keeps.
  pub record IsPosted : Type 0 where
    pub covered : IsCovered l fx v.db
    pub txn_id : ℕ
    pub returned : (run_leg l fx v).0 ≡ ok txn_id
    pub posted : Posted (leg_posting l fx) v.db (run_leg l fx v).1.db
    pub refers : posted.reference_id ≡ txn_id
    pub marked : Rewrites fx (set_txn l txn_id) v.db (run_leg l fx v).1.db

  pub leg-short :
      IsShort
      → run_leg l fx v ≡ (
        err (
            value_error (
              insufficient
                (get_balance
                  (debit_of l fx)
                  (currency_of l fx)
                  (debit_coa l (currency_of l fx))
                  v.db)
                (amount_of l fx))),
        record v { locks = (debit_of l fx, currency_of l fx) ∷ v.locks },
      )
  unfolding run_leg
  leg-short h = ground arith

  leg-covered :
      IsCovered l fx v.db
      → ((run_leg l fx v).0 ≡ err integrity_error)
        ⊎ (((run_leg l fx v).0 ≡ ok (suc v.next_uuid))
            × ((run_leg l fx v).1.db.journal_entries
                ≡ (post_pair
                    (suc (suc v.next_uuid))
                    (debit_of l fx)
                    (debit_coa l (currency_of l fx))
                    (currency_of l fx)
                    (amount_of l fx)
                    "fx_leg"
                    (suc v.next_uuid)
                    (credit_of l fx)
                    (credit_coa l (currency_of l fx))
                    v.db).journal_entries)
            × Rewrites fx (set_txn l (suc v.next_uuid)) v.db (run_leg l fx v).1.db)
  unfolding run_leg
  leg-covered h = ground arith

  -- A leg finds too little, or posts its pair, or is refused by a constraint.
  pub run_leg-cases : IsShort ⊎ (IsPosted ⊎ ((run_leg l fx v).0 ≡ err integrity_error))
  run_leg-cases =
      elim (Bool-cases (
        ltb_ℤ (get_balance (debit_of l fx) (currency_of l fx) (debit_coa l (currency_of l fx)) v.db)
          (pos (amount_of l fx)))) [
            | inl short ↦ inl short
            | inr covered ↦ elim (leg-covered covered) [
              | inl refused ↦ inr (inr refused)
              | inr (returned, entries, marked) ↦ inr (
                  inl (record {
                    covered = covered;
                    txn_id = suc v.next_uuid;
                    returned = returned;
                    posted = record {
                      journal_id = suc (suc v.next_uuid);
                      entry_type = "fx_leg";
                      reference_id = suc v.next_uuid;
                      entries = entries;
                    };
                    refers = refl;
                    marked = marked;
                  }))
            ]
          ]
