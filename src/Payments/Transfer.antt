-- ===== src/Payments/Transfer.antt =====
-- What a transfer of released funds does.
use stablecoin_infrastructur.Base.{
  ℕ, suc, String, ◌≡◌, ◌≢◌, ◌∷◌, ◌⊎◌, inl, inr, true, false, none, some, arith, Bool-cases,
}
use stablecoin_infrastructur.Models.Enums.{CurrencyCode, TxnStatus, institution_liability, release}
use stablecoin_infrastructur.Models.Refs.{minted}
use stablecoin_infrastructur.Models.Rows.{Transaction}
use stablecoin_infrastructur.Shared.Session.{
  Error, value_error, insufficient, World, ok, err, integrity_error,
}
use stablecoin_infrastructur.Base.Int.{pos, ltb_ℤ}
use stablecoin_infrastructur.Shared.Journal.{get_available_balance, post_pair}
use stablecoin_infrastructur.Shared.Tables.{accepts_transaction}
use stablecoin_infrastructur.Payments.{add_hold, lower_reserved, locked_transfer}

module _ (a b : ℕ) (c : CurrencyCode) (n : ℕ) (txn_type : String) (v : World) where
  abbrev transfer_row : Transaction
  transfer_row = record {
    id = suc v.next_uuid;
    txn_ref = minted "PE" v.next_uuid;
    debit_account_id = a;
    credit_account_id = b;
    currency = c;
    amount = n;
    txn_type = txn_type;
    status = TxnStatus.completed;
    idempotency_key = none;
    settled_at = some v.now;
  }

  -- The world after it: the transaction, the pair, the release hold and the legacy column.
  abbrev pub transferred : World
  transferred = record v {
    db = lower_reserved a c n (
        add_hold
          (record {
            hold_ref = minted "REL" (suc (suc (suc v.next_uuid)));
            account_id = a;
            currency = c;
            amount = n;
            hold_type = release;
            related_entity_id = none;
          })
          (post_pair (suc (suc v.next_uuid)) a institution_liability c n txn_type (suc v.next_uuid)
            b institution_liability
            (record v.db { transactions = transfer_row ∷ v.db.transactions })));
    next_uuid = suc (suc (suc (suc v.next_uuid)));
    locks = (a, c) ∷ v.locks;
  }

  accepted :
      accepts_transaction transfer_row v.db ≡ true
      → locked_transfer a b c n txn_type true v ≡ (ok (suc v.next_uuid), transferred)
  unfolding locked_transfer
  accepted h = ground arith

  refused :
      accepts_transaction transfer_row v.db ≡ false
      → (locked_transfer a b c n txn_type true v).0 ≡ err integrity_error
  unfolding locked_transfer
  refused h = ground arith

  accepts_others : accepts_transaction transfer_row v.db ≡ true → a ≢ b
  unfolding accepts_transaction
  accepts_others h q = ground arith

  -- It is refused by a constraint, or moves the funds between two accounts.
  pub locked_transfer-release :
      ((locked_transfer a b c n txn_type true v).0 ≡ err integrity_error)
      ⊎ ((a ≢ b) × (locked_transfer a b c n txn_type true v ≡ (ok (suc v.next_uuid), transferred)))
  locked_transfer-release = elim (Bool-cases (accepts_transaction transfer_row v.db)) [
    | inl h ↦ inr (accepts_others h, accepted h)
    | inr h ↦ inl (refused h)
  ]

  -- Without a release of held funds: the transaction and the pair.
  abbrev pub moved : World
  moved = record v {
    db =
        post_pair (suc (suc v.next_uuid)) a institution_liability c n txn_type (suc v.next_uuid) b
          institution_liability (record v.db { transactions = transfer_row ∷ v.db.transactions });
    next_uuid = suc (suc (suc v.next_uuid));
    locks = (a, c) ∷ v.locks;
  }

  accepted_plain :
      ltb_ℤ (get_available_balance a c v.db) (pos n) ≡ false
      → accepts_transaction transfer_row v.db ≡ true
      → locked_transfer a b c n txn_type false v ≡ (ok (suc v.next_uuid), moved)
  unfolding locked_transfer
  accepted_plain k h = ground arith

  refused_plain :
      ltb_ℤ (get_available_balance a c v.db) (pos n) ≡ false
      → accepts_transaction transfer_row v.db ≡ false
      → (locked_transfer a b c n txn_type false v).0 ≡ err integrity_error
  unfolding locked_transfer
  refused_plain k h = ground arith

  pub locked_transfer-short :
      ltb_ℤ (get_available_balance a c v.db) (pos n) ≡ true
      → (locked_transfer a b c n txn_type false v).0
        ≡ err (value_error (insufficient (get_available_balance a c v.db) n))
  unfolding locked_transfer
  locked_transfer-short k = ground arith

  -- Covered by what is available, and between two accounts.
  pub record IsMoved : Type 0 where
    pub covered : ltb_ℤ (get_available_balance a c v.db) (pos n) ≡ false
    pub others : a ≢ b
    pub returned : locked_transfer a b c n txn_type false v ≡ (ok (suc v.next_uuid), moved)

  -- A plain transfer raises, or is covered and done.
  pub locked_transfer-plain :
      ((x : Error) × ((locked_transfer a b c n txn_type false v).0 ≡ err x)) ⊎ IsMoved
  locked_transfer-plain = elim (Bool-cases (ltb_ℤ (get_available_balance a c v.db) (pos n))) [
    | inl short ↦ inl (_, locked_transfer-short short)
    | inr enough ↦ elim (Bool-cases (accepts_transaction transfer_row v.db)) [
      | inl h ↦ inr (record {
        covered = enough;
        others = accepts_others h;
        returned = accepted_plain enough h;
      })
      | inr h ↦ inl (integrity_error, refused_plain enough h)
    ]
  ]
