-- ===== src/Payments/Release.antt =====
-- What a release does to the funds and to the contract.
use stablecoin_infrastructur.Base.{
  ℕ, suc, String, ◌≤◌, ◌≡◌, ◌≢◌, true, refl, sym, subst, ◌∙◌, none, some, arith, inl, inr,
}
use stablecoin_infrastructur.Base.Int.{pos, ◌+ℤ◌, ◌-ℤ◌, int_laws}
use stablecoin_infrastructur.Models.Enums.{EscrowStatus, release, institution_liability}
use stablecoin_infrastructur.Models.Refs.{Ref, minted}
use stablecoin_infrastructur.Models.Rows.{EscrowContract}
use stablecoin_infrastructur.Models.Database.{Database}
use stablecoin_infrastructur.Shared.Session.{
  World, ok, err, Error, integrity_error, bind_ok, bind_err,
}
use stablecoin_infrastructur.Shared.Journal.{get_balance, get_available_balance, is_asset}
use stablecoin_infrastructur.Shared.Journal.Posting.{
  Posting, Posted, share_self, share_other_account, get_balance-Posted,
}
use stablecoin_infrastructur.Payments.Escrow.{
  ReleaseTo, beneficiary, depositor, ReleaseEscrowRequest, ReleaseResult, escrow_of, save_escrow,
  close_paid, pay_beneficiary, refund_depositor, pay_or_refund, release_escrow,
}
use stablecoin_infrastructur.Payments.{locked_transfer, lower_reserved}
use stablecoin_infrastructur.Payments.Transfer.{transferred, locked_transfer-release}
use stablecoin_infrastructur.Payments.Holds.{Held, get_balance_same, available_release}

abbrev pub escrow_posting : EscrowContract → Posting
escrow_posting e = record {
  debit_account = e.depositor_account_id;
  debit_coa = institution_liability;
  credit_account = e.beneficiary_account_id;
  credit_coa = institution_liability;
  currency = e.currency;
  amount = e.amount;
}

-- The contract is saved with a final status.
pub record Closed (e : EscrowContract) (s : EscrowStatus) (db db' : Database) : Type 0 where
  pub row : EscrowContract
  pub same_id : row.id ≡ e.id
  pub same_contract_ref : row.contract_ref ≡ e.contract_ref
  pub status : row.status ≡ s
  pub saved : db'.escrow_contracts ≡ (save_escrow row db).escrow_contracts

-- The depositor pays out of what was held: the balance falls, what is available stays.
pub record IsPaid (e : EscrowContract) (db db' : Database) : Type 0 where
  pub others : e.depositor_account_id ≢ e.beneficiary_account_id
  pub posted : Posted (escrow_posting e) db db'
  pub debited :
      get_balance e.depositor_account_id e.currency institution_liability db'
      ≡ get_balance e.depositor_account_id e.currency institution_liability db -ℤ pos e.amount
  pub credited :
      get_balance e.beneficiary_account_id e.currency institution_liability db'
      ≡ get_balance e.beneficiary_account_id e.currency institution_liability db +ℤ pos e.amount
  pub available :
      get_available_balance e.depositor_account_id e.currency db'
      ≡ get_available_balance e.depositor_account_id e.currency db
  pub closed : Closed e EscrowStatus.released db db'

-- The hold is lifted: no entry is written, and the amount is available again.
pub record IsLifted (e : EscrowContract) (s : EscrowStatus) (db db' : Database) : Type 0 where
  pub unposted : db'.journal_entries ≡ db.journal_entries
  pub available :
      get_available_balance e.depositor_account_id e.currency db'
      ≡ get_available_balance e.depositor_account_id e.currency db +ℤ pos e.amount
  pub closed : Closed e s db db'

abbrev pub IsReleased : ReleaseTo → EscrowContract → Database → Database → Type 0
IsReleased beneficiary e db db' = IsPaid e db db'
IsReleased depositor e db db' = IsLifted e EscrowStatus.refunded db db'

pub Held-IsLifted :
    (e : EscrowContract) (s : EscrowStatus) (db db' : Database)
    → db'.journal_entries ≡ db.journal_entries
    → Held db db' e.depositor_account_id e.currency release e.amount
    → Closed e s db db'
    → IsLifted e s db db'
Held-IsLifted e s db db' unposted hold closed = record {
  unposted = unposted;
  available =
      available_release db db' e.depositor_account_id e.currency e.amount hold
      ∙ rw (get_balance_same db db' e.depositor_account_id e.currency unposted) (omega int_laws);
  closed = closed;
}

module _ (e : EscrowContract) (db db' : Database) where
  -- The posting between two accounts, and the hold released, make a payment.
  Posted-IsPaid :
      e.depositor_account_id ≢ e.beneficiary_account_id
      → Posted (escrow_posting e) db db'
      → Held db db' e.depositor_account_id e.currency release e.amount
      → Closed e EscrowStatus.released db db'
      → IsPaid e db db'
  unfolding is_asset
  Posted-IsPaid others posted hold closed =
      let a = e.depositor_account_id in
      let b = e.beneficiary_account_id in
      let c = e.currency in
      let n = e.amount in
      let l = institution_liability in
      let debited : get_balance a c l db' ≡ get_balance a c l db -ℤ pos n =
        get_balance-Posted (escrow_posting e) db db' a c l posted
        ∙ rw (share_self a c l n, share_other_account a c l b l c n (λ q. others (sym q)))
            (omega int_laws) in
      record {
        others = others;
        posted = posted;
        debited = debited;
        credited =
            get_balance-Posted (escrow_posting e) db db' b c l posted
            ∙ rw (share_self b c l n, share_other_account b c l a l c n others) (omega int_laws);
        available = available_release db db' a c n hold ∙ rw debited (omega int_laws);
        closed = closed;
      }

module _ (e : EscrowContract) (triggered_by : String) (v : World) (x : ReleaseResult) where
  -- Behind the transfer the contract is closed.
  close_paid-Closed :
      (txn_id now : ℕ) (v' : World)
      → Closed e EscrowStatus.released v'.db (close_paid e triggered_by txn_id now v').1.db
  unfolding close_paid
  close_paid-Closed txn_id now v' = record {
    row = record e {
      status = EscrowStatus.released;
      release_txn_id = some txn_id;
      released_at = some now;
      release_triggered_by = some triggered_by;
    };
    same_id = refl;
    same_contract_ref = refl;
    status = refl;
    saved = refl;
  }

  abbrev paid : World
  paid =
      transferred e.depositor_account_id e.beneficiary_account_id e.currency e.amount
        "escrow_release" v

  -- A payment that returns has transferred the funds to another account, and closed the contract.
  pub pay-paid :
      (pay_beneficiary e triggered_by v).0 ≡ ok x
      → (e.depositor_account_id ≢ e.beneficiary_account_id)
        × (pay_beneficiary e triggered_by v
            ≡ close_paid e triggered_by (suc v.next_uuid) v.now paid)
  unfolding pay_beneficiary
  pay-paid h =
      let transfer =
        locked_transfer e.depositor_account_id e.beneficiary_account_id e.currency e.amount
          "escrow_release" true in
      let close = λ (t : ℕ). close_paid e triggered_by t v.now in
      elim (locked_transfer-release e.depositor_account_id e.beneficiary_account_id e.currency
        e.amount "escrow_release" v) [
          | inl refused ↦ absurd (ground (arith, bind_err transfer close v integrity_error refused))
          | inr (others, e) ↦ (others, bind_ok transfer close v paid (suc v.next_uuid) e)
        ]

  paid-IsPaid :
      e.depositor_account_id ≢ e.beneficiary_account_id
      → IsPaid e v.db (close_paid e triggered_by (suc v.next_uuid) v.now paid).1.db
  unfolding close_paid lower_reserved
  paid-IsPaid others =
      let w' = (close_paid e triggered_by (suc v.next_uuid) v.now paid).1 in
      Posted-IsPaid e v.db w'.db others
        (record {
          journal_id = suc (suc v.next_uuid);
          entry_type = "escrow_release";
          reference_id = suc v.next_uuid;
          entries = refl;
        })
        (record {
          hold = record {
            hold_ref = minted "REL" (suc (suc (suc v.next_uuid)));
            account_id = e.depositor_account_id;
            currency = e.currency;
            amount = e.amount;
            hold_type = release;
            related_entity_id = none;
          };
          added = refl;
          account = refl;
          currency = refl;
          hold_type = refl;
          amount = refl;
        })
        (let c = close_paid-Closed (suc v.next_uuid) v.now paid in
          record {
            row = c.row;
            same_id = c.same_id;
            same_contract_ref = c.same_contract_ref;
            status = c.status;
            saved = c.saved;
          })

  pay-IsPaid :
      (pay_beneficiary e triggered_by v).0 ≡ ok x
      → IsPaid e v.db (pay_beneficiary e triggered_by v).1.db
  pay-IsPaid h = rw ((pay-paid h).1) (paid-IsPaid (pay-paid h).0)

module _ (e : EscrowContract) (triggered_by : String) (v : World) where
  refund-IsLifted : IsLifted e EscrowStatus.refunded v.db (refund_depositor e triggered_by v).1.db
  unfolding refund_depositor lower_reserved
  refund-IsLifted =
      Held-IsLifted e EscrowStatus.refunded v.db (refund_depositor e triggered_by v).1.db refl
        (record {
          hold = record {
            hold_ref = minted "REL" v.next_uuid;
            account_id = e.depositor_account_id;
            currency = e.currency;
            amount = e.amount;
            hold_type = release;
            related_entity_id = some e.id;
          };
          added = refl;
          account = refl;
          currency = refl;
          hold_type = refl;
          amount = refl;
        })
        (record {
          row = record e {
            status = EscrowStatus.refunded;
            released_at = some v.now;
            release_triggered_by = some triggered_by;
          };
          same_id = refl;
          same_contract_ref = refl;
          status = refl;
          saved = refl;
        })

-- Either branch.
pay_or_refund-IsReleased :
    (to : ReleaseTo) (e : EscrowContract) (by : String) (v : World) (x : ReleaseResult)
    → (pay_or_refund to e by v).0 ≡ ok x
    → IsReleased to e v.db (pay_or_refund to e by v).1.db
pay_or_refund-IsReleased beneficiary e by v x h = pay-IsPaid e by v x h
pay_or_refund-IsReleased depositor e by v x h = refund-IsLifted e by v

module _ (ref : Ref) (req : ReleaseEscrowRequest) (w : World) (e : EscrowContract)
    (x : ReleaseResult) where
  -- A release that returns went past the guards into one of the branches, and committed it.
  pub release_escrow-branch :
      escrow_of ref w.db ≡ some e
      → (release_escrow ref req w).0 ≡ ok x
      → (e.status ≡ EscrowStatus.active)
        × (w.now ≤ e.expires_at)
        × ((pay_or_refund req.release_to e req.triggered_by w).0 ≡ ok x)
        × ((release_escrow ref req w).1.db
            ≡ (pay_or_refund req.release_to e req.triggered_by w).1.db)
  unfolding release_escrow
  release_escrow-branch found h = (ground arith, ground arith, ground arith, ground arith)

-- A release that returns found an active contract in its time. To the beneficiary: the depositor
-- pays the amount out of what was held, to another account, and what he has available stays. Back to
-- the depositor: no entry is written, and the amount is available again. Either way the contract is
-- closed with its final status.
pub release_escrow-IsReleased :
    (ref : Ref) (req : ReleaseEscrowRequest) (w : World) (e : EscrowContract) (x : ReleaseResult)
    → escrow_of ref w.db ≡ some e
    → (release_escrow ref req w).0 ≡ ok x
    → (e.status ≡ EscrowStatus.active)
      × (w.now ≤ e.expires_at)
      × IsReleased req.release_to e w.db (release_escrow ref req w).1.db
release_escrow-IsReleased ref req w e x found h =
    let (active, in_time, returned, same) = release_escrow-branch ref req w e x found h in
    (
      active,
      in_time,
      subst (λ d. IsReleased req.release_to e w.db d) (sym same)
          (pay_or_refund-IsReleased req.release_to e req.triggered_by w x returned),
    )

-- An error, or an unknown reference, leaves the database as it was.
pub release_escrow-err :
    (ref : Ref) (req : ReleaseEscrowRequest) (w : World) (x : Error)
    → (release_escrow ref req w).0 ≡ err x
    → (release_escrow ref req w).1.db ≡ w.db
unfolding release_escrow
release_escrow-err ref req w x h = ground arith

pub release_escrow-unknown :
    (ref : Ref) (req : ReleaseEscrowRequest) (w : World)
    → escrow_of ref w.db ≡ none
    → (release_escrow ref req w).1.db ≡ w.db
unfolding release_escrow
release_escrow-unknown ref req w h = ground arith
