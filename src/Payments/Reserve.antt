-- ===== src/Payments/Reserve.antt =====
-- What the creation of an escrow does to the depositor's funds.
use stablecoin_infrastructur.Base.{
  ℕ, suc, String, ◌≡◌, ◌∷◌, refl, ap, ◌∙◌, Option, none, some, inl, inr, arith, Option-cases, false,
}
use stablecoin_infrastructur.Base.Int.{pos, ◌≤ℤ◌, ◌-ℤ◌, ltb_ℤ, ltb_ℤ-false, int_laws}
use stablecoin_infrastructur.Models.Enums.{EscrowStatus, reserve, institution_liability}
use stablecoin_infrastructur.Models.Refs.{Ref, key, truthy, minted}
use stablecoin_infrastructur.Models.Rows.{EscrowContract}
use stablecoin_infrastructur.Models.Database.{Database}
use stablecoin_infrastructur.Shared.Session.{World, ok, Result, Error, err}
use stablecoin_infrastructur.Shared.Money.{quantize_8}
use stablecoin_infrastructur.Shared.Journal.{get_balance, get_available_balance}
use stablecoin_infrastructur.Payments.Escrow.{
  CreateEscrowRequest, existing_escrow, create_new, create_escrow,
}
use stablecoin_infrastructur.Payments.Holds.{Held, get_balance_same, available_reserve}

-- A new escrow: its amount was available, is available no more, and is still the depositor's.
pub record IsReserved (req : CreateEscrowRequest) (w w' : World) (e : EscrowContract) : Type 0 where
  pub amount : quantize_8 req.amount ≡ some e.amount
  pub depositor : e.depositor_account_id ≡ req.depositor_account_id
  pub beneficiary : e.beneficiary_account_id ≡ req.beneficiary_account_id
  pub currency : e.currency ≡ req.currency
  pub uuid : ℕ
  pub reference : e.contract_ref ≡ minted "ESC" uuid
  pub is_active : e.status ≡ EscrowStatus.active
  pub covered : pos e.amount ≤ℤ get_available_balance req.depositor_account_id req.currency w.db
  pub unposted : w'.db.journal_entries ≡ w.db.journal_entries
  pub held :
      get_available_balance req.depositor_account_id req.currency w'.db
      ≡ get_available_balance req.depositor_account_id req.currency w.db -ℤ pos e.amount
  pub saved : w'.db.escrow_contracts ≡ e ∷ w.db.escrow_contracts

module _ (req : CreateEscrowRequest) (w : World) (e : EscrowContract) where
  -- What is read off the code.
  record Created (o : Result EscrowContract × World) : Type 0 where
    amount : quantize_8 req.amount ≡ some e.amount
    depositor : e.depositor_account_id ≡ req.depositor_account_id
    beneficiary : e.beneficiary_account_id ≡ req.beneficiary_account_id
    currency : e.currency ≡ req.currency
    uuid : ℕ
    reference : e.contract_ref ≡ minted "ESC" uuid
    is_active : e.status ≡ EscrowStatus.active
    covered :
        ltb_ℤ (get_available_balance req.depositor_account_id req.currency w.db) (pos e.amount)
        ≡ false
    unposted : o.1.db.journal_entries ≡ w.db.journal_entries
    hold : Held w.db o.1.db req.depositor_account_id req.currency reserve e.amount
    saved : o.1.db.escrow_contracts ≡ e ∷ w.db.escrow_contracts

  create_new-Created : (create_new req w).0 ≡ ok e → Created (create_new req w)
  unfolding create_new
  create_new-Created h = elim (Option-cases (quantize_8 req.amount)) [
    | inl refused ↦ absurd (ground arith)
    | inr (n, en) ↦ record {
      amount = ground arith;
      depositor = ground arith;
      beneficiary = ground arith;
      currency = ground arith;
      uuid = suc w.next_uuid;
      reference = ground arith;
      is_active = ground arith;
      covered = ground arith;
      unposted = ground arith;
      hold = record {
        hold = record {
          hold_ref = minted "HOLD" w.next_uuid;
          account_id = req.depositor_account_id;
          currency = req.currency;
          amount = n;
          hold_type = reserve;
          related_entity_id = none;
        };
        added = ground arith;
        account = refl;
        currency = refl;
        hold_type = refl;
        amount = ground arith;
      };
      saved = ground arith;
    }
  ]

  -- Without a known key, the route runs `create_new` and commits.
  pub create_escrow-new :
      existing_escrow (truthy req.idempotency_key) w.db ≡ none
      → (create_escrow req w).0 ≡ ok e
      → ((create_new req w).0 ≡ ok e) × ((create_escrow req w).1.db ≡ (create_new req w).1.db)
  unfolding create_escrow
  create_escrow-new fresh h = (ground arith, ground arith)

  Created-IsReserved :
      (o : Result EscrowContract × World) (w' : World)
      → w'.db ≡ o.1.db
      → Created o
      → IsReserved req w w' e
  Created-IsReserved o w' same c =
      let a = req.depositor_account_id in
      let k = req.currency in
      let balance : get_balance a k institution_liability o.1.db
          ≡ get_balance a k institution_liability w.db =
        get_balance_same w.db o.1.db a k c.unposted in
      record {
        amount = c.amount;
        depositor = c.depositor;
        beneficiary = c.beneficiary;
        currency = c.currency;
        uuid = c.uuid;
        reference = c.reference;
        is_active = c.is_active;
        covered = ltb_ℤ-false (get_available_balance a k w.db) (pos e.amount) c.covered;
        unposted = ap (λ (d : Database). d.journal_entries) same ∙ c.unposted;
        held =
            ap (get_available_balance a k) same
            ∙ available_reserve w.db o.1.db a k e.amount c.hold
            ∙ rw balance (omega int_laws);
        saved = ap (λ (d : Database). d.escrow_contracts) same ∙ c.saved;
      }

-- An escrow created under no known key has its amount, rounded to 8 places, reserved: what the
-- depositor has available, which sufficed, falls by it, and no journal entry is written.
pub create_escrow-IsReserved :
    (req : CreateEscrowRequest) (w : World) (e : EscrowContract)
    → existing_escrow (truthy req.idempotency_key) w.db ≡ none
    → (create_escrow req w).0 ≡ ok e
    → IsReserved req w (create_escrow req w).1 e
create_escrow-IsReserved req w e fresh h =
    let (returned, same) = create_escrow-new req w e fresh h in
    Created-IsReserved req w e (create_new req w) (create_escrow req w).1 same
      (create_new-Created req w e returned)

-- A text that a client sends is no minted reference.
key-unfound :
    (k : Option Ref) (s : String) (req : CreateEscrowRequest) (w w' : World) (e : EscrowContract)
    → k ≡ some (key s)
    → existing_escrow k w.db ≡ none
    → IsReserved req w w' e
    → existing_escrow k w'.db ≡ none
key-unfound k s req w w' e given fresh r = ground (arith, r.saved, r.reference)

-- The key of a request is never stored: the same request sent twice, under one key, reserves its
-- amount twice.
pub create_escrow-replay :
    (req : CreateEscrowRequest) (w : World) (e e' : EscrowContract) (s : String)
    → truthy req.idempotency_key ≡ some (key s)
    → existing_escrow (truthy req.idempotency_key) w.db ≡ none
    → (create_escrow req w).0 ≡ ok e
    → (create_escrow req (create_escrow req w).1).0 ≡ ok e'
    → get_available_balance req.depositor_account_id req.currency
        (create_escrow req (create_escrow req w).1).1.db
      ≡ get_available_balance req.depositor_account_id req.currency w.db
        -ℤ pos e.amount
        -ℤ pos e'.amount
create_escrow-replay req w e e' s given fresh h k =
    let w' = (create_escrow req w).1 in
    let first = create_escrow-IsReserved req w e fresh h in
    let second =
      create_escrow-IsReserved req w' e'
        (key-unfound (truthy req.idempotency_key) s req w w' e given fresh first) k in
    second.held ∙ ap (λ b. b -ℤ pos e'.amount) first.held

-- A known key, or an error, leaves the database as it was.
pub create_escrow-known :
    (req : CreateEscrowRequest) (w : World) (e : EscrowContract)
    → existing_escrow (truthy req.idempotency_key) w.db ≡ some e
    → (create_escrow req w).1.db ≡ w.db
unfolding create_escrow
create_escrow-known req w e h = ground arith

pub create_escrow-err :
    (req : CreateEscrowRequest) (w : World) (x : Error)
    → (create_escrow req w).0 ≡ err x
    → (create_escrow req w).1.db ≡ w.db
unfolding create_escrow
create_escrow-err req w x h = ground arith
