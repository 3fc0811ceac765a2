-- ===== src/Ledger/Tests.antt =====
-- A run over several services.
use stablecoin_infrastructur.Base.{ℕ, ◌*◌, ◌^◌, [], ◌∷◌, true, some, none}
use stablecoin_infrastructur.Models.Enums.{usd, omnibus_reserve}
use stablecoin_infrastructur.Models.Refs.{key}
use stablecoin_infrastructur.Models.Rows.{Account}
use stablecoin_infrastructur.Models.Database.{empty_database}
use stablecoin_infrastructur.Shared.Session.{World}
use stablecoin_infrastructur.Shared.Access.{Request}
use stablecoin_infrastructur.Issuance.{IssueRequest}
use stablecoin_infrastructur.Issuance.Routes.{issue_tokens}
use stablecoin_infrastructur.Rtgs.Routes.{
  SubmitRequest, submit_settlement, approve_settlement, sign_settlement,
}
use stablecoin_infrastructur.Rtgs.Worker.{worker_cycle}
use stablecoin_infrastructur.Ledger.{IsBalanced}
use stablecoin_infrastructur.Ledger.Services.{
  at_start, after, issues, submits, approves, signs, cycles, Reached-IsBalanced,
}

abbrev bank : ℕ → Account
bank id = record {
  id = id;
  entity_name = "Bank";
  account_type = "institutional";
  is_active = true;
  kyc_verified = true;
  aml_cleared = true;
}

-- Two accounts, and the first entry of init/postgres/02_migrations.sql: a debit of the reserve, and no
-- credit.
abbrev start : World
start = record {
  db = record empty_database {
    accounts = bank 2 ∷ bank 3 ∷ [];
    journal_entries =
        (record {
          journal_id = 0;
          account_id = 1;
          coa_code = omnibus_reserve;
          currency = usd;
          debit = 1000000000 * 10 ^ 18;
          credit = 0;
          entry_type = "bootstrap";
          reference_id = 0;
        })
        ∷ [];
  };
  now = 7;
  next_uuid = 10;
  block_counter = 0;
  locks = [];
}

abbrev issuance : IssueRequest
issuance = record {
  account_id = 2;
  currency = usd;
  amount = record { digits = 5; scale = 0 };
  backing_ref = "WIRE-1";
  custodian = none;
  idempotency_key = none;
}

abbrev submission : SubmitRequest
submission = record {
  sending_account_id = 2;
  receiving_account_id = 3;
  currency = usd;
  amount = record { digits = 4; scale = 0 };
  priority = "normal";
  idempotency_key = some (key "S1");
}

abbrev actor : ℕ → Request
actor id = record { actor_role = "admin"; actor_id = some id }

-- An issuance, and a settlement from its submission to the worker.
abbrev finish : World
finish =
    let issued = (issue_tokens issuance start).1 in
    let submitted = (submit_settlement submission issued).1 in
    let approved = (approve_settlement (key "S1") (actor 100) submitted).1 in
    worker_cycle (sign_settlement (key "S1") (actor 101) approved).1

Reached-IsBalanced_example : IsBalanced start.db finish.db
Reached-IsBalanced_example = Reached-IsBalanced start finish (
    after
      (after
        (after (after (after at_start (issues issuance)) (submits submission))
          (approves (key "S1") (actor 100)))
        (signs (key "S1") (actor 101)))
      cycles)
