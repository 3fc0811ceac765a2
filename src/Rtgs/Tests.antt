-- ===== src/Rtgs/Tests.antt =====
-- Runs of rtgs.
use stablecoin_infrastructur.Base.{
  ℕ, ◌^◌, ◌≡◌, ◌≢◌, ◌⊎◌, refl, String, List, [], ◌∷◌, true, false, some, none,
}
use stablecoin_infrastructur.Base.Int.{pos, sub_ℕ, ltb_ℤ}
use stablecoin_infrastructur.Models.Enums.{
  SettlementStatus, usd, omnibus_reserve, institution_liability,
}
use stablecoin_infrastructur.Models.Refs.{key, minted}
use stablecoin_infrastructur.Models.Rows.{Account, RtgsSettlement}
use stablecoin_infrastructur.Models.Database.{empty_database}
use stablecoin_infrastructur.Shared.Session.{World, err, integrity_error}
use stablecoin_infrastructur.Shared.Journal.{post_pair, get_balance, debits, credits, is_asset}
use stablecoin_infrastructur.Shared.Access.{Request}
use stablecoin_infrastructur.Rtgs.{process_one_settlement}
use stablecoin_infrastructur.Rtgs.Routes.{
  SubmitRequest, submit_settlement, approve_settlement, sign_settlement,
}
use stablecoin_infrastructur.Rtgs.Queue.{comes_before, dequeue}
use stablecoin_infrastructur.Rtgs.Queue.Order.{All, dequeue-urgent_last}
use stablecoin_infrastructur.Rtgs.Worker.{worker_cycle}
use stablecoin_infrastructur.Rtgs.Outcome.{IsSettled, IsFailed, process_one_settlement-Outcome}
use stablecoin_infrastructur.Rtgs.Stuck.{worker_cycle-stuck}
use stablecoin_infrastructur.Rtgs.FourEyes.{
  UnderDualControl, at_start, after, submits, approves, signs, cycles, Reached-UnderDualControl,
}

abbrev bank : ℕ → Account
bank id = record {
  id = id;
  entity_name = "Bank";
  account_type = "institutional";
  is_active = true;
  kyc_verified = true;
  aml_cleared = true;
}

-- Two accounts, the first with one unit of the currency.
abbrev start : World
start = record {
  db =
      record (post_pair 0 1 omnibus_reserve usd (10 ^ 18) "seed" 0 2 institution_liability
        empty_database) { accounts = bank 2 ∷ bank 3 ∷ [] };
  now = 7;
  next_uuid = 10;
  block_counter = 0;
  locks = [];
}

abbrev settlement : (id receiver : ℕ) → String → RtgsSettlement
settlement id receiver priority = record {
  id = id;
  settlement_ref = minted "RTGS" id;
  sending_account_id = 2;
  receiving_account_id = receiver;
  currency = usd;
  amount = 40;
  priority = priority;
  status = SettlementStatus.signed;
  transaction_id = none;
  queued_at = 0;
  processing_started = none;
  settled_at = none;
  retry_count = 0;
  approved_by = some 100;
  approved_at = some 1;
  signed_by = some 101;
  signed_at = some 2;
  token_leg = none;
  fiat_leg = none;
}

abbrev with_rows : List RtgsSettlement → World
with_rows rows = record start { db = record start.db { rtgs_settlements = rows } }

process_one_settlement-Outcome_example :
    let s = settlement 5 3 "normal" in
    let w = with_rows (s ∷ []) in
    IsSettled s w (process_one_settlement s w)
    ⊎ (IsFailed s w (process_one_settlement s w)
        ⊎ ((process_one_settlement s w).0 ≡ err integrity_error))
process_one_settlement-Outcome_example =
    process_one_settlement-Outcome (settlement 5 3 "normal")
      (with_rows (settlement 5 3 "normal" ∷ []))

-- A settlement from the account 2 to itself, ahead of a regular one.
abbrev own : World
own = with_rows (settlement 6 3 "normal" ∷ settlement 5 2 "high" ∷ [])

own-queue : dequeue own.db ≡ settlement 5 2 "high" ∷ settlement 6 3 "normal" ∷ []
unfolding dequeue comes_before
own-queue = refl

own-funded : ltb_ℤ (get_balance 2 usd institution_liability own.db) (pos 40) ≡ false
unfolding get_balance debits credits is_asset sub_ℕ
own-funded = refl

worker_cycle-stuck_example :
    ((worker_cycle own).db ≡ own.db)
    × (dequeue (worker_cycle own).db ≡ settlement 5 2 "high" ∷ settlement 6 3 "normal" ∷ [])
worker_cycle-stuck_example =
    worker_cycle-stuck (settlement 5 2 "high") (settlement 6 3 "normal" ∷ []) own own-queue refl
      own-funded

-- The urgent settlement arrived with two others, and is taken behind both.
abbrev rush : World
rush = with_rows (settlement 6 3 "urgent" ∷ settlement 5 3 "low" ∷ settlement 7 3 "urgent" ∷ [])

rush-queue :
    dequeue rush.db ≡ settlement 5 3 "low" ∷ settlement 6 3 "urgent" ∷ settlement 7 3 "urgent" ∷ []
unfolding dequeue comes_before
rush-queue = refl

dequeue-urgent_last_example :
    All
      (λ a. (a.priority ≢ "high") × (a.priority ≢ "normal") × (a.priority ≢ "low"))
      (settlement 7 3 "urgent" ∷ [])
dequeue-urgent_last_example =
    dequeue-urgent_last rush.db (settlement 5 3 "low" ∷ []) (settlement 7 3 "urgent" ∷ [])
      (settlement 6 3 "urgent") rush-queue refl

-- The course of one settlement, with two actors.
abbrev submission : SubmitRequest
submission = record {
  sending_account_id = 2;
  receiving_account_id = 3;
  currency = usd;
  amount = record { digits = 4; scale = 8 };
  priority = "normal";
  idempotency_key = some (key "S1");
}

abbrev actor : String → ℕ → Request
actor role id = record { actor_role = role; actor_id = some id }

abbrev submitted : World
submitted = (submit_settlement submission start).1

abbrev approved : World
approved = (approve_settlement (key "S1") (actor "approver" 100) submitted).1

abbrev signed : World
signed = (sign_settlement (key "S1") (actor "signer" 101) approved).1

abbrev finished : World
finished = worker_cycle signed

Reached-UnderDualControl_example : UnderDualControl finished.db
Reached-UnderDualControl_example = Reached-UnderDualControl start finished refl (
    after
      (after
        (after (after at_start (submits submission)) (approves (key "S1") (actor "approver" 100)))
        (signs (key "S1") (actor "signer" 101)))
      cycles)
