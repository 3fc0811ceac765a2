-- ===== src/Integrity/Tests.antt =====
-- Runs of the checker.
use mathlib.Core.List.{reverse, reverse_perm}
use stablecoin_infrastructur.Base.{ℕ, ◌+◌, ◌≡◌, ◌*◌, ◌^◌, refl, [], ◌∷◌, true, false, none, select}
use stablecoin_infrastructur.Base.Int.{pos, ◌+ℤ◌}
use stablecoin_infrastructur.Models.Enums.{usd, omnibus_reserve, institution_liability}
use stablecoin_infrastructur.Models.Rows.{Account}
use stablecoin_infrastructur.Models.Database.{Database, empty_database}
use stablecoin_infrastructur.Shared.Session.{World}
use stablecoin_infrastructur.Shared.Journal.{post_pair, get_balance, debits, credits}
use stablecoin_infrastructur.Payments.Escrow.{CreateEscrowRequest, create_escrow}
use stablecoin_infrastructur.Integrity.{run_checks, exit_code}
use stablecoin_infrastructur.Integrity.Legacy.{
  check_double_entry, check_running_balances, check_reserved, check_orphaned_transactions,
  check_escrows, balance_drift, journal_imbalance, journal_drift, replay_drift, check_settlements,
  check_legs,
}
use stablecoin_infrastructur.Integrity.Entries.{
  is_liability, balance_in, replay, check_orphaned_entries, check_journal_groups,
  check_journal_totals, check_replay,
}
use stablecoin_infrastructur.Integrity.Replayed.{replay-get_balance}

abbrev bank : ℕ → Account
bank id = record {
  id = id;
  entity_name = "Bank";
  account_type = "institutional";
  is_active = true;
  kyc_verified = true;
  aml_cleared = true;
}

abbrev holder : ℕ
holder = 16 ^ 12 + 2

-- An issuance of 100, and a transfer of 40 from one holder to another.
abbrev books : Database
books =
    post_pair 8 holder institution_liability usd (40 * 10 ^ 18) "transfer" 7 3 institution_liability
      (post_pair 0 1 omnibus_reserve usd (100 * 10 ^ 18) "seed" 6 holder institution_liability
        (record empty_database { accounts = bank holder ∷ bank 3 ∷ [] }))

replay-get_balance_example :
    balance_in (holder, usd) (replay (reverse (select is_liability books.journal_entries)) [])
    ≡ get_balance holder usd institution_liability books
replay-get_balance_example = replay-get_balance reverse holder usd books reverse_perm

replay-run :
    balance_in (holder, usd) (replay (reverse (select is_liability books.journal_entries)) [])
    ≡ pos (60 * 10 ^ 18)
unfolding replay ◌+ℤ◌
replay-run = refl

-- With the one-sided entry and the balance of a system account that init/postgres writes.
abbrev seed : ℕ
seed = 1000000000 * 10 ^ 18

abbrev seeded : Database
seeded = record books {
  journal_entries =
      (record {
        journal_id = 20;
        account_id = 1;
        coa_code = omnibus_reserve;
        currency = usd;
        debit = seed;
        credit = 0;
        entry_type = "bootstrap";
        reference_id = 0;
      })
      ∷ books.journal_entries;
  token_balances =
      (record { account_id = 1; currency = usd; balance = seed; reserved = 0; version = 0 }) ∷ [];
}

abbrev start : World
start = record { db = seeded; now = 7; next_uuid = 10; block_counter = 0; locks = [] }

abbrev creation : CreateEscrowRequest
creation = record {
  depositor_account_id = holder;
  beneficiary_account_id = 3;
  currency = usd;
  amount = record { digits = 50; scale = 0 };
  conditions = [];
  expires_at = 20;
  arbiter_account_id = none;
  idempotency_key = none;
}

abbrev finish : World
finish = (create_escrow creation start).1

-- The exit code is 1 from the start.
seeded-run :
    ((run_checks reverse [] seeded).issues ≡ journal_imbalance 20 ∷ [])
    × (exit_code false (run_checks reverse [] seeded) ≡ 1)
unfolding run_checks exit_code check_double_entry check_running_balances check_reserved
    check_orphaned_transactions check_settlements check_legs check_escrows check_journal_groups
    check_journal_totals check_orphaned_entries check_replay debits credits ◌+ℤ◌
seeded-run = (refl, refl)

-- An entry that was put in by hand is found by its group and by both totals; check 2 compares with the
-- empty legacy table.
abbrev tampered : Database
tampered = record books {
  journal_entries =
      (record {
        journal_id = 9;
        account_id = holder;
        coa_code = institution_liability;
        currency = usd;
        debit = 0;
        credit = 10 ^ 18;
        entry_type = "transfer";
        reference_id = 7;
      })
      ∷ books.journal_entries;
  token_balances =
      (record {
        account_id = holder;
        currency = usd;
        balance = 60 * 10 ^ 18;
        reserved = 0;
        version = 0;
      })
      ∷ [];
}

tampered-run :
    ((run_checks reverse [] tampered).issues
      ≡ balance_drift holder usd
        ∷ journal_imbalance 9
        ∷ journal_drift holder usd
        ∷ replay_drift holder usd
        ∷ [])
    × (exit_code false (run_checks reverse [] tampered) ≡ 1)
unfolding run_checks exit_code check_double_entry check_running_balances check_reserved
    check_orphaned_transactions check_settlements check_legs check_escrows check_journal_groups
    check_journal_totals check_orphaned_entries check_replay debits credits ◌+ℤ◌
tampered-run = (refl, refl)
