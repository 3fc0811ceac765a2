-- ===== src/Shared/Tests.antt =====
-- Runs of shared/.
use stablecoin_infrastructur.Base.{◌≡◌, refl, [], some, none}
use stablecoin_infrastructur.Base.Int.{pos, sub_ℕ}
use stablecoin_infrastructur.Models.Enums.{usd, institution_liability}
use stablecoin_infrastructur.Models.Database.{Database, empty_database}
use stablecoin_infrastructur.Shared.Session.{World, Action, http, raise, modify, ◌>>◌}
use stablecoin_infrastructur.Shared.Journal.{post_pair, get_balance, debits, credits, is_asset}
use stablecoin_infrastructur.Shared.Journal.Posting.{Posting, Posted, IsTransfer, Posted-IsTransfer}
use stablecoin_infrastructur.Shared.Money.{quantize, normalize}
use stablecoin_infrastructur.Shared.Money.Rounding.{IsRounding, normalize-IsRounding}

-- 7 units from the account 2 to the account 3.
abbrev seven : Posting
seven = record {
  debit_account = 2;
  debit_coa = institution_liability;
  credit_account = 3;
  credit_coa = institution_liability;
  currency = usd;
  amount = 7;
}

abbrev seven_posted : Database
seven_posted =
    post_pair 0 2 institution_liability usd 7 "transfer" 0 3 institution_liability empty_database

abbrev seven-Posted : Posted seven empty_database seven_posted
seven-Posted = record { journal_id = 0; entry_type = "transfer"; reference_id = 0; entries = refl }

Posted-IsTransfer_example : IsTransfer seven empty_database seven_posted
Posted-IsTransfer_example = Posted-IsTransfer seven empty_database seven_posted seven-Posted

balance_of_receiver : get_balance 3 usd institution_liability seven_posted ≡ pos 7
unfolding get_balance debits credits is_asset sub_ℕ
balance_of_receiver = refl

-- 2.5 at no places is 2, and 3.5 is 4.
half_even_down : quantize 0 (record { digits = 25; scale = 1 }) ≡ some 2
unfolding quantize
half_even_down = refl

half_even_up : quantize 0 (record { digits = 35; scale = 1 }) ≡ some 4
unfolding quantize
half_even_up = refl

-- Ten thousand million needs 29 digits at 18 places.
too_large : normalize (record { digits = 10000000000; scale = 0 }) ≡ none
unfolding normalize
too_large = refl

-- A tie at the 18th place goes to the even neighbour.
normalize_tie : normalize (record { digits = 25; scale = 19 }) ≡ some 2
unfolding normalize
normalize_tie = refl

normalize-IsRounding_example : IsRounding 18 (record { digits = 25; scale = 19 }) 2
normalize-IsRounding_example =
    normalize-IsRounding (record { digits = 25; scale = 19 }) 2 normalize_tie

abbrev start : World
start = record { db = empty_database; now = 5; next_uuid = 10; block_counter = 0; locks = [] }

-- A handler that posts and then raises.
abbrev half_done : Action (Unit {0})
half_done =
    modify (post_pair 0 2 institution_liability usd 7 "transfer" 0 3 institution_liability)
    >> raise (http 409 "Conflict")
