-- ===== src/Integrity/Unwritten.antt =====
-- What the checker reports of the tables that the services write.
use stablecoin_infrastructur.Base.{◌≡◌, exists, false, not, List}
use stablecoin_infrastructur.Models.Rows.{TokenBalance}
use stablecoin_infrastructur.Models.Database.{Database}
use stablecoin_infrastructur.Integrity.Legacy.{is_system}

-- Every row of `token_balances` is that of a system account, as the rows of init/postgres are.
abbrev pub AllSystem : List TokenBalance → Type 0
AllSystem rows = exists (λ (b : TokenBalance). not (is_system b.account_id)) rows ≡ false
