-- ===== src/Rtgs/Queue.antt =====
-- The queue of `_settlement_worker`: the signed settlements, by the text of their priority and then
-- by their time of arrival.
pub mod Order
use Prim.Native.Char.{code}
use stablecoin_infrastructur.Base.{
  ℕ, String, List, [], ◌∷◌, Bool, true, false, ◌&&◌, ◌||◌, ◌==◌, ltb, leb, if◌then◌else◌, select,
  take,
}
use stablecoin_infrastructur.Models.Enums.{SettlementStatus, is_settlement}
use stablecoin_infrastructur.Models.Rows.{RtgsSettlement}
use stablecoin_infrastructur.Models.Database.{Database}

abbrev pub codes : String → List ℕ
codes String.[] = []
codes (String.◌∷◌ c s) = code c ∷ codes s

-- The order of texts, letter by letter.
abbrev pub codes_le : List ℕ → List ℕ → Bool
codes_le [] t = true
codes_le (a ∷ s) [] = false
codes_le (a ∷ s) (b ∷ t) = ltb a b || (a == b && codes_le s t)

-- ORDER BY priority ASC, queued_at ASC
unfoldable pub comes_before : RtgsSettlement → RtgsSettlement → Bool
comes_before a b =
    if codes_le (codes a.priority) (codes b.priority)
    then if codes_le (codes b.priority) (codes a.priority)
      then leb a.queued_at b.queued_at
      else true
    else false

unfoldable pub insert_sorted : RtgsSettlement → List RtgsSettlement → List RtgsSettlement
insert_sorted s [] = s ∷ []
insert_sorted s (r ∷ rs) = if comes_before s r then s ∷ r ∷ rs else r ∷ insert_sorted s rs

unfoldable pub sort : List RtgsSettlement → List RtgsSettlement
unfolding insert_sorted
sort [] = []
sort (s ∷ ss) = insert_sorted s (sort ss)

-- One batch: at most ten. There is one worker, so no row is locked by another.
unfoldable pub dequeue : Database → List RtgsSettlement
unfolding sort
dequeue db =
    take 10
      (sort (select (λ s. is_settlement s.status SettlementStatus.signed) db.rtgs_settlements))
