-- ===== src/Fx/Saved.antt =====
-- What the processing of an exchange leaves of its row.
use stablecoin_infrastructur.Base.{◌≡◌, ◌==◌, refl, List, [], ◌∷◌, Bool, arith, update}
use stablecoin_infrastructur.Models.Enums.{SettlementStatus}
use stablecoin_infrastructur.Models.Rows.{FxSettlement}
use stablecoin_infrastructur.Models.Database.{Database}

-- The rows with the exchange's id are changed by the function, and no other.
abbrev pub Rewrites : FxSettlement → (FxSettlement → FxSettlement) → Database → Database → Type 0
Rewrites fx f db db' =
    db'.fx_settlements ≡ update (λ (r : FxSettlement). r.id == fx.id) f db.fx_settlements

update-update :
    (p : FxSettlement → Bool) (f g : FxSettlement → FxSettlement) (rows : List FxSettlement)
    → ((r : FxSettlement) → p (g r) ≡ p r)
    → update p f (update p g rows) ≡ update p (λ r. f (g r)) rows
update-update p f g [] k = refl
update-update p f g (r ∷ rows) k = ground (arith, k r, update-update p f g rows k)

pub Rewrites-after :
    (fx : FxSettlement) (f g : FxSettlement → FxSettlement) (db db1 db2 : Database)
    → ((r : FxSettlement) → (g r).id ≡ r.id)
    → Rewrites fx g db db1
    → Rewrites fx f db1 db2
    → Rewrites fx (λ r. f (g r)) db db2
Rewrites-after fx f g db db1 db2 k first second =
    rw (second, first)
      (update-update (λ r. r.id == fx.id) f g db.fx_settlements (λ r. rw (k r) refl))

-- The row is saved with this status.
pub record IsSaved (s : SettlementStatus) (fx : FxSettlement) (db db' : Database) : Type 0 where
  pub change : FxSettlement → FxSettlement
  pub saved : Rewrites fx change db db'
  pub status : (r : FxSettlement) → (change r).status ≡ s

pub IsSaved-after :
    (s : SettlementStatus) (fx : FxSettlement) (g : FxSettlement → FxSettlement)
    (db db1 db2 : Database)
    → ((r : FxSettlement) → (g r).id ≡ r.id)
    → Rewrites fx g db db1
    → IsSaved s fx db1 db2
    → IsSaved s fx db db2
IsSaved-after s fx g db db1 db2 k first p = record {
  change = λ r. p.change (g r);
  saved = Rewrites-after fx p.change g db db1 db2 k first p.saved;
  status = λ r. p.status (g r);
}
