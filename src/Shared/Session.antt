-- ===== src/Shared/Session.antt =====
-- A handler runs on a session of shared/database.py: it reads and writes the database and may raise.
-- `get_db_session` commits when the handler returns and rolls back when it raises; what lives outside
-- the database (the block counter of blockchain_sim.py, uuids already drawn) is not rolled back.
use stablecoin_infrastructur.Base.{
  ℕ, suc, ◌≡◌, ◌⊎◌, inl, inr, refl, Bool, String, Option, none, some, List, [], arith,
  if◌then◌else◌,
}
use stablecoin_infrastructur.Base.Int.{ℤ}
use stablecoin_infrastructur.Models.Enums.{CurrencyCode}
use stablecoin_infrastructur.Models.Database.{Database}

-- The messages of the `ValueError`s that the code raises or provokes.
pub data ValueError : Type 0 where
  -- `f"Insufficient balance: available={available} required={amount}"` and the like
  insufficient : (available : ℤ) (required : ℕ) → ValueError
  -- a tuple of two unpacked into three names
  not_enough_values : ValueError
  -- a text that `datetime.fromisoformat` does not read
  not_iso_format : ValueError

pub data Error : Type 0 where
  http : (status_code : ℕ) (detail : String) → Error
  value_error : ValueError → Error
  integrity_error : Error
  invalid_operation : Error
  division_by_zero : Error
  key_error : Error
  type_error : Error

pub data Result {ℓ} (A : Type ℓ) : Type ℓ where
  ok : A → Result A
  err : Error → Result A

pub record World : Type 0 where
  pub db : Database
  pub now : ℕ
  pub next_uuid : ℕ
  pub block_counter : ℕ
  -- the advisory locks that the open transaction holds
  pub locks : List (ℕ × CurrencyCode)

abbrev pub Action : Type 0 → Type 0
Action A = World → Result A × World

module _ {A : Type 0} where
  abbrev pub pure : A → Action A
  pure a w = (ok a, w)

  abbrev pub raise : Error → Action A
  raise e w = (err e, w)

  abbrev pub gets : (World → A) → Action A
  gets f w = (ok (f w), w)

  abbrev pub or_raise : Option A → Error → Action A
  or_raise none e w = (err e, w)
  or_raise (some a) e w = (ok a, w)

infixl 5 ◌>>=◌ ◌>>◌
abbrev pub ◌>>=◌ : {A B : Type 0} → Action A → (A → Action B) → Action B
◌>>=◌ m f w = let (r, w') = m w in elim r [ ok a ↦ f a w' | err e ↦ (err e, w') ]

abbrev pub ◌>>◌ : {A B : Type 0} → Action A → Action B → Action B
m >> k = m >>= λ _. k

abbrev pub raise_if : Bool → Error → Action (Unit {0})
raise_if b e w = (if b then err e else ok tt, w)

abbrev pub modify : (Database → Database) → Action (Unit {0})
modify f w = (ok tt, record w { db = f w.db })

-- An INSERT that the constraints of the table may refuse.
abbrev pub insert : Bool → (Database → Database) → Action (Unit {0})
insert allowed f w = (
  if allowed then ok tt else err integrity_error,
  if allowed then record w { db = f w.db } else w,
)

-- `uuid.uuid4()`: a number that was never drawn before.
abbrev pub uuid4 : Action ℕ
uuid4 w = (ok w.next_uuid, record w { next_uuid = suc w.next_uuid })

-- The session dependency: commit on return, roll back on any exception, which is raised again. The
-- end of the transaction frees its advisory locks.
abbrev pub settle_session : {A : Type 0} → World → Result A × World → Result A × World
settle_session w (ok a, w') = (ok a, record w' { locks = [] })
settle_session w (err e, w') = (err e, record w' { db = w.db; locks = [] })

unfoldable pub get_db_session : {A : Type 0} → Action A → Action A
get_db_session m w = settle_session w (m w)

-- `try: … except ValueError: …`: what was written before the exception stays written.
abbrev pub catch_value_error : {A : Type 0} → Action A → (ValueError → Action A) → Action A
catch_value_error m handler w =
    let (r, w') = m w in
    elim r [
      | ok a ↦ (ok a, w')
      | err e ↦ elim e [ value_error v ↦ handler v w' | other ↦ (err other, w') ]
    ]

-- A request that fails leaves no trace in the database.
pub get_db_session-rollback :
    {A : Type 0} (m : Action A) (w : World) (e : Error)
    → (m w).0 ≡ err e
    → (get_db_session m w).1.db ≡ w.db
unfolding get_db_session
get_db_session-rollback m w e h = ground arith

-- One that returns commits what it wrote.
pub get_db_session-commit :
    {A : Type 0} (m : Action A) (w : World) (a : A)
    → (m w).0 ≡ ok a
    → (get_db_session m w).1.db ≡ (m w).1.db
unfolding get_db_session
get_db_session-commit m w a h = ground arith

-- What a bind does, by the result of its first action.
pub bind_ok :
    {A B : Type 0} (m : Action A) (k : A → Action B) (w w' : World) (a : A)
    → m w ≡ (ok a, w')
    → (m >>= k) w ≡ k a w'
bind_ok m k w w' a h = ground arith

pub bind_err :
    {A B : Type 0} (m : Action A) (k : A → Action B) (w : World) (e : Error)
    → (m w).0 ≡ err e
    → ((m >>= k) w).0 ≡ err e
bind_err m k w e h = ground arith

pub bind_returned :
    {A B : Type 0} (m : Action A) (k : A → Action B) (w : World) (a : A)
    → (m w).0 ≡ ok a
    → (m >>= k) w ≡ k a (m w).1
bind_returned m k w a h = ground arith

pub bind_raised :
    {A B : Type 0} (m : Action A) (k : A → Action B) (w w' : World) (e : Error)
    → m w ≡ (err e, w')
    → (m >>= k) w ≡ (err e, w')
bind_raised m k w w' e h = ground arith

-- What a `try` does, by the result of its body.
pub catch_returned :
    {A : Type 0} (m : Action A) (handler : ValueError → Action A) (v : World) (b : A)
    → (m v).0 ≡ ok b
    → catch_value_error m handler v ≡ m v
catch_returned m handler v b h = ground arith

pub catch_raised :
    {A : Type 0} (m : Action A) (handler : ValueError → Action A) (v v' : World) (x : ValueError)
    → m v ≡ (err (value_error x), v')
    → catch_value_error m handler v ≡ handler x v'
catch_raised m handler v v' x h = ground arith

pub catch_passes :
    {A : Type 0} (m : Action A) (handler : ValueError → Action A) (v : World)
    → (m v).0 ≡ err integrity_error
    → (catch_value_error m handler v).0 ≡ err integrity_error
catch_passes m handler v h = ground arith

-- A session that ends in an error, read off its own result.
pub get_db_session-err :
    {A : Type 0} (m : Action A) (w : World) (e : Error)
    → (get_db_session m w).0 ≡ err e
    → (get_db_session m w).1.db ≡ w.db
unfolding get_db_session
get_db_session-err m w e h = ground arith

pub Result-cases :
    {A : Type 0} (r : Result A) → ((a : A) × (r ≡ ok a)) ⊎ ((e : Error) × (r ≡ err e))
Result-cases (ok a) = inl (a, refl)
Result-cases (err e) = inr (e, refl)
