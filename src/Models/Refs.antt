-- ===== src/Models/Refs.antt =====
-- References and idempotency keys. A reference is a text that a client chose, or one that a service
-- minted from a fresh uuid4, such as `f"ISS-{uuid.uuid4().hex[:16].upper()}"`; the digits kept of
-- the uuid are taken to identify it. A client may send a minted text back as a key.
use stablecoin_infrastructur.Base.{
  ℕ, String, Bool, true, false, ◌&&◌, not, Option, none, some, ◌==◌, str_eq, if◌then◌else◌,
}

pub data Ref : Type 0 where
  key : String → Ref
  minted : String → ℕ → Ref

abbrev pub same_ref : Ref → Ref → Bool
same_ref (key s) (key t) = str_eq s t
same_ref (minted p m) (minted q n) = str_eq p q && m == n
same_ref _ _ = false

-- The truth value of a text.
abbrev pub is_nonempty : Ref → Bool
is_nonempty (key s) = not (str_eq s "")
is_nonempty (minted p n) = true

-- `if idempotency_key:` holds of a key that is given and is not the empty text.
abbrev pub truthy : Option Ref → Option Ref
truthy none = none
truthy (some r) = if is_nonempty r then some r else none

-- A nullable column compared with a value: NULL equals nothing.
abbrev pub same_key : Option Ref → Option Ref → Bool
same_key (some a) (some b) = same_ref a b
same_key _ _ = false
