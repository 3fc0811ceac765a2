-- ===== src/Models/Json.antt =====
-- The JSON values that condition parameters and trigger data hold, and Python dicts of them.
use stablecoin_infrastructur.Base.{
  ℕ, String, List, [], ◌∷◌, Bool, true, false, ◌&&◌, Option, none, some, ◌==◌, str_eq,
  if◌then◌else◌,
}

pub data Json : Type 0 where
  bool : Bool → Json
  num : ℕ → Json
  text : String → Json
  texts : List String → Json

abbrev pub JsonDict : Type 0
JsonDict = List (String × Json)

-- `d.get(k)`
abbrev pub get : String → JsonDict → Option Json
get k [] = none
get k ((j, v) ∷ d) = if str_eq j k then some v else get k d

abbrev same_texts : List String → List String → Bool
same_texts [] [] = true
same_texts (s ∷ ss) (t ∷ ts) = str_eq s t && same_texts ss ts
same_texts _ _ = false

abbrev to_num : Bool → ℕ
to_num true = 1
to_num false = 0

-- Python's `==`, where True equals 1 and False equals 0.
abbrev pub same_json : Json → Json → Bool
same_json (bool a) (bool b) = to_num a == to_num b
same_json (bool a) (num n) = to_num a == n
same_json (num n) (bool a) = n == to_num a
same_json (num m) (num n) = m == n
same_json (text s) (text t) = str_eq s t
same_json (texts ss) (texts ts) = same_texts ss ts
same_json _ _ = false

-- `a.get(j) == b.get(k)`: two missing keys are both None, and None equals None.
abbrev pub same_value : Option Json → Option Json → Bool
same_value none none = true
same_value (some a) (some b) = same_json a b
same_value _ _ = false
