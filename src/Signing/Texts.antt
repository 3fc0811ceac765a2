-- ===== src/Signing/Texts.antt =====
-- The methods of Python's str that the gateway uses, and `sorted` on texts.
use Prim.Native.Char.{Char, code}
use Prim.Native.String.{◌++◌}
use stablecoin_infrastructur.Base.{
  ℕ, String, Bool, true, ◌&&◌, ◌||◌, List, [], ◌∷◌, ◌==◌, leb, str_eq, if◌then◌else◌,
}
use stablecoin_infrastructur.Rtgs.Queue.{codes, codes_le}

abbrev within : ℕ → ℕ → ℕ → Bool
within lo hi n = leb lo n && leb n hi

-- `str.isspace` of one character
abbrev pub is_space : ℕ → Bool
is_space n =
    within 9 13 n
    || within 28 32 n
    || n == 133
    || n == 160
    || n == 5760
    || within 8192 8202 n
    || within 8232 8233 n
    || n == 8239
    || n == 8287
    || n == 12288

unfoldable pub lstrip : (ℕ → Bool) → String → String
lstrip drops String.[] = ""
lstrip drops (String.◌∷◌ c s) =
    let rest = lstrip drops s in if drops (code c) then rest else String.◌∷◌ c s

abbrev cons_unless_last : Bool → Char → String → String
cons_unless_last true c String.[] = ""
cons_unless_last _ c s = String.◌∷◌ c s

unfoldable pub rstrip : (ℕ → Bool) → String → String
rstrip drops String.[] = ""
rstrip drops (String.◌∷◌ c s) = cons_unless_last (drops (code c)) c (rstrip drops s)

unfoldable pub strip : String → String
unfolding lstrip rstrip
strip s = lstrip is_space (rstrip is_space s)

-- `node_url.rstrip('/')`
unfoldable pub rstrip_slash : String → String
unfolding rstrip
rstrip_slash = rstrip (λ n. n == 47)

abbrev extend_first : Char → List String → List String
extend_first c [] = String.◌∷◌ c "" ∷ []
extend_first c (w ∷ ws) = String.◌∷◌ c w ∷ ws

-- `s.split(sep)` for a text of one character
unfoldable pub split : (sep : String) → String → List String
split sep String.[] = "" ∷ []
split sep (String.◌∷◌ c s) =
    let rest = split sep s in
    if str_eq (String.◌∷◌ c "") sep then "" ∷ rest else extend_first c rest

-- `"".join(texts)`
unfoldable pub concat : List String → String
concat [] = ""
concat (s ∷ ss) = s ++ concat ss

unfoldable pub insert_text : String → List String → List String
insert_text s [] = s ∷ []
insert_text s (t ∷ ts) =
    let rest = insert_text s ts in if codes_le (codes s) (codes t) then s ∷ t ∷ ts else t ∷ rest

-- `sorted(texts)`
unfoldable pub sort : List String → List String
unfolding insert_text
sort [] = []
sort (s ∷ ss) = insert_text s (sort ss)
