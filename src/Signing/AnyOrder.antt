-- ===== src/Signing/AnyOrder.antt =====
-- The combined signature does not depend on the order in which the nodes are asked.
use mathlib.Core.List.{foldr, Perm}
use mathlib.Core.List.Perm
use mathlib.Core.HLevel.{hedberg}
use text.Mathlib.TextEquality.{Char-path}
use native.Mathlib.Decide.{ℕ_discrete}
use stablecoin_infrastructur.Base.{
  ℕ, suc, ◌≡◌, refl, sym, ap, ◌∙◌, String, Bool, true, false, List, [], ◌∷◌, Option, some, none,
  arith, length, str_eq, eq_iff, Bool-cases, inl, inr, if◌then◌else◌,
}
use stablecoin_infrastructur.Models.Json.{JsonDict}
use stablecoin_infrastructur.Rtgs.Queue.{codes, codes_le}
use stablecoin_infrastructur.Rtgs.Queue.Order.{codes_le-total, codes_le_trans}
use stablecoin_infrastructur.Signing.{
  NodeClient, collect_partial, collect_partials, add_partial, combine_signatures,
  fan_out_and_combine,
}
use stablecoin_infrastructur.Signing.Texts.{insert_text, sort}

codes_injective : (s t : String) → codes s ≡ codes t → s ≡ t
codes_injective String.[] String.[] h = refl
codes_injective String.[] (String.◌∷◌ d t) h = cc
codes_injective (String.◌∷◌ c s) String.[] h = cc
codes_injective (String.◌∷◌ c s) (String.◌∷◌ d t) h =
    let same_letter : c ≡ d = Char-path c d cc in
    let same_rest : s ≡ t = codes_injective s t cc in cc

codes_le_antisymm : (s t : List ℕ) → codes_le s t ≡ true → codes_le t s ≡ true → s ≡ t
codes_le_antisymm [] [] h k = refl
codes_le_antisymm [] (b ∷ t) h k = cc
codes_le_antisymm (a ∷ s) [] h k = cc
codes_le_antisymm (a ∷ s) (b ∷ t) h k = ground (arith, codes_le_antisymm s t)

abbrev le : String → String → Bool
le a b = codes_le (codes a) (codes b)

le_antisymm : (a b : String) → le a b ≡ true → le b a ≡ true → a ≡ b
le_antisymm a b h k = codes_injective a b (codes_le_antisymm (codes a) (codes b) h k)

le-total : (a b : String) → le a b ≡ false → le b a ≡ true
le-total a b = codes_le-total (codes a) (codes b)

le_trans : (a b c : String) → le a b ≡ true → le b c ≡ true → le a c ≡ true
le_trans a b c = codes_le_trans (codes a) (codes b) (codes c)

-- A split on how three texts compare.
swap_front :
    (a b : String) (ts : List String)
    → (if le a b then a ∷ b ∷ ts else b ∷ a ∷ ts) ≡ (if le b a then b ∷ a ∷ ts else a ∷ b ∷ ts)
swap_front a b ts = elim (Bool-cases (le a b)) [
  | inl ab ↦ elim (Bool-cases (le b a)) [
    | inl ba ↦ let e : a ≡ b = le_antisymm a b ab ba in rw (ab, ba) cc
    | inr ba ↦ rw (ab, ba)
  ]
  | inr ab ↦ rw (ab, le-total a b ab)
]

le-first : (a b t : String) → le a t ≡ true → le b t ≡ false → le b a ≡ false
le-first a b t at bt = elim (Bool-cases (le b a)) [
  | inl ba ↦ absurd (let h = le_trans b a t ba at in cc)
  | inr ba ↦ ba
]

insert_text-first :
    (a t : String) (ts : List String) → le a t ≡ true → insert_text a (t ∷ ts) ≡ a ∷ t ∷ ts
unfolding insert_text
insert_text-first a t ts at = rw at

insert_text-later :
    (a t : String) (ts : List String)
    → le a t ≡ false
    → insert_text a (t ∷ ts) ≡ t ∷ insert_text a ts
unfolding insert_text
insert_text-later a t ts at = rw at

-- The case where only the first text comes before the head.
insert_text_split :
    (a b t : String) (ts : List String)
    → le a t ≡ true
    → le b t ≡ false
    → insert_text a (insert_text b (t ∷ ts)) ≡ insert_text b (insert_text a (t ∷ ts))
insert_text_split a b t ts at bt = rw (
  insert_text-later b t ts bt,
  insert_text-first a t ts at,
  insert_text-first a t (insert_text b ts) at,
  insert_text-later b a (t ∷ ts) (le-first a b t at bt),
  insert_text-later b t ts bt,
)

insert_text_both :
    (a b t : String) (ts : List String)
    → le a t ≡ true
    → le b t ≡ true
    → insert_text a (insert_text b (t ∷ ts)) ≡ insert_text b (insert_text a (t ∷ ts))
unfolding insert_text
insert_text_both a b t ts at bt = rw (at, bt, at) (swap_front a b (t ∷ ts))

insert_text_nil :
    (a b : String) → insert_text a (insert_text b []) ≡ insert_text b (insert_text a [])
unfolding insert_text
insert_text_nil a b = swap_front a b []

-- Two texts can be inserted in either order.
insert_text_comm :
    (a b : String) (ts : List String)
    → insert_text a (insert_text b ts) ≡ insert_text b (insert_text a ts)
insert_text_comm a b [] = insert_text_nil a b
insert_text_comm a b (t ∷ ts) = elim (Bool-cases (le a t)) [
  | inl at ↦ elim (Bool-cases (le b t)) [
    | inl bt ↦ insert_text_both a b t ts at bt
    | inr bt ↦ insert_text_split a b t ts at bt
  ]
  | inr at ↦ elim (Bool-cases (le b t)) [
    | inl bt ↦ sym (insert_text_split b a t ts bt at)
    | inr bt ↦
        rw
          (
            insert_text-later b t ts bt,
            insert_text-later a t ts at,
            insert_text-later a t (insert_text b ts) at,
            insert_text-later b t (insert_text a ts) bt,
          )
          (ap (λ l. t ∷ l) (insert_text_comm a b ts))
  ]
]

String-discrete : Discrete String
String-discrete s t = elim (Bool-cases (str_eq s t)) [
  | inl e ↦ yes ((eq_iff s t).0 e)
  | inr e ↦ no (λ p. let h = (eq_iff s t).1 p in cc)
]

String-set : IsSet String
String-set = hedberg String-discrete

Texts-set : IsSet (List String)
Texts-set = hlevel String-set

insert_partial : Option String → List String → List String
insert_partial none ts = ts
insert_partial (some s) ts = if str_eq s "" then ts else insert_text s ts

sort_nil : sort [] ≡ []
unfolding sort
sort_nil = refl

sort-add_partial :
    (r : Option String) (ts : List String) → sort (add_partial r ts) ≡ insert_partial r (sort ts)
unfolding sort insert_partial
sort-add_partial none ts = refl
sort-add_partial (some s) ts = elim (Bool-cases (str_eq s "")) [ inl e ↦ rw e | inr e ↦ rw e ]

length-insert_text : (s : String) (ts : List String) → length (insert_text s ts) ≡ suc (length ts)
unfolding insert_text
length-insert_text s [] = refl
length-insert_text s (t ∷ ts) = ground (arith, length-insert_text s ts)

length-sort : (ts : List String) → length (sort ts) ≡ length ts
unfolding sort
length-sort [] = refl
length-sort (t ∷ ts) = length-insert_text t (sort ts) ∙ ap suc (length-sort ts)

length-foldr : (nodes : List String) → length nodes ≡ foldr (λ (n : String) (k : ℕ). suc k) 0 nodes
length-foldr [] = refl
length-foldr (n ∷ nodes) = ap suc (length-foldr nodes)

length-perm : {nodes nodes' : List String} → Perm nodes nodes' → length nodes ≡ length nodes'
length-perm {nodes} {nodes'} p =
    length-foldr nodes
    ∙ Perm.foldr-eq (hedberg ℕ_discrete) (λ (n : String) (k : ℕ). suc k) (λ n m k. refl) p 0
    ∙ sym (length-foldr nodes')

module _ (client : NodeClient) (payload : JsonDict) where
  insert_partial_comm :
      (r q : Option String) (ts : List String)
      → insert_partial r (insert_partial q ts) ≡ insert_partial q (insert_partial r ts)
  unfolding insert_partial
  insert_partial_comm none q ts = refl
  insert_partial_comm (some s) none ts = refl
  insert_partial_comm (some s) (some t) ts = elim (Bool-cases (str_eq s "")) [
    | inl e ↦ rw e
    | inr e ↦ elim (Bool-cases (str_eq t "")) [
      | inl f ↦ rw f
      | inr f ↦ rw (e, f) (insert_text_comm s t ts)
    ]
  ]

  abbrev add : String → List String → List String
  add n = insert_partial (collect_partial client n payload)

  -- The sorted partial signatures, one node at a time.
  sort-collect_partials :
      (nodes : List String) → sort (collect_partials client payload nodes) ≡ foldr add [] nodes
  unfolding collect_partials
  sort-collect_partials [] = sort_nil
  sort-collect_partials (n ∷ nodes) =
      sort-add_partial (collect_partial client n payload) (collect_partials client payload nodes)
      ∙ ap (add n) (sort-collect_partials nodes)

  sort-collect_partials-perm :
      {nodes nodes' : List String}
      → Perm nodes nodes'
      → sort (collect_partials client payload nodes) ≡ sort (collect_partials client payload nodes')
  sort-collect_partials-perm {nodes} {nodes'} p =
      sort-collect_partials nodes
      ∙ Perm.foldr-eq Texts-set add
          (λ n m ts.
            insert_partial_comm (collect_partial client n payload)
              (collect_partial client m payload) ts)
          p []
      ∙ sym (sort-collect_partials nodes')

  length-collect_partials-perm :
      {nodes nodes' : List String}
      → Perm nodes nodes'
      → length (collect_partials client payload nodes)
        ≡ length (collect_partials client payload nodes')
  length-collect_partials-perm {nodes} {nodes'} p =
      sym (length-sort (collect_partials client payload nodes))
      ∙ ap length (sort-collect_partials-perm p)
      ∙ length-sort (collect_partials client payload nodes')

-- Asking the same nodes in another order gives the same answer: the same signature, or the same
-- refusal with the same counts.
pub fan_out_and_combine-perm :
    (sha256 : String → String) (client : NodeClient) (threshold : ℕ) (transaction_id : String)
    (payload : JsonDict) {nodes nodes' : List String}
    → Perm nodes nodes'
    → fan_out_and_combine sha256 client nodes threshold transaction_id payload
      ≡ fan_out_and_combine sha256 client nodes' threshold transaction_id payload
unfolding fan_out_and_combine combine_signatures
fan_out_and_combine-perm sha256 client threshold transaction_id payload p = rw (
  length-collect_partials-perm client payload p,
  sort-collect_partials-perm client payload p,
  length-perm p,
)
