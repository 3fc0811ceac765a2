-- ===== src/Payments/Condition/Signers.antt =====
-- When a multi-signature condition holds.
use stablecoin_infrastructur.Base.{
  ℕ, suc, ◌≤◌, ◌≡◌, ◌↔◌, String, List, [], ◌∷◌, true, false, Bool, refl, sym, ap, ◌∙◌, Option, inl,
  inr, arith, Bool-cases, eq_iff, str_eq, length, select, leb, leb→le, if◌then◌else◌,
}
use stablecoin_infrastructur.Models.Enums.{multi_sig}
use stablecoin_infrastructur.Models.Json.{JsonDict, get}
use stablecoin_infrastructur.Shared.Session.{ok}
use stablecoin_infrastructur.Payments.Condition.{
  mem, to_set, common, elements, threshold, is_empty, evaluate_condition,
}

-- Each text once.
abbrev pub Distinct : List String → Type 0
Distinct [] = Unit {0}
Distinct (s ∷ ss) = (mem s ss ≡ false) × Distinct ss

abbrev pub Within : List String → List String → Type 0
Within ss ts = (s : String) → mem s ss ≡ true → mem s ts ≡ true

str_eq_refl : (s : String) → str_eq s s ≡ true
str_eq_refl s = (eq_iff s s).1 refl

str_eq→eq : (s t : String) → str_eq s t ≡ true → s ≡ t
str_eq→eq s t h = (eq_iff s t).0 h

mem-to_set : (s : String) (ss : List String) → mem s (to_set ss) ≡ mem s ss
unfolding to_set
mem-to_set s [] = refl
mem-to_set s (t ∷ ss) = elim (Bool-cases (mem t ss)) [
  | inl old ↦ rw old (elim (Bool-cases (str_eq s t)) [
    | inl e ↦ rw (e, mem-to_set s ss, str_eq→eq s t e, old) refl
    | inr n ↦ rw (n, mem-to_set s ss) refl
  ])
  | inr new ↦ rw (new, mem-to_set s ss) refl
]

to_set-Distinct : (ss : List String) → Distinct (to_set ss)
unfolding to_set
to_set-Distinct [] = tt
to_set-Distinct (t ∷ ss) = elim (Bool-cases (mem t ss)) [
  | inl old ↦ rw old (to_set-Distinct ss)
  | inr new ↦ rw new (mem-to_set t ss ∙ new, to_set-Distinct ss)
]

mem-select :
    (p : String → Bool) (s : String) (ss : List String)
    → mem s (select p ss) ≡ true
    → (mem s ss ≡ true) × (p s ≡ true)
mem-select p s [] h = cc
mem-select p s (t ∷ ss) h = ground (arith, mem-select p s ss, str_eq→eq s t)

select-mem :
    (p : String → Bool) (s : String) (ss : List String)
    → mem s ss ≡ true
    → p s ≡ true
    → mem s (select p ss) ≡ true
select-mem p s [] h q = cc
select-mem p s (t ∷ ss) h q = ground (arith, select-mem p s ss, str_eq→eq s t)

select_absent :
    (p : String → Bool) (s : String) (ss : List String)
    → mem s ss ≡ false
    → mem s (select p ss) ≡ false
select_absent p s [] h = refl
select_absent p s (t ∷ ss) h = ground (arith, select_absent p s ss)

select-Distinct : (p : String → Bool) (ss : List String) → Distinct ss → Distinct (select p ss)
select-Distinct p [] h = tt
select-Distinct p (t ∷ ss) h = elim (Bool-cases (p t)) [
  | inl yes_ ↦ rw yes_ (select_absent p t ss h.0, select-Distinct p ss h.1)
  | inr no_ ↦ rw no_ (select-Distinct p ss h.1)
]

-- The list without the first occurrence.
remove : String → List String → List String
remove s [] = []
remove s (t ∷ ts) = if str_eq s t then ts else t ∷ remove s ts

length-remove :
    (s : String) (ts : List String) → mem s ts ≡ true → suc (length (remove s ts)) ≡ length ts
unfolding remove
length-remove s [] h = cc
length-remove s (t ∷ ts) h = ground (arith, length-remove s ts)

mem-remove :
    (s u : String) (ts : List String)
    → str_eq u s ≡ false
    → mem u ts ≡ true
    → mem u (remove s ts) ≡ true
unfolding remove
mem-remove s u [] n h = cc
mem-remove s u (t ∷ ts) n h =
    ground (arith, mem-remove s u ts, str_eq→eq s t, str_eq→eq u t, str_eq_refl s)

absent_ne :
    (s u : String) (ss : List String) → mem s ss ≡ false → mem u ss ≡ true → str_eq u s ≡ false
absent_ne s u ss a m = elim (Bool-cases (str_eq u s)) [
  | inl e ↦ cc (a, m, str_eq→eq u s e)
  | inr n ↦ n
]

-- Distinct texts from among others are no more than these.
Distinct-length : (ss ts : List String) → Distinct ss → Within ss ts → length ss ≤ length ts
Distinct-length [] ts h w = omega arith
Distinct-length (s ∷ ss) ts h w =
    let found : mem s ts ≡ true = w s (rw (str_eq_refl s) refl) in
    let rest : length ss ≤ length (remove s ts) = Distinct-length ss (remove s ts) h.1 (λ u m.
      mem-remove s u ts (absent_ne s u ss h.0 m)
        (w u (elim (Bool-cases (str_eq u s)) [ inl e ↦ rw e refl | inr n ↦ rw n m ]))) in
    omega (arith, rest, length-remove s ts found)

-- Signers of both lists, each counted once.
pub record HasSigners (n : ℕ) (required received : List String) : Type 0 where
  pub signers : List String
  pub distinct : Distinct signers
  pub are_required : Within signers required
  pub have_signed : Within signers received
  pub enough : n ≤ length signers

common-HasSigners :
    (required received : List String) → HasSigners (common required received) required received
unfolding common
common-HasSigners required received = record {
  signers = select (λ s. mem s received) (to_set required);
  distinct = select-Distinct (λ s. mem s received) (to_set required) (to_set-Distinct required);
  are_required = λ s m.
      sym (mem-to_set s required) ∙ (mem-select (λ t. mem t received) s (to_set required) m).0;
  have_signed = λ s m. (mem-select (λ t. mem t received) s (to_set required) m).1;
  enough = omega arith;
}

HasSigners-le :
    (n : ℕ) (required received : List String)
    → HasSigners n required received
    → n ≤ common required received
unfolding common
HasSigners-le n required received h = omega (
  arith,
  h.enough,
  Distinct-length h.signers (select (λ s. mem s received) (to_set required)) h.distinct (λ s m.
      select-mem (λ t. mem t received) s (to_set required)
        (mem-to_set s required ∙ h.are_required s m) (h.have_signed s m)),
)

compared :
    (iso : String → Option ℕ) (now : ℕ) (params trigger : JsonDict)
    (required received : List String) (n : ℕ)
    → is_empty trigger ≡ false
    → elements (get "required_signers" params) ≡ ok required
    → elements (get "signatures" trigger) ≡ ok received
    → threshold (get "threshold" params) required ≡ ok n
    → evaluate_condition iso now multi_sig params trigger ≡ ok (leb n (common required received))
unfolding evaluate_condition
compared iso now params trigger required received n e a b c = ground arith

-- With both lists read, a multi-signature condition holds exactly when some distinct signers, as many
-- as the threshold at least, are all required and have all signed.
pub evaluate_condition-HasSigners :
    (iso : String → Option ℕ) (now : ℕ) (params trigger : JsonDict)
    (required received : List String) (n : ℕ)
    → is_empty trigger ≡ false
    → elements (get "required_signers" params) ≡ ok required
    → elements (get "signatures" trigger) ≡ ok received
    → threshold (get "threshold" params) required ≡ ok n
    → (evaluate_condition iso now multi_sig params trigger ≡ ok true)
      ↔ HasSigners n required received
evaluate_condition-HasSigners iso now params trigger required received n e a b c = (sound, complete)
  where
    value :
        evaluate_condition iso now multi_sig params trigger ≡ ok (leb n (common required received))
    value = compared iso now params trigger required received n e a b c

    sound :
        evaluate_condition iso now multi_sig params trigger ≡ ok true
        → HasSigners n required received
    sound h =
        let s = common-HasSigners required received in
        let m : n ≤ common required received =
          leb→le n (common required received) (cc (value, h)) in
        record {
          signers = s.signers;
          distinct = s.distinct;
          are_required = s.are_required;
          have_signed = s.have_signed;
          enough = omega (arith, m, s.enough);
        }

    complete :
        HasSigners n required received
        → evaluate_condition iso now multi_sig params trigger ≡ ok true
    complete h = value ∙ ap ok (ground (arith, HasSigners-le n required received h))
