-- ===== src/Payments/Outstanding/Due.antt =====
-- The expiry of all contracts that are due, and the cycle of the condition checker.
use stablecoin_infrastructur.Base.{
  ℕ, String, Bool, ◌≡◌, ◌≤◌, inl, inr, ◌∷◌, List, [], refl, sym, subst, true, Option, arith,
  Bool-cases, select, ◌&&◌, leb,
}
use stablecoin_infrastructur.Models.Rows.{EscrowContract, ConditionalPayment}
use stablecoin_infrastructur.Shared.Session.{
  World, Action, ok, Result-cases, get_db_session, bind_returned, bind_raised, bind_err,
  get_db_session-commit, get_db_session-rollback, ◌>>=◌,
}
use stablecoin_infrastructur.Payments.Escrow.{expire_escrow, expire_all, expire_due}
use stablecoin_infrastructur.Payments.Checker.{check_payments, checker_cycle, pending_payments}
use stablecoin_infrastructur.Payments.Outstanding.{
  is_active, Has, Descending, Descending-le, Has-saved, saved,
}
use stablecoin_infrastructur.Payments.Outstanding.Effects.{Stable}
use stablecoin_infrastructur.Payments.Outstanding.Routes.{expire_escrow-Closes, same-Untouched}
use stablecoin_infrastructur.Payments.Outstanding.Checker.{check_payments-Leaves}

-- Each of the contracts stands in the table and is active.
abbrev Present : List EscrowContract → List EscrowContract → Type 0
Present rows [] = Unit {0}
Present rows (e ∷ es) = Has e rows × (is_active e ≡ true) × Present rows es

Present-cons :
    (r : EscrowContract) (rows es : List EscrowContract) → Present rows es → Present (r ∷ rows) es
Present-cons r rows [] p = tt
Present-cons r rows (e ∷ es) p = (inr p.0, p.1, Present-cons r rows es p.2)

Present-saved :
    (row : EscrowContract) (rows : List EscrowContract) (n : ℕ) (es : List EscrowContract)
    → Descending n es
    → n ≤ row.id
    → Present rows es
    → Present (saved row rows) es
Present-saved row rows n [] d h p = tt
Present-saved row rows n (e ∷ es) d h p = (
  Has-saved row e rows p.0 (λ q. absurd (omega (arith, d.0))),
  p.1,
  Present-saved row rows e.id es d.1 (omega (arith, d.0)) p.2,
)

module _ (q : EscrowContract → Bool) where
  abbrev is_due : EscrowContract → Bool
  is_due e = is_active e && q e

  Present-select : (rows : List EscrowContract) → Present rows (select is_due rows)
  Present-select [] = tt
  Present-select (e ∷ es) = elim (Bool-cases (is_due e)) [
    | inl due ↦
        rw due (inl refl, ground arith, Present-cons e es (select is_due es) (Present-select es))
    | inr later ↦ rw later (Present-cons e es (select is_due es) (Present-select es))
  ]

  Descending-select :
      (n : ℕ) (rows : List EscrowContract) → Descending n rows → Descending n (select is_due rows)
  Descending-select n [] d = tt
  Descending-select n (e ∷ es) d = elim (Bool-cases (is_due e)) [
    | inl due ↦ rw due (d.0, Descending-select e.id es d.1)
    | inr later ↦
        rw later
          (Descending-le (select is_due es) (omega (arith, d.0)) (Descending-select e.id es d.1))
  ]

expire_escrow-ok : (e : EscrowContract) (w : World) → (expire_escrow e w).0 ≡ ok tt
unfolding expire_escrow
expire_escrow-ok e w = refl

expire_all-cons :
    (e : EscrowContract) (es : List EscrowContract) (w : World)
    → expire_all (e ∷ es) w ≡ expire_all es (expire_escrow e w).1
unfolding expire_all
expire_all-cons e es w =
    bind_returned (expire_escrow e) (λ _. expire_all es) w tt (expire_escrow-ok e w)

expire_all-grows :
    (es : List EscrowContract) (w : World) → w.next_uuid ≤ (expire_all es w).1.next_uuid
expire_all-grows [] w = (unfold expire_all in omega arith)
expire_all-grows (e ∷ es) w =
    rw (expire_all-cons e es w)
      (omega (arith, expire_all-grows es (expire_escrow e w).1, (expire_escrow-Closes e w).drawn))

expire_due-grows : (w : World) → w.next_uuid ≤ (expire_due w).1.next_uuid
unfolding expire_due
expire_due-grows w = expire_all-grows _ w

session_counter :
    {A : Type 0} (m : Action A) (w : World) → (m w).1.next_uuid ≤ (get_db_session m w).1.next_uuid
unfolding get_db_session
session_counter m w = ground arith

module _ (iso : String → Option ℕ) (cps : List ConditionalPayment) (w : World) where
  abbrev cycle : Action (Unit {0})
  cycle = check_payments iso cps >>= λ _. expire_due

  cycle-grows : w.next_uuid ≤ (cycle w).1.next_uuid
  cycle-grows = elim (Result-cases (check_payments iso cps w).0) [
    | inl (a, returned) ↦
        subst (λ o. w.next_uuid ≤ o.1.next_uuid)
          (sym (bind_returned (check_payments iso cps) (λ _. expire_due) w a returned))
          (omega (
            arith,
            (check_payments-Leaves iso cps w).drawn,
            expire_due-grows (check_payments iso cps w).1,
          ))
    | inr (e, raised) ↦
        subst (λ o. w.next_uuid ≤ o.1.next_uuid)
          (sym (
            bind_raised (check_payments iso cps) (λ _. expire_due) w (check_payments iso cps w).1 e
              (ground (arith, raised))))
          ((check_payments-Leaves iso cps w).drawn)
  ]

module _ {I : World → Type 0} (s : Stable I) where
  expire_all-Stable :
      (es : List EscrowContract) (n : ℕ) (w : World)
      → Descending n es
      → Present w.db.escrow_contracts es
      → I w
      → I (expire_all es w).1
  expire_all-Stable [] n w d p v = (unfold expire_all in v)
  expire_all-Stable (e ∷ es) n w d p v =
      let k = expire_escrow-Closes e w in
      let w' = (expire_escrow e w).1 in
      rw (expire_all-cons e es w) (
        expire_all-Stable es e.id w' d.1
          (subst (λ rows. Present rows es) (sym k.saved_as)
            (Present-saved k.row w.db.escrow_contracts e.id es d.1 (omega (arith, k.same_id)) p.2))
          (s.closes e w w' k p.0 p.1 v))

  expire_due-Stable : (w : World) → I w → I (expire_due w).1
  unfolding expire_due
  expire_due-Stable w v =
      let q : EscrowContract → Bool = λ e. leb e.expires_at w.now in
      expire_all-Stable (select (is_due q) w.db.escrow_contracts) w.next_uuid w
        (Descending-select q w.next_uuid w.db.escrow_contracts (s.ordered w v))
        (Present-select q w.db.escrow_contracts) v

  -- A session commits what returns and rolls back what raises.
  session-Stable :
      {A : Type 0} (m : Action A) (w : World)
      → ((a : A) → (m w).0 ≡ ok a → I (m w).1)
      → w.next_uuid ≤ (m w).1.next_uuid
      → I w
      → I (get_db_session m w).1
  session-Stable m w returns grows v = elim (Result-cases (m w).0) [
    | inl (a, returned) ↦
        s.untouched (m w).1 (get_db_session m w).1
          (same-Untouched (m w).1 (get_db_session m w).1 (get_db_session-commit m w a returned)
            (session_counter m w))
          (returns a returned)
    | inr (e, raised) ↦
        s.untouched w (get_db_session m w).1
          (same-Untouched w (get_db_session m w).1 (get_db_session-rollback m w e raised)
            (omega (arith, session_counter m w, grows)))
          v
  ]

  cycle-Stable :
      (iso : String → Option ℕ) (cps : List ConditionalPayment) (w : World)
      → I w
      → (a : Unit {0}) → (cycle iso cps w w).0 ≡ ok a
      → I (cycle iso cps w w).1
  cycle-Stable iso cps w v a h = elim (Result-cases (check_payments iso cps w).0) [
    | inl (b, returned) ↦
        subst (λ o. I o.1)
          (sym (bind_returned (check_payments iso cps) (λ _. expire_due) w b returned))
          (expire_due-Stable (check_payments iso cps w).1
            (s.untouched w (check_payments iso cps w).1 (check_payments-Leaves iso cps w) v))
    | inr (e, raised) ↦
        absurd (let no = bind_err (check_payments iso cps) (λ _. expire_due) w e raised in cc)
  ]

  pub checker_cycle-Stable : (iso : String → Option ℕ) (w : World) → I w → I (checker_cycle iso w)
  unfolding checker_cycle
  checker_cycle-Stable iso w v =
      let cps = pending_payments w.db in
      session-Stable (cycle iso cps w) w (cycle-Stable iso cps w v) (cycle-grows iso cps w) v
