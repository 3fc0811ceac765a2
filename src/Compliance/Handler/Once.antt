-- ===== src/Compliance/Handler/Once.antt =====
-- A message that comes again.
use stablecoin_infrastructur.Base.{
  ℕ, ◌≡◌, refl, ap, ◌∙◌, inl, inr, String, Bool, true, ◌||◌, List, [], ◌∷◌, Option, none, some,
  str_eq, eq_iff, exists, arith, Bool-cases,
}
use stablecoin_infrastructur.Compliance.{Screening, Monitor, run_screening}
use stablecoin_infrastructur.Compliance.Handler.{
  Payload, screenings_of, is_duplicate_event, mark_event_processed, event_id, screen_all,
  screen_new, handle_event, handle_all, resolve_account_name,
}

module _ (account_name : String → Option String) where
  screening-processed :
      (name : String) (now : ℕ) (s : Screening) (m : Monitor)
      → (run_screening name now s m).processed ≡ m.processed
  unfolding run_screening
  screening-processed name now s m = refl

  screen_all-processed :
      (now : ℕ) (ss : List Screening) (m : Monitor)
      → (screen_all account_name now ss m).processed ≡ m.processed
  unfolding screen_all
  screen_all-processed now [] m = refl
  screen_all-processed now (s ∷ rest) m =
      screen_all-processed now rest
        (run_screening (resolve_account_name account_name s.account_id) now s m)
      ∙ screening-processed (resolve_account_name account_name s.account_id) now s m

  -- What is known to be processed stays so.
  screen_new-keeps :
      (o : Option String) (topic : String) (p : Payload) (now : ℕ) (m : Monitor) (e : String)
      → is_duplicate_event e m ≡ true
      → is_duplicate_event e (screen_new account_name o topic p now m) ≡ true
  screen_new-keeps none topic p now m e h =
      ap (exists (λ x. str_eq x e)) (screen_all-processed now (screenings_of topic p) m) ∙ h
  screen_new-keeps (some d) topic p now m e h = elim (Bool-cases (is_duplicate_event d m)) [
    | inl old ↦ rw old h
    | inr new ↦ rw new (
        ap (exists (λ x. str_eq x e))
          (screen_all-processed now (screenings_of topic p) (mark_event_processed d m))
        ∙ known (str_eq d e) (is_duplicate_event e m) h)
  ]
    where
      known : (a b : Bool) → b ≡ true → (a || b) ≡ true
      known a b k = ground (arith, k)

  handle_all-keeps :
      (later : List (String × Payload × ℕ)) (m : Monitor) (e : String)
      → is_duplicate_event e m ≡ true
      → is_duplicate_event e (handle_all account_name later m) ≡ true
  unfolding handle_all handle_event
  handle_all-keeps [] m e h = h
  handle_all-keeps ((topic, p, now) ∷ rest) m e h =
      handle_all-keeps rest (handle_event account_name topic p now m) e
        (screen_new-keeps (event_id p) topic p now m e h)

  handle-marks :
      (topic : String) (p : Payload) (now : ℕ) (m : Monitor) (e : String)
      → event_id p ≡ some e
      → is_duplicate_event e (handle_event account_name topic p now m) ≡ true
  unfolding handle_event
  handle-marks topic p now m e h = rw h (elim (Bool-cases (is_duplicate_event e m)) [
    | inl old ↦ rw old old
    | inr new ↦ rw new (
        ap (exists (λ x. str_eq x e))
          (screen_all-processed now (screenings_of topic p) (mark_event_processed e m))
        ∙ ground (arith, (eq_iff e e).1 refl))
  ])

  again :
      (topic : String) (p : Payload) (now : ℕ) (v : Monitor) (e : String)
      → event_id p ≡ some e
      → is_duplicate_event e v ≡ true
      → handle_event account_name topic p now v ≡ v
  unfolding handle_event
  again topic p now v e h known = rw (h, known) refl

  -- Once a message with an id has been handled, and whatever messages come in between, every further
  -- message with that id, on any topic and at any time, changes nothing: no event is screened twice.
  pub handle_event-once :
      (topic topic' : String) (p p' : Payload) (now now' : ℕ) (later : List (String × Payload × ℕ))
      (m : Monitor) (e : String)
      → event_id p ≡ some e
      → event_id p' ≡ some e
      → handle_event account_name topic' p' now'
          (handle_all account_name later (handle_event account_name topic p now m))
        ≡ handle_all account_name later (handle_event account_name topic p now m)
  handle_event-once topic topic' p p' now now' later m e h h' =
      let known =
        handle_all-keeps later (handle_event account_name topic p now m) e
          (handle-marks topic p now m e h) in
      again topic' p' now' (handle_all account_name later (handle_event account_name topic p now m))
        e h' known
