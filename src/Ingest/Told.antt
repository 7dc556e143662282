-- ===== src/Ingest/Told.antt =====
-- The answers of a flush, and the events of one caller.
use sentinal.Base.{
  ℕ, ◌≡◌, refl, ap, arith, Bool, true, false, List, [], ◌∷◌, ◌++◌, ◌==◌, count, map, if◌then◌else◌,
  Bool-cases, inl, inr,
}
use sentinal.Ingest.Batch.{Queued, Answered, told, waits}

module _ {Event : Type 0} where
  abbrev pub items : List (Answered Event) → List (Queued Event)
  items as_told = map (λ (a : Answered Event). a.item) as_told

  -- The items whose batch was inserted.
  abbrev pub stored : List (Answered Event) → List (Queued Event)
  stored [] = []
  stored (a ∷ rest) = let more = stored rest in if a.inserted then a.item ∷ more else more

  pub items-told : (ok : Bool) (qs : List (Queued Event)) → items (told ok qs) ≡ qs
  items-told ok [] = refl
  items-told ok (q ∷ qs) = ap (◌∷◌ q) (items-told ok qs)

  pub stored-append :
      (as_told more : List (Answered Event))
      → stored (as_told ++ more) ≡ stored as_told ++ stored more
  stored-append [] more = refl
  stored-append (a ∷ rest) more = elim (Bool-cases a.inserted) [
    | inl yes_stored ↦ simp (yes_stored, stored-append rest more)
    | inr not_stored ↦ simp (not_stored, stored-append rest more)
  ]

  pub stored-told-true : (qs : List (Queued Event)) → stored (told true qs) ≡ qs
  stored-told-true [] = refl
  stored-told-true (q ∷ qs) = ap (◌∷◌ q) (stored-told-true qs)

  pub stored-told-false : (qs : List (Queued Event)) → stored (told false qs) ≡ []
  stored-told-false [] = refl
  stored-told-false (q ∷ qs) = stored-told-false qs

  -- The events of one caller.
  abbrev pub of_caller : ℕ → List (Queued Event) → ℕ
  of_caller p qs = count (λ (q : Queued Event). q.producer == p) qs

  pub none_waits : (p : ℕ) (qs : List (Queued Event)) → waits p qs ≡ false → of_caller p qs ≡ 0
  none_waits p [] h = refl
  none_waits p (q ∷ qs) h = ground (arith, none_waits p qs, h)
