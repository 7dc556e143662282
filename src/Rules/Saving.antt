-- ===== src/Rules/Saving.antt =====
-- What saving in the rule editor sends and leaves.
use sentinal.Base.{
  ◌≡◌, refl, ◌⊎◌, inl, inr, true, false, String, Option, none, some, truthy, Bool-cases,
}
use sentinal.Toasts.{ToastInput}
use sentinal.Promise.{Result, throws, returns}
use sentinal.Rules.{FraudRule}
use sentinal.Rules.Editor.{Editor, SaveCall, updates, creates, Saved, settle, save, alarm}

-- The call was sent and it returned.
abbrev pub Accepted : {J : Type 0} → (SaveCall → Result J) → Option SaveCall → Type 0
Accepted send none = ⊥
Accepted {J = J} send (some call) = (j : J) × (send call ≡ returns j)

-- The call was sent and it threw this error, or nothing was sent for want of an id.
abbrev pub Refused : {J : Type 0} → (SaveCall → Result J) → Option SaveCall → String → Type 0
Refused send none m = m ≡ "Rule ID is required"
Refused send (some call) m = send call ≡ throws m

-- What a call may carry: the id of the edited rule, or for a new rule an id that is not blank.
abbrev pub Carries : (String → String) → Option FraudRule → Editor → Option SaveCall → Type 0
Carries trim editing e none = (editing ≡ none) × (truthy (some (trim e.rule_id)) ≡ false)
Carries trim editing e (some (updates id form)) =
    (r : FraudRule) × (editing ≡ some r) × (id ≡ r.rule_id) × (form ≡ e.form)
Carries trim editing e (some (creates form)) =
    (editing ≡ none)
    × (truthy form.rule_id ≡ true)
    × (form ≡ record e.form { rule_id = some (trim e.rule_id) })

-- Either the editor is closed after a call that returned, with no error, or it stays open and shows an
-- error that the notification repeats: that of the call, or that the id is blank.
abbrev pub Ends : {J : Type 0} → (SaveCall → Result J) → Saved → Type 0
Ends send s =
    ((s.closed ≡ true) × (s.editor.error ≡ none) × Accepted send s.sent)
    ⊎ ((s.closed ≡ false)
        × ((m : String) × (s.editor.error ≡ some m)
            × (s.notice ≡ alarm "Save failed" m)
            × Refused send s.sent m))

settle-Ends :
    {J : Type 0} (send : SaveCall → Result J) (e : Editor) (call : SaveCall) (good : ToastInput)
    (out : Result J)
    → send call ≡ out
    → Ends send (settle e (some call) good out)
unfolding settle
settle-Ends send e call good (returns j) h = inl (refl, refl, (j, h))
settle-Ends send e call good (throws m) h = inr (refl, (m, refl, refl, h))

settle-kept :
    {J : Type 0} (e : Editor) (sent : Option SaveCall) (good : ToastInput) (out : Result J)
    → ((settle e sent good out).sent ≡ sent) × ((settle e sent good out).editor.saving ≡ false)
unfolding settle
settle-kept e sent good (returns j) = (refl, refl)
settle-kept e sent good (throws m) = (refl, refl)

-- Saving always ends: the button is free again, and either the call returned, no error is shown and
-- the editor closes, or it threw or there was none, and the editor stays open with its error, which
-- the notification repeats. The call
-- is for the edited rule under its own id, or for a new rule under a trimmed id that is not blank;
-- a blank id sends nothing.
pub save-Ends :
    {J : Type 0} (trim : String → String) (send : SaveCall → Result J) (editing : Option FraudRule)
    (e : Editor)
    → ((save trim send editing e).editor.saving ≡ false)
      × Ends send (save trim send editing e)
      × Carries trim editing e (save trim send editing e).sent
unfolding save
save-Ends trim send (some r) e =
    let call = updates r.rule_id e.form in
    let (kept, free) = settle-kept e (some call) _ (send call) in
    (free, settle-Ends send e call _ (send call) refl, rw kept (r, refl, refl, refl))
save-Ends trim send none e = elim (Bool-cases (truthy (some (trim e.rule_id)))) [
  | inl full ↦
      let call = creates (record e.form { rule_id = some (trim e.rule_id) }) in
      let (kept, free) = settle-kept e (some call) _ (send call) in
      rw full (free, settle-Ends send e call _ (send call) refl, rw kept (refl, full, refl))
  | inr blank ↦ rw blank (refl, inr (refl, (_, refl, refl, refl)), (refl, blank))
]
