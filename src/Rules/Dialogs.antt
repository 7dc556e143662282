-- ===== src/Rules/Dialogs.antt =====
-- The dialogs of `RulesPage`, dashboard/src/app/rules/page.tsx: the editor that is open, the rule whose
-- deletion is asked for, and the calls of `remove` that wait for the engine. The exit animation, during
-- which framer-motion still draws a closed dialog, is left out.
use sentinal.Base.{
  ℕ, zero, suc, ◌+◌, ◌≡◌, refl, arith, Option, none, some, List, [], ◌∷◌, ◌++◌, length, get_elem?,
  All, length-append, if◌then◌else◌, Bool,
}
use sentinal.Toasts.{ToastInput}
use sentinal.Promise.{Result, throws, returns}
use sentinal.Rules.{FraudRule}
use sentinal.Rules.Editor.{Editor, open_editor, remove}

pub data EditorMode : Type 0 where
  create : EditorMode
  edit : FraudRule → EditorMode

-- `mode?.kind === "edit" ? mode.rule : null`
unfoldable pub editing : EditorMode → Option FraudRule
editing create = none
editing (edit r) = some r

-- The editor as it is mounted.
unfoldable pub mount : EditorMode → Editor
mount mode = open_editor (editing mode)

-- `sent` holds the rules of all calls of `deleteRule`, the last one first, `deleting` those that have not
-- ended. `refreshes` counts the calls of `refresh`, `notices` holds what `remove`
-- told, the last one first.
pub record Dialogs : Type 0 where
  pub editor : Option EditorMode
  pub confirm_delete : Option FraudRule
  pub deleting : List FraudRule
  pub sent : List FraudRule
  pub refreshes : ℕ
  pub notices : List ToastInput

unfoldable pub closed : Dialogs
closed = record {
  editor = none;
  confirm_delete = none;
  deleting = [];
  sent = [];
  refreshes = 0;
  notices = [];
}

pub data Event : Type 0 where
  clicks_new closes_editor saved refreshed cancels confirms : Event
  clicks_edit clicks_trash : FraudRule → Event
  ends : ℕ → Result Bool → Event

-- `remove()` up to its `await`.
unfoldable pub start_removal : Option FraudRule → Dialogs → Dialogs
start_removal none d = d
start_removal (some r) d = record d { deleting = d.deleting ++ r ∷ []; sent = r ∷ d.sent }

abbrev without : List FraudRule → ℕ → List FraudRule
without [] i = []
without (r ∷ rs) zero = rs
without (r ∷ rs) (suc i) = r ∷ without rs i

abbrev told : Option ToastInput → List ToastInput → List ToastInput
told none ns = ns
told (some n) ns = n ∷ ns

-- The rest of it, once the call has ended.
unfoldable pub end_removal : Option FraudRule → ℕ → Result Bool → Dialogs → Dialogs
unfolding remove
end_removal none i out d = d
end_removal (some r) i out d =
    let left = remove (some r) out in
    record d {
      confirm_delete = left.confirm;
      deleting = without d.deleting i;
      refreshes = if left.refreshes then suc d.refreshes else d.refreshes;
      notices = told left.notice d.notices;
    }

unfoldable pub step : Event → Dialogs → Dialogs
unfolding start_removal end_removal
step clicks_new d = record d { editor = some create }
step (clicks_edit r) d = record d { editor = some (edit r) }
step closes_editor d = record d { editor = none }
step saved d = record d { editor = none; refreshes = suc d.refreshes }
step refreshed d = record d { refreshes = suc d.refreshes }
step (clicks_trash r) d = record d { confirm_delete = some r }
step cancels d = record d { confirm_delete = none }
step confirms d = start_removal d.confirm_delete d
step (ends i out) d = end_removal (get_elem? d.deleting i) i out d

unfoldable pub run : List Event → Dialogs → Dialogs
unfolding step
run [] d = d
run (e ∷ es) d = run es (step e d)

-- The rule that an event asks to delete, if any, satisfies the predicate.
abbrev pub Asks : (FraudRule → Type 0) → Event → Type 0
Asks P clicks_new = Unit
Asks P closes_editor = Unit
Asks P saved = Unit
Asks P refreshed = Unit
Asks P cancels = Unit
Asks P confirms = Unit
Asks P (clicks_edit r) = Unit
Asks P (clicks_trash r) = P r
Asks P (ends i out) = Unit

abbrev AskedFor : (FraudRule → Type 0) → Option FraudRule → Type 0
AskedFor P none = Unit
AskedFor P (some r) = P r

-- Every deletion that was sent was asked for, and is under way or has been answered.
pub record Accounted (P : FraudRule → Type 0) (d : Dialogs) : Type 0 where
  pub asked : AskedFor P d.confirm_delete
  pub sent : All P d.sent
  pub answered : length d.sent ≡ length d.deleting + length d.notices

length-without :
    (rs : List FraudRule) (i : ℕ) (r : FraudRule)
    → get_elem? rs i ≡ some r
    → suc (length (without rs i)) ≡ length rs
length-without [] i r h = absurd cc
length-without (x ∷ rs) zero r h = ground (arith, h)
length-without (x ∷ rs) (suc i) r h = omega (arith, length-without rs i r h)

module _ (P : FraudRule → Type 0) where
  start_removal-Accounted :
      (c : Option FraudRule) (d : Dialogs)
      → AskedFor P c
      → Accounted P d
      → Accounted P (start_removal c d)
  unfolding start_removal
  start_removal-Accounted none d p a = a
  start_removal-Accounted (some r) d p a = record {
    asked = a.asked;
    sent = (p, a.sent);
    answered = omega (arith, a.answered, length-append d.deleting (r ∷ []));
  }

  end_removal-Accounted :
      (c : Option FraudRule) (i : ℕ) (out : Result Bool) (d : Dialogs)
      → get_elem? d.deleting i ≡ c
      → Accounted P d
      → Accounted P (end_removal c i out d)
  unfolding end_removal remove
  end_removal-Accounted none i out d h a = a
  end_removal-Accounted (some r) i (returns b) d h a = record {
    asked = tt;
    sent = a.sent;
    answered = omega (arith, a.answered, length-without d.deleting i r h);
  }
  end_removal-Accounted (some r) i (throws m) d h a = record {
    asked = tt;
    sent = a.sent;
    answered = omega (arith, a.answered, length-without d.deleting i r h);
  }

  step-Accounted : (e : Event) (d : Dialogs) → Asks P e → Accounted P d → Accounted P (step e d)
  unfolding step
  step-Accounted clicks_new d p a = record { asked = a.asked; sent = a.sent; answered = a.answered }
  step-Accounted (clicks_edit r) d p a = record {
    asked = a.asked;
    sent = a.sent;
    answered = a.answered;
  }
  step-Accounted closes_editor d p a = record {
    asked = a.asked;
    sent = a.sent;
    answered = a.answered;
  }
  step-Accounted saved d p a = record { asked = a.asked; sent = a.sent; answered = a.answered }
  step-Accounted refreshed d p a = record { asked = a.asked; sent = a.sent; answered = a.answered }
  step-Accounted (clicks_trash r) d p a = record { asked = p; sent = a.sent; answered = a.answered }
  step-Accounted cancels d p a = record { asked = tt; sent = a.sent; answered = a.answered }
  step-Accounted confirms d p a = start_removal-Accounted d.confirm_delete d a.asked a
  step-Accounted (ends i out) d p a = end_removal-Accounted (get_elem? d.deleting i) i out d refl a

  run-step :
      (es : List Event) (d : Dialogs) → All (Asks P) es → Accounted P d → Accounted P (run es d)
  unfolding run
  run-step [] d p a = a
  run-step (e ∷ es) d p a = run-step es (step e d) p.1 (step-Accounted e d p.0 a)

  -- Whatever is clicked on the page and in whatever order the calls end, every rule that was sent for
  -- deletion is one whose deletion was asked for, and there are as many calls sent as there are calls
  -- under way and notifications of `remove` together.
  pub run-Accounted : (es : List Event) → All (Asks P) es → Accounted P (run es closed)
  unfolding closed
  run-Accounted es p = run-step es closed p (record { asked = tt; sent = tt; answered = refl })

-- The button of the dialog stays active while its call is under way: each further click sends the
-- deletion again.
pub confirms-again :
    (r : FraudRule) (d : Dialogs)
    → (run (clicks_trash r ∷ confirms ∷ confirms ∷ []) d).sent ≡ r ∷ r ∷ d.sent
unfolding run step start_removal
confirms-again r d = refl

-- The end of a deletion closes the dialog, also one that by then asks for another rule.
pub ends-closes :
    (r other : FraudRule) (out : Result Bool)
    → let late = clicks_trash r ∷ confirms ∷ cancels ∷ clicks_trash other ∷ ends 0 out ∷ [] in
      (run late closed).confirm_delete ≡ none
unfolding run step start_removal end_removal remove closed
ends-closes r other (returns b) = refl
ends-closes r other (throws m) = refl
