-- ===== src/Rules/Editor.antt =====
-- The rule editor and the deletion dialog of dashboard/src/app/rules/page.tsx. `trim` is
-- `String.prototype.trim`; `send` gives the end of a call of `createRule` or `updateRule`.
use sentinal.Base.{
  Bool, true, false, not, ◌||◌, String, Option, none, some, List, ◌<>◌, filter, take, includes,
  truthy, if◌then◌else◌,
}
use sentinal.Toasts.{ToastInput, success, danger}
use sentinal.Promise.{Result, throws, returns}
use sentinal.Rules.{FraudRule, RuleInput}

pub record Editor : Type 0 where
  pub form : RuleInput
  pub rule_id : String
  pub error : Option String
  pub saving : Bool

-- The form for a new rule, or for the rule that is edited.
unfoldable pub form_of : Option FraudRule → RuleInput
form_of none = record {
  rule_id = none;
  name = "";
  description = some "";
  expression = "";
  score_contribution = 60;
  action = "CHALLENGE";
  is_enabled = some true;
  priority = some 50;
}
form_of (some r) = record {
  rule_id = none;
  name = r.name;
  description = some r.description;
  expression = r.expression;
  score_contribution = r.score_contribution;
  action = r.action;
  is_enabled = some r.is_enabled;
  priority = some r.priority;
}

abbrev id_of : Option FraudRule → String
id_of none = ""
id_of (some r) = r.rule_id

unfoldable pub open_editor : Option FraudRule → Editor
unfolding form_of
open_editor editing = record {
  form = form_of editing;
  rule_id = id_of editing;
  error = none;
  saving = false;
}

-- `disabled` of the save button.
unfoldable pub save_disabled : Editor → Bool
save_disabled e =
    e.saving || not (truthy (some e.form.name)) || not (truthy (some e.form.expression))

-- A click on a feature.
unfoldable pub insert_feature : String → Editor → Editor
insert_feature f e = record e {
  form = record e.form {
    expression = if truthy (some e.form.expression) then e.form.expression <> (" " <> f) else f;
  };
}

unfoldable pub filtered_features :
    (String → String) → (String → String) → List String → String → List String
filtered_features normal lower features query =
    let q = normal query in
    if truthy (some q)
    then take 12 (filter (λ f. includes q (lower f)) features)
    else take 12 features

-- The call that saving makes.
pub data SaveCall : Type 0 where
  updates : String → RuleInput → SaveCall
  creates : RuleInput → SaveCall

-- What saving leaves: the editor, the call that was sent, the notification, and whether `onSaved` ran.
pub record Saved : Type 0 where
  pub editor : Editor
  pub sent : Option SaveCall
  pub notice : ToastInput
  pub closed : Bool

abbrev pub notify : String → String → ToastInput
notify title message = record {
  kind = success;
  title = title;
  message = some message;
  duration = none;
}

abbrev pub alarm : String → String → ToastInput
alarm title message = record {
  kind = danger;
  title = title;
  message = some message;
  duration = none;
}

-- The `try` with its `catch` and `finally`, from the end of the call.
unfoldable pub settle : {J : Type 0} → Editor → Option SaveCall → ToastInput → Result J → Saved
settle e sent good (returns j) = record {
  editor = record e { error = none; saving = false };
  sent = sent;
  notice = good;
  closed = true;
}
settle e sent good (throws m) = record {
  editor = record e { error = some m; saving = false };
  sent = sent;
  notice = alarm "Save failed" m;
  closed = false;
}

-- `save()`
unfoldable pub save :
    {J : Type 0} → (String → String) → (SaveCall → Result J) → Option FraudRule → Editor → Saved
unfolding settle
save trim send (some r) e =
    let call = updates r.rule_id e.form in
    settle e (some call)
      (notify "Rule updated" (e.form.name <> " saved and hot-reloaded into the decision engine."))
      (send call)
save {J = J} trim send none e =
    let call = creates (record e.form { rule_id = some (trim e.rule_id) }) in
    let good = notify "Rule created" (e.form.name <> " is now live in the decision engine.") in
    let blank = settle {J = J} e none good (throws "Rule ID is required") in
    if truthy (some (trim e.rule_id)) then settle e (some call) good (send call) else blank

-- `remove()`: the rule whose deletion is asked for, the end of `deleteRule`; the dialog is closed, the
-- list is read again only after a success.
pub record Removed : Type 0 where
  pub confirm : Option FraudRule
  pub refreshes : Bool
  pub notice : Option ToastInput

unfoldable pub remove : Option FraudRule → Result Bool → Removed
remove none out = record { confirm = none; refreshes = false; notice = none }
remove (some r) (returns b) = record {
  confirm = none;
  refreshes = true;
  notice = some (notify "Rule deleted" (r.name <> " removed and hot-unloaded from the engine."));
}
remove (some r) (throws m) = record {
  confirm = none;
  refreshes = false;
  notice =
      some (alarm "Delete failed" "The rule could not be removed — check engine availability.");
}
