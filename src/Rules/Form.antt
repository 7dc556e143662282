-- ===== src/Rules/Form.antt =====
-- The fields of the rule editor of dashboard/src/app/rules/page.tsx. `number_of` is `Number` on what the
-- number fields hold.
use sentinal.Base.{ℕ, ◌≡◌, refl, Bool, true, String, Option, none, some, ◌or◌, ◌<>◌}
use sentinal.Radix.{to_radix}
use sentinal.Rules.{FraudRule}
use sentinal.Rules.Editor.{Editor, form_of, open_editor}

pub data Field : Type 0 where
  rule_id name description expression score_contribution action priority : Field

unfoldable pub shown : Field → Editor → String
shown rule_id e = e.rule_id
shown name e = e.form.name
shown description e = e.form.description or ""
shown expression e = e.form.expression
shown score_contribution e = to_radix 10 e.form.score_contribution
shown action e = e.form.action
shown priority e = to_radix 10 (e.form.priority or 50)

-- The checkbox: `form.is_enabled ?? true`, and its handler.
unfoldable pub is_checked : Editor → Bool
is_checked e = e.form.is_enabled or true

unfoldable pub check : Bool → Editor → Editor
check checked e = record e { form = record e.form { is_enabled = some checked } }

abbrev set_name : String → Editor → Editor
set_name v e = record e { form = record e.form { name = v } }

abbrev set_description : String → Editor → Editor
set_description v e = record e { form = record e.form { description = some v } }

abbrev set_expression : String → Editor → Editor
set_expression v e = record e { form = record e.form { expression = v } }

abbrev set_action : String → Editor → Editor
set_action v e = record e { form = record e.form { action = v } }

module _ (number_of : String → ℕ) where
  abbrev set_score : String → Editor → Editor
  set_score v e = record e { form = record e.form { score_contribution = number_of v } }

  abbrev set_priority : String → Editor → Editor
  set_priority v e = record e { form = record e.form { priority = some (number_of v) } }

  unfoldable pub change : Field → String → Editor → Editor
  change rule_id v e = record e { rule_id = v }
  change name v e = set_name v e
  change description v e = set_description v e
  change expression v e = set_expression v e
  change score_contribution v e = set_score v e
  change action v e = set_action v e
  change priority v e = set_priority v e

  -- To type into a field of the editor, as it opens, what it already shows changes nothing, nor does
  -- setting the checkbox to what it shows. A printed number must be read back as itself.
  pub change-shown :
      (editing : Option FraudRule) (field : Field)
      → ((n : ℕ) → number_of (to_radix 10 n) ≡ n)
      → let e = open_editor editing in
        (change field (shown field e) e ≡ e) × (check (is_checked e) e ≡ e)
  unfolding change shown check is_checked open_editor form_of
  change-shown none rule_id reads = (refl, refl)
  change-shown none name reads = (refl, refl)
  change-shown none description reads = (refl, refl)
  change-shown none expression reads = (refl, refl)
  change-shown none score_contribution reads = (rw (reads 60) refl, refl)
  change-shown none action reads = (refl, refl)
  change-shown none priority reads = (rw (reads 50) refl, refl)
  change-shown (some r) rule_id reads = (refl, refl)
  change-shown (some r) name reads = (refl, refl)
  change-shown (some r) description reads = (refl, refl)
  change-shown (some r) expression reads = (refl, refl)
  change-shown (some r) score_contribution reads = (rw (reads r.score_contribution) refl, refl)
  change-shown (some r) action reads = (refl, refl)
  change-shown (some r) priority reads = (rw (reads r.priority) refl, refl)

-- What the dialog is called.
unfoldable pub title : Option FraudRule → String
title none = "New Fraud Rule"
title (some r) = "Edit " <> r.rule_id
