-- ===== src/Tests/Rules.antt =====
-- The rules client against refusals, and an edit.
use sentinal.Base.{ℕ, ◌≡◌, ◌↔◌, refl, true, false, String, Option, none, List, [], ◌∷◌}
use sentinal.Session.{Response}
use sentinal.Promise.{Result, throws, returns}
use sentinal.Rules.{FraudRule, list_rules, create_rule, update_rule, delete_rule}
use sentinal.Rules.Client.{Good, Success, rule_calls-Good}
use sentinal.Rules.Messages.{reports_network, reports_status}
use sentinal.Rules.Editor.{SaveCall, save, open_editor, remove}
use sentinal.Rules.Dialogs.{
  Event, clicks_edit, closes_editor, clicks_trash, confirms, ends, run, step, start_removal,
  end_removal, closed, Accounted, run-Accounted,
}
use sentinal.Rules.Saving.{Ends, Carries, save-Ends}

abbrev forbidden : Result (Response (Result (List FraudRule)))
forbidden = returns (record { status = 403; payload = throws "Unexpected end of JSON input" })

abbrev detail : List FraudRule → Option String
detail rs = none

rule_calls-Good_example :
    ((list_rules forbidden ≡ returns []) ↔ Good forbidden [])
    × ((create_rule detail forbidden ≡ returns []) ↔ Good forbidden [])
    × ((update_rule detail forbidden ≡ returns []) ↔ Good forbidden [])
    × ((delete_rule forbidden ≡ returns true) ↔ Success forbidden)
rule_calls-Good_example = rule_calls-Good detail forbidden []

abbrev iso : ℕ → String
iso minutes = "2026-01-01T00:00:00Z"

abbrev accepts : SaveCall → Result ℕ
accepts call = returns 1

save-Ends_example :
    ((save (λ t. t) accepts none (open_editor none)).editor.saving ≡ false)
    × Ends accepts (save (λ t. t) accepts none (open_editor none))
    × Carries (λ t. t) none (open_editor none) (save (λ t. t) accepts none (open_editor none)).sent
save-Ends_example = save-Ends (λ t. t) accepts none (open_editor none)

test_network : reports_network "NetworkError when attempting to fetch resource." ≡ true
unfolding reports_network
test_network = refl

test_status : reports_status "Failed to load rules (503)" ≡ true
unfolding reports_status
test_status = refl

abbrev vpn : FraudRule
vpn = record {
  id = "r1";
  rule_id = "RULE_VPN";
  name = "VPN";
  description = "";
  expression = "ip_is_vpn";
  score_contribution = 35;
  action = "CHALLENGE";
  is_enabled = true;
  priority = 80;
  hit_count = 0;
  last_triggered_at = none;
  created_at = iso 0;
}

-- The rule is deleted with a double click; the second call fails.
abbrev double_click : List Event
double_click =
    clicks_edit vpn
    ∷ closes_editor
    ∷ clicks_trash vpn
    ∷ confirms
    ∷ confirms
    ∷ ends 0 (returns true)
    ∷ ends 0 (throws "Failed to delete rule (404)")
    ∷ []

run-Accounted_example : Accounted (λ r. r ≡ vpn) (run double_click closed)
run-Accounted_example =
    run-Accounted (λ r. r ≡ vpn) double_click (tt, (tt, (refl, (tt, (tt, (tt, (tt, tt)))))))

test_double_click : (run double_click closed).sent ≡ vpn ∷ vpn ∷ []
unfolding run step start_removal end_removal remove closed
test_double_click = refl
