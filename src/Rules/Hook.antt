-- ===== src/Rules/Hook.antt =====
-- `useRules` of dashboard/src/lib/api.ts, with the rules that the demo mode shows
-- (`DEMO_RULES` of dashboard/src/lib/demo.ts). `iso` gives the timestamp of a number of minutes ago.
use sentinal.Base.{
  ℕ, ◌≡◌, refl, ◌⊎◌, inl, inr, Bool, true, false, ◌||◌, String, Option, none, some, List, [], ◌∷◌,
  ◌*◌, if◌then◌else◌, Bool-cases,
}
use sentinal.Session.{Response, is_ok}
use sentinal.Promise.{Result, throws, returns}
use sentinal.Rules.{FraudRule, list_rules}
use sentinal.Rules.Messages.{reports_status, reports_network, reports_status-status_text}

pub record RulesHook : Type 0 where
  pub rules : Option (List FraudRule)
  pub error : Option String
  pub loading : Bool
  pub demo : Bool

unfoldable pub initial : RulesHook
initial = record { rules = none; error = none; loading = true; demo = false }

unfoldable pub demo_rules : (ℕ → String) → List FraudRule
demo_rules iso =
    record {
      id = "demo-r1";
      rule_id = "RULE_VPN_BURST";
      name = "VPN + Transaction Burst";
      description = "Datacenter/VPN IP making 5+ payment attempts within 1 minute.";
      expression = "ip_is_vpn and v_payment_attempts_1m >= 5";
      score_contribution = 35;
      action = "CHALLENGE";
      is_enabled = true;
      priority = 80;
      hit_count = 1284;
      last_triggered_at = some (iso 3);
      created_at = iso (60 * 72);
    }
    ∷ record {
      id = "demo-r2";
      rule_id = "RULE_VELOCITY_LOGIN";
      name = "Impossible Travel";
      description = "Successful logins from two countries > 8000 km apart within 10 minutes.";
      expression = "geo_distance_from_home_km > 8000 and v_country_hops_10m >= 2";
      score_contribution = 45;
      action = "BLOCK";
      is_enabled = true;
      priority = 95;
      hit_count = 317;
      last_triggered_at = some (iso 11);
      created_at = iso (60 * 120);
    }
    ∷ record {
      id = "demo-r3";
      rule_id = "RULE_NEWDEVICE_HIGHVALUE";
      name = "New Device + High Value";
      description = "Unseen device fingerprint attempting a transaction above 2× user average.";
      expression = "device_age_days < 1 and amount_vs_user_avg > 2";
      score_contribution = 30;
      action = "REVIEW";
      is_enabled = true;
      priority = 60;
      hit_count = 892;
      last_triggered_at = some (iso 1);
      created_at = iso (60 * 48);
    }
    ∷ record {
      id = "demo-r4";
      rule_id = "RULE_TOR_LOGIN";
      name = "Tor Exit Node Login";
      description = "Any authentication attempt from a known Tor exit node.";
      expression = "ip_is_tor";
      score_contribution = 50;
      action = "BLOCK";
      is_enabled = true;
      priority = 99;
      hit_count = 56;
      last_triggered_at = some (iso 27);
      created_at = iso (60 * 200);
    }
    ∷ record {
      id = "demo-r5";
      rule_id = "RULE_CARD_TESTING";
      name = "Card Testing Pattern";
      description = "3+ distinct cards from one fingerprint within 5 minutes.";
      expression = "v_distinct_cards_5m >= 3";
      score_contribution = 40;
      action = "BLOCK";
      is_enabled = true;
      priority = 85;
      hit_count = 145;
      last_triggered_at = some (iso 8);
      created_at = iso (60 * 24);
    }
    ∷ []

-- The state after `refresh()`, from the end of `listRules()`.
unfoldable pub refresh_rules : (ℕ → String) → Result (List FraudRule) → RulesHook → RulesHook
refresh_rules iso (returns rs) h = record h {
  rules = some rs;
  error = none;
  demo = false;
  loading = false;
}
refresh_rules iso (throws m) h =
    if reports_status m || reports_network m
    then record h { rules = some (demo_rules iso); demo = true; error = none; loading = false }
    else record h { error = some m; loading = false }

-- Every response with an error status, also a 401, a 403 or a 500 of a backend that runs, is replaced by
-- the rules of the demo mode, and no error is shown.
pub refresh_rules-refused :
    (iso : ℕ → String) (r : Response (Result (List FraudRule))) (h : RulesHook)
    → is_ok r ≡ false
    → refresh_rules iso (list_rules (returns r)) h
      ≡ record h { rules = some (demo_rules iso); demo = true; error = none; loading = false }
unfolding refresh_rules list_rules
refresh_rules-refused iso r h bad = rw (bad, reports_status-status_text r.status) refl

-- One of three ends of a refresh: the rules of the list, the demo rules without an error, or an error
-- over what the page showed before.
abbrev pub Shows : (ℕ → String) → Result (List FraudRule) → RulesHook → RulesHook → Type 0
Shows iso out h k =
    ((rs : List FraudRule) × (out ≡ returns rs)
      × (k.rules ≡ some rs)
      × (k.error ≡ none)
      × (k.demo ≡ false))
    ⊎ ((k.rules ≡ some (demo_rules iso)) × (k.error ≡ none) × (k.demo ≡ true))
    ⊎ ((m : String) × (out ≡ throws m)
        × (k.error ≡ some m)
        × (k.rules ≡ h.rules)
        × (k.demo ≡ h.demo))

-- However the list of rules ends, the page has stopped loading and shows one of three things: the
-- rules of the list, the demo rules without an error, or an error over what it showed before.
pub refresh_rules-Shows :
    (iso : ℕ → String) (out : Result (List FraudRule)) (h : RulesHook)
    → ((refresh_rules iso out h).loading ≡ false) × Shows iso out h (refresh_rules iso out h)
unfolding refresh_rules
refresh_rules-Shows iso (returns rs) h = (refl, inl (rs, refl, refl, refl, refl))
refresh_rules-Shows iso (throws m) h = elim (Bool-cases (reports_status m || reports_network m)) [
  | inl offline ↦ rw offline (refl, inr (inl (refl, refl, refl)))
  | inr other ↦ rw other (refl, inr (inr (m, refl, refl, refl, refl)))
]
