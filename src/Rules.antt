-- ===== src/Rules.antt =====
-- The rules client of dashboard/src/lib/api.ts: the request of each call, and what the call makes of
-- the response. A promise that rejects is `throws` with the message of the error. A body `J` is
-- what `json()` gives, whatever it holds: the source's casts check nothing. `stringify` is
-- `JSON.stringify` of a rule, `encode` is `encodeURIComponent`, and `detail` reads a body's `detail`.
pub mod Client
pub mod Messages
pub mod Hook
pub mod Editor
pub mod Form
pub mod Saving
pub mod Page
pub mod Dialogs
pub mod Rows
use sentinal.Base.{
  ℕ, Bool, true, false, not, ◌&&◌, String, Option, none, some, List, [], ◌∷◌, ◌<>◌, ◌==◌, ◌or◌,
  if◌then◌else◌,
}
use sentinal.Radix.{to_radix}
use sentinal.Promise.{Result, throws, returns}
use sentinal.Session.{Request, Response, other, is_ok}

pub record FraudRule : Type 0 where
  pub id : String
  pub rule_id : String
  pub name : String
  pub description : String
  pub expression : String
  pub score_contribution : ℕ
  pub action : String
  pub is_enabled : Bool
  pub priority : ℕ
  pub hit_count : ℕ
  pub last_triggered_at : Option String
  pub created_at : String

pub record RuleInput : Type 0 where
  pub rule_id : Option String
  pub name : String
  pub description : Option String
  pub expression : String
  pub score_contribution : ℕ
  pub action : String
  pub is_enabled : Option Bool
  pub priority : Option ℕ

abbrev pub status_text : String → ℕ → String
status_text failure status = failure <> (" (" <> (to_radix 10 status <> ")"))

abbrev get_request : String → String → Request
get_request api path = record { url = api <> path; method = "GET"; headers = []; content = none }

unfoldable pub list_request : String → Request
list_request api = get_request api "/api/v1/rules/"

unfoldable pub features_request : String → Request
features_request api = get_request api "/api/v1/rules/features"

abbrev send : String → String → String → Request
send method url content = record {
  url = url;
  method = method;
  headers = ("Content-Type", "application/json") ∷ [];
  content = some (other content);
}

unfoldable pub create_request : (RuleInput → String) → String → RuleInput → Request
create_request stringify api rule = send "POST" (api <> "/api/v1/rules/") (stringify rule)

unfoldable pub update_request :
    (RuleInput → String) → (String → String) → String → String → RuleInput → Request
update_request stringify encode api rule_id rule =
    send "PUT" (api <> ("/api/v1/rules/" <> encode rule_id)) (stringify rule)

unfoldable pub delete_request : (String → String) → String → String → Request
delete_request encode api rule_id = record {
  url = api <> ("/api/v1/rules/" <> encode rule_id);
  method = "DELETE";
  headers = [];
  content = none;
}

module _ {J : Type 0} where
  -- `listRules`, once `apiFetch` has ended.
  unfoldable pub list_rules : Result (Response (Result J)) → Result J
  unfolding is_ok
  list_rules (throws m) = throws m
  list_rules (returns r) =
      if not (is_ok r) then throws (status_text "Failed to load rules" r.status) else r.payload

  -- `listFeatures`
  unfoldable pub list_features : Result (Response (Result J)) → Result J
  unfolding is_ok
  list_features (throws m) = throws m
  list_features (returns r) =
      if not (is_ok r) then throws (status_text "Failed to load features" r.status) else r.payload

  -- `throw new Error(body.detail ?? "Invalid rule expression")`
  unfoldable pub rejected : (J → Option String) → Result J → Result J
  rejected detail (throws m) = throws m
  rejected detail (returns j) = throws (detail j or "Invalid rule expression")

  -- What `createRule` and `updateRule` share.
  abbrev pub saved : (J → Option String) → String → String → Response (Result J) → Result J
  saved detail forbidden failure r =
      if r.status == 403
      then throws forbidden
      else if r.status == 422
      then rejected detail r.payload
      else if not (is_ok r)
      then throws (status_text failure r.status)
      else r.payload

  unfoldable pub create_rule : (J → Option String) → Result (Response (Result J)) → Result J
  unfolding is_ok rejected
  create_rule detail (throws m) = throws m
  create_rule detail (returns r) =
      saved detail "Admin role required to create rules" "Failed to create rule" r

  unfoldable pub update_rule : (J → Option String) → Result (Response (Result J)) → Result J
  unfolding is_ok rejected
  update_rule detail (throws m) = throws m
  update_rule detail (returns r) =
      saved detail "Admin role required to update rules" "Failed to update rule" r

  unfoldable pub delete_rule : Result (Response (Result J)) → Result Bool
  unfolding is_ok
  delete_rule (throws m) = throws m
  delete_rule (returns r) =
      if r.status == 403
      then throws "Admin role required to delete rules"
      else if not (is_ok r) && not (r.status == 204)
      then throws (status_text "Failed to delete rule" r.status)
      else returns true

  -- A failed read of the session's user counts as no user.
  unfoldable pub fetch_me : Result (Response (Result J)) → Option J
  unfolding is_ok
  fetch_me (throws m) = none
  fetch_me (returns r) = if not (is_ok r) then none else given r.payload
    where
      given : Result J → Option J
      given (throws m) = none
      given (returns j) = some j

abbrev rows : {A : Type 0} → List A → Result (List A) → List A
rows simulated (throws m) = simulated
rows simulated (returns xs) = xs

-- The rollups `fetchFraudRate`, `fetchGeo` and `fetchTopThreats`: an error status gives no rows, and
-- whatever throws gives the simulated rows.
unfoldable pub fetch_rollup : {A : Type 0} → List A → Result (Response (Result (List A))) → List A
unfolding is_ok
fetch_rollup simulated (throws m) = simulated
fetch_rollup simulated (returns r) = if not (is_ok r) then [] else rows simulated r.payload
