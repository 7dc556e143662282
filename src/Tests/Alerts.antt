-- ===== src/Tests/Alerts.antt =====
-- An alert that comes twice, and a webhook that fails once.
use sentinal.Base.{
  ℕ, suc, ◌≡◌, ◌≤◌, ◌⊎◌, refl, arith, true, false, String, Option, none, some, List, [], ◌∷◌, ◌==◌,
  if◌then◌else◌,
}
use sentinal.Alerts.Gate.{Ask, no_keys, asks, allow_alert, passes, allow_alert_once}
use sentinal.Alerts.Consumer.{AlertEvent, handle_message, redelivered_dropped}
use sentinal.Alerts.Rates.{passes_per_minute}
use sentinal.Alerts.Dispatch.{
  WebhookUrl, Address, Dispatched, Dispatcher, validate_webhook, dispatch,
}
use sentinal.Alerts.Delivery.{Delivered, GivenUp, dispatch-ends}

abbrev ask : ℕ → String → Ask
ask now alert = record { now = now; alert = alert; user = "u1" }

abbrev later : List Ask
later = ask 10 "b" ∷ ask 20 "c" ∷ ask 30 "d" ∷ ask 40 "e" ∷ ask 50 "f" ∷ []

allow_alert_once_example :
    let k = asks later (allow_alert 0 "a" "u1" no_keys).1 in allow_alert 599 "a" "u2" k ≡ (false, k)
unfolding allow_alert no_keys
allow_alert_once_example =
    allow_alert_once 0 599 "a" "u1" "u2" later no_keys refl (omega arith) (omega arith)

passes_per_minute_example : suc (passes "u1" later (allow_alert 0 "a" "u1" no_keys).1) ≤ 5
unfolding allow_alert no_keys
passes_per_minute_example = passes_per_minute 0 "a" "u1" later no_keys tt refl (omega arith)

abbrev posted : Dispatched
posted = record { failure = none; posts = 1; waits = []; dead_letter = none }

abbrev message : AlertEvent
message = record { alert_id = "a"; user_id = "u1" }

redelivered_dropped_example :
    let k = asks later (allow_alert 0 "a" "u1" no_keys).1 in
    handle_message (λ m. posted) "https://hooks.example.com" true 599 (some message) k
    ≡ record { keys = k; dispatched = none; commits = true }
unfolding allow_alert no_keys
redelivered_dropped_example =
    redelivered_dropped (λ m. posted) "https://hooks.example.com" 0 599 message later no_keys refl
      refl (omega arith) (omega arith)

test_passes : passes "u1" later (allow_alert 0 "a" "u1" no_keys).1 ≡ 4
unfolding passes allow_alert no_keys
test_passes = refl

abbrev public_address : String → Option (List Address)
public_address host = some (
    record {
      is_loopback = false;
      is_private = false;
      is_link_local_unicast = false;
      is_unspecified = false;
    }
    ∷ [])

abbrev strict : Dispatcher
strict = record { allowlist = "hooks.example.com" ∷ []; production = true }

abbrev hook : Option WebhookUrl
hook = some (record { scheme = "https"; hostname = "hooks.example.com" })

abbrev second_try : ℕ → Option ℕ
second_try i = if i == 1 then some 204 else some 503

dispatch-ends_example :
    let r = dispatch public_address strict second_try (λ i. false) hook in
    ((e : String) × (validate_webhook public_address strict hook ≡ some e)
      × (r.failure ≡ some e)
      × (r.posts ≡ 0)
      × (r.dead_letter ≡ some "invalid_webhook"))
    ⊎ ((validate_webhook public_address strict hook ≡ none)
        × (Delivered second_try 4 0 1 r ⊎ GivenUp second_try 4 0 1 r))
dispatch-ends_example = dispatch-ends public_address strict second_try (λ i. false) hook (λ j. refl)

test_second_try : (dispatch public_address strict second_try (λ i. false) hook).waits ≡ 1 ∷ []
unfolding dispatch
test_second_try = refl
