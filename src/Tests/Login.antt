-- ===== src/Tests/Login.antt =====
-- A registration that is refused, and the meter.
use sentinal.Base.{◌≡◌, refl, true, false, String, none, length}
use sentinal.Promise.{Result, returns}
use sentinal.Session.{Storage, TokenPair, Response}
use sentinal.Login.{register, submit, can_submit, policy, policy_met, specials}
use sentinal.Login.Submit.{Outcome, submit-Outcome}

abbrev blank : Storage
blank = record { access_token = none; refresh_token = none; demo_user = none }

abbrev refused : Result (Response (Result String))
refused = returns (record { status = 409; payload = returns "email taken" })

abbrev accepted : Result (Response (Result TokenPair))
accepted = returns (record {
  status = 200;
  payload = returns (record { access_token = "a"; refresh_token = "r" });
})

submit-Outcome_example :
    Outcome refused accepted register false "0" "me@x.io" blank
      (submit refused accepted false register "0" "me@x.io" blank)
submit-Outcome_example = submit-Outcome refused accepted false register "0" "me@x.io" blank

test_policy : can_submit register "Sentinel-2026" ≡ true
unfolding can_submit policy policy_met
test_policy = refl

test_policy_special : can_submit register "Sentinel02026" ≡ false
unfolding can_submit policy policy_met
test_policy_special = refl

test_specials : length specials ≡ 32
test_specials = refl
