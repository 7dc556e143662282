-- ===== src/Tests/Session.antt =====
-- A session that expires and rotates, and one that the service never renews.
use sentinal.Session.Gate.{
  enters, retries, becomes_ready, entries, visit, shows_children, visit-shows_children,
}
use sentinal.Shell.Gate.{is_login}
use sentinal.Base.{
  ◌+◌, ◌≤◌, ◌∷◌, [], List, String, ◌=?◌, if◌then◌else◌, ◌≢◌, Bool-cases, inl, inr, All, ◌⊎◌, ltb,
  ◌||◌,
}
use sentinal.Base.{
  ℕ, zero, suc, ◌≡◌, refl, true, Option, none, some, [], ap, includes, strip_prefix, drop_slash,
  replace_first,
}
use mathlib.Core.Bool.{false≢true}
use text.Mathlib.Text.{◌==◌ as text_eq}
use sentinal.Session.{Storage, TokenPair, Request, Response, Fetch, gate_redirects, logout}
use sentinal.Session.Rotation.{Outcome, api_fetch-requests, run_logged}
use sentinal.Session.Renewal.{
  SessionRecord, SessionCall, refreshes, touches, invalid, reused, create, login_session, run_calls,
  refresh_session, Refuses, run_calls-never_renewed, update_last_used,
}
use sentinal.Session.Url.{websocket_url, Location, window_api_url, get_api_url, configured_api_url}

abbrev old_pair : Storage
old_pair = record { access_token = some "a1"; refresh_token = some "r1"; demo_user = none }

abbrev new_pair : TokenPair
new_pair = record { access_token = "a2"; refresh_token = "r2" }

abbrev overview : Request
overview = record { url = "/overview"; method = "GET"; headers = []; content = none }

abbrev answer : ℕ → Option TokenPair → Response (Option TokenPair)
answer status payload = record { status = status; payload = payload }

-- The world counts the requests: a refusal, a rotation, then success.
abbrev expiring : Fetch ℕ (Option TokenPair)
expiring req zero = (1, some (answer 401 none))
expiring req (suc zero) = (2, some (answer 200 (some new_pair)))
expiring req (suc (suc n)) = (3, some (answer 200 none))

api_fetch-requests_example :
    Outcome expiring
      (λ p. p)
      "http://gw"
      true
      overview
      0
      old_pair
      (run_logged expiring (λ p. p) "http://gw" true overview 0 old_pair)
api_fetch-requests_example =
    api_fetch-requests expiring (λ p. p) "http://gw" true overview 0 old_pair

abbrev digest : String → String
digest t = if t =? "r1" then "d1" else "d2"

digest_full : (t : String) → digest t ≢ ""
digest_full t e = elim (Bool-cases (t =? "r1")) [
  | inl one ↦ false≢true (ap (λ u. text_eq u "") (rw one at e))
  | inr two ↦ false≢true (ap (λ u. text_eq u "") (rw two at e))
]

abbrev first_pair : TokenPair
first_pair = record { access_token = "a1"; refresh_token = "r1" }

abbrev calls : List SessionCall
calls = touches 5 ∷ refreshes 10 "r1" true true (some new_pair) ∷ []

-- The first refresh after a login removes the session.
run_calls-never_renewed_example :
    let start = (create 0 (login_session digest first_pair 0 100) none).1 in
    let (st, answers) = run_calls digest calls start in
    All (Refuses digest) answers
    × ((st ≡ none)
        ⊎ ((r : SessionRecord) × (st ≡ some r)
            × (refresh_session digest 20 "r1" true true (some new_pair) st ≡ (
                if r.is_revoked || ltb r.expires_at 20
                then (some r, invalid)
                else (none, reused)))))
run_calls-never_renewed_example =
    run_calls-never_renewed digest digest_full first_pair 0 100 20 calls "r1" true (some new_pair)

-- The digest of the token that was handed out is of no use to it.
test_first_refresh :
    run_calls digest calls (create 0 (login_session digest first_pair 0 100) none).1
    ≡ (none, reused ∷ [])
unfolding run_calls create login_session refresh_session update_last_used
test_first_refresh = refl

abbrev codespace : Location
codespace = record { protocol = "https:"; hostname = "fuzzy-3000.app.github.dev" }

test_codespace : get_api_url none (some codespace) ≡ "https://fuzzy-8080.app.github.dev"
unfolding get_api_url configured_api_url window_api_url includes strip_prefix drop_slash
    replace_first
test_codespace = refl

test_logout : gate_redirects (logout old_pair) ≡ true
unfolding gate_redirects logout
test_logout = refl

test_websocket :
    websocket_url (λ t. t) none (some codespace) (some "a1")
    ≡ some "wss://fuzzy-8080.app.github.dev/api/v1/analytics/ws?access_token=a1"
unfolding websocket_url get_api_url configured_api_url window_api_url includes strip_prefix
    drop_slash replace_first
test_websocket = refl

-- Two paths and the safety net, without a token.
visit-shows_children_example :
    (shows_children "/rules" (visit none (enters none ∷ retries ∷ [])) ≡ is_login "/rules")
    × (1 + entries (enters none ∷ retries ∷ [])
        ≤ (visit none (enters none ∷ retries ∷ [])).redirects)
visit-shows_children_example =
    visit-shows_children none (enters none ∷ retries ∷ []) "/rules" refl (refl, tt)

-- With a token the page is shown.
test_visit : shows_children "/rules" (visit (some "a1") (becomes_ready ∷ [])) ≡ true
unfolding shows_children visit
test_visit = refl
