-- ===== src/Tests/Gateway.antt =====
-- Three requests in a window that allows two, and a rule changed through the gateway.
use sentinal.Base.{
  ℕ, ◌+◌, ◌*◌, ◌/◌, ◌≡◌, ◌≤◌, ◌⊎◌, inr, refl, arith, Bool, true, String, Option, none, some, List,
  [], ◌∷◌, suc, leb, count, ◌=?◌, ◌==◌, if◌then◌else◌, truthy,
}
use sentinal.Gateway.Limiter.{is_allowed}
use sentinal.Gateway.Windows.{is_inside, passed, is_allowed-inside, passed-le-limit}
use sentinal.Gateway.Keys.{Reply, fails, responds, polls, new_poller, last_key, polls-last_key}
use sentinal.Promise.{Result, throws, returns}
use sentinal.Gateway.Headers.{Headers, get, set, del, get-set, get-del}
use sentinal.Gateway.Access.{Claims, HttpRequest, verify_jwt}
use sentinal.Risk.Admin.{require_admin, forward, Presents, verify_jwt-require_admin}

-- A clock whose even times are exact.
abbrev rounded : ℕ → ℕ
rounded t = t / 2 * 2

abbrev history : List ℕ
history = 110 ∷ 70 ∷ 10 ∷ []

is_allowed-inside_example :
    (n : ℕ) × (count (is_inside 60 (1 + 1) 120) history ≤ n)
    × (n ≤ count (is_inside 60 0 120) history)
    × (is_allowed rounded 60 2 120 history ≡ leb (suc n) 2)
is_allowed-inside_example =
    is_allowed-inside rounded 60 (λ a b h. omega arith) 1 (λ t. omega arith) 2 120 history
      (omega arith)

passed-le-limit_example : passed rounded 60 1 2 125 (120 ∷ history) ≤ 2
passed-le-limit_example =
    passed-le-limit rounded 60 (λ a b h. omega arith) 1 (λ t. omega arith) 2 125 120 history
      (omega arith) (omega arith)

abbrev same_text : String → String → Bool
same_text s t = s =? t

abbrev two_words : String → List String
two_words s = if s =? "Bearer t" then "Bearer" ∷ "t" ∷ [] else []

abbrev claims : Claims
claims = record { sub = some "1"; role = some "admin"; email = none }

abbrev parse_token : ℕ → String → Option Claims
parse_token key token = some claims

-- The client's own role does not matter.
abbrev request : HttpRequest
request = record {
  headers = ("Authorization", "Bearer t") ∷ ("X-User-Role", "service") ∷ [];
  access_token = none;
  remote_addr = "10.0.0.1:5000";
}

abbrev forwarded : HttpRequest
forwarded = record request {
  headers = ("Authorization", "Bearer t") ∷ ("X-User-ID", "1") ∷ ("X-User-Role", "admin") ∷ [];
}

-- The library names itself and drops a header of the connection.
abbrev named : Headers → Headers
named hs = set "User-Agent" "" hs

abbrev dropped_connection : Headers → Headers
dropped_connection hs = del "Connection" hs

verify_jwt-require_admin_example :
    (c : Claims) × Presents same_text two_words parse_token (some 7) request c
    × (((truthy (some "") ≡ true) × (get "X-Service-Token" request.headers ≡ some ""))
        ⊎ (c.role ≡ some "admin"))
unfolding verify_jwt require_admin forward sentinal.Gateway.Headers.set sentinal.Gateway.Headers.get
    sentinal.Gateway.Headers.set_some sentinal.Gateway.Headers.del
verify_jwt-require_admin_example =
    verify_jwt-require_admin same_text two_words parse_token named dropped_connection (some 7)
      request forwarded "" (λ hs. inr (get-set "X-Service-Token" "User-Agent" "" hs refl))
      (λ hs. inr (get-del "X-Service-Token" "Connection" hs refl))
      (λ hs. inr (get-set "X-User-Role" "User-Agent" "" hs refl))
      (λ hs. inr (get-del "X-User-Role" "Connection" hs refl)) refl (λ e. cc)

-- A key is the number that its text stands for.
abbrev parse_key : String → Result ℕ
parse_key s =
    if s =? "seven" then returns 7 else if s =? "nine" then returns 9 else throws "not a key"

abbrev replies : List Reply
replies =
    responds 200 (returns "seven")
    ∷ responds 503 (returns "nine")
    ∷ responds 200 (returns "broken")
    ∷ fails "refused"
    ∷ []

abbrev code_text : ℕ → String
code_text n = "503"

polls-last_key_example :
    (polls parse_key ◌==◌ code_text replies
      (new_poller parse_key ◌==◌ code_text (some 9))).public_key
    ≡ last_key parse_key ◌==◌ code_text replies (some 9)
polls-last_key_example =
    polls-last_key parse_key ◌==◌ code_text (λ a b h. ground (arith, h)) replies (some 9)

test_last_key : last_key parse_key ◌==◌ code_text replies (some 9) ≡ some 7
test_last_key = refl
