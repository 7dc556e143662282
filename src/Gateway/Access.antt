-- ===== src/Gateway/Access.antt =====
-- `VerifyJWT` and `RateLimit` of gateway/internal/middleware. `jwt_parse` is `jwt.Parse` with the options
-- of the code, for the key in use; `fields` is `strings.Fields` and `equal_fold` is `strings.EqualFold`.
use sentinal.Base.{
  ℕ, Bool, true, false, not, ◌&&◌, String, Option, none, some, List, [], ◌∷◌, ◌<>◌, ◌=?◌, ◌or◌,
  truthy, if◌then◌else◌,
}
use sentinal.Gateway.Headers.{Headers, get, del, set_some}

-- The claims of a token that is valid. A role or an email that is not a text counts as missing; `sub` is
-- printed by `%v`.
pub record Claims : Type 0 where
  pub sub : Option String
  pub role : Option String
  pub email : Option String

-- `access_token` is the parameter of the query.
pub record HttpRequest : Type 0 where
  pub headers : Headers
  pub access_token : Option String
  pub remote_addr : String

pub data Answer : Type 0 where
  refuses : ℕ → String → Answer
  serves : HttpRequest → Answer

-- `r.Header.Get`
abbrev pub header : String → HttpRequest → String
header k r = get k r.headers or ""

abbrev pub is_empty : String → Bool
is_empty s = not (truthy (some s))

-- The three headers of a verified request.
unfoldable pub trusted : Claims → Headers → Headers
trusted c hs =
    let clean = del "X-User-Email" (del "X-User-Role" (del "X-User-ID" hs)) in
    set_some "X-User-Email" c.email
      (set_some "X-User-Role" c.role (set_some "X-User-ID" c.sub clean))

unfoldable pub token_of : List String → Option String
token_of (scheme ∷ token ∷ []) = if scheme =? "Bearer" then some token else none
token_of _ = none

module _ (equal_fold : String → String → Bool) where
  unfoldable pub is_web_socket_upgrade : HttpRequest → Bool
  is_web_socket_upgrade r =
      equal_fold (header "Connection" r) "Upgrade" && equal_fold (header "Upgrade" r) "websocket"

  -- The header, or for the upgrade to a web socket the parameter of the query.
  unfoldable pub auth_header : HttpRequest → String
  unfolding is_web_socket_upgrade
  auth_header r =
      if is_empty (header "Authorization" r) && is_web_socket_upgrade r && truthy r.access_token
      then "Bearer " <> (r.access_token or "")
      else header "Authorization" r

  module _ (fields : String → List String) {Key : Type 0}
      (jwt_parse : Key → String → Option Claims) where
    abbrev pub verified : HttpRequest → Option Claims → Answer
    verified r none = refuses 401 "invalid or expired token"
    verified r (some c) = serves (record r { headers = trusted c r.headers })

    abbrev pub checked : Option Key → HttpRequest → Option String → Answer
    checked key r none = refuses 401 "invalid authorization header format"
    checked none r (some token) = refuses 503 "auth key unavailable"
    checked (some k) r (some token) = verified r (jwt_parse k token)

    unfoldable pub verify_jwt : Option Key → HttpRequest → Answer
    unfolding auth_header token_of trusted
    verify_jwt key r =
        if is_empty (auth_header r)
        then refuses 401 "missing authorization header"
        else checked key r (token_of (fields (auth_header r)))

-- How the limiter ends: with its answer, or with an error of Redis.
pub data Limited : Type 0 where
  answered : Bool → Limited
  unavailable : Limited

-- `split_host_port` is the host of `net.SplitHostPort`, empty on an error; `first_ip` is the trimmed
-- text up to the first comma.
module _ (split_host_port first_ip : String → String) where
  unfoldable pub limit_key : Bool → HttpRequest → String
  limit_key trust_proxy r =
      let host = split_host_port r.remote_addr in
      let ip = if is_empty host then r.remote_addr else host in
      let forwarded = header "X-Forwarded-For" r in
      if trust_proxy && not (is_empty forwarded) then first_ip forwarded else ip

  unfoldable pub rate_limit : Bool → (String → Limited) → HttpRequest → Answer
  unfolding limit_key
  rate_limit trust_proxy allow r = elim (allow (limit_key trust_proxy r)) [
    | unavailable ↦ refuses 503 "rate limiting temporarily unavailable"
    | answered true ↦ serves r
    | answered false ↦ refuses 429 "Too Many Requests"
  ]
