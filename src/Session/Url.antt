-- ===== src/Session/Url.antt =====
-- The address of the gateway: `getAPIURL` of dashboard/src/lib/api.ts, which the pages repeat, and the
-- address that the sign-in page probes (dashboard/src/app/login/page.tsx); `websocketURL` of
-- dashboard/src/hooks/useAnalytics.ts.
use sentinal.Base.{
  ◌≡◌, ◌≢◌, refl, ap, Bool, true, false, not, ◌&&◌, String, Option, none, some, arith,
  if◌then◌else◌, ◌=?◌, ◌or◌, ◌<>◌, text_length, text_length-append, text_length-replace_first,
  truthy, drop_slash, strip_prefix, includes, replace_first,
}

pub record Location : Type 0 where
  pub protocol : String
  pub hostname : String

abbrev pub local_gateway : String
local_gateway = "http://localhost:8080"

-- `(process.env.NEXT_PUBLIC_API_URL ?? "").replace(/\/$/, "")`
unfoldable pub configured_api_url : Option String → String
configured_api_url env = drop_slash (env or "")

unfoldable pub window_api_url : Location → String
window_api_url w =
    if includes "-3000." w.hostname
    then w.protocol <> ("//" <> replace_first "-3000." "-8080." w.hostname)
    else w.protocol <> ("//" <> (w.hostname <> ":8080"))

-- `getAPIURL()`; `none` where there is no `window`.
unfoldable pub get_api_url : Option String → Option Location → String
get_api_url env window =
    let configured = configured_api_url env in
    if truthy (some configured) && not (configured =? local_gateway)
    then configured
    else elim window [
      | none ↦ if truthy (some configured) then configured else local_gateway
      | some w ↦ window_api_url w
    ]

-- `base` of the probe on the sign-in page.
unfoldable pub probe_base : Option String → Option Location → String
probe_base env window =
    let api = configured_api_url env in
    if truthy (some api) && not (api =? local_gateway) then api else elim window [
      | none ↦ local_gateway
      | some w ↦ w.protocol <> ("//" <> (w.hostname <> ":8080"))
    ]

-- `websocketURL()`: none outside a browser or without a token. `encode` is `encodeURIComponent`.
abbrev as_ws : String → String
as_ws base = elim (strip_prefix "http" base) [ none ↦ base | some rest ↦ "ws" <> rest ]

abbrev ws_with : (String → String) → String → Option String → Option String
ws_with encode api none = none
ws_with encode api (some token) =
    if truthy (some token)
    then some (as_ws api <> ("/api/v1/analytics/ws?access_token=" <> encode token))
    else none

unfoldable pub websocket_url :
    (String → String) → Option String → Option Location → Option String → Option String
unfolding get_api_url
websocket_url encode env none token = none
websocket_url encode env (some w) token = ws_with encode (get_api_url env (some w)) token

abbrev pub is_configured : Option String → Bool
is_configured env =
    truthy (some (configured_api_url env)) && not (configured_api_url env =? local_gateway)

-- For a host name without "-3000." the sign-in page probes the address that its requests go to, in
-- every configuration.
pub probe_base-agrees :
    (env : Option String) (w : Location)
    → includes "-3000." w.hostname ≡ false
    → probe_base env (some w) ≡ get_api_url env (some w)
unfolding probe_base get_api_url window_api_url
probe_base-agrees env w h = rw h refl

-- For a host name with "-3000.", and no other gateway configured, it probes another address.
pub probe_base-differs :
    (env : Option String) (w : Location)
    → is_configured env ≡ false
    → includes "-3000." w.hostname ≡ true
    → probe_base env (some w) ≢ get_api_url env (some w)
unfolding probe_base get_api_url window_api_url text_length
probe_base-differs env w c h e =
    let replaced = replace_first "-3000." "-8080." w.hostname in
    let both : w.protocol <> ("//" <> (w.hostname <> ":8080")) ≡ w.protocol <> ("//" <> replaced) =
      rw (c, h) at e in
    omega (
      arith,
      ap text_length both,
      text_length-append w.protocol ("//" <> (w.hostname <> ":8080")),
      text_length-append w.protocol ("//" <> replaced),
      text_length-append "//" (w.hostname <> ":8080"),
      text_length-append "//" replaced,
      text_length-append w.hostname ":8080",
      text_length-replace_first "-3000." "-8080." w.hostname refl,
    )
