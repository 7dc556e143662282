-- ===== src/Session.antt =====
-- The browser's session: the tokens in `localStorage`, the address of the gateway and the request
-- wrapper `apiFetch` of dashboard/src/lib/api.ts, which dashboard/src/hooks/useAnalytics.ts repeats
-- as `fetchWithRefresh`. The network is a parameter: `fetch` takes the state of the world and a
-- request and returns the new state and a response, or `none` where the browser's `fetch` throws.
pub mod Url
pub mod Rotation
pub mod Renewal
pub mod Gate
use sentinal.Base.{
  ℕ, ◌≡◌, Bool, true, false, not, ◌||◌, String, Option, none, some, List, [], ◌∷◌, ◌++◌, filter,
  ◌==◌, leb, ◌&&◌, ◌=?◌, truthy, if◌then◌else◌, ◌<>◌,
}

-- The keys `sentinel_access_token`, `sentinel_refresh_token` and `sentinel_demo_user`.
pub record Storage : Type 0 where
  pub access_token : Option String
  pub refresh_token : Option String
  pub demo_user : Option String

pub record TokenPair : Type 0 where
  pub access_token : String
  pub refresh_token : String

abbrev pub Headers : Type 0
Headers = List (String × String)

-- What `JSON.stringify` is given.
pub data Payload : Type 0 where
  refresh_request : String → Payload
  other : String → Payload

pub record Request : Type 0 where
  pub url : String
  pub method : String
  pub headers : Headers
  pub content : Option Payload

pub record Response (P : Type 0) : Type 0 where
  pub status : ℕ
  pub payload : P

-- `response.ok`
unfoldable pub is_ok : {P : Type 0} → Response P → Bool
is_ok r = leb 200 r.status && leb r.status 299

unfoldable pub lookup_header : String → Headers → Option String
lookup_header k [] = none
lookup_header k ((j, v) ∷ hs) = if j =? k then some v else lookup_header k hs

abbrev pub is_given : Option String → Bool
is_given none = false
is_given (some v) = true

-- `{ ...defaults, ...given }`: what is given replaces a default of the same key.
unfoldable pub spread : Headers → Headers → Headers
unfolding lookup_header
spread defaults given = given ++ filter (λ d. not (is_given (lookup_header d.0 given))) defaults

-- `authHeaders()`, outside a browser with no headers.
unfoldable pub auth_headers : Bool → Storage → Headers
auth_headers false s = []
auth_headers true s = if truthy s.access_token then bearer s.access_token else []
  where
    bearer : Option String → Headers
    bearer none = []
    bearer (some t) = ("Authorization", "Bearer " <> t) ∷ []

unfoldable pub authorised : Bool → Storage → Request → Request
unfolding auth_headers spread
authorised browser s req = record req { headers = spread (auth_headers browser s) req.headers }

-- The two `setItem` calls after a rotation.
unfoldable pub save_pair : TokenPair → Storage → Storage
save_pair pair s = record s {
  access_token = some pair.access_token;
  refresh_token = some pair.refresh_token;
}

-- `logout()` of dashboard/src/components/layout/TopBar.tsx.
unfoldable pub logout : Storage → Storage
logout s = record s { access_token = none; refresh_token = none; demo_user = none }

-- The effect of `AuthGate`: whether the page is replaced by the sign-in page.
unfoldable pub gate_redirects : Storage → Bool
gate_redirects s = not (truthy s.access_token)

unfoldable pub refresh_request_to : String → String → Request
refresh_request_to api token = record {
  url = api <> "/api/v1/auth/refresh";
  method = "POST";
  headers = ("Content-Type", "application/json") ∷ [];
  content = some (refresh_request token);
}

-- After the first response: done, or the refresh token to post and the response to fall back on.
pub data Progress (P : Type 0) : Type 0 where
  settled : Option (Response P) → Progress P
  refreshing : String → Response P → Progress P

-- After the second response: done, or the request is sent again.
pub data Verdict (P : Type 0) : Type 0 where
  give : Option (Response P) → Verdict P
  retry : Verdict P

module _ {P : Type 0} where
  -- `if (!refreshToken) return response;`
  unfoldable pub with_token : Response P → Option String → Progress P
  with_token r none = settled (some r)
  with_token r (some t) = if truthy (some t) then refreshing t r else settled (some r)

  unfoldable pub on_first : Bool → Storage → Option (Response P) → Progress P
  unfolding with_token
  on_first browser s none = settled none
  on_first browser s (some r) =
      if not (r.status == 401) || not browser
      then settled (some r)
      else with_token r s.refresh_token

  -- `await refresh.json()` throws on `none`.
  unfoldable pub with_pair : Storage → Option TokenPair → Storage × Verdict P
  unfolding save_pair
  with_pair s none = (s, give none)
  with_pair s (some pair) = (save_pair pair s, retry)

  unfoldable pub on_refresh :
      (P → Option TokenPair) → Storage → Response P → Option (Response P) → Storage × Verdict P
  unfolding with_pair is_ok
  on_refresh parse_pair s original none = (s, give none)
  on_refresh parse_pair s original (some r) =
      if is_ok r then with_pair s (parse_pair r.payload) else (s, give (some original))

pub record Client (W : Type 0) : Type 0 where
  pub world : W
  pub storage : Storage

abbrev pub Fetch : Type 0 → Type 0 → Type 0
Fetch W P = Request → W → W × Option (Response P)

module _ {W P : Type 0} (fetch : Fetch W P) (parse_pair : P → Option TokenPair) (api : String) where
  -- The third leg: the request again, under the tokens that are stored by now.
  unfoldable pub finish : Bool → Request → W → Storage × Verdict P → Client W × Option (Response P)
  finish browser req w (s, give out) = (record { world = w; storage = s }, out)
  finish browser req w (s, retry) =
      let (w', out) = fetch (authorised browser s req) w in
      (record { world = w'; storage = s }, out)

  unfoldable pub continue :
      Bool → Request → W → Storage → Progress P → Client W × Option (Response P)
  unfolding finish
  continue browser req w s (settled out) = (record { world = w; storage = s }, out)
  continue browser req w s (refreshing token original) =
      let (w', reply) = fetch (refresh_request_to api token) w in
      finish browser req w' (on_refresh parse_pair s original reply)

  -- `apiFetch(input, init)`
  unfoldable pub api_fetch : Bool → Request → Client W → Client W × Option (Response P)
  unfolding continue
  api_fetch browser req c =
      let (w, first) = fetch (authorised browser c.storage req) c.world in
      continue browser req w c.storage (on_first browser c.storage first)
