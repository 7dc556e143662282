-- ===== src/Risk/Admin.antt =====
-- Who may change rules: `require_admin` of risk-engine/app/api/v1/rules.py, behind `VerifyJWT` of
-- gateway/internal/middleware/auth.go and the reverse proxy of gateway/internal/proxy/proxy.go. What
-- `httputil.ReverseProxy` does before and after the proxy's own `Director` is a parameter.
use sentinal.Base.{
  ◌≡◌, refl, ◌⊎◌, inl, inr, arith, Bool, true, false, ◌&&◌, ◌=?◌, ◌or◌, String, Option, none, some,
  List, ◌≢◌, truthy, is_text, is_text-eq, ap, ℕ, if◌then◌else◌, Bool-cases, ◌∙◌, sym,
}
use sentinal.Gateway.Headers.{
  Headers, get, set, get-set, get-set_some, get-set_some_self, get-del, get-del_self,
}
use sentinal.Gateway.Access.{
  Claims, HttpRequest, refuses, serves, trusted, auth_header, token_of, verify_jwt, verified,
  checked, is_empty,
}

-- `Director`: `original` is the one of `NewSingleHostReverseProxy`.
unfoldable pub director : (Headers → Headers) → Headers → Headers
unfolding get set
director original hs =
    set "X-Forwarded-Proto" "http"
      (set "X-Forwarded-Host" (get "Host" (original hs) or "") (original hs))

-- The request as the service behind gets it: `after` is what the library removes and adds on the way.
unfoldable pub forward : (Headers → Headers) → (Headers → Headers) → Headers → Headers
unfolding director
forward original after hs = after (director original hs)

-- `k` is dropped or kept as it is.
abbrev pub Keeps : String → (Headers → Headers) → Type 0
Keeps k f = (hs : Headers) → (get k (f hs) ≡ none) ⊎ (get k (f hs) ≡ get k hs)

forward-Keeps :
    (original after : Headers → Headers) (k : String)
    → ("X-Forwarded-Proto" =? k) ≡ false
    → ("X-Forwarded-Host" =? k) ≡ false
    → Keeps k original
    → Keeps k after
    → Keeps k (forward original after)
unfolding forward director
forward-Keeps original after k p h keeps_o keeps_a hs =
    let inner = set "X-Forwarded-Host" (get "Host" (original hs) or "") (original hs) in
    let own : get k (director original hs) ≡ get k (original hs) =
      get-set k "X-Forwarded-Proto" "http" inner p
      ∙ get-set k "X-Forwarded-Host" (get "Host" (original hs) or "") (original hs) h in
    elim (keeps_a (director original hs)) [
      | inl dropped ↦ inl dropped
      | inr kept ↦ elim (keeps_o hs) [
        | inl gone ↦ inl (kept ∙ own ∙ gone)
        | inr same ↦ inr (kept ∙ own ∙ same)
      ]
    ]

pub data Grant : Type 0 where
  service admin denied : Grant

-- `service_token` is `ADMIN_SERVICE_TOKEN`; `denied` is the answer 403.
unfoldable pub require_admin : String → Headers → Grant
require_admin service_token hs =
    if truthy (some service_token) && is_text (get "X-Service-Token" hs) service_token
    then service
    else if is_text (get "X-User-Role" hs) "admin"
    then admin
    else denied

get-trusted_role : (c : Claims) (hs : Headers) → get "X-User-Role" (trusted c hs) ≡ c.role
unfolding trusted
get-trusted_role c hs =
    get-set_some "X-User-Role" "X-User-Email" c.email _ refl
    ∙ get-set_some_self "X-User-Role" c.role _ (
        get-set_some "X-User-Role" "X-User-ID" c.sub _ refl
        ∙ get-del "X-User-Role" "X-User-Email" _ refl
        ∙ get-del_self "X-User-Role" _)

get-trusted_service :
    (c : Claims) (hs : Headers) → get "X-Service-Token" (trusted c hs) ≡ get "X-Service-Token" hs
unfolding trusted
get-trusted_service c hs =
    get-set_some "X-Service-Token" "X-User-Email" c.email _ refl
    ∙ get-set_some "X-Service-Token" "X-User-Role" c.role _ refl
    ∙ get-set_some "X-Service-Token" "X-User-ID" c.sub _ refl
    ∙ get-del "X-Service-Token" "X-User-Email" _ refl
    ∙ get-del "X-Service-Token" "X-User-Role" _ refl
    ∙ get-del "X-Service-Token" "X-User-ID" _ refl

-- The ways to a grant: the secret of the services, or the role.
require_admin-cases :
    (service_token : String) (hs : Headers)
    → require_admin service_token hs ≢ denied
    → ((truthy (some service_token) ≡ true) × (get "X-Service-Token" hs ≡ some service_token))
      ⊎ (get "X-User-Role" hs ≡ some "admin")
unfolding require_admin
require_admin-cases service_token hs h =
    let secret = truthy (some service_token) && is_text (get "X-Service-Token" hs) service_token in
    elim (Bool-cases secret) [
      | inl known ↦ inl (
        ground (arith, known),
        is_text-eq (get "X-Service-Token" hs) service_token (ground (arith, known)),
      )
      | inr unknown ↦ elim (Bool-cases (is_text (get "X-User-Role" hs) "admin")) [
        | inl role ↦ inr (is_text-eq (get "X-User-Role" hs) "admin" role)
        | inr other ↦ absurd (h (rw (unknown, other) refl))
      ]
    ]

none≢some : {A B : Type 0} {a : A} → ◌≡◌ {A = Option A} none (some a) → B
none≢some e = cc

refuses≢serves : {A : Type 0} {n : ℕ} {m : String} {s : HttpRequest} → refuses n m ≡ serves s → A
refuses≢serves e = cc

module _ (equal_fold : String → String → Bool) (fields : String → List String) {Key : Type 0}
    (jwt_parse : Key → String → Option Claims) where
  -- The request presents a token that has these claims under the key in use.
  abbrev pub Presents : Option Key → HttpRequest → Claims → Type 0
  Presents key r c =
      (k : Key) × (token : String) × (key ≡ some k)
      × (token_of (fields (auth_header equal_fold r)) ≡ some token)
      × (jwt_parse k token ≡ some c)

  abbrev Cleared : Option Key → HttpRequest → HttpRequest → Type 0
  Cleared key r s = (c : Claims) × Presents key r c × (s.headers ≡ trusted c r.headers)

  verified-Cleared :
      (k : Key) (r s : HttpRequest) (token : String) (o : Option Claims)
      → token_of (fields (auth_header equal_fold r)) ≡ some token
      → jwt_parse k token ≡ o
      → verified equal_fold fields jwt_parse r o ≡ serves s
      → Cleared (some k) r s
  verified-Cleared k r s token none t p h = refuses≢serves h
  verified-Cleared k r s token (some c) t p h =
      let same : s ≡ record r { headers = trusted c r.headers } = cc in
      (c, (k, token, refl, t, p), ap (λ (x : HttpRequest). x.headers) same)

  checked-Cleared :
      (key : Option Key) (r s : HttpRequest) (o : Option String)
      → token_of (fields (auth_header equal_fold r)) ≡ o
      → checked equal_fold fields jwt_parse key r o ≡ serves s
      → Cleared key r s
  checked-Cleared key r s none t h = refuses≢serves h
  checked-Cleared none r s (some token) t h = refuses≢serves h
  checked-Cleared (some k) r s (some token) t h =
      verified-Cleared k r s token (jwt_parse k token) t refl h

  verify_jwt-Cleared :
      (key : Option Key) (r s : HttpRequest)
      → verify_jwt equal_fold fields jwt_parse key r ≡ serves s
      → Cleared key r s
  unfolding verify_jwt
  verify_jwt-Cleared key r s h = elim (Bool-cases (is_empty (auth_header equal_fold r))) [
    | inl missing ↦ refuses≢serves (rw missing at h)
    | inr given ↦
        checked-Cleared key r s (token_of (fields (auth_header equal_fold r))) refl (rw given at h)
  ]

  -- Behind the gateway a rule is changed only by an administrator: a request that is let through and
  -- granted presents a valid token with the role "admin", or the secret of the services, which is not
  -- empty. A header X-User-Role of the client has no effect. The library's parts of the reverse proxy
  -- may change any headers but these two, which they may drop but not change.
  pub verify_jwt-require_admin :
      (original after : Headers → Headers) (key : Option Key) (r s : HttpRequest)
      (service_token : String)
      → Keeps "X-Service-Token" original
      → Keeps "X-Service-Token" after
      → Keeps "X-User-Role" original
      → Keeps "X-User-Role" after
      → verify_jwt equal_fold fields jwt_parse key r ≡ serves s
      → require_admin service_token (forward original after s.headers) ≢ denied
      → (c : Claims) × Presents key r c
        × (((truthy (some service_token) ≡ true)
              × (get "X-Service-Token" r.headers ≡ some service_token))
            ⊎ (c.role ≡ some "admin"))
  verify_jwt-require_admin original after key r s service_token so sa ro ra h granted =
      let (c, shown, clean) = verify_jwt-Cleared key r s h in
      (
        c,
        shown,
        elim (require_admin-cases service_token (forward original after s.headers) granted) [
          | inl (secret, given) ↦ inl (
            secret,
            sym (get-trusted_service c r.headers)
                ∙ ap (get "X-Service-Token") (sym clean)
                ∙ kept_of "X-Service-Token" service_token
                    (forward-Keeps original after "X-Service-Token" refl refl so sa) given,
          )
          | inr role ↦ inr (
              sym (get-trusted_role c r.headers)
              ∙ ap (get "X-User-Role") (sym clean)
              ∙ kept_of "X-User-Role" "admin"
                  (forward-Keeps original after "X-User-Role" refl refl ro ra) role)
        ],
      )
    where
      kept_of :
          (k v : String)
          → Keeps k (forward original after)
          → get k (forward original after s.headers) ≡ some v
          → get k s.headers ≡ some v
      kept_of k v keeps e = elim (keeps s.headers) [
        | inl dropped ↦ absurd (none≢some (sym dropped ∙ e))
        | inr same ↦ sym same ∙ e
      ]
