-- ===== src/Session/Rotation.antt =====
-- What one call of the wrapper sends, what it leaves in the storage and what it gives to the caller.
use sentinal.Base.{
  ◌≡◌, refl, Bool, true, false, String, Option, none, some, List, [], ◌∷◌, ◌++◌, ◌⊎◌, inl, inr,
  truthy, ◌==◌, Bool-cases, Option-cases, ◌&&◌, leb, if◌then◌else◌, arith,
}
use sentinal.Session.{
  Storage, TokenPair, Request, Response, Client, Fetch, authorised, refresh_request_to, api_fetch,
  save_pair, is_ok, on_first, on_refresh, finish, continue, with_token, with_pair,
}

-- The network, with a record of the requests that it is sent.
pub logged : {W P : Type 0} → Fetch W P → Fetch (List Request × W) P
logged fetch req (log, w) = let (w', out) = fetch req w in ((log ++ req ∷ [], w'), out)

module _ {P : Type 0} where
  -- A browser was answered 401 and has a refresh token to post.
  abbrev pub expires : Bool → Storage → Option (Response P) → Bool
  expires browser s none = false
  expires browser s (some r) = r.status == 401 && browser && truthy s.refresh_token

  -- The pair that a refresh has brought: the status is from 200 to 299 and the body is a pair.
  abbrev pub good_pair : (P → Option TokenPair) → Option (Response P) → Option TokenPair
  good_pair parse_pair none = none
  good_pair parse_pair (some r) =
      if leb 200 r.status && leb r.status 299 then parse_pair r.payload else none

  -- What the caller gets after a refresh that brought no pair: the first response where the refresh
  -- was answered with another status, and an exception where it threw or its body was no pair.
  abbrev pub instead : Option (Response P) → Option (Response P) → Option (Response P)
  instead first none = none
  instead first (some r) = if leb 200 r.status && leb r.status 299 then none else first

module _ {W P : Type 0} (fetch : Fetch W P) (parse_pair : P → Option TokenPair) (api : String) where
  abbrev pub Run : Type 0
  Run = Client (List Request × W) × Option (Response P)

  abbrev sent : Bool → Request → Storage → W → W × Option (Response P)
  sent browser req s w = fetch (authorised browser s req) w

  abbrev renewed : Storage → TokenPair → Storage
  renewed s pair = record {
    access_token = some pair.access_token;
    refresh_token = some pair.refresh_token;
    demo_user = s.demo_user;
  }

  -- One request: the session was not refused, or there is nothing to renew it with.
  abbrev pub Passed : Bool → Request → W → Storage → Run → Type 0
  Passed browser req w s (c, out) =
      let first = sent browser req s w in
      (expires browser s first.1 ≡ false)
      × (c.world ≡ (authorised browser s req ∷ [], first.0))
      × (c.storage ≡ s)
      × (out ≡ first.1)

  -- Two requests: the refresh brought no pair, and the session is untouched.
  abbrev pub Stayed : Bool → Request → W → Storage → Run → Type 0
  Stayed browser req w s (c, out) =
      let first = sent browser req s w in
      (t : String) × (s.refresh_token ≡ some t)
      × (expires browser s first.1 ≡ true)
      × (good_pair parse_pair (fetch (refresh_request_to api t) first.0).1 ≡ none)
      × (c.world ≡ (
        authorised browser s req ∷ refresh_request_to api t ∷ [],
        (fetch (refresh_request_to api t) first.0).0,
      ))
      × (c.storage ≡ s)
      × (out ≡ instead first.1 (fetch (refresh_request_to api t) first.0).1)

  -- Three requests: the pair of the refresh is stored, and the request is sent again under it.
  abbrev pub Rotated : Bool → Request → W → Storage → Run → Type 0
  Rotated browser req w s (c, out) =
      let first = sent browser req s w in
      (t : String) × (pair : TokenPair) × (s.refresh_token ≡ some t)
      × (expires browser s first.1 ≡ true)
      × (good_pair parse_pair (fetch (refresh_request_to api t) first.0).1 ≡ some pair)
      × (c.world ≡ (
        authorised browser s req
            ∷ refresh_request_to api t
            ∷ authorised browser (renewed s pair) req
            ∷ [],
        (sent browser req (renewed s pair) (fetch (refresh_request_to api t) first.0).0).0,
      ))
      × (c.storage ≡ renewed s pair)
      × (out ≡ (sent browser req (renewed s pair) (fetch (refresh_request_to api t) first.0).0).1)

  abbrev pub run_logged : Bool → Request → W → Storage → Run
  run_logged browser req w s =
      api_fetch (logged fetch) parse_pair api browser req (record { world = ([], w); storage = s })

  abbrev pub Outcome : Bool → Request → W → Storage → Run → Type 0
  Outcome browser req w s run =
      Passed browser req w s run ⊎ Stayed browser req w s run ⊎ Rotated browser req w s run

  -- The run after the first response.
  abbrev rest : Bool → Request → W → Storage → Option (Response P) → Run
  rest browser req w s first =
      continue (logged fetch) parse_pair api browser req (authorised browser s req ∷ [], w) s
        (on_first browser s first)

  -- The run after the answer to the refresh.
  abbrev ending : Bool → Request → W → Storage → String → Response P → Option (Response P) → Run
  ending browser req w s t r reply =
      finish (logged fetch) parse_pair api browser req
        (authorised browser s req ∷ refresh_request_to api t ∷ [], w)
        (on_refresh parse_pair s r reply)

  -- No pair: the call ends with what stands in for it.
  ending-none :
      (browser : Bool) (req : Request) (w : W) (s : Storage) (t : String) (r : Response P)
      (reply : Option (Response P))
      → good_pair parse_pair reply ≡ none
      → ending browser req w s t r reply ≡ (
        record {
          world = (authorised browser s req ∷ refresh_request_to api t ∷ [], w);
          storage = s;
        },
        instead (some r) reply,
      )
  unfolding finish on_refresh is_ok with_pair
  ending-none browser req w s t r none h = refl
  ending-none browser req w s t r (some q) h =
      elim (Bool-cases (leb 200 q.status && leb q.status 299)) [
        | inl good ↦ rw (good, (rw good at h)) refl
        | inr bad ↦ rw bad refl
      ]

  ending-some :
      (browser : Bool) (req : Request) (w : W) (s : Storage) (t : String) (r : Response P)
      (reply : Option (Response P)) (pair : TokenPair)
      → good_pair parse_pair reply ≡ some pair
      → ending browser req w s t r reply ≡ (
        record {
          world = (
            authorised browser s req
                ∷ refresh_request_to api t
                ∷ authorised browser (renewed s pair) req
                ∷ [],
            (sent browser req (renewed s pair) w).0,
          );
          storage = renewed s pair;
        },
        (sent browser req (renewed s pair) w).1,
      )
  unfolding finish on_refresh is_ok with_pair save_pair logged
  ending-some browser req w s t r none pair h = absurd cc
  ending-some browser req w s t r (some q) pair h =
      elim (Bool-cases (leb 200 q.status && leb q.status 299)) [
        | inl good ↦ rw (good, (rw good at h)) refl
        | inr bad ↦ absurd (let k : none ≡ some pair = rw bad at h in cc)
      ]

  rest-passed :
      (browser : Bool) (req : Request) (w : W) (s : Storage) (first : Option (Response P))
      → expires browser s first ≡ false
      → rest browser req w s first
        ≡ (record { world = (authorised browser s req ∷ [], w); storage = s }, first)
  unfolding continue on_first with_token
  rest-passed browser req w s none h = refl
  rest-passed browser req w s (some r) h = elim (Bool-cases (r.status == 401)) [
    | inr other ↦ rw other refl
    | inl refused ↦ elim (Bool-cases browser) [
      | inr server ↦ rw (refused, server) refl
      | inl page ↦ elim (Option-cases s.refresh_token) [
        | inl missing ↦ rw (refused, page, missing) refl
        | inr (t, stored) ↦
            let blank : truthy (some t) ≡ false = ground (arith, h, refused, page, stored) in
            rw (refused, page, stored, blank) refl
      ]
    ]
  ]

  -- The token and the response that the refusal leaves.
  expires-cases :
      (browser : Bool) (s : Storage) (first : Option (Response P))
      → expires browser s first ≡ true
      → (t : String) × (r : Response P) × (s.refresh_token ≡ some t)
        × (first ≡ some r)
        × (truthy (some t) ≡ true)
        × ((r.status == 401) ≡ true)
        × (browser ≡ true)
  expires-cases browser s none h = absurd cc
  expires-cases browser s (some r) h = elim (Option-cases s.refresh_token) [
    | inl missing ↦ absurd (ground (arith, h, missing))
    | inr (t, stored) ↦
        (t, r, stored, refl, ground (arith, h, stored), ground (arith, h), ground (arith, h))
  ]

  rest-refreshing :
      (browser : Bool) (req : Request) (w : W) (s : Storage) (first : Option (Response P))
      (t : String) (r : Response P)
      → s.refresh_token ≡ some t
      → first ≡ some r
      → truthy (some t) ≡ true
      → (r.status == 401) ≡ true
      → browser ≡ true
      → rest browser req w s first
        ≡ ending browser req
            (fetch (refresh_request_to api t) w).0
            s
            t
            r
            (fetch (refresh_request_to api t) w).1
  unfolding continue on_first with_token logged
  rest-refreshing browser req w s first t r stored e full refused page =
      rw (e, refused, page, stored, full) refl

  after_refresh :
      (browser : Bool) (req : Request) (w : W) (s : Storage) (run : Run)
      → let first = sent browser req s w in
        (t : String) (r : Response P)
        → s.refresh_token ≡ some t
        → first.1 ≡ some r
        → expires browser s first.1 ≡ true
        → run
          ≡ ending browser req
              (fetch (refresh_request_to api t) first.0).0
              s
              t
              r
              (fetch (refresh_request_to api t) first.0).1
        → Outcome browser req w s run
  after_refresh browser req w s run t r stored e h same =
      let after = fetch (refresh_request_to api t) (sent browser req s w).0 in
      elim (Option-cases (good_pair parse_pair after.1)) [
        | inl no_pair ↦
            rw (same, ending-none browser req after.0 s t r after.1 no_pair)
              (inr (inl (t, stored, h, no_pair, refl, refl, rw e refl)))
        | inr (pair, good) ↦
            rw (same, ending-some browser req after.0 s t r after.1 pair good)
              (inr (inr (t, pair, stored, h, good, refl, refl, refl)))
      ]

  -- One call ends in one of three ways, which the first response and the answer to the refresh
  -- decide. A response other than 401, a call outside a browser or a session without a refresh token
  -- ends it after one request. Otherwise the refresh token is posted. If the answer has a status from
  -- 200 to 299 and a pair, the pair is stored, the request is sent again under it, and the caller gets
  -- that response; if not, the session is untouched and the caller gets the first response, or an
  -- exception where the refresh threw or its body was no pair.
  pub api_fetch-requests :
      (browser : Bool) (req : Request) (w : W) (s : Storage)
      → Outcome browser req w s (run_logged browser req w s)
  unfolding api_fetch logged
  api_fetch-requests browser req w s =
      let first = sent browser req s w in
      elim (Bool-cases (expires browser s first.1)) [
        | inr passes ↦
            rw (rest-passed browser req first.0 s first.1 passes) (inl (passes, refl, refl, refl))
        | inl ends ↦
            let (t, r, stored, e, full, refused, page) = expires-cases browser s first.1 ends in
            after_refresh browser req w s (run_logged browser req w s) t r stored e ends
              (rest-refreshing browser req first.0 s first.1 t r stored e full refused page)
      ]
