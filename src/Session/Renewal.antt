-- ===== src/Session/Renewal.antt =====
-- What becomes of a refresh token of auth-service/internal/service/auth_service.go, with the store of
-- sessions of auth-service/internal/repository/session_redis.go. A session has one key in Redis, and the
-- family of a session is that session. The tokens and the hash function are parameters; a command to
-- Redis does not fail.
use sentinal.Base.{
  ℕ, ◌≡◌, refl, Bool, true, false, not, ◌||◌, String, Option, none, some, List, [], ◌∷◌, ◌≢◌, arith,
  ◌=?◌, if◌then◌else◌, All, leb, ltb, Bool-cases, inl, inr, ◌⊎◌,
}
use text.Mathlib.TextEquality.{eq_iff}
use sentinal.Session.{Storage, TokenPair, Response, give, on_refresh}

-- The fields of `Session` that the calls read or change.
pub record SessionRecord : Type 0 where
  pub refresh_token_hash : String
  pub is_revoked : Bool
  pub expires_at : ℕ
  pub last_used_at : ℕ

-- What is under the session's key.
abbrev pub SessionStore : Type 0
SessionStore = Option SessionRecord

-- `json.Marshal`, and `json.Unmarshal` into an empty `Session`: the tag of the hash is `json:"-"`.
unfoldable pub marshalled : SessionRecord → SessionRecord
marshalled r = record r { refresh_token_hash = "" }

-- Whether the call succeeds, and the store after it.
unfoldable pub create : ℕ → SessionRecord → SessionStore → Bool × SessionStore
unfolding marshalled
create now r st = if leb r.expires_at now then (false, st) else (true, some (marshalled r))

-- `RevokeByID` and `UpdateLastUsed` write a session back, or delete one whose time is over.
abbrev written_back : ℕ → SessionRecord → SessionStore
written_back now r = if leb r.expires_at now then none else some (marshalled r)

unfoldable pub revoke_by_id : ℕ → SessionStore → SessionStore
unfolding marshalled
revoke_by_id now none = none
revoke_by_id now (some r) = written_back now (record r { is_revoked = true })

unfoldable pub update_last_used : ℕ → SessionStore → SessionStore
unfolding marshalled
update_last_used now none = none
update_last_used now (some r) = written_back now (record r { last_used_at = now })

unfoldable pub revoke_family : SessionStore → SessionStore
revoke_family st = none

pub data RefreshResult : Type 0 where
  pair_of : TokenPair → RefreshResult
  invalid reused failed : RefreshResult

-- The session that `Login` creates for a pair of tokens.
unfoldable pub login_session : (String → String) → TokenPair → ℕ → ℕ → SessionRecord
login_session hash pair now expires_at = record {
  refresh_token_hash = hash pair.refresh_token;
  is_revoked = false;
  expires_at = expires_at;
  last_used_at = now;
}

-- The calls on one session, each with its time. A refresh has the token, whether it is a valid token of
-- the session, whether the user is there and active, and the pair that is generated, if one is. `lapses`
-- is Redis removing the key.
pub data SessionCall : Type 0 where
  refreshes : ℕ → String → Bool → Bool → Option TokenPair → SessionCall
  logs_out touches : ℕ → SessionCall
  lapses : SessionCall

module _ (hash : String → String) where
  unfoldable pub renewed : ℕ → SessionRecord → Option TokenPair → SessionStore × RefreshResult
  unfolding create
  renewed now r none = (some r, failed)
  renewed now r (some pair) =
      let (done, st) =
        create now (record r { refresh_token_hash = hash pair.refresh_token; last_used_at = now })
          (some r) in
      (st, if done then pair_of pair else failed)

  -- `Refresh`
  unfoldable pub refresh_session :
      ℕ → String → Bool → Bool → Option TokenPair → SessionStore → SessionStore × RefreshResult
  unfolding renewed revoke_family
  refresh_session now token valid active generated none = (none, invalid)
  refresh_session now token valid active generated (some r) =
      if not valid || r.is_revoked || ltb r.expires_at now
      then (some r, invalid)
      else if not (hash token =? r.refresh_token_hash)
      then (revoke_family (some r), reused)
      else if not active
      then (some r, invalid)
      else renewed now r generated

  -- The store after some calls, and the answers to the refreshes among them.
  unfoldable pub run_calls : List SessionCall → SessionStore → SessionStore × List RefreshResult
  unfolding refresh_session revoke_by_id update_last_used
  run_calls [] st = (st, [])
  run_calls (refreshes now token valid active generated ∷ cs) st =
      let (st', a) = refresh_session now token valid active generated st in
      let (st'', answers) = run_calls cs st' in (st'', a ∷ answers)
  run_calls (logs_out now ∷ cs) st = run_calls cs (revoke_by_id now st)
  run_calls (touches now ∷ cs) st = run_calls cs (update_last_used now st)
  run_calls (lapses ∷ cs) st = run_calls cs none

  -- The answer of the handler `Refresh` of auth-service/internal/handlers/auth_handler.go.
  unfoldable pub reply_of : RefreshResult → Response (Option TokenPair)
  reply_of (pair_of p) = record { status = 200; payload = some p }
  reply_of invalid = record { status = 401; payload = none }
  reply_of reused = record { status = 401; payload = none }
  reply_of failed = record { status = 401; payload = none }

  -- What Redis holds has no hash.
  abbrev Unhashed : SessionStore → Type 0
  Unhashed none = Unit
  Unhashed (some r) = r.refresh_token_hash ≡ ""

  -- The browser that gets the answer gives its caller the response that it had refused, and keeps
  -- its old tokens.
  abbrev pub Refuses : RefreshResult → Type 0
  Refuses a =
      (s : Storage) (original : Response (Option TokenPair))
      → on_refresh (λ p. p) s original (some (reply_of a)) ≡ (s, give (some original))

  invalid-Refuses : Refuses invalid
  unfolding on_refresh reply_of sentinal.Session.is_ok
  invalid-Refuses s original = refl

  reused-Refuses : Refuses reused
  unfolding on_refresh reply_of sentinal.Session.is_ok
  reused-Refuses s original = refl

  written_back-Unhashed : (now : ℕ) (r : SessionRecord) → Unhashed (written_back now r)
  unfolding marshalled
  written_back-Unhashed now r = elim (Bool-cases (leb r.expires_at now)) [
    | inl over ↦ rw over tt
    | inr live ↦ rw live refl
  ]

  create-Unhashed : (now : ℕ) (r : SessionRecord) → Unhashed (create now r none).1
  unfolding create marshalled
  create-Unhashed now r = elim (Bool-cases (leb r.expires_at now)) [
    | inl over ↦ rw over tt
    | inr live ↦ rw live refl
  ]

  module _ (hash_full : (t : String) → hash t ≢ "") where
    refresh-unhashed :
        (now : ℕ) (token : String) (valid active : Bool) (generated : Option TokenPair)
        (r : SessionRecord)
        → r.refresh_token_hash ≡ ""
        → refresh_session now token valid active generated (some r) ≡ (
            if not valid || r.is_revoked || ltb r.expires_at now
            then (some r, invalid)
            else (none, reused))
    unfolding refresh_session revoke_family
    refresh-unhashed now token valid active generated r e =
        let differ : (hash token =? "") ≡ false =
          ground (arith, eq_iff (hash token) "", hash_full token) in
        rw (e, differ) refl

    refresh-step :
        (now : ℕ) (token : String) (valid active : Bool) (generated : Option TokenPair)
        (st : SessionStore)
        → Unhashed st
        → Unhashed (refresh_session now token valid active generated st).0
          × Refuses (refresh_session now token valid active generated st).1
    unfolding refresh_session
    refresh-step now token valid active generated none h = (tt, invalid-Refuses)
    refresh-step now token valid active generated (some r) h =
        elim (Bool-cases (not valid || r.is_revoked || ltb r.expires_at now)) [
          | inl denied ↦
              rw (refresh-unhashed now token valid active generated r h, denied)
                (h, invalid-Refuses)
          | inr live ↦
              rw (refresh-unhashed now token valid active generated r h, live) (tt, reused-Refuses)
        ]

    run_calls-Refuses :
        (calls : List SessionCall) (st : SessionStore)
        → Unhashed st
        → Unhashed (run_calls calls st).0 × All Refuses (run_calls calls st).1
    unfolding run_calls revoke_by_id update_last_used
    run_calls-Refuses [] st h = (h, tt)
    run_calls-Refuses (refreshes now token valid active generated ∷ cs) st h =
        let (kept, refused) = refresh-step now token valid active generated st h in
        let (later, all) = run_calls-Refuses cs _ kept in (later, (refused, all))
    run_calls-Refuses (logs_out now ∷ cs) none h = run_calls-Refuses cs none tt
    run_calls-Refuses (logs_out now ∷ cs) (some r) h =
        run_calls-Refuses cs _ (written_back-Unhashed now (record r { is_revoked = true }))
    run_calls-Refuses (touches now ∷ cs) none h = run_calls-Refuses cs none tt
    run_calls-Refuses (touches now ∷ cs) (some r) h =
        run_calls-Refuses cs _ (written_back-Unhashed now (record r { last_used_at = now }))
    run_calls-Refuses (lapses ∷ cs) st h = run_calls-Refuses cs none tt

    Unhashed-cases :
        (later : ℕ) (token : String) (active : Bool) (generated : Option TokenPair)
        (st : SessionStore)
        → Unhashed st
        → (st ≡ none)
          ⊎ ((r : SessionRecord) × (st ≡ some r)
              × (refresh_session later token true active generated st ≡ (
                  if r.is_revoked || ltb r.expires_at later
                  then (some r, invalid)
                  else (none, reused))))
    Unhashed-cases later token active generated none h = inl refl
    Unhashed-cases later token active generated (some r) h =
        inr (r, refl, refresh-unhashed later token true active generated r h)

    -- No session is ever renewed. If no hash is the empty text, then after a login and any calls on its
    -- session each refresh has been answered so that the browser keeps its old tokens and its caller
    -- gets the refused response. If the session is still stored, a further refresh with a valid token
    -- is refused where the session is revoked or over, and otherwise it is taken for the reuse of a
    -- token and removes the session.
    pub run_calls-never_renewed :
        (pair : TokenPair) (now expires_at later : ℕ) (calls : List SessionCall) (token : String)
        (active : Bool) (generated : Option TokenPair)
        → let start = (create now (login_session hash pair now expires_at) none).1 in
          let (st, answers) = run_calls calls start in
          All Refuses answers
          × ((st ≡ none)
              ⊎ ((r : SessionRecord) × (st ≡ some r)
                  × (refresh_session later token true active generated st ≡ (
                      if r.is_revoked || ltb r.expires_at later
                      then (some r, invalid)
                      else (none, reused)))))
    run_calls-never_renewed pair now expires_at later calls token active generated =
        let first = create-Unhashed now (login_session hash pair now expires_at) in
        let (kept, refused) = run_calls-Refuses calls _ first in
        (refused, Unhashed-cases later token active generated _ kept)
