-- ===== src/Alerts/Dispatch.antt =====
-- `WebhookDispatcher` of alert-service/dispatcher.go. `Host` is what `url.Parse` finds, `lookup` is
-- `net.LookupIP`; the requests are given by their ends.
use sentinal.Base.{
  ℕ, zero, suc, ◌*◌, Bool, true, false, not, ◌&&◌, ◌||◌, String, Option, none, some, List, [], ◌∷◌,
  ◌=?◌, any, ltb, leb, if◌then◌else◌,
}

-- A URL with its scheme and host, in lower case; `none` where it cannot be parsed or lacks one of them.
pub record WebhookUrl : Type 0 where
  pub scheme : String
  pub hostname : String

pub record Address : Type 0 where
  pub is_loopback : Bool
  pub is_private : Bool
  pub is_link_local_unicast : Bool
  pub is_unspecified : Bool

pub record Dispatcher : Type 0 where
  pub allowlist : List String
  pub production : Bool

abbrev pub is_internal : Address → Bool
is_internal a = a.is_loopback || a.is_private || a.is_link_local_unicast || a.is_unspecified

-- A host that cannot be resolved stands for 127.0.0.1.
unfoldable pub resolve_ips : Option (List Address) → List Address
resolve_ips none =
    record {
      is_loopback = true;
      is_private = false;
      is_link_local_unicast = false;
      is_unspecified = false;
    }
    ∷ []
resolve_ips (some as_found) = as_found

abbrev pub is_listed : List String → String → Bool
is_listed [] host = true
is_listed (d ∷ ds) host = any (λ x. x =? host) (d ∷ ds)

module _ (lookup : String → Option (List Address)) where
  -- The error, if there is one.
  unfoldable pub validate_webhook : Dispatcher → Option WebhookUrl → Option String
  unfolding resolve_ips
  validate_webhook d none = some "invalid webhook URL"
  validate_webhook d (some u) =
      if d.production && not (u.scheme =? "https")
      then some "production webhooks must use HTTPS"
      else if not (is_listed d.allowlist u.hostname)
      then some "webhook host is not allowlisted"
      else if any is_internal (resolve_ips (lookup u.hostname))
      then some "webhook resolves to a private address"
      else none

-- How a dispatch ended: the error, the requests that were sent, the waits between them in seconds, and
-- the reason with which the alert was put in the queue of dead letters.
pub record Dispatched : Type 0 where
  pub failure : Option String
  pub posts : ℕ
  pub waits : List ℕ
  pub dead_letter : Option String

-- A status from 200 to 299; `none` is an error of the request.
abbrev pub is_success : Option ℕ → Bool
is_success none = false
is_success (some n) = leb 200 n && ltb n 300

abbrev pub after_wait : ℕ → Dispatched → Dispatched
after_wait seconds d = record d { posts = suc d.posts; waits = seconds ∷ d.waits }

abbrev gave_up : Dispatched
gave_up = record {
  failure = some "webhook delivery failed after retries";
  posts = 1;
  waits = [];
  dead_letter = some "max_retries_exceeded";
}

abbrev delivered : Dispatched
delivered = record { failure = none; posts = 1; waits = []; dead_letter = none }

abbrev cancelled : ℕ → Dispatched
cancelled seconds = record {
  failure = some "context canceled";
  posts = 1;
  waits = seconds ∷ [];
  dead_letter = none;
}

-- `replies i` is the end of the request `i`, `stops i` whether the context is done while the loop
-- waits after it. With so many requests left after this one.
unfoldable pub attempt : (ℕ → Option ℕ) → (ℕ → Bool) → ℕ → ℕ → ℕ → Dispatched
attempt replies stops zero i backoff = if is_success (replies i) then delivered else gave_up
attempt replies stops (suc left) i backoff =
    let rest = attempt replies stops left (suc i) (backoff * 2) in
    if is_success (replies i)
    then delivered
    else if stops i
    then cancelled backoff
    else after_wait backoff rest

unfoldable pub after_check : (ℕ → Option ℕ) → (ℕ → Bool) → Option String → Dispatched
unfolding attempt
after_check replies stops none = attempt replies stops 4 0 1
after_check replies stops (some e) = record {
  failure = some e;
  posts = 0;
  waits = [];
  dead_letter = some "invalid_webhook";
}

-- `Dispatch`: five requests at most, the first wait is one second. The body is always encoded.
unfoldable pub dispatch :
    (String → Option (List Address))
    → Dispatcher
    → (ℕ → Option ℕ)
    → (ℕ → Bool)
    → Option WebhookUrl
    → Dispatched
unfolding validate_webhook after_check
dispatch lookup d replies stops url = after_check replies stops (validate_webhook lookup d url)
