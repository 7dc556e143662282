-- ===== src/System/Overall.antt =====
-- What the overall state of the health page says of the services.
use sentinal.Base.{ℕ, ◌≡◌, refl, Bool, true, false, not, ◌||◌, ◌&&◌, Option, none, some, ltb, arith}
use sentinal.Session.{is_ok}
use sentinal.System.{
  ServiceStatus, Health, Answer, Answers, Telemetry, gateway_probe, health_probe, is_healthy,
  auth_probe, analytics_probe, websocket_row, clickhouse_row, risk_row, real_probes, run_probes,
  lookup_probe, overall, is_down, is_degraded, is_status_ok,
}

-- The answer is a success.
abbrev pub succeeds : {P : Type 0} → Answer P → Bool
succeeds none = false
succeeds (some (latency, r)) = is_ok r

abbrev reports_redis : Option Health → Bool
reports_redis none = false
reports_redis (some h) = is_healthy h

-- The answer is a success, can be read, and reports a healthy Redis.
abbrev pub healthy : Answer (Option Health) → Bool
healthy none = false
healthy (some (latency, r)) = is_ok r && reports_redis r.payload

abbrev pub reached : {P : Type 0} → Answer P → Bool
reached none = false
reached (some x) = true

abbrev is_read : Option Health → Bool
is_read none = false
is_read (some h) = true

-- The answer is no success, or it can be read.
abbrev pub readable : Answer (Option Health) → Bool
readable none = false
readable (some (latency, r)) = not (is_ok r) || is_read r.payload

-- The state is OK, and the state is down, exactly where the two tests hold.
abbrev Reads : ServiceStatus → Bool → Bool → Type 0
Reads s up lost = (is_status_ok s ≡ up) × (is_down s ≡ lost) × (is_degraded s ≡ not (up || lost))

auth_probe-Reads :
    {P : Type 0} (a : Answer P) → Reads (auth_probe a).status (succeeds a) (not (reached a))
unfolding auth_probe
auth_probe-Reads none = (refl, refl, refl)
auth_probe-Reads (some (latency, r)) = ground arith

analytics_probe-Reads :
    {P : Type 0} (a : Answer P) → Reads (analytics_probe a).status (succeeds a) (not (reached a))
unfolding analytics_probe is_ok
analytics_probe-Reads none = (refl, refl, refl)
analytics_probe-Reads (some (latency, r)) = ground arith

health_probe-Reads :
    (latency : ℕ) (o : Option Health)
    → Reads (health_probe latency o).status (reports_redis o) (not (is_read o))
unfolding health_probe
health_probe-Reads latency none = (refl, refl, refl)
health_probe-Reads latency (some h) = ground arith

gateway_probe-Reads :
    (a : Answer (Option Health)) → Reads (gateway_probe a).status (healthy a) (not (readable a))
unfolding gateway_probe
gateway_probe-Reads none = (refl, refl, refl)
gateway_probe-Reads (some (latency, r)) = ground (arith, health_probe-Reads latency r.payload)

-- On a run against real services the page shows OK exactly if the gateway reports a healthy Redis, the
-- auth and the analytics service answer with a success, the socket is connected and the window has
-- events. It shows DOWN exactly if the gateway's answer is missing or unreadable, another service does
-- not answer, or the socket is not connected.
pub run_probes-overall :
    {P Q : Type 0} (t : Telemetry) (a : Answers P Q)
    → t.demo ≡ false
    → (is_status_ok (overall (run_probes t a)) ≡ (
        healthy a.gateway
        && succeeds a.auth
        && succeeds a.analytics
        && t.is_connected
        && ltb 0 t.events))
      × (is_down (overall (run_probes t a)) ≡ (
          not (readable a.gateway)
          || not (reached a.auth)
          || not (reached a.analytics)
          || not t.is_connected))
unfolding run_probes overall real_probes lookup_probe clickhouse_row websocket_row risk_row
run_probes-overall t a d = ground (
  arith,
  gateway_probe-Reads a.gateway,
  auth_probe-Reads a.auth,
  analytics_probe-Reads a.analytics,
)
