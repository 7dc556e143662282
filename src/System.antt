-- ===== src/System.antt =====
-- The health page, dashboard/src/app/system/page.tsx: the probes of the services, `runProbes` and the
-- overall state. A probe is given by how its `fetch` ends: `none` where it throws, else the latency in
-- milliseconds and the response, whose payload is `none` where `json()` throws.
pub mod Overall
pub mod Rows
pub mod Polling
pub mod Pipeline
use sentinal.Base.{
  ℕ, Bool, true, false, not, ◌||◌, ◌&&◌, String, Option, none, some, List, [], ◌∷◌, ◌<>◌, ◌==◌,
  ◌=?◌, is_text, any, length, ltb, if◌then◌else◌,
}
use sentinal.Session.{Response, is_ok}
use sentinal.Radix.{to_radix}

pub data ServiceStatus : Type 0 where
  checking ok degraded down : ServiceStatus

pub record Probe : Type 0 where
  pub status : ServiceStatus
  pub detail : Option String
  pub latency_ms : ℕ

-- The body of the gateway's `/health`.
pub record Health : Type 0 where
  pub redis : Option String
  pub auth_key : Option String

abbrev pub Answer : Type 0 → Type 0
Answer P = Option (ℕ × Response P)

unfoldable pub unreachable : Probe
unreachable = record { status = down; detail = some "Unreachable"; latency_ms = 0 }

abbrev pub http_detail : ℕ → String
http_detail status = "HTTP " <> to_radix 10 status

unfoldable pub is_healthy : Health → Bool
is_healthy h = is_text h.redis "true" || is_text h.redis "ok"

unfoldable pub health_probe : ℕ → Option Health → Probe
unfolding unreachable is_healthy
health_probe latency none = unreachable
health_probe latency (some h) = record {
  status = if is_healthy h then ok else degraded;
  detail = some (if is_healthy h then "Redis + auth key OK" else "Dependency degraded");
  latency_ms = latency;
}

unfoldable pub gateway_probe : Answer (Option Health) → Probe
unfolding unreachable is_ok health_probe
gateway_probe none = unreachable
gateway_probe (some (latency, r)) =
    if not (is_ok r)
    then record { status = degraded; detail = some (http_detail r.status); latency_ms = latency }
    else health_probe latency r.payload

unfoldable pub auth_probe : {P : Type 0} → Answer P → Probe
unfolding unreachable is_ok
auth_probe none = unreachable
auth_probe (some (latency, r)) =
    if not (is_ok r)
    then record { status = degraded; detail = some (http_detail r.status); latency_ms = latency }
    else record { status = ok; detail = some "JWT signing key available"; latency_ms = latency }

unfoldable pub analytics_probe : {P : Type 0} → Answer P → Probe
unfolding unreachable is_ok
analytics_probe none = unreachable
analytics_probe (some (latency, r)) =
    if r.status == 401
    then record {
      status = degraded;
      detail = some "Auth required (expired token)";
      latency_ms = latency;
    }
    else if not (is_ok r)
    then record { status = degraded; detail = some (http_detail r.status); latency_ms = latency }
    else record { status = ok; detail = some "ClickHouse responding"; latency_ms = latency }

-- `Record<string, Probe>`, in the order of insertion.
abbrev pub ProbeState : Type 0
ProbeState = List (String × Probe)

unfoldable pub lookup_probe : String → ProbeState → Option Probe
lookup_probe k [] = none
lookup_probe k ((j, p) ∷ ps) = if j =? k then some p else lookup_probe k ps

abbrev pub is_status_ok : ServiceStatus → Bool
is_status_ok ok = true
is_status_ok _ = false

unfoldable pub websocket_row : Bool → Probe
websocket_row connected = record {
  status = if connected then ok else down;
  detail = some (if connected then "Streaming live events" else "Reconnecting…");
  latency_ms = 0;
}

unfoldable pub clickhouse_row : Option Probe → Probe
clickhouse_row none = record { status = checking; detail = none; latency_ms = 0 }
clickhouse_row (some p) = record p {
  detail = some (if is_status_ok p.status then "Serving queries" else "Degraded");
}

abbrev analytics_ok : Option Probe → Bool
analytics_ok none = false
analytics_ok (some p) = is_status_ok p.status

unfoldable pub risk_row : Option Probe → ℕ → Probe
risk_row analytics events = record {
  status = if analytics_ok analytics && ltb 0 events then ok else degraded;
  detail =
      some
        (if ltb 0 events then to_radix 10 events <> " events buffered" else "No recent decisions");
  latency_ms = 0;
}

abbrev row : String → ServiceStatus → String → ℕ → String × Probe
row key status detail latency =
    (key, record { status = status; detail = some detail; latency_ms = latency })

unfoldable pub demo_probes : ℕ → ProbeState
demo_probes events =
    row "gateway" ok "Simulated · routing 100% of traffic" 24
    ∷ row "auth" ok "Simulated · RS256 keys rotating" 31
    ∷ row "analytics" ok "Simulated · batch inserts flowing" 42
    ∷ row "websocket" ok "Simulated stream · 1.4s cadence" 0
    ∷ row "clickhouse" degraded "Simulated · 2 of 3 replicas healthy" 12
    ∷ row "risk" ok ("Simulated · " <> (to_radix 10 events <> " events in window")) 18
    ∷ []

-- What the page reads of `useLive`.
pub record Telemetry : Type 0 where
  pub is_connected : Bool
  pub events : ℕ
  pub demo : Bool

-- How the three requests of a run end.
pub record Answers (P Q : Type 0) : Type 0 where
  pub gateway : Answer (Option Health)
  pub auth : Answer P
  pub analytics : Answer Q

-- The three probes, and the rows that are derived from them.
unfoldable pub real_probes : {P Q : Type 0} → Telemetry → Answers P Q → ProbeState
unfolding gateway_probe auth_probe analytics_probe websocket_row clickhouse_row risk_row
    lookup_probe
real_probes t a =
    let probed =
      ("gateway", gateway_probe a.gateway)
      ∷ ("auth", auth_probe a.auth)
      ∷ ("analytics", analytics_probe a.analytics)
      ∷ [] in
    let analytics = lookup_probe "analytics" probed in
    ("gateway", gateway_probe a.gateway)
    ∷ ("auth", auth_probe a.auth)
    ∷ ("analytics", analytics_probe a.analytics)
    ∷ ("websocket", websocket_row t.is_connected)
    ∷ ("clickhouse", clickhouse_row analytics)
    ∷ ("risk", risk_row analytics t.events)
    ∷ []

-- `runProbes()`
unfoldable pub run_probes : {P Q : Type 0} → Telemetry → Answers P Q → ProbeState
unfolding real_probes demo_probes
run_probes t a = if t.demo then demo_probes t.events else real_probes t a

abbrev pub is_down : ServiceStatus → Bool
is_down down = true
is_down _ = false

abbrev pub is_degraded : ServiceStatus → Bool
is_degraded degraded = true
is_degraded _ = false

unfoldable pub overall : ProbeState → ServiceStatus
overall ps =
    if length ps == 0
    then checking
    else if any (λ (p : String × Probe). is_down p.1.status) ps
    then down
    else if any (λ (p : String × Probe). is_degraded p.1.status) ps
    then degraded
    else ok
