-- ===== src/Lib.antt =====
-- Sentinel, a fraud-detection system: its dashboard (dashboard/src) and the core of its services.
--
-- Parts. `useAnalytics` (dashboard/src/hooks/useAnalytics.ts) keeps a window of decision events and the
-- counters that every page shows. It asks the gateway for them through a request wrapper that renews
-- expired tokens, receives live events from a reconnecting socket (`useWebSocket`), and falls back
-- to generated events (dashboard/src/lib/demo.ts) where no backend answers. The threat page computes
-- markers, alerts and gauges from the window; alerts go to the notification queue (`ToastProvider`).
-- Behind the gateway, which limits and authenticates requests, stand the auth service with its accounts
-- and sessions, the risk engine, which scores a request by rules, a model and counters, the alert
-- service, which delivers decisions to a webhook, and the analytics service, which stores the events
-- in batches and broadcasts them to the dashboards.
--
-- Files.
--   Base, with Base/Tests, Lists, Text, TextLength, Sort, Cache, Int: shared names, Boolean tests,
--     the stable sort of arrays, a function behind a `Map` of its results, and lemmas.
--   Event: `AnalyticsEvent`, its key and the tests on its action.
--   Session: `apiFetch` and `authHeaders` of dashboard/src/lib/api.ts (`api_fetch`, `auth_headers`),
--     which useAnalytics.ts repeats as `fetchWithRefresh`; `logout` of components/layout/TopBar.tsx and
--     the redirect of components/layout/AuthGate.tsx; Session/Gate: the gate; Session/Rotation: what one
--     call sends and stores.
--     Session/Renewal: `Refresh` of auth-service/internal/service/auth_service.go with the sessions in
--     Redis, auth-service/internal/repository/session_redis.go. Session/Url: `getAPIURL` and the address that
--     dashboard/src/app/login/page.tsx probes.
--   Socket: `useWebSocket` as a step relation (`Step`, `Reach`); Socket/Retry: the backoff; Socket/Alive:
--     the invariant of its sockets and timers.
--   Live: the state of `useAnalytics` and `refresh`, `probed`, `tick`, `receive`, `unmount`, with `step`
--     and `run` over sequences of them; Live/Metrics: `metrics`, `history`, `threatRatio`, `systemLoad`;
--     Live/Window, Merge, Refresh, Demo, Timers: their properties; Live/Labels: `formatTimeLabel`;
--     Live/Clock: the clock of `systemLoad`.
--   Toasts: `ToastProvider` of dashboard/src/components/ui/Toast.tsx; Toasts/Queue, Toasts/Timers.
--   Demo: dashboard/src/lib/demo.ts; Demo/Random: `mulberry32`; Demo/Tables: its vocabularies;
--     Demo/Pick: `weightedPick`; Demo/Event and Demo/Bands: `generateEvent`;
--     Demo/Backfill: `demoBackfill`; Demo/History: the backfill on the charts; Demo/Rollups: `demoGeo`,
--     `demoFraudRate` and `demoTopThreats`; Demo/Buckets: the buckets of the rate.
--   Threats: dashboard/src/app/threats/page.tsx; Threats/Coords: `resolveCoords`; Threats/Jitter: the
--     offset of a marker; Threats/Markers: the markers; Threats/Alerts: the alerts; Threats/Posture: the
--     gauges; Threats/Command: the markers of dashboard/src/app/page.tsx; Threats/Page: the selection and
--     the bars of the countries; Threats/Rollup: its effect.
--   Feed: dashboard/src/components/feed/LiveThreatFeed.tsx with its comparator, `riskLevel` of
--     components/ui/RiskBadge.tsx and the notifications of components/layout/TopBar.tsx; Feed/Memo; Feed/Panel:
--     what an entry shows.
--   Polls: an effect with an interval. Promise: how a promise ends. Radix: JavaScript's
--     `toString(radix)` of a number, a helper.
--   Login: `submit`, the probe and the password policy of dashboard/src/app/login/page.tsx; Login/Submit;
--     Login/Form: its form; Login/Starfield: `LoginStarfield`.
--   Rules: the calls of dashboard/src/lib/api.ts; Rules/Client: when they return; Rules/Messages: the
--     patterns of `useRules`; Rules/Hook: `useRules`; Rules/Editor, Saving, Page: the editor, its
--     `save`, and the list of dashboard/src/app/rules/page.tsx; Rules/Form: the fields of the editor;
--     Rules/Dialogs: its dialogs and deletions; Rules/Rows: what the list shows.
--   System: the probes, `runProbes` and `overall` of dashboard/src/app/system/page.tsx; System/Overall;
--     System/Rows: the rows of the services; System/Polling, Pipeline: when it probes, and its strip.
--   Analytics: the counts of dashboard/src/app/analytics/page.tsx; Analytics/Counts; Analytics/Rollups:
--     its effect.
--   Palette: the command palette of dashboard/src/components/layout/TopBar.tsx; Palette/Keys.
--   WorldMap: dashboard/src/components/map/WorldThreatMap.tsx; WorldMap/Atlas: `loadAtlas` and the effect
--     of a map; WorldMap/Loading, Views: the cell that it implements and what a map draws;
--     WorldMap/Paths: `countryPath` with its cache; WorldMap/Arcs, Targets: the order of the threats and
--     the arcs; WorldMap/Memo, Stale: the markers and the comparator of the export.
--   Hud: dashboard/src/components/hud/HUDAmbientLayer.tsx; Hud/Frames, Loops: the animation loop of the
--     constellation; Hud/Canvas, Particles, Links: its size, particles and lines; Hud/Boot, BootTime: `BootSequence`
--     with its timers; Hud/Readouts: `TelemetryTicker`, `HUDStatChip` and `TacticalRadar`.
--   Widgets: dashboard/src/components/ui; Widgets/Tween, Tweens, Shown: `AnimatedNumber`; Widgets/Gauge:
--     `Gauge`; Widgets/Metric: `MetricCard`; Widgets/Format: `formatValue`.
--   Shell: Shell/Gate: when `Shell` of components/layout/AppShell.tsx shows the boot sequence, and the
--     active entry of components/layout/Sidebar.tsx; Shell/Ticker: `tickerItems`; Shell/Arrival:
--     `lastEventAt` of components/live/LiveContext.tsx; Shell/TopBar: the clock, badge, menus and
--     shortcut of components/layout/TopBar.tsx.
--   Ledger: dashboard/src/app/transactions/page.tsx. CommandCenter: what dashboard/src/app/page.tsx hands
--     to its instruments.
--   Gateway: gateway/internal; Gateway/Limiter, Limits, Windows: `Allow` of
--     ratelimit/sliding_window.go;
--     Gateway/Headers, Access: `VerifyJWT` and `RateLimit` of middleware; Gateway/Keys: the key of the
--     tokens.
--   Risk: risk-engine/app; Risk/Admin: `require_admin` behind the gateway and its
--     proxy, `Director` of gateway/internal/proxy/proxy.go; Risk/Repo: the table of the
--     rules; Risk/Engine, Firing: `load_rules` and `evaluate`; Risk/Api, Refusals, Coherence: the calls of
--     api/v1/rules.py; Risk/Scores, Bounds: the scores and `aggregate`; Risk/Decision, Scoring:
--     `score_request` of api/v1/score.py.
--   Alerts: alert-service; Alerts/Gate, Rates: `AllowAlert`; Alerts/Dispatch, Delivery: `Dispatch`;
--     Alerts/Consumer: a message of the loop of kafka.go.
--   Auth: auth-service/internal; Auth/Password: `ValidatePassword`; Auth/Accounts, Lockout: `RegisterUser`
--     and `Login` with the statements of repository/user_postgres.go; Auth/Registration: the form of
--     the sign-in page and `RegisterUser`.
--   Ingest: analytics-service/internal; Ingest/Batch, Told, Answers: batch/engine.go; Ingest/Hub, Clients, Lag:
--     the fan-out of api/websocket.go.
--   Tests: runs on concrete data.
--
-- Conventions. A setter of React's state is applied at once, and a microtask runs at once. What is not
-- in the repository is a parameter or an input: the browser's `fetch`, its sockets and timers, the clock
-- (`to_iso`, `get_time`), `toUpperCase`, cosine and sine, the map's projection and path
-- generator, the token service, bcrypt, the parser of the rules' expressions, the model, DNS, and the
-- conversion of a number to `float64`. Redis runs a pipeline or a script at once, Postgres a statement
-- at once; the services' requests, messages and signals are sequences of steps.
-- A risk score is a number of hundredths of a point, to which the engine rounds. Inside the
-- generator a score is a number of 1 / 2^32 points, which is exact. A coordinate is a number of
-- 1 / (100 * 2^31) degree. A rate is an unrounded pair of part and whole. 32-bit integers are bit
-- patterns below 2^32 with their wrap-around written out. Sums and products that the source
-- computes in floating point are exact here.
--
-- The animation of a number counts hundredths; time in the boot sequence passes in ticks of 10 ms, of
-- which all its delays are multiples; the browser calls a frame's callbacks while the tab is visible.
--
-- Bounds and fuel. The printing of numbers (Radix) recurses on fuel: one more than the number, and
-- a number has no more digits than that. A dispatch of an alert recurses on the requests that are
-- left, of which there are five, and the gateway's search for the key on its thirty attempts. Every
-- other loop is a recursion on a list or a counter.
--
-- Not modelled: markup, styles and drawing; the projection and the paths of the world map and the
-- charts, which are libraries', and the control points of the arcs; the locale's printing of numbers
-- and dates; of the services the wiring, metrics and configuration, the extraction of the features
-- with their store, the cache of the address lookups, the loading of the model and its explanations,
-- calls of the rules that overlap while one waits for Postgres, the queries of ClickHouse and the reading of Kafka's topics.
pub mod Base
pub mod Event
pub mod Session
pub mod Socket
pub mod Live
pub mod Toasts
pub mod Demo
pub mod Threats
pub mod Alerts
pub mod Analytics
pub mod Auth
pub mod CommandCenter
pub mod Feed
pub mod Gateway
pub mod Hud
pub mod Ingest
pub mod Ledger
pub mod Login
pub mod Palette
pub mod Polls
pub mod Promise
pub mod Radix
pub mod Risk
pub mod Rules
pub mod Shell
pub mod System
pub mod Widgets
pub mod WorldMap
pub mod Tests
