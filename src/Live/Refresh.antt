-- ===== src/Live/Refresh.antt =====
-- What a refresh leaves behind, and how the hook enters and leaves the demo mode.
use sentinal.Base.{
  ◌≡◌, refl, arith, Bool, ◌&&◌, true, false, ◌⊎◌, inl, inr, String, none, some, List, Bool-cases,
  ap,
}
use mathlib.Core.Path.{ap₂}
use sentinal.Event.{AnalyticsEvent}
use sentinal.Live.{
  Live, AnalyticsOverview, Action, refreshed, probes, ticked, received, unmounts, Reply,
  network_error, http_error, malformed, body, refresh, step,
}

-- Both requests brought a body, and both bodies are shown.
abbrev pub Loaded : Reply AnalyticsOverview → Reply (List AnalyticsEvent) → Live → Live → Type 0
Loaded o e l k =
    (v : AnalyticsOverview) × (es : List AnalyticsEvent) × (o ≡ body v)
    × (e ≡ body es)
    × (k ≡ record l { overview = some v; events = es; error = none; demo = false; loading = false })

abbrev pub is_body : {A : Type 0} → Reply A → Bool
is_body (body x) = true
is_body (network_error m) = false
is_body http_error = false
is_body (malformed m) = false

-- Not both bodies came. An error is shown over the old events, in the old mode. The overview is the old one too, unless it
-- came and only the list of events could not be read.
abbrev pub Refused : Reply AnalyticsOverview → Reply (List AnalyticsEvent) → Live → Live → Type 0
Refused o e l k =
    (m : String) × ((is_body o && is_body e) ≡ false)
    × (k.error ≡ some m)
    × (k.events ≡ l.events)
    × (k.demo ≡ l.demo)
    × (k.loading ≡ false)
    × ((k.overview ≡ l.overview)
        ⊎ ((v : AnalyticsOverview) × (o ≡ body v) × (e ≡ malformed m) × (k.overview ≡ some v)))

-- A refresh that brings both bodies loads them, clears the error and leaves the demo mode; any other
-- shows an error and keeps the events and the mode; only a list of events that cannot be read lets the new overview
-- stand over the old events.
pub refresh-cases :
    (o : Reply AnalyticsOverview) (e : Reply (List AnalyticsEvent)) (l : Live)
    → Loaded o e l (refresh o e l) ⊎ Refused o e l (refresh o e l)
unfolding refresh
refresh-cases (network_error m) _ l = inr (m, refl, refl, refl, refl, refl, inl refl)
refresh-cases http_error (network_error m) l = inr (m, refl, refl, refl, refl, refl, inl refl)
refresh-cases http_error _ l = inr (_, refl, refl, refl, refl, refl, inl refl)
refresh-cases (malformed k) (network_error m) l = inr (m, refl, refl, refl, refl, refl, inl refl)
refresh-cases (malformed k) http_error l = inr (_, refl, refl, refl, refl, refl, inl refl)
refresh-cases (malformed k) _ l = inr (k, refl, refl, refl, refl, refl, inl refl)
refresh-cases (body o) (network_error m) l = inr (m, refl, refl, refl, refl, refl, inl refl)
refresh-cases (body o) http_error l = inr (_, refl, refl, refl, refl, refl, inl refl)
refresh-cases (body o) (malformed m) l =
    inr (m, refl, refl, refl, refl, refl, inr (o, refl, refl, refl))
refresh-cases (body o) (body es) l = inl (o, es, refl, refl, refl)

-- The demo mode is entered by a probe that finds no backend while the hook is mounted, and left by a
-- refresh that brings both bodies; no other step changes the mode.
pub step-demo :
    (l : Live) (a : Action)
    → ((step l a).demo ≡ l.demo)
      ⊎ ((es : List AnalyticsEvent) × (a ≡ probes false es)
          × (l.mounted ≡ true)
          × ((step l a).demo ≡ true))
      ⊎ ((v : AnalyticsOverview) × (es : List AnalyticsEvent) × (a ≡ refreshed (body v) (body es))
          × ((step l a).demo ≡ false))
unfolding step
step-demo l (refreshed o e) = elim (refresh-cases o e l) [
  | inl (v, es, p, q, k) ↦ inr (inr (v, es, ap₂ refreshed p q, ap (λ (x : Live). x.demo) k))
  | inr (m, some_missing, e', es', d, w, ov) ↦ inl d
]
step-demo l (probes true es) = inl (ground arith)
step-demo l (probes false es) = elim (Bool-cases l.mounted) [
  | inl on ↦ inr (inl (es, refl, on, ground arith))
  | inr off ↦ inl (ground arith)
]
step-demo l (ticked e) = inl refl
step-demo l (received e) = inl (ground arith)
step-demo l unmounts = inl refl
