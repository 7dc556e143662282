-- ===== src/Threats/Alerts.antt =====
-- The critical-threat notifications of dashboard/src/app/threats/page.tsx: the effect that scans the
-- window, with the set `alertedRef`.
use sentinal.Base.{
  ◌≡◌, refl, arith, String, Option, none, some, List, [], ◌∷◌, Bool, true, false, ◌&&◌,
  if◌then◌else◌, ◌=?◌, leb, any, All, truthy, Bool-cases, inl, inr, ◌∙◌, sym, subst, Option-cases,
}
use text.Mathlib.TextPositions.{eq_refl}
use sentinal.Event.{AnalyticsEvent, event_key, is_blocked, score, points}

-- `e.action === "BLOCK" && (e.risk_score ?? 0) >= 85`
unfoldable pub is_critical : AnalyticsEvent → Bool
is_critical e = is_blocked e && leb (points 85) (score e)

-- The identifier under which an event is alerted: none if it is missing or empty, or if the event is
-- not critical.
abbrev keep : Bool → Option String → Option String
keep true k = k
keep false k = none

unfoldable pub alert_id : AnalyticsEvent → Option String
alert_id e = keep (truthy (event_key e) && is_critical e) (event_key e)

abbrev pub alerted : String → List String → Bool
alerted id ids = any (λ k. k =? id) ids

abbrev fresh : List String → Option String → Option String
fresh ids none = none
fresh ids (some k) = if alerted k ids then none else some k

-- The identifier of an event that is alerted now.
unfoldable pub fresh_id : List String → AnalyticsEvent → Option String
fresh_id ids e = fresh ids (alert_id e)

-- The scan: the identifiers alerted so far, and the events for which a toast is shown now.
unfoldable pub scan : List String → List AnalyticsEvent → List String × List AnalyticsEvent
scan ids [] = (ids, [])
scan ids (e ∷ es) = elim (fresh_id ids e) [
  | none ↦ scan ids es
  | some id ↦ ((scan (id ∷ ids) es).0, e ∷ (scan (id ∷ ids) es).1)
]

scan-none :
    (ids : List String) (e : AnalyticsEvent) (es : List AnalyticsEvent)
    → fresh_id ids e ≡ none
    → scan ids (e ∷ es) ≡ scan ids es
unfolding scan
scan-none ids e es h = rw (h, scan) refl

scan-some :
    (ids : List String) (e : AnalyticsEvent) (es : List AnalyticsEvent) (id : String)
    → fresh_id ids e ≡ some id
    → scan ids (e ∷ es) ≡ ((scan (id ∷ ids) es).0, e ∷ (scan (id ∷ ids) es).1)
unfolding scan
scan-some ids e es id h = rw (h, scan) refl

-- What has been alerted stays so.
scan-alerted :
    (ids : List String) (es : List AnalyticsEvent) (id : String)
    → alerted id ids ≡ true
    → alerted id (scan ids es).0 ≡ true
scan-alerted ids [] id h = unfold scan in h
scan-alerted ids (e ∷ es) id h = elim (Option-cases (fresh_id ids e)) [
  | inl quiet ↦ rw (scan-none ids e es quiet) (scan-alerted ids es id h)
  | inr (k, new) ↦ rw (scan-some ids e es k new) (scan-alerted (k ∷ ids) es id (ground arith))
]

fresh-none :
    (ids ids' : List String) (k : Option String)
    → ((id : String) → alerted id ids ≡ true → alerted id ids' ≡ true)
    → fresh ids k ≡ none
    → fresh ids' k ≡ none
fresh-none ids ids' none grows h = refl
fresh-none ids ids' (some k) grows h = elim (Bool-cases (alerted k ids)) [
  | inl old ↦ rw (grows k old) refl
  | inr new ↦ absurd (differ (rw new at h))
]
  where
    differ : some k ≡ none → ⊥
    differ e = cc

fresh-eq-some :
    (ids : List String) (k : Option String) (id : String)
    → fresh ids k ≡ some id
    → (k ≡ some id) × (alerted id ids ≡ false)
fresh-eq-some ids none id h = absurd (nothing h)
  where
    nothing : none ≡ some id → ⊥
    nothing e = cc
fresh-eq-some ids (some k) id h = ground arith

fresh-alerted :
    (ids : List String) (o : Option String) (id : String)
    → o ≡ some id
    → alerted id ids ≡ true
    → fresh ids o ≡ none
fresh-alerted ids o id e h = rw (e, h) refl

keep-true : (a b : Bool) (o : Option String) (k : String) → keep (a && b) o ≡ some k → b ≡ true
keep-true true true o k h = refl
keep-true true false o k h = cc
keep-true false b o k h = cc

fresh_id-critical :
    (ids : List String) (e : AnalyticsEvent) (k : String)
    → fresh_id ids e ≡ some k
    → is_critical e ≡ true
unfolding fresh_id alert_id
fresh_id-critical ids e k h =
    keep-true (truthy (event_key e)) (is_critical e) (event_key e) k
      (fresh-eq-some ids (alert_id e) k h).0

-- No event of the list is due for an alert.
abbrev pub Quiet : List String → List AnalyticsEvent → Type 0
Quiet ids es = All (λ e. fresh_id ids e ≡ none) es

scan-Quiet : (ids : List String) (es : List AnalyticsEvent) → Quiet (scan ids es).0 es
unfolding fresh_id
scan-Quiet ids [] = tt
scan-Quiet ids (e ∷ es) = elim (Option-cases (fresh_id ids e)) [
  | inl quiet ↦
      subst (λ (r : List String × List AnalyticsEvent). Quiet r.0 (e ∷ es))
        (sym (scan-none ids e es quiet))
        (fresh-none ids _ (alert_id e) (λ id. scan-alerted ids es id) quiet, scan-Quiet ids es)
  | inr (k, new) ↦
      subst (λ (r : List String × List AnalyticsEvent). Quiet r.0 (e ∷ es))
        (sym (scan-some ids e es k new))
        (
          fresh-alerted _ (alert_id e) k (fresh-eq-some ids (alert_id e) k new).0
              (scan-alerted (k ∷ ids) es k (ground (arith, eq_refl k))),
          scan-Quiet (k ∷ ids) es,
        )
]

Quiet-scan : (ids : List String) (es : List AnalyticsEvent) → Quiet ids es → scan ids es ≡ (ids, [])
Quiet-scan ids [] q = unfold scan in refl
Quiet-scan ids (e ∷ es) q = scan-none ids e es q.0 ∙ Quiet-scan ids es q.1

-- An event is toasted only if it is critical.
scan-critical :
    (ids : List String) (es : List AnalyticsEvent) → All (λ e. is_critical e ≡ true) (scan ids es).1
scan-critical ids [] = unfold scan in tt
scan-critical ids (e ∷ es) = elim (Option-cases (fresh_id ids e)) [
  | inl quiet ↦ rw (scan-none ids e es quiet) (scan-critical ids es)
  | inr (k, new) ↦
      rw (scan-some ids e es k new) (fresh_id-critical ids e k new, scan-critical (k ∷ ids) es)
]

-- A scan toasts critical events only, and once it is done a second scan of the same window toasts
-- nothing and remembers the same identifiers.
pub scan-scan :
    (ids : List String) (es : List AnalyticsEvent)
    → All (λ e. is_critical e ≡ true) (scan ids es).1
      × (scan (scan ids es).0 es ≡ ((scan ids es).0, []))
scan-scan ids es = (scan-critical ids es, Quiet-scan (scan ids es).0 es (scan-Quiet ids es))
