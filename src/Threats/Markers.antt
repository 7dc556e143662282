-- ===== src/Threats/Markers.antt =====
-- The markers on the map: the memo `threats` of dashboard/src/app/threats/page.tsx and `mapThreats` of
-- dashboard/src/app/page.tsx.
use sentinal.Base.{
  ℕ, ◌*◌, ◌≤◌, ◌≡◌, refl, arith, String, Option, none, some, List, [], ◌∷◌, Bool, false, not,
  if◌then◌else◌, ◌or◌, or_else, ◌=?◌, is_text-eq, any, All, length, Bool-cases, inl, inr,
  Option-cases, sym, ◌∙◌, subst,
}
use sentinal.Base.Int.{ℤ, pos_part, neg_part, sub_ℕ, ◌+ℤ◌}
use sentinal.Event.{AnalyticsEvent, centidegree, score, is_blocked}
use sentinal.Threats.Coords.{Coords, resolve_coords}
use sentinal.Threats.Jitter.{hash_key, jitter_lat, jitter_lon}

pub record GeoThreat : Type 0 where
  pub id : String
  pub lat : ℤ
  pub lon : ℤ
  pub score : ℕ
  pub action : String
  pub label : Option String
  pub ip : String
  pub time : String

pub data MapFilter : Type 0 where
  all blocked : MapFilter

-- `e.ip_address ?? e.event_id ?? "anon"`
unfoldable pub marker_key : AnalyticsEvent → String
marker_key e = or_else e.ip_address e.event_id or "anon"

-- Hundredths of a degree, in the unit of coordinates.
abbrev scaled : ℤ → ℤ
scaled z = sub_ℕ (pos_part z * centidegree) (neg_part z * centidegree)

-- `lat` and `lon` of the event, if it has both.
abbrev pub direct : Option ℤ → Option ℤ → Option Coords
direct none lon = none
direct (some a) none = none
direct (some a) (some b) = some (record { lat = a; lon = b })

unfoldable pub place : (String → String) → AnalyticsEvent → Option Coords
place upper e = or_else (direct e.lat e.lon) (resolve_coords upper e)

unfoldable pub marker : AnalyticsEvent → Coords → GeoThreat
unfolding marker_key
marker e c =
    let h = hash_key (marker_key e) in
    record {
      id = or_else e.id e.event_id or marker_key e;
      lat = c.lat +ℤ scaled (jitter_lat h);
      lon = c.lon +ℤ scaled (jitter_lon h);
      score = score e;
      action = e.action or "ALLOW";
      label = e.ip_address;
      ip = e.ip_address or "unknown";
      time = e.timestamp;
    }

-- `mapFilter === "blocked" && e.action !== "BLOCK"`
unfoldable pub filtered_out : MapFilter → AnalyticsEvent → Bool
filtered_out all e = false
filtered_out blocked e = not (is_blocked e)

abbrev pub seen_before : String → List String → Bool
seen_before key seen = any (λ k. k =? key) seen

-- The loop over the events, with the set `seen`; a `continue` is the rest of the loop as it is.
unfoldable pub threats_from :
    (String → String) → MapFilter → List String → List AnalyticsEvent → List GeoThreat
threats_from upper f seen [] = []
threats_from upper f seen (e ∷ es) =
    let skipped = threats_from upper f seen es in
    let kept = λ (c : Coords). marker e c ∷ threats_from upper f (marker_key e ∷ seen) es in
    if seen_before (marker_key e) seen
    then skipped
    else if filtered_out f e
    then skipped
    else elim (place upper e) [ none ↦ skipped | some c ↦ kept c ]

unfoldable pub threats : (String → String) → MapFilter → List AnalyticsEvent → List GeoThreat
unfolding threats_from
threats upper f es = threats_from upper f [] es

-- Every event of the list has an address.
abbrev pub HaveIps : List AnalyticsEvent → Type 0
HaveIps es = All (λ e. (ip : String) × (e.ip_address ≡ some ip)) es

-- No two markers have the same address, and none has an address of `seen`.
abbrev pub DistinctIps : List String → List GeoThreat → Type 0
DistinctIps seen [] = Unit {0}
DistinctIps seen (t ∷ ts) = (seen_before t.ip seen ≡ false) × DistinctIps (t.ip ∷ seen) ts

marker-ip :
    (e : AnalyticsEvent) (c : Coords) (ip : String)
    → e.ip_address ≡ some ip
    → ((marker e c).ip ≡ ip) × (marker_key e ≡ ip)
unfolding marker marker_key
marker-ip e c ip h = (rw h refl, rw h refl)

abbrev pub Shown : MapFilter → GeoThreat → Type 0
Shown all t = Unit {0}
Shown blocked t = t.action ≡ "BLOCK"

-- What the loop adds to the markers for the addresses in `seen`.
abbrev pub Sound : MapFilter → List String → List AnalyticsEvent → List GeoThreat → Type 0
Sound f seen es ts = DistinctIps seen ts × (length ts ≤ length es) × All (Shown f) ts

Sound-skip :
    (f : MapFilter) (seen : List String) (e : AnalyticsEvent) (es : List AnalyticsEvent)
    (ts : List GeoThreat)
    → Sound f seen es ts
    → Sound f seen (e ∷ es) ts
Sound-skip f seen e es ts v = (v.0, omega (arith, v.1), v.2)

marker-Shown :
    (f : MapFilter) (e : AnalyticsEvent) (c : Coords)
    → filtered_out f e ≡ false
    → Shown f (marker e c)
unfolding marker filtered_out is_blocked
marker-Shown all e c h = tt
marker-Shown blocked e c h = rw (is_text-eq e.action "BLOCK" (ground arith)) refl

Sound-keep :
    (f : MapFilter) (seen : List String) (e : AnalyticsEvent) (es : List AnalyticsEvent)
    (c : Coords) (ip : String) (ts : List GeoThreat)
    → e.ip_address ≡ some ip
    → seen_before (marker_key e) seen ≡ false
    → filtered_out f e ≡ false
    → Sound f (marker_key e ∷ seen) es ts
    → Sound f seen (e ∷ es) (marker e c ∷ ts)
Sound-keep f seen e es c ip ts has new passes v =
    let (i, k) = marker-ip e c ip has in
    let same : (marker e c).ip ≡ marker_key e = i ∙ sym k in
    (
      (rw same new, subst (λ j. DistinctIps (j ∷ seen) ts) (sym same) v.0),
      omega (arith, v.1),
      (marker-Shown f e c passes, v.2),
    )

threats_from-Sound :
    (upper : String → String) (f : MapFilter) (seen : List String) (es : List AnalyticsEvent)
    → HaveIps es
    → Sound f seen es (threats_from upper f seen es)
unfolding threats_from
threats_from-Sound upper f seen [] h = (tt, omega arith, tt)
threats_from-Sound upper f seen (e ∷ es) h = elim (Bool-cases (seen_before (marker_key e) seen)) [
  | inl old ↦ rw old (Sound-skip f seen e es _ (threats_from-Sound upper f seen es h.1))
  | inr new ↦ elim (Bool-cases (filtered_out f e)) [
    | inl out ↦ rw (new, out) (Sound-skip f seen e es _ (threats_from-Sound upper f seen es h.1))
    | inr passes ↦ elim (Option-cases (place upper e)) [
      | inl nowhere ↦
          rw (new, passes, nowhere)
            (Sound-skip f seen e es _ (threats_from-Sound upper f seen es h.1))
      | inr (c, found) ↦
          rw (new, passes, found)
            (Sound-keep f seen e es c h.0.0 _ h.0.1 new passes
              (threats_from-Sound upper f (marker_key e ∷ seen) es h.1))
    ]
  ]
]

-- For events that have addresses, the map shows at most one marker for each address, no more markers
-- than events, and under the filter "blocked" only markers of blocked events.
pub threats-Sound :
    (upper : String → String) (f : MapFilter) (es : List AnalyticsEvent)
    → HaveIps es
    → Sound f [] es (threats upper f es)
unfolding threats
threats-Sound upper f es h = threats_from-Sound upper f [] es h
