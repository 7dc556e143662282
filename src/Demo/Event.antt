-- ===== src/Demo/Event.antt =====
-- `generateEvent` of dashboard/src/lib/demo.ts. `to_iso` is `Date.prototype.toISOString`.
use sentinal.Base.{
  ℕ, suc, ◌+◌, ◌*◌, ◌/◌, ◌^◌, Option, none, some, String, List, get_elem?, ◌or◌, ltb, leb,
  if◌then◌else◌, ◌<>◌, Bool,
}
use sentinal.Base.Int.{ℤ, sub_ℕ, ◌+ℤ◌}
use sentinal.Event.{AnalyticsEvent}
use sentinal.Demo.Random.{word, next_seed, output}
use sentinal.Demo.Pick.{weighted_pick}
use sentinal.Radix.{to_radix}
use sentinal.Demo.Tables.{
  Country, EventType, country_pool, event_types, suspicious_ip_prefix, normal_ip_prefix,
}

-- The calls of `rand()` for one event, in their order.
pub record Draws : Type 0 where
  pub country : ℕ
  pub event_type : ℕ
  pub roll : ℕ
  pub risk : ℕ
  pub prefix : ℕ
  pub octet3 : ℕ
  pub octet4 : ℕ
  pub lat : ℕ
  pub lon : ℕ
  pub user : ℕ

unfoldable pub draws : ℕ → Draws × ℕ
draws seed =
    let s1 = next_seed seed in
    let s2 = next_seed s1 in
    let s3 = next_seed s2 in
    let s4 = next_seed s3 in
    let s5 = next_seed s4 in
    let s6 = next_seed s5 in
    let s7 = next_seed s6 in
    let s8 = next_seed s7 in
    let s9 = next_seed s8 in
    let s10 = next_seed s9 in
    (
      record {
        country = output s1;
        event_type = output s2;
        roll = output s3;
        risk = output s4;
        prefix = output s5;
        octet3 = output s6;
        octet4 = output s7;
        lat = output s8;
        lon = output s9;
        user = output s10;
      },
      s10,
    )

-- `n` points as a score with denominator 2 ^ 32.
abbrev pub exact_points : ℕ → ℕ
exact_points n = n * word

-- `roll < p / 100`
abbrev pub below : ℕ → ℕ → Bool
below roll p = ltb (roll * 100) (p * word)

unfoldable pub score_of : ℕ → ℕ → ℕ
score_of roll r =
    if below roll 62
    then exact_points 5 + r * 25
    else if below roll 86
    then exact_points 30 + r * 25
    else if below roll 97
    then exact_points 55 + r * 25
    else exact_points 80 + r * 19

unfoldable pub action_of : ℕ → String
action_of s =
    if leb (exact_points 80) s
    then "BLOCK"
    else if leb (exact_points 55) s
    then "CHALLENGE"
    else if leb (exact_points 35) s
    then "REVIEW"
    else "ALLOW"

-- `Math.round(score * 10) / 10`, in hundredths of a point.
unfoldable pub shown_score : ℕ → ℕ
shown_score s = (s * 20 + word) / (2 * word) * 10

-- `list[Math.floor(rand() * list.length)]`; a missing element prints as "undefined".
abbrev pub pick_prefix : List String → ℕ → String
pick_prefix prefixes k = get_elem? prefixes (k * 8 / word) or "undefined"

unfoldable pub ip_of : ℕ → Draws → String
ip_of s d =
    let prefix =
      if ltb (exact_points 55) s
      then pick_prefix suspicious_ip_prefix d.prefix
      else pick_prefix normal_ip_prefix d.prefix in
    prefix
    <> ("."
        <> (to_radix 10 (d.octet3 * 255 / word) <> ("." <> to_radix 10 (d.octet4 * 255 / word))))

-- `(rand() - 0.5) * 6` degrees.
unfoldable pub jitter : ℕ → ℤ
jitter k = sub_ℕ (k * 300) (2 ^ 31 * 300)

unfoldable pub build_event : ℕ → ℕ → String → Draws → Country → EventType → AnalyticsEvent
build_event now seq timestamp d country event_type =
    let s = score_of d.roll d.risk in
    let id = "demo-" <> (to_radix 36 now <> ("-" <> to_radix 10 seq)) in
    record {
      id = some id;
      event_id = some id;
      event_type = event_type.name;
      user_id = some ("usr_" <> to_radix 36 (d.user * 900000 / word + 100000));
      ip_address = some (ip_of s d);
      timestamp = timestamp;
      action = some (action_of s);
      risk_score = some (shown_score s);
      country_code = some country.code;
      country = some country.name;
      lat = some (country.lat +ℤ jitter d.lat);
      lon = some (country.lon +ℤ jitter d.lon);
    }

-- The event, or `none` where a pick is undefined and the source throws.
unfoldable pub assemble :
    ℕ → ℕ → String → Draws → Option Country → Option EventType → Option AnalyticsEvent
assemble now seq timestamp d (some c) (some t) = some (build_event now seq timestamp d c t)
assemble now seq timestamp d none t = none
assemble now seq timestamp d (some c) none = none

-- The state of the module: the seed of a generator, and `seq`.
pub record Source : Type 0 where
  pub seed : ℕ
  pub seq : ℕ

unfoldable pub generate_event : (ℕ → String) → ℕ → Source → Option AnalyticsEvent × Source
unfolding draws assemble
generate_event to_iso now g =
    let (d, seed') = draws g.seed in
    let country = weighted_pick (λ (c : Country). c.weight) country_pool d.country in
    let event_type = weighted_pick (λ (t : EventType). t.weight) event_types d.event_type in
    (
      assemble now (suc g.seq) (to_iso now) d country event_type,
      record { seed = seed'; seq = suc g.seq },
    )
