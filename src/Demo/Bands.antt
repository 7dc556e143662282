-- ===== src/Demo/Bands.antt =====
-- The score of a generated event, its action and its address.
use sentinal.Base.{
  ℕ, ◌*◌, ◌/◌, ◌≤◌, ◌<◌, ◌≡◌, refl, some, String, List, [], ◌∷◌, arith, ltb, leb, if◌then◌else◌,
  Bool, true, inl, inr, get_elem?, ◌or◌, length, Bool-cases, suc, zero, any, ◌=?◌, ◌<>◌,
}
use sentinal.Demo.Random.{word, output-lt}
use sentinal.Demo.Pick.{weighted_pick, weighted_pick-Chosen}
use sentinal.Event.{AnalyticsEvent}
use text.Mathlib.TextPositions.{eq_refl}
use sentinal.Radix.{to_radix}
use sentinal.Demo.Tables.{
  Country, EventType, country_pool, event_types, suspicious_ip_prefix, normal_ip_prefix,
}
use sentinal.Demo.Event.{
  Draws, build_event, ip_of, draws, exact_points, score_of, action_of, shown_score, pick_prefix,
  generate_event, Source,
}

-- `xs.includes(p)`
abbrev pub contains : String → List String → Bool
contains p xs = any (λ x. x =? p) xs

-- The action of a generated event, by its score as shown.
pub data Band (action : String) (shown : ℕ) : Type 0 where
  allowed : action ≡ "ALLOW" → 500 ≤ shown → shown ≤ 3500 → Band action shown
  reviewed : action ≡ "REVIEW" → 3500 ≤ shown → shown ≤ 5500 → Band action shown
  challenged : action ≡ "CHALLENGE" → 5500 ≤ shown → shown ≤ 8000 → Band action shown
  blocked : action ≡ "BLOCK" → 8000 ≤ shown → shown ≤ 9900 → Band action shown

score_of_bounds :
    (roll r : ℕ)
    → r < word
    → (exact_points 5 ≤ score_of roll r) × (score_of roll r < exact_points 99)
unfolding score_of
score_of_bounds roll r h = ground arith

Band-score : (s : ℕ) → exact_points 5 ≤ s → s < exact_points 99 → Band (action_of s) (shown_score s)
unfolding action_of shown_score
Band-score s lo hi = elim (Bool-cases (leb (exact_points 80) s)) [
  | inl top ↦ rw top (blocked refl (ground arith) (ground arith))
  | inr under ↦ elim (Bool-cases (leb (exact_points 55) s)) [
    | inl high ↦ rw (under, high) (challenged refl (ground arith) (ground arith))
    | inr lower ↦ elim (Bool-cases (leb (exact_points 35) s)) [
      | inl mid ↦ rw (under, lower, mid) (reviewed refl (ground arith) (ground arith))
      | inr low ↦ rw (under, lower, low) (allowed refl (ground arith) (ground arith))
    ]
  ]
]

-- The address of a generated event: a prefix of the list for its score, and two octets.
pub record Address (s : ℕ) (ip : String) : Type 0 where
  pub prefix : String
  pub octet3 : ℕ
  pub octet4 : ℕ
  pub listed :
      contains prefix (if ltb (exact_points 55) s then suspicious_ip_prefix else normal_ip_prefix)
      ≡ true
  pub small : (octet3 ≤ 254) × (octet4 ≤ 254)
  pub shape : ip ≡ prefix <> ("." <> (to_radix 10 octet3 <> ("." <> to_radix 10 octet4)))

get_elem?-contains :
    (xs : List String) (i : ℕ) (d : String)
    → i < length xs
    → contains (get_elem? xs i or d) xs ≡ true
get_elem?-contains [] i d h = absurd (omega arith)
get_elem?-contains (x ∷ xs) zero d h = rw (eq_refl x) refl
get_elem?-contains (x ∷ xs) (suc i) d h = ground (arith, get_elem?-contains xs i d)

ip_of-Address :
    (s : ℕ) (d : Draws)
    → d.prefix < word
    → d.octet3 < word
    → d.octet4 < word
    → Address s (ip_of s d)
unfolding ip_of suspicious_ip_prefix normal_ip_prefix
ip_of-Address s d hp h3 h4 = record {
  prefix =
      if ltb (exact_points 55) s
      then pick_prefix suspicious_ip_prefix d.prefix
      else pick_prefix normal_ip_prefix d.prefix;
  octet3 = d.octet3 * 255 / word;
  octet4 = d.octet4 * 255 / word;
  listed = elim (Bool-cases (ltb (exact_points 55) s)) [
    | inl risky ↦
        rw risky
          (get_elem?-contains suspicious_ip_prefix (d.prefix * 8 / word) "undefined" (omega arith))
    | inr clean ↦
        rw clean
          (get_elem?-contains normal_ip_prefix (d.prefix * 8 / word) "undefined" (omega arith))
  ];
  small = (omega arith, omega arith);
  shape = refl;
}

-- What is shown of a generated event is consistent.
pub record Plausible (e : AnalyticsEvent) : Type 0 where
  pub exact : ℕ
  pub action_shown : String
  pub score_shown : ℕ
  pub ip : String
  pub has_action : e.action ≡ some action_shown
  pub has_score : e.risk_score ≡ some score_shown
  pub has_ip : e.ip_address ≡ some ip
  pub rounded : score_shown ≡ shown_score exact
  pub band : Band action_shown score_shown
  pub address : Address exact ip

built-Plausible :
    (now seq : ℕ) (timestamp : String) (d : Draws) (c : Country) (t : EventType)
    → d.risk < word
    → d.prefix < word
    → d.octet3 < word
    → d.octet4 < word
    → Plausible (build_event now seq timestamp d c t)
unfolding build_event
built-Plausible now seq timestamp d c t hr hp h3 h4 =
    let (lo, hi) = score_of_bounds d.roll d.risk hr in
    record {
      exact = score_of d.roll d.risk;
      action_shown = action_of (score_of d.roll d.risk);
      score_shown = shown_score (score_of d.roll d.risk);
      ip = ip_of (score_of d.roll d.risk) d;
      has_action = refl;
      has_score = refl;
      has_ip = refl;
      rounded = refl;
      band = Band-score (score_of d.roll d.risk) lo hi;
      address = ip_of-Address (score_of d.roll d.risk) d hp h3 h4;
    }

country_picked :
    (k : ℕ)
    → k < word
    → (c : Country) × (weighted_pick (λ (c : Country). c.weight) country_pool k ≡ some c)
unfolding country_pool
country_picked k h =
    let c = weighted_pick-Chosen (λ (c : Country). c.weight) country_pool k (λ e. cc) h in
    (c.item, c.hit)

event_type_picked :
    (k : ℕ)
    → k < word
    → (t : EventType) × (weighted_pick (λ (t : EventType). t.weight) event_types k ≡ some t)
unfolding event_types
event_type_picked k h =
    let c = weighted_pick-Chosen (λ (t : EventType). t.weight) event_types k (λ e. cc) h in
    (c.item, c.hit)

-- From every seed the generator makes an event, and never throws. Its score as shown lies in the band
-- of its action: 5 to 35 for ALLOW, 35 to 55 for REVIEW, 55 to 80 for CHALLENGE and 80 to 99 for BLOCK,
-- both ends included. Its address has a prefix of the suspicious list if the score before rounding is
-- above 55, else of the normal list, and two octets from 0 to 254.
pub generate_event-Plausible :
    (to_iso : ℕ → String) (now : ℕ) (g : Source)
    → (e : AnalyticsEvent) × ((generate_event to_iso now g).0 ≡ some e) × Plausible e
unfolding generate_event
generate_event-Plausible to_iso now g =
    let d = (draws g.seed).0 in
    let (c, ec) = country_picked d.country (output-lt _) in
    let (t, et) = event_type_picked d.event_type (output-lt _) in
    (
      build_event now (suc g.seq) (to_iso now) d c t,
      rw (ec, et) refl,
      built-Plausible now (suc g.seq) (to_iso now) d c t (output-lt _) (output-lt _) (output-lt _)
          (output-lt _),
    )
