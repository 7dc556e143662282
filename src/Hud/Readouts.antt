-- ===== src/Hud/Readouts.antt =====
-- The ticker, the stat chip and the radar of dashboard/src/components/hud/HUDAmbientLayer.tsx. Cosine
-- and sine are the platform's.
use sentinal.Base.{
  ℕ, zero, suc, ◌+◌, ◌-◌, ◌/◌, ◌%◌, ◌^◌, ◌≡◌, ◌≤◌, ◌<◌, refl, ap, ◌∙◌, arith, min, String, Option,
  none, some, List, [], ◌∷◌, ◌++◌, map, take, length, length-take, length-map, Bool, ◌||◌, ◌=?◌,
  ltb, leb, ◌==◌, if◌then◌else◌, All,
}
use sentinal.Event.{points}
use sentinal.Threats.Jitter.{hash_key, abs32}

-- `TelemetryTicker`: the track, if it is shown.
unfoldable pub ticker : Bool → List String → Option (List String)
ticker reduce items = if reduce || (length items == 0) then none else some (items ++ items)

-- `HUDStatChip`
pub data Tone : Type 0 where
  cyan emerald amber rose : Tone

unfoldable pub tone_class : Option Tone → String
tone_class none = "text-cyan-300 border-cyan-500/25 bg-cyan-500/[0.07]"
tone_class (some cyan) = "text-cyan-300 border-cyan-500/25 bg-cyan-500/[0.07]"
tone_class (some emerald) = "text-emerald-300 border-emerald-500/25 bg-emerald-500/[0.07]"
tone_class (some amber) = "text-amber-300 border-amber-500/25 bg-amber-500/[0.07]"
tone_class (some rose) = "text-rose-300 border-rose-500/25 bg-rose-500/[0.07]"

-- `TacticalRadar`: what it is given of a threat.
pub record Target : Type 0 where
  pub id : String
  pub score : ℕ
  pub action : String

-- `h >> 7` of a 32-bit pattern, as a pattern: the sign is filled in.
unfoldable pub shift7 : ℕ → ℕ
shift7 h = if ltb h (2 ^ 31) then h / 2 ^ 7 else h / 2 ^ 7 + (2 ^ 32 - 2 ^ 25)

-- `Math.abs(h) % 360`, in degrees.
unfoldable pub blip_angle : String → ℕ
unfolding hash_key abs32
blip_angle id = abs32 (hash_key id) % 360

-- `18 + (Math.abs(h >> 7) % 26)`
unfoldable pub blip_distance : String → ℕ
unfolding hash_key abs32 shift7
blip_distance id = 18 + abs32 (shift7 (hash_key id)) % 26

pub record Blip (N : Type 0) : Type 0 where
  pub id : String
  pub x : N
  pub y : N
  pub critical : Bool
  pub score : ℕ

-- `across d a` is 50 + d cos a and `down d a` is 50 + d sin a, for `a` degrees.
module _ {N : Type 0} (across down : ℕ → ℕ → N) where
  unfoldable pub blip : Target → Blip N
  unfolding blip_distance blip_angle
  blip t = record {
    id = t.id;
    x = across (blip_distance t.id) (blip_angle t.id);
    y = down (blip_distance t.id) (blip_angle t.id);
    critical = (t.action =? "BLOCK") || leb (points 80) t.score;
    score = t.score;
  }

  unfoldable pub blips : List Target → List (Blip N)
  unfolding blip
  blips threats = map blip (take 12 threats)

  -- What the corner of the scope says: `{blips.length} TRK`.
  unfoldable pub tracked : List Target → ℕ
  unfolding blips
  tracked threats = length (blips threats)

-- The arithmetic shift divides: the size of the shifted number is that of the number over 128, rounded
-- up where the number is negative.
pub abs32-shift7 :
    (h : ℕ)
    → h < 2 ^ 32
    → abs32 (shift7 h) ≡ (if ltb h (2 ^ 31) then h / 2 ^ 7 else (2 ^ 32 - h + (2 ^ 7 - 1)) / 2 ^ 7)
unfolding shift7 abs32
abs32-shift7 h lt = ground arith

-- The radar shows the first twelve threats and says how many; each stands within the scope, 18 to 43
-- hundredths of its width from the middle.
pub radar_bounds :
    {N : Type 0} (across down : ℕ → ℕ → N) (threats : List Target)
    → (tracked across down threats ≡ min 12 (length threats))
      × (map (λ (b : Blip N). b.id) (blips across down threats)
          ≡ take 12 (map (λ (t : Target). t.id) threats))
      × All
          (λ (t : Target).
            (18 ≤ blip_distance t.id) × (blip_distance t.id ≤ 43) × (blip_angle t.id < 360))
          threats
unfolding tracked blips
radar_bounds {N} across down threats = (
  length-map (blip across down) (take 12 threats) ∙ length-take 12 threats,
  ids 12 threats,
  bounds threats,
)
  where
    ids :
        (n : ℕ) (ts : List Target)
        → map (λ (b : Blip N). b.id) (map (blip across down) (take n ts))
          ≡ take n (map (λ (t : Target). t.id) ts)
    ids zero ts = refl
    ids (suc n) [] = refl
    ids (suc n) (t ∷ ts) = ap (◌∷◌ t.id) (ids n ts)

    bounds :
        (ts : List Target)
        → All
            (λ (t : Target).
              (18 ≤ blip_distance t.id) × (blip_distance t.id ≤ 43) × (blip_angle t.id < 360))
            ts
    bounds [] = tt
    bounds (t ∷ ts) = ((omega arith, omega arith, omega arith), bounds ts)
