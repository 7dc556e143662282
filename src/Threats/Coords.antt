-- ===== src/Threats/Coords.antt =====
-- `COUNTRY_COORDS` and `resolveCoords` of dashboard/src/app/threats/page.tsx; the table stands in
-- dashboard/src/app/page.tsx too. `upper` is `String.prototype.toUpperCase`.
use sentinal.Base.{
  ◌<◌, ◌≡◌, refl, arith, String, Option, none, some, List, [], ◌∷◌, ◌=?◌, if◌then◌else◌, or_else,
  truthy, text_length, All, ap, Bool-cases, inl, inr,
}
use text.Mathlib.TextEquality.{eq_iff}
use sentinal.Base.Int.{ℤ}
use sentinal.Event.{AnalyticsEvent, degrees, south_west}

pub record Coords : Type 0 where
  pub lat : ℤ
  pub lon : ℤ

abbrev at : String → ℤ → ℤ → String × Coords
at code lat lon = (code, record { lat = lat; lon = lon })

unfoldable pub country_coords : List (String × Coords)
country_coords =
    at "US" (degrees 3980) (south_west 9860)
    ∷ at "GB" (degrees 5400) (south_west 200)
    ∷ at "CA" (degrees 5610) (south_west 10630)
    ∷ at "IN" (degrees 2060) (degrees 7890)
    ∷ at "CN" (degrees 3590) (degrees 10420)
    ∷ at "BR" (south_west 1420) (south_west 5190)
    ∷ at "RU" (degrees 6150) (degrees 10530)
    ∷ at "DE" (degrees 5120) (degrees 1040)
    ∷ at "FR" (degrees 4620) (degrees 220)
    ∷ at "JP" (degrees 3620) (degrees 13830)
    ∷ at "NL" (degrees 5210) (degrees 530)
    ∷ at "SG" (degrees 135) (degrees 10380)
    ∷ at "AU" (south_west 2530) (degrees 13380)
    ∷ at "ZA" (south_west 3060) (degrees 2290)
    ∷ at "NG" (degrees 910) (degrees 870)
    ∷ at "VN" (degrees 1410) (degrees 10830)
    ∷ at "ID" (south_west 80) (degrees 11390)
    ∷ at "TR" (degrees 3890) (degrees 3520)
    ∷ at "KR" (degrees 3590) (degrees 12780)
    ∷ at "MX" (degrees 2360) (south_west 10250)
    ∷ []

-- `COUNTRY_COORDS[code]`
unfoldable pub lookup_coords : String → List (String × Coords) → Option Coords
lookup_coords code [] = none
lookup_coords code ((c, v) ∷ rest) = if c =? code then some v else lookup_coords code rest

-- `code && COUNTRY_COORDS[code]`, for `code = text?.toUpperCase()`.
unfoldable pub coords_by : (String → String) → Option String → Option Coords
coords_by upper none = none
coords_by upper (some t) =
    if truthy (some (upper t)) then lookup_coords (upper t) country_coords else none

unfoldable pub resolve_coords : (String → String) → AnalyticsEvent → Option Coords
resolve_coords upper e = or_else (coords_by upper e.country_code) (coords_by upper e.country)

lookup_coords-long :
    (code : String) (table : List (String × Coords))
    → 2 < text_length code
    → All (λ (p : String × Coords). text_length p.0 ≡ 2) table
    → lookup_coords code table ≡ none
unfolding lookup_coords
lookup_coords-long code [] long short = refl
lookup_coords-long code ((c, v) ∷ rest) long short = elim (Bool-cases (c =? code)) [
  | inl same ↦ absurd (omega (arith, short.0, ap text_length ((eq_iff c code).0 same)))
  | inr other ↦ rw other (lookup_coords-long code rest long short.1)
]

coords_by-long :
    (upper : String → String) (t : String)
    → 2 < text_length (upper t)
    → coords_by upper (some t) ≡ none
unfolding coords_by country_coords text_length
coords_by-long upper t long = elim (Bool-cases (truthy (some (upper t)))) [
  | inl full ↦ rw full (lookup_coords-long (upper t) country_coords long (omega arith))
  | inr bare ↦ rw bare refl
]

-- An event without a country code and with a country of more than two letters has no coordinates by
-- its country: the table has no full names, so the fallback to the name finds none.
pub resolve_coords-name :
    (upper : String → String) (e : AnalyticsEvent) (name : String)
    → e.country_code ≡ none
    → e.country ≡ some name
    → 2 < text_length (upper name)
    → resolve_coords upper e ≡ none
unfolding resolve_coords coords_by
resolve_coords-name upper e name code country long =
    rw (code, country) (coords_by-long upper name long)
