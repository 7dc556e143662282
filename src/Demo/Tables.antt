-- ===== src/Demo/Tables.antt =====
-- The vocabularies of dashboard/src/lib/demo.ts. Coordinates are given in hundredths of a degree.
use sentinal.Base.{ℕ, String, List, [], ◌∷◌}
use sentinal.Base.Int.{ℤ}
use sentinal.Event.{degrees, south_west}

pub record Country : Type 0 where
  pub code : String
  pub name : String
  pub weight : ℕ
  pub lat : ℤ
  pub lon : ℤ

pub record EventType : Type 0 where
  pub name : String
  pub weight : ℕ

abbrev country : String → String → ℕ → ℤ → ℤ → Country
country code name weight lat lon = record {
  code = code;
  name = name;
  weight = weight;
  lat = lat;
  lon = lon;
}

unfoldable pub country_pool : List Country
country_pool =
    country "US" "United States" 24 (degrees 3980) (south_west 9860)
    ∷ country "GB" "United Kingdom" 10 (degrees 5400) (south_west 200)
    ∷ country "IN" "India" 9 (degrees 2060) (degrees 7890)
    ∷ country "DE" "Germany" 7 (degrees 5120) (degrees 1040)
    ∷ country "BR" "Brazil" 7 (south_west 1420) (south_west 5190)
    ∷ country "CN" "China" 6 (degrees 3590) (degrees 10420)
    ∷ country "RU" "Russia" 6 (degrees 6150) (degrees 10530)
    ∷ country "NL" "Netherlands" 5 (degrees 5210) (degrees 530)
    ∷ country "FR" "France" 5 (degrees 4620) (degrees 220)
    ∷ country "SG" "Singapore" 4 (degrees 135) (degrees 10380)
    ∷ country "JP" "Japan" 4 (degrees 3620) (degrees 13830)
    ∷ country "NG" "Nigeria" 3 (degrees 910) (degrees 870)
    ∷ country "VN" "Vietnam" 3 (degrees 1410) (degrees 10830)
    ∷ country "TR" "Turkey" 2 (degrees 3890) (degrees 3520)
    ∷ country "ID" "Indonesia" 2 (south_west 80) (degrees 11390)
    ∷ country "AU" "Australia" 2 (south_west 2530) (degrees 13380)
    ∷ country "KR" "South Korea" 2 (degrees 3590) (degrees 12780)
    ∷ country "ZA" "South Africa" 1 (south_west 3060) (degrees 2290)
    ∷ country "MX" "Mexico" 2 (degrees 2360) (south_west 10250)
    ∷ country "CA" "Canada" 3 (degrees 5610) (south_west 10630)
    ∷ []

abbrev event_type : String → ℕ → EventType
event_type name weight = record { name = name; weight = weight }

unfoldable pub event_types : List EventType
event_types =
    event_type "user.login" 34
    ∷ event_type "payment.attempt" 26
    ∷ event_type "user.register" 12
    ∷ event_type "password.change" 8
    ∷ event_type "card.linking" 10
    ∷ event_type "profile.update" 6
    ∷ event_type "withdrawal.request" 4
    ∷ []

unfoldable pub suspicious_ip_prefix : List String
suspicious_ip_prefix =
    "45.132" ∷ "185.220" ∷ "91.219" ∷ "194.26" ∷ "62.171" ∷ "159.223" ∷ "51.15" ∷ "103.4" ∷ []

unfoldable pub normal_ip_prefix : List String
normal_ip_prefix =
    "73.12" ∷ "82.44" ∷ "24.16" ∷ "98.211" ∷ "106.77" ∷ "119.42" ∷ "203.15" ∷ "58.6" ∷ []
