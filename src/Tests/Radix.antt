-- ===== src/Tests/Radix.antt =====
-- Octets and identifiers.
use sentinal.Base.{◌≡◌, refl}
use sentinal.Radix.{to_radix}

test_octet : to_radix 10 203 ≡ "203"
unfolding to_radix
test_octet = refl

test_base36 : to_radix 36 999999 ≡ "lflr"
unfolding to_radix
test_base36 = refl
