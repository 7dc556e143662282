-- ===== src/Promise.antt =====
-- How a promise ends: rejected with the message of an error, or fulfilled.
use sentinal.Base.{String}

pub data Result (A : Type 0) : Type 0 where
  throws : String → Result A
  returns : A → Result A
