-- ===== src/Login/Submit.antt =====
-- What a submission of the sign-in form leaves.
use sentinal.Base.{
  ◌≡◌, refl, sym, subst, ◌⊎◌, inl, inr, Bool, true, false, String, none, some, List, [], ◌∷◌,
  Bool-cases,
}
use sentinal.Promise.{Result, throws, returns}
use sentinal.Session.{Storage, TokenPair, Response, is_ok, save_pair}
use sentinal.Login.{
  Mode, login, register, Post, registers, logs_in, registration_error, Submitted, submit, on_login,
  register_first, enter, rejected_with, demo_session,
}

-- The call threw, or its status is no success.
abbrev pub IsRefused : {A : Type 0} → Result (Response A) → Type 0
IsRefused (throws m) = Unit
IsRefused (returns r) = is_ok r ≡ false

-- The login brings this pair.
abbrev pub Brings : Result (Response (Result TokenPair)) → TokenPair → Type 0
Brings (throws m) pair = ⊥
Brings (returns r) pair = (is_ok r ≡ true) × (r.payload ≡ returns pair)

-- The login brings no pair: it is refused, or its body cannot be read.
abbrev pub BringsNone : Result (Response (Result TokenPair)) → Type 0
BringsNone (throws m) = Unit
BringsNone (returns r) = (is_ok r ≡ false) ⊎ ((m : String) × (r.payload ≡ throws m))

-- The registration that the form asks for, if it does, has succeeded.
abbrev pub IsRegistered : Mode → Result (Response (Result String)) → Type 0
IsRegistered login registered = Unit
IsRegistered register (throws m) = ⊥
IsRegistered register (returns r) = is_ok r ≡ true

abbrev pub IsUnregistered : Mode → Result (Response (Result String)) → Type 0
IsUnregistered login registered = ⊥
IsUnregistered register registered = IsRefused registered

module _ (registered : Result (Response (Result String)))
    (logged_in : Result (Response (Result TokenPair))) (mode : Mode) where
  -- The dashboard is opened: without a backend, or under the pair of the login.
  abbrev pub Enters : Bool → String → String → Storage → Submitted → Type 0
  Enters true stamp email s k = (k.posts ≡ []) × (k.storage ≡ demo_session stamp email s)
  Enters false stamp email s k =
      (pair : TokenPair) × IsRegistered mode registered
      × Brings logged_in pair
      × (k.storage ≡ record s {
        access_token = some pair.access_token;
        refresh_token = some pair.refresh_token;
      })

  -- There is a backend, and it has refused the registration or brought no pair.
  abbrev pub Rejects : Bool → Type 0
  Rejects true = ⊥
  Rejects false = IsUnregistered mode registered ⊎ BringsNone logged_in

  -- Either the dashboard is opened with no error, or an error is shown and no token has changed.
  abbrev pub Outcome : Bool → String → String → Storage → Submitted → Type 0
  Outcome demo stamp email s k =
      ((k.leaves ≡ true) × (k.error ≡ none) × Enters demo stamp email s k)
      ⊎ ((k.leaves ≡ false) × ((m : String) × (k.error ≡ some m)) × (k.storage ≡ s) × Rejects demo)

rejected_with-Outcome :
    (registered : Result (Response (Result String)))
    (logged_in : Result (Response (Result TokenPair))) (mode : Mode) (stamp email : String)
    (s : Storage) (sent : List Post) (m : String)
    → Rejects registered logged_in mode false
    → Outcome registered logged_in mode false stamp email s (rejected_with s sent m)
unfolding rejected_with
rejected_with-Outcome registered logged_in mode stamp email s sent m why =
    inr (refl, (m, refl), refl, why)

enter-Outcome :
    (registered : Result (Response (Result String))) (r : Response (Result TokenPair))
    (stamp email : String) (s : Storage) (sent : List Post) (mode : Mode) (got : Result TokenPair)
    → IsRegistered mode registered
    → is_ok r ≡ true
    → r.payload ≡ got
    → Outcome registered (returns r) mode false stamp email s (enter s sent mode got)
unfolding enter save_pair
enter-Outcome registered r stamp email s sent mode (throws m) known ok e =
    rejected_with-Outcome registered (returns r) mode stamp email s sent m (inr (inr (m, e)))
enter-Outcome registered r stamp email s sent mode (returns pair) known ok e =
    inl (refl, refl, (pair, known, (ok, e), refl))

abbrev unsuccessful : String
unsuccessful = "Invalid credentials or unavailable auth service"

on_login-Outcome :
    (registered : Result (Response (Result String)))
    (logged_in : Result (Response (Result TokenPair))) (stamp email : String) (s : Storage)
    (sent : List Post) (mode : Mode)
    → IsRegistered mode registered
    → Outcome registered logged_in mode false stamp email s (on_login s sent mode logged_in)
on_login-Outcome registered (throws m) stamp email s sent mode known =
    unfold on_login in
    rejected_with-Outcome registered (throws m) mode stamp email s sent m (inr tt)
on_login-Outcome registered (returns r) stamp email s sent mode known =
    elim (Bool-cases (is_ok r)) [
      | inl ok ↦
          let same : on_login s sent mode (returns r) ≡ enter s sent mode r.payload =
            unfold on_login in rw ok refl in
          subst (Outcome registered (returns r) mode false stamp email s) (sym same)
            (enter-Outcome registered r stamp email s sent mode r.payload known ok refl)
      | inr bad ↦
          let same : on_login s sent mode (returns r) ≡ rejected_with s sent unsuccessful =
            unfold on_login in rw bad refl in
          subst (Outcome registered (returns r) mode false stamp email s) (sym same) (
            rejected_with-Outcome registered (returns r) mode stamp email s sent unsuccessful
              (inr (inl bad)))
    ]

register_first-Outcome :
    (registered : Result (Response (Result String)))
    (logged_in : Result (Response (Result TokenPair))) (stamp email : String) (s : Storage)
    → Outcome registered logged_in register false stamp email s
        (register_first registered logged_in s registered)
register_first-Outcome (throws m) logged_in stamp email s =
    unfold register_first in
    rejected_with-Outcome (throws m) logged_in register stamp email s (registers ∷ []) m (inl tt)
register_first-Outcome (returns r) logged_in stamp email s = elim (Bool-cases (is_ok r)) [
  | inl ok ↦
      let sent = registers ∷ logs_in ∷ [] in
      let same : register_first (returns r) logged_in s (returns r)
          ≡ on_login s sent register logged_in =
        unfold register_first in rw ok refl in
      subst (Outcome (returns r) logged_in register false stamp email s) (sym same)
        (on_login-Outcome (returns r) logged_in stamp email s sent register ok)
  | inr bad ↦
      let m = registration_error r.payload in
      let same : register_first (returns r) logged_in s (returns r)
          ≡ rejected_with s (registers ∷ []) m =
        unfold register_first in rw bad refl in
      subst (Outcome (returns r) logged_in register false stamp email s) (sym same) (
        rejected_with-Outcome (returns r) logged_in register stamp email s (registers ∷ []) m
          (inl bad))
]

-- A submission opens the dashboard exactly in the demo mode, which sends nothing and stores a demo
-- session, or where the registration, if one is asked for, succeeded and the login succeeded with a
-- readable pair, whose two tokens are stored. Where a backend refuses one of them or brings no pair,
-- an error is shown and the stored tokens are unchanged.
pub submit-Outcome :
    (registered : Result (Response (Result String)))
    (logged_in : Result (Response (Result TokenPair))) (demo : Bool) (mode : Mode)
    (stamp email : String) (s : Storage)
    → Outcome registered logged_in mode demo stamp email s
        (submit registered logged_in demo mode stamp email s)
unfolding submit
submit-Outcome registered logged_in true mode stamp email s = inl (refl, refl, (refl, refl))
submit-Outcome registered logged_in false login stamp email s =
    on_login-Outcome registered logged_in stamp email s _ login tt
submit-Outcome registered logged_in false register stamp email s =
    register_first-Outcome registered logged_in stamp email s
