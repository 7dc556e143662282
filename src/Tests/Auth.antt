-- ===== src/Tests/Auth.antt =====
-- An account that is opened, and an account that is locked.
use sentinal.Base.{
  ℕ, ◌≡◌, refl, arith, Bool, true, String, Option, none, some, List, [], ◌∷◌, ◌++◌, ◌=?◌,
  if◌then◌else◌, includes, strip_prefix, leb, Bool-cases, inl, inr, ◌≤◌, ◌<◌, ◌⊎◌,
}
use sentinal.Login.{can_submit, policy, policy_met}
use sentinal.Auth.Password.{byte_length, code_points}
use sentinal.Auth.Registration.{HashesUpTo72, Opened, can_submit-register_user}
use sentinal.Auth.Accounts.{User, Users, user, login, account_locked, register_user, failed}
use sentinal.Auth.Lockout.{Attempt, attempts, five_failures_lock}

abbrev account : User
account = record {
  id = 1;
  email = "me@x.io";
  password_hash = "secret";
  full_name = "Me";
  role = user;
  is_active = true;
  failed_login_count = 0;
  locked_until = none;
  last_login_at = none;
}

abbrev accounts : Users
accounts = record { by_email = λ e. if e =? "me@x.io" then some account else none; count = 1 }

abbrev no_change : String → String
no_change s = s

-- A hash that refuses more than 72 bytes, as bcrypt does.
abbrev short_hash : String → Option String
short_hash p = if leb (byte_length (code_points p)) 72 then some "hash" else none

short_hash-HashesUpTo72 : HashesUpTo72 no_change short_hash
short_hash-HashesUpTo72 p = elim (Bool-cases (leb (byte_length (code_points p)) 72)) [
  | inl small ↦ inl (ground (arith, small), "hash", rw small refl)
  | inr large ↦ inr (ground (arith, large), rw large refl)
]

can_submit-register_user_example :
    let r = register_user no_change short_hash 2 "you@x.io" "Sentinel-2026" "You" accounts in
    ((byte_length (code_points "Sentinel-2026") ≤ 72)
      × Opened no_change short_hash "you@x.io" "Sentinel-2026" accounts r)
    ⊎ ((72 < byte_length (code_points "Sentinel-2026")) × (r ≡ (accounts, failed)))
unfolding can_submit policy policy_met includes strip_prefix
can_submit-register_user_example =
    can_submit-register_user no_change short_hash short_hash-HashesUpTo72 2 "you@x.io"
      "Sentinel-2026" "You" accounts refl refl (omega arith) (omega arith) refl

abbrev equal_text : String → String → Bool
equal_text h p = h =? p

abbrev issue_none : User → Option ℕ
issue_none u = none

abbrev guess : ℕ → Attempt
guess now = record { now = now; password = "guess" }

abbrev guesses : List Attempt
guesses = guess 1 ∷ guess 2 ∷ guess 3 ∷ guess 4 ∷ []

five_failures_lock_example :
    let t = attempts no_change equal_text issue_none "me@x.io" (guesses ++ guess 5 ∷ []) accounts in
    login equal_text issue_none no_change 900 "me@x.io" "secret" t ≡ (t, account_locked)
five_failures_lock_example =
    five_failures_lock no_change equal_text issue_none "me@x.io" "secret" guesses (guess 5) 900
      "secret" accounts
      (record {
        row = account;
        found = refl;
        named = refl;
        hashed = refl;
        active = refl;
        failures = refl;
        lock = refl;
      })
      (refl, (refl, (refl, (refl, tt)))) refl refl (omega arith)
