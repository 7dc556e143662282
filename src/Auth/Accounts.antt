-- ===== src/Auth/Accounts.antt =====
-- `RegisterUser` and `Login` of auth-service/internal/service/auth_service.go, on the table `users` as
-- auth-service/internal/repository/user_postgres.go reads and writes it. Times are seconds of one clock.
-- `normal` is the lower case of the trimmed text, `matches` is the comparison of bcrypt, `hash` its
-- hash, and `issue` signs a pair of tokens and stores the session; `none` is an error. Postgres answers
-- every statement; the events for Kafka are left out.
use sentinal.Base.{
  ℕ, suc, ◌+◌, ◌*◌, Bool, true, false, not, ◌||◌, String, Option, none, some, ◌=?◌, ltb, leb,
  includes, ◌==◌, length, if◌then◌else◌,
}
use sentinal.Auth.Password.{validate_password, byte_length, code_points}

pub data Role : Type 0 where
  user admin : Role

pub record User : Type 0 where
  pub id : ℕ
  pub email : String
  pub password_hash : String
  pub full_name : String
  pub role : Role
  pub is_active : Bool
  pub failed_login_count : ℕ
  pub locked_until : Option ℕ
  pub last_login_at : Option ℕ

-- The rows by their email, which is unique, and their number.
pub record Users : Type 0 where
  pub by_email : String → Option User
  pub count : ℕ

abbrev pub is_later : ℕ → Option ℕ → Bool
is_later now none = false
is_later now (some t) = ltb now t

unfoldable pub is_locked : ℕ → User → Bool
is_locked now u = is_later now u.locked_until

-- `UPDATE users SET … WHERE` one row.
abbrev pub put : User → Users → Users
put u t = record t { by_email = λ e. if e =? u.email then some u else t.by_email e }

-- The statement of `IncrementFailedLogin`, on the row as it is then.
unfoldable pub increment_failed_login : ℕ → ℕ → ℕ → User → User
increment_failed_login max_attempts minutes now u = record u {
  failed_login_count = suc u.failed_login_count;
  locked_until =
      if leb max_attempts (suc u.failed_login_count)
      then some (now + minutes * 60)
      else u.locked_until;
}

unfoldable pub reset_failed_login : User → User
reset_failed_login u = record u { failed_login_count = 0; locked_until = none }

unfoldable pub update_last_login : ℕ → User → User
update_last_login now u = record u { last_login_at = some now }

pub data LoginEnd (Pair : Type 0) : Type 0 where
  logged_in : Pair → LoginEnd Pair
  invalid_password account_locked account_inactive broken : LoginEnd Pair

-- The row after a password that is right.
unfoldable pub succeed : ℕ → User → User
unfolding reset_failed_login update_last_login
succeed now u =
    update_last_login now (if ltb 0 u.failed_login_count then reset_failed_login u else u)

module _ (matches : String → String → Bool) {Pair : Type 0} (issue : User → Option Pair) where
  abbrev pub issued : Option Pair → LoginEnd Pair
  issued none = broken
  issued (some p) = logged_in p

  -- The session is made for the row that was read.
  unfoldable pub login_user : ℕ → String → User → Users → Users × LoginEnd Pair
  unfolding is_locked increment_failed_login succeed
  login_user now password u t =
      if is_locked now u
      then (t, account_locked)
      else if not u.is_active
      then (t, account_inactive)
      else if not (matches u.password_hash password)
      then (put (increment_failed_login 5 15 now u) t, invalid_password)
      else (put (succeed now u) t, issued (issue u))

  abbrev pub answered : ℕ → String → Users → Option User → Users × LoginEnd Pair
  answered now password t none = (t, invalid_password)
  answered now password t (some u) = login_user now password u t

  unfoldable pub login : (String → String) → ℕ → String → String → Users → Users × LoginEnd Pair
  unfolding login_user
  login normal now email password t = answered now password t (t.by_email (normal email))

pub data RegisterEnd : Type 0 where
  registered : User → RegisterEnd
  invalid_email weak_password failed : RegisterEnd

abbrev new_user : ℕ → String → String → String → ℕ → User
new_user id email hash full_name count = record {
  id = id;
  email = email;
  password_hash = hash;
  full_name = full_name;
  role = if count == 0 then admin else user;
  is_active = true;
  failed_login_count = 0;
  locked_until = none;
  last_login_at = none;
}

-- The email is unique, and the column of the name holds 255 characters.
abbrev pub inserted : User → Users → Users × RegisterEnd
inserted u t = elim (t.by_email u.email) [
  | some other ↦ (t, failed)
  | none ↦
      if ltb 255 (length (code_points u.full_name))
      then (t, failed)
      else (record (put u t) { count = suc t.count }, registered u)
]

abbrev pub hashed : ℕ → String → String → Users → Option String → Users × RegisterEnd
hashed id email full_name t none = (t, failed)
hashed id email full_name t (some h) = inserted (new_user id email h full_name t.count) t

-- `id` is the new UUID.
unfoldable pub register_user :
    (String → String)
    → (String → Option String)
    → ℕ
    → String
    → String
    → String
    → Users
    → Users × RegisterEnd
unfolding validate_password
register_user normal hash id email password full_name t =
    let e = normal email in
    if not (includes "@" e) || ltb 255 (byte_length (code_points e))
    then (t, invalid_email)
    else if not (validate_password password)
    then (t, weak_password)
    else hashed id e full_name t (hash password)
