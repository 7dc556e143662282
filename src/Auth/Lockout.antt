-- ===== src/Auth/Lockout.antt =====
-- Wrong passwords.
use text.Mathlib.TextEquality.{eq_iff}
use sentinal.Base.{
  ℕ, suc, ◌+◌, ◌≡◌, ◌≤◌, ◌<◌, refl, sym, ap, subst, ◌∙◌, arith, Bool, true, false, String, Option,
  none, some, List, [], ◌∷◌, ◌++◌, ◌=?◌, leb, length, All, if◌then◌else◌,
}
use sentinal.Auth.Accounts.{
  User, Users, is_locked, put, increment_failed_login, invalid_password, account_locked, login_user,
  login, is_later, answered,
}

-- An attempt with its time and password.
pub record Attempt : Type 0 where
  pub now : ℕ
  pub password : String

add_zero : (n : ℕ) → n + 0 ≡ n
add_zero n = omega arith

-- An active account with so many failures and this lock, under the email.
pub record Row (key hash : String) (n : ℕ) (until : Option ℕ) (t : Users) : Type 0 where
  pub row : User
  pub found : t.by_email key ≡ some row
  pub named : row.email ≡ key
  pub hashed : row.password_hash ≡ hash
  pub active : row.is_active ≡ true
  pub failures : row.failed_login_count ≡ n
  pub lock : row.locked_until ≡ until

lock_after : ℕ → ℕ → Option ℕ → Option ℕ
lock_after n now until = if leb 5 n then some (now + 900) else until

failed_Row :
    (key hash : String) (n now : ℕ) (until : Option ℕ) (t : Users)
    → (r : Row key hash n until t)
    → Row key hash
        (suc n)
        (lock_after (suc n) now until)
        (put (increment_failed_login 5 15 now r.row) t)
unfolding increment_failed_login lock_after
failed_Row key hash n now until t r =
    let own : (key =? r.row.email) ≡ true = (eq_iff key r.row.email).1 (sym r.named) in
    record {
      row = increment_failed_login 5 15 now r.row;
      found = rw own refl;
      named = r.named;
      hashed = r.hashed;
      active = r.active;
      failures = ap suc r.failures;
      lock = simp (r.failures, r.lock) refl;
    }

abbrev pub Wrong : (String → String → Bool) → String → Attempt → Type 0
Wrong matches hash a = matches hash a.password ≡ false

module _ (normal : String → String) (matches : String → String → Bool) {Pair : Type 0}
    (issue : User → Option Pair) where
  unfoldable pub attempts : String → List Attempt → Users → Users
  unfolding login
  attempts email [] t = t
  attempts email (a ∷ later) t =
      attempts email later (login matches issue normal a.now email a.password t).0

  wrong_login :
      (email hash : String) (n : ℕ) (until : Option ℕ) (t : Users) (a : Attempt)
      → (r : Row (normal email) hash n until t) → is_later a.now until ≡ false
      → matches hash a.password ≡ false
      → login matches issue normal a.now email a.password t
        ≡ (put (increment_failed_login 5 15 a.now r.row) t, invalid_password)
  unfolding login login_user is_locked
  wrong_login email hash n until t a r free wrong =
      let locked = ap (is_later a.now) r.lock ∙ free in
      let refused = ap (λ (h : String). matches h a.password) r.hashed ∙ wrong in
      ap (answered matches issue a.now a.password t) r.found
      ∙ user_wrong r.row t locked r.active refused
    where
      user_wrong :
          (u : User) (t : Users)
          → is_later a.now u.locked_until ≡ false
          → u.is_active ≡ true
          → matches u.password_hash a.password ≡ false
          → login_user matches issue a.now a.password u t
            ≡ (put (increment_failed_login 5 15 a.now u) t, invalid_password)
      user_wrong u t locked active refused = simp (locked, active, refused) refl

  wrong_Row :
      (email hash : String) (n : ℕ) (until : Option ℕ) (t : Users) (a : Attempt)
      → Row (normal email) hash n until t
      → is_later a.now until ≡ false
      → matches hash a.password ≡ false
      → Row
          (normal email)
          hash
          (suc n)
          (lock_after (suc n) a.now until)
          (login matches issue normal a.now email a.password t).0
  wrong_Row email hash n until t a r free wrong =
      rw (wrong_login email hash n until t a r free wrong)
        (failed_Row (normal email) hash n a.now until t r)

  few_wrong :
      (email hash : String) (n : ℕ) (earlier : List Attempt) (t : Users)
      → n + length earlier ≤ 4
      → All (Wrong matches hash) earlier
      → Row (normal email) hash n none t
      → Row (normal email) hash (n + length earlier) none (attempts email earlier t)
  unfolding attempts
  few_wrong email hash n [] t le w r = rw (add_zero n) r
  few_wrong email hash n (a ∷ later) t le w r =
      let open_still : lock_after (suc n) a.now none ≡ none = unfold lock_after in ground arith in
      let next = wrong_Row email hash n none t a r refl w.0 in
      let ends =
        few_wrong email hash (suc n) later (login matches issue normal a.now email a.password t).0
          (omega arith) w.1 (rw open_still at next) in
      rw (shift n (length later)) ends
    where
      shift : (n m : ℕ) → n + suc m ≡ suc n + m
      shift n m = omega arith

  locked_login :
      (email hash : String) (n next : ℕ) (until : ℕ) (password : String) (t : Users)
      → Row (normal email) hash n (some until) t
      → next < until
      → login matches issue normal next email password t ≡ (t, account_locked)
  unfolding login login_user is_locked
  locked_login email hash n next until password t r lt =
      let locked : is_later next r.row.locked_until ≡ true =
        ap (is_later next) r.lock ∙ ground arith in
      ap (answered matches issue next password t) r.found ∙ rw locked refl

  attempts-append :
      (email : String) (earlier : List Attempt) (a : Attempt) (t : Users)
      → attempts email (earlier ++ a ∷ []) t
        ≡ (login matches issue normal a.now email a.password (attempts email earlier t)).0
  unfolding attempts
  attempts-append email [] a t = refl
  attempts-append email (b ∷ earlier) a t =
      attempts-append email earlier a (login matches issue normal b.now email b.password t).0

  -- Five wrong passwords in a row lock an active account with no failures: in the fifteen minutes after
  -- the fifth every login ends with the account locked, also with the right password, and changes
  -- nothing.
  pub five_failures_lock :
      (email hash : String) (earlier : List Attempt) (last : Attempt) (next : ℕ) (password : String)
      (t : Users)
      → Row (normal email) hash 0 none t
      → All (Wrong matches hash) earlier
      → length earlier ≡ 4
      → Wrong matches hash last
      → next < last.now + 900
      → let t' = attempts email (earlier ++ last ∷ []) t in
        login matches issue normal next email password t' ≡ (t', account_locked)
  five_failures_lock email hash earlier last next password t r w four wl lt =
      let before = attempts email earlier t in
      let count : 0 + length earlier ≡ 4 = omega arith in
      let r4 =
        subst (λ (n : ℕ). Row (normal email) hash n none before) count
          (few_wrong email hash 0 earlier t (omega arith) w r) in
      let locks : lock_after 5 last.now none ≡ some (last.now + 900) = unfold lock_after in refl in
      let r5 = wrong_Row email hash 4 none before last r4 refl wl in
      let after = (login matches issue normal last.now email last.password before).0 in
      let ends =
        locked_login email hash 5 next (last.now + 900) password after (rw locks at r5) lt in
      rw (attempts-append email earlier last t) ends
