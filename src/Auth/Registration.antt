-- ===== src/Auth/Registration.antt =====
-- What becomes of a registration that the sign-in page lets through: `canSubmit` of
-- dashboard/src/app/login/page.tsx, then `RegisterUser` of
-- auth-service/internal/service/auth_service.go. The hash function of bcrypt is a parameter.
use sentinal.Base.{
  ℕ, suc, ◌≡◌, ◌≤◌, refl, arith, true, false, String, Option, none, some, ◌==◌, ltb, includes,
  length, if◌then◌else◌, inl, inr, ◌<◌, ◌⊎◌, sym,
}
use mathlib.Core.Path.{subst}
use text.Mathlib.TextPositions.{eq_refl}
use sentinal.Login.{register, can_submit}
use sentinal.Auth.Password.{byte_length, code_points, can_submit-validate_password}
use sentinal.Auth.Accounts.{
  User, Users, user, admin, RegisterEnd, registered, failed, register_user, hashed, inserted, put,
}

-- A row of a new email and a name that fits.
inserted-new :
    (u : User) (t : Users)
    → t.by_email u.email ≡ none
    → ltb 255 (length (code_points u.full_name)) ≡ false
    → inserted u t ≡ (record (put u t) { count = suc t.count }, registered u)
inserted-new u t new narrow = rw (inserted, new, narrow) refl

module _ (normal : String → String) (hash : String → Option String) where
  -- The user of an account that was opened, as `RegisterUser` returns it.
  abbrev pub Opened : String → String → Users → Users × RegisterEnd → Type 0
  Opened email password t (after, end) =
      (u : User) × (h : String) × (hash password ≡ some h)
      × (end ≡ registered u)
      × (after.by_email (normal email) ≡ some u)
      × (after.count ≡ suc t.count)
      × (u.email ≡ normal email)
      × (u.password_hash ≡ h)
      × (u.role ≡ (if t.count == 0 then admin else user))
      × (u.is_active ≡ true)

  -- What bcrypt promises: it hashes a password of at most 72 bytes and refuses a longer one.
  abbrev pub HashesUpTo72 : Type 0
  HashesUpTo72 =
      (password : String)
      → ((byte_length (code_points password) ≤ 72) × (h : String) × (hash password ≡ some h))
        ⊎ ((72 < byte_length (code_points password)) × (hash password ≡ none))

  -- A row that the table takes.
  hashed-Opened :
      (id : ℕ) (email password full_name h : String) (t : Users)
      → hash password ≡ some h
      → ltb 255 (length (code_points full_name)) ≡ false
      → t.by_email (normal email) ≡ none
      → Opened email password t (hashed id (normal email) full_name t (some h))
  hashed-Opened id email password full_name h t hashes narrow new =
      subst (Opened email password t) (sym (inserted-new _ t new narrow))
        (_, h, hashes, refl, rw (eq_refl (normal email)) refl, refl, refl, refl, refl, refl)

  -- A registration of a new email with "@" of at most 255 bytes, a name of at most 255 characters and a
  -- password with which the form lets it through. If the password has at most 72 bytes, the account is
  -- opened, active, with the hash of the password, and its role is that of an administrator exactly if
  -- it is the first. If it has more, the registration fails and no row is written.
  pub can_submit-register_user :
      (bcrypt : HashesUpTo72) (id : ℕ) (email password full_name : String) (t : Users)
      → can_submit register password ≡ true
      → includes "@" (normal email) ≡ true
      → byte_length (code_points (normal email)) ≤ 255
      → length (code_points full_name) ≤ 255
      → t.by_email (normal email) ≡ none
      → let r = register_user normal hash id email password full_name t in
        ((byte_length (code_points password) ≤ 72) × Opened email password t r)
        ⊎ ((72 < byte_length (code_points password)) × (r ≡ (t, failed)))
  unfolding register_user
  can_submit-register_user bcrypt id email password full_name t form at_sign short name new =
      let accepted = can_submit-validate_password password form in
      let fits : ltb 255 (byte_length (code_points (normal email))) ≡ false =
        ground (arith, short) in
      let narrow : ltb 255 (length (code_points full_name)) ≡ false = ground (arith, name) in
      elim (bcrypt password) [
        | inl (small, h, hashes) ↦
            rw (at_sign, fits, accepted)
              (inl (
                small,
                subst (λ o. Opened email password t (hashed id (normal email) full_name t o))
                    (sym hashes) (hashed-Opened id email password full_name h t hashes narrow new),
              ))
        | inr (large, refuses) ↦ rw (at_sign, fits, accepted, refuses) (inr (large, refl))
      ]
