-- ===== src/Shell/Gate.antt =====
-- When the boot sequence is shown and what is highlighted: `Shell` and `AppShell` of
-- dashboard/src/components/layout/AppShell.tsx and `Sidebar` of dashboard/src/components/layout/Sidebar.tsx.
-- Times are milliseconds; `number_of` is `Number` on a text, `none` where that is NaN.
use sentinal.Base.{
  ℕ, ◌-◌, ◌≡◌, refl, ap, sym, ◌∙◌, String, ◌<>◌, ◌=?◌, Option, none, some, List, [], ◌∷◌, Bool,
  true, false, ◌||◌, ltb, if◌then◌else◌, Bool-cases, inl, inr,
}
use mathlib.Core.Bool.{false≢true}
use sentinal.Radix.{to_radix}

unfoldable pub is_login : String → Bool
is_login pathname = (pathname =? "/login") || (pathname =? "/login/")

-- `Sidebar`: the targets, and whether one is the page that is shown.
unfoldable pub nav_hrefs : List String
nav_hrefs = "/" ∷ "/threats" ∷ "/rules" ∷ "/transactions" ∷ "/analytics" ∷ "/system" ∷ []

unfoldable pub is_active : String → String → Bool
is_active pathname href = (pathname =? href) || (pathname =? (href <> "/"))

-- The stored time of the last boot, and the shell's `booting`.
pub record Shell : Type 0 where
  pub boot_at : Option String
  pub booting : Bool

module _ (number_of : String → Option ℕ) where
  abbrev pub last_boot : Option String → Option ℕ
  last_boot none = some 0
  last_boot (some t) = number_of t

  -- `Date.now() - last > 45_000`, which is false for NaN.
  unfoldable pub is_due : ℕ → Option ℕ → Bool
  is_due now none = false
  is_due now (some last) = ltb 45000 (now - last)

  -- A page load: the effect, and the timeout of 0 that it sets.
  unfoldable pub load : ℕ → Shell → Shell
  unfolding is_due
  load now s =
      if is_due now (last_boot s.boot_at)
      then record { boot_at = some (to_radix 10 now); booting = true }
      else record { boot_at = s.boot_at; booting = false }

  load-booting : (now : ℕ) (s : Shell) → (load now s).booting ≡ is_due now (last_boot s.boot_at)
  unfolding load
  load-booting now s = elim (Bool-cases (is_due now (last_boot s.boot_at))) [
    | inl due ↦ rw (due, load) refl
    | inr early ↦ rw (early, load) refl
  ]

  load-boot_at :
      (now : ℕ) (s : Shell)
      → (load now s).booting ≡ true
      → (load now s).boot_at ≡ some (to_radix 10 now)
  unfolding load
  load-boot_at now s h = elim (Bool-cases (is_due now (last_boot s.boot_at))) [
    | inl due ↦ rw (due, load) refl
    | inr early ↦ absurd (false≢true (sym early ∙ sym (load-booting now s) ∙ h))
  ]

  -- After a load that has shown the boot sequence, a later load shows it again if more than 45 seconds
  -- have passed since, and only then. A printed number must be read back as itself.
  pub load-load :
      (s : Shell) (now later : ℕ)
      → ((n : ℕ) → number_of (to_radix 10 n) ≡ some n)
      → (load now s).booting ≡ true
      → (load later (load now s)).booting ≡ ltb 45000 (later - now)
  unfolding is_due
  load-load s now later reads h =
      load-booting later (load now s)
      ∙ ap (λ o. is_due later (last_boot o)) (load-boot_at now s h)
      ∙ ap (is_due later) (reads now)
