-- ===== src/Shell/TopBar.antt =====
-- The clock, the badge of the notifications, the menus and the shortcut of
-- dashboard/src/components/layout/TopBar.tsx.
use sentinal.Base.{
  ℕ, ◌≡◌, refl, ap, ◌∙◌, arith, min, String, ◌<>◌, ◌=?◌, Option, none, some, List, [], ◌∷◌, length,
  length-take, length-filter, filter, count, Bool, true, false, ◌&&◌, ◌||◌, not, ltb, ◌==◌,
  if◌then◌else◌, text_length,
}
use sentinal.Event.{AnalyticsEvent, is_flagged}
use sentinal.Radix.{to_radix}
use sentinal.Palette.{NavTarget}
use sentinal.Feed.{notifications}

-- `LiveStatusPill`
unfoldable pub status_pill : Bool → String
status_pill is_connected = if is_connected then "LIVE" else "OFFLINE"

-- `String(n).padStart(2, "0")`
unfoldable pub pad2 : ℕ → String
pad2 n =
    let t = to_radix 10 n in
    if ltb (text_length t) 2 then (if text_length t == 1 then "0" <> t else "00") else t

-- `MissionClock`, from the hours, minutes and seconds of the time; the separators blink.
unfoldable pub mission_clock : ℕ → ℕ → ℕ → String
unfolding pad2
mission_clock hours minutes seconds = pad2 hours <> ":" <> pad2 minutes <> ":" <> pad2 seconds

-- The badge of `NotificationsDropdown`, if there is one.
unfoldable pub badge : List AnalyticsEvent → Option String
badge events =
    let n = length (notifications events) in
    if ltb 0 n then some (if ltb 9 n then "9+" else to_radix 10 n) else none

unfoldable pub nav_targets : List NavTarget
nav_targets =
    record { label = "Command Center"; href = "/" }
    ∷ record { label = "Threat Intel"; href = "/threats" }
    ∷ record { label = "Rules Engine"; href = "/rules" }
    ∷ record { label = "Transactions"; href = "/transactions" }
    ∷ record { label = "Analytics"; href = "/analytics" }
    ∷ record { label = "System Health"; href = "/system" }
    ∷ []

-- The badge counts the decisions to block and to challenge, up to eight; it never reads "9+".
pub badge_lem :
    (events : List AnalyticsEvent)
    → badge events ≡ (
        if ltb 0 (count is_flagged events)
        then some (to_radix 10 (min 8 (count is_flagged events)))
        else none)
unfolding badge notifications
badge_lem events =
    let size : length (notifications events) ≡ min 8 (count is_flagged events) =
      length-take 8 (filter is_flagged events) ∙ ap (min 8) (length-filter is_flagged events) in
    let few : ltb 9 (min 8 (count is_flagged events)) ≡ false = ground arith in
    let some_left : ltb 0 (min 8 (count is_flagged events)) ≡ ltb 0 (count is_flagged events) =
      ground arith in
    rw (size, few, some_left) refl

-- The open states of the two menus and of the palette.
pub record Menus : Type 0 where
  pub notifications_open : Bool
  pub user_open : Bool
  pub palette_open : Bool

pub data Press : Type 0 where
  bell alert backdrop user_button user_backdrop search palette_closed : Press
  key_down : Bool → Bool → String → Press

-- `(e.metaKey || e.ctrlKey) && e.key.toLowerCase() === "k"`, with `to_lower_case` for the platform's.
unfoldable pub is_shortcut : (String → String) → Bool → Bool → String → Bool
is_shortcut to_lower_case meta ctrl key = (meta || ctrl) && (to_lower_case key =? "k")

unfoldable pub press : (String → String) → Press → Menus → Menus
unfolding is_shortcut
press lower bell m = record m { notifications_open = not m.notifications_open }
press lower alert m = record m { notifications_open = false }
press lower backdrop m = record m { notifications_open = false }
press lower user_button m = record m { user_open = not m.user_open }
press lower user_backdrop m = record m { user_open = false }
press lower search m = record m { palette_open = true }
press lower palette_closed m = record m { palette_open = false }
press lower (key_down meta ctrl key) m =
    if is_shortcut lower meta ctrl key then record m { palette_open = not m.palette_open } else m
