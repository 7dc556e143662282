-- ===== src/Login/Form.antt =====
-- The form of dashboard/src/app/login/page.tsx: what typing and clicking change, and what it shows.
use Prim.Native.Nat.{ℕ}
use sentinal.Base.{
  ◌*◌, ◌≡◌, ◌≤◌, refl, arith, Bool, true, false, not, ◌||◌, String, Option, none, List, [], ◌∷◌,
  ◌<>◌, ◌==◌, leb, if◌then◌else◌,
}
use sentinal.Login.{Mode, login, register, Policy, policy, policy_met, can_submit}

pub record Form : Type 0 where
  pub mode : Mode
  pub email : String
  pub password : String
  pub full_name : String
  pub show_password : Bool
  pub error : Option String

pub data Edit : Type 0 where
  switches : Mode → Edit
  types_name types_email types_password : String → Edit
  toggles_password : Edit

abbrev switch_mode : Mode → Form → Form
switch_mode m f = record f { mode = m; error = none }

abbrev type_name : String → Form → Form
type_name s f = record f { full_name = s }

abbrev type_email : String → Form → Form
type_email s f = record f { email = s }

abbrev type_password : String → Form → Form
type_password s f = record f { password = s }

abbrev toggle_password : Form → Form
toggle_password f = record f { show_password = not f.show_password }

unfoldable pub edit : Edit → Form → Form
edit (switches m) f = switch_mode m f
edit (types_name s) f = type_name s f
edit (types_email s) f = type_email s f
edit (types_password s) f = type_password s f
edit toggles_password f = toggle_password f

unfoldable pub input_type : Form → String
input_type f = if f.show_password then "text" else "password"

abbrev is_login : Mode → Bool
is_login login = true
is_login register = false

unfoldable pub heading : Mode → String × String
heading m = (
  if is_login m then "Welcome back" else "Create your account",
  if is_login m
      then "Sign in to the command center"
      else "The first account created becomes the platform admin",
)

-- The text of the button, and whether it is disabled.
unfoldable pub button : Bool → Form → String × Bool
button loading f = (
  if loading
      then (if is_login f.mode then "Authenticating…" else "Creating account…")
      else if is_login f.mode
      then "Sign in"
      else "Create account & sign in",
  loading || not (can_submit f.mode f.password),
)

abbrev badge : String → Bool → String
badge label met = (if met then "✓ " else "") <> label

unfoldable pub badges : Policy → List String
badges p =
    badge "12+ chars" p.length
    ∷ badge "Uppercase" p.upper
    ∷ badge "Lowercase" p.lower
    ∷ badge "Digit" p.digit
    ∷ badge "Special" p.special
    ∷ []

unfoldable pub bar_color : ℕ → String
bar_color met =
    if met == 5
    then "bg-gradient-to-r from-emerald-500 to-cyan-400"
    else if leb 3 met
    then "bg-gradient-to-r from-amber-500 to-orange-400"
    else "bg-gradient-to-r from-rose-500 to-rose-400"

-- `(policyMet / 5) * 100`, in percent.
unfoldable pub bar_width : ℕ → ℕ
bar_width met = met * 20

met_at_most : (p : Policy) → policy_met p ≤ 5
unfolding policy_met
met_at_most p = ground arith

full_bar : (met : ℕ) → (met == 5) ≡ (met * 20 == 100)
full_bar met = ground arith

-- A registration can be sent exactly when the strength bar is full, and the bar is never wider.
pub button-bar_width :
    (f : Form)
    → f.mode ≡ register
    → ((button false f).1 ≡ not (bar_width (policy_met (policy f.password)) == 100))
      × (bar_width (policy_met (policy f.password)) ≤ 100)
unfolding button bar_width can_submit
button-bar_width f h =
    let few = met_at_most (policy f.password) in
    (rw (h, full_bar (policy_met (policy f.password))) refl, omega (arith, few))
