-- ===== src/Login.antt =====
-- The sign-in page, dashboard/src/app/login/page.tsx: the password policy, the probe that decides on the
-- demo mode, and `submit`. The two requests are given by their ends; `stamp` is the text of
-- `Date.now()`.
pub mod Submit
pub mod Form
pub mod Starfield
use Prim.Native.Nat.{ℕ}
use sentinal.Base.{
  ◌+◌, ◌≡◌, ◌⊎◌, ◌↔◌, inl, inr, refl, arith, Bool, true, false, not, ◌||◌, ◌&&◌, String, Option,
  none, some, List, [], ◌∷◌, ◌<>◌, ◌==◌, leb, any, length, code_units, truthy, if◌then◌else◌,
  Bool-cases,
}
use sentinal.Promise.{Result, throws, returns}
use sentinal.Session.{Storage, TokenPair, Response, is_ok, save_pair, gate_redirects}
use sentinal.Toasts.{ToastInput, success, danger, info}

pub data Mode : Type 0 where
  login register : Mode

-- The probe of the effect: any response means that there is a backend.
unfoldable pub demo_mode_of : {P : Type 0} → Option P → Bool
demo_mode_of none = true
demo_mode_of (some r) = false

abbrev pub between : ℕ → ℕ → ℕ → Bool
between a b c = leb a c && leb c b

pub record Policy : Type 0 where
  pub length : Bool
  pub upper : Bool
  pub lower : Bool
  pub digit : Bool
  pub special : Bool

abbrev pub specials : List ℕ
specials = code_units "!@#$%^&*()_+-=[]{};':\",.<>/?~`|\\"

-- Each test of the meter; `length` counts code units.
unfoldable pub policy : String → Policy
policy password =
    let cs = code_units password in
    record {
      length = leb 12 (length cs);
      upper = any (between 65 90) cs;
      lower = any (between 97 122) cs;
      digit = any (between 48 57) cs;
      special = any (λ c. any (λ s. s == c) specials) cs;
    }

abbrev pub bit : Bool → ℕ
bit true = 1
bit false = 0

-- `Object.values(policy).filter(Boolean).length`
unfoldable pub policy_met : Policy → ℕ
policy_met p = bit p.length + bit p.upper + bit p.lower + bit p.digit + bit p.special

unfoldable pub can_submit : Mode → String → Bool
unfolding policy_met policy
can_submit login password = true
can_submit register password = policy_met (policy password) == 5

-- What a submission leaves: the storage, the error, the requests that were sent, the notification,
-- and whether the browser goes on to the dashboard. `loading` is false in every case.
pub data Post : Type 0 where
  registers logs_in : Post

pub record Submitted : Type 0 where
  pub storage : Storage
  pub error : Option String
  pub posts : List Post
  pub notice : ToastInput
  pub leaves : Bool
  pub loading : Bool

abbrev note : String → String → ToastInput
note title message = record {
  kind = success;
  title = title;
  message = some message;
  duration = none;
}

-- The `catch`, after the requests `sent`.
unfoldable pub rejected_with : Storage → List Post → String → Submitted
rejected_with s sent m = record {
  storage = s;
  error = some m;
  posts = sent;
  notice = record {
    kind = danger;
    title = "Authentication failed";
    message = some m;
    duration = none;
  };
  leaves = false;
  loading = false;
}

abbrev welcome : Mode → String
welcome login = "Welcome back"
welcome register = "Account created"

unfoldable pub enter : Storage → List Post → Mode → Result TokenPair → Submitted
unfolding rejected_with save_pair
enter s sent mode (throws m) = rejected_with s sent m
enter s sent mode (returns pair) = record {
  storage = save_pair pair s;
  error = none;
  posts = sent;
  notice = note (welcome mode) "Establishing secure telemetry uplink…";
  leaves = true;
  loading = false;
}

unfoldable pub on_login :
    Storage → List Post → Mode → Result (Response (Result TokenPair)) → Submitted
unfolding enter is_ok
on_login s sent mode (throws m) = rejected_with s sent m
on_login s sent mode (returns r) =
    if not (is_ok r)
    then rejected_with s sent "Invalid credentials or unavailable auth service"
    else enter s sent mode r.payload

-- The text of a refused registration; an empty one, or one that cannot be read, is replaced.
unfoldable pub registration_error : Result String → String
registration_error (returns t) =
    if truthy (some t)
    then t
    else "Registration failed — password must be 12+ chars with upper/lower/digit/special"
registration_error (throws m) =
    "Registration failed — password must be 12+ chars with upper/lower/digit/special"

unfoldable pub demo_session : String → String → Storage → Storage
demo_session stamp email s = record s {
  access_token = some ("demo-" <> stamp);
  refresh_token = some ("demo-" <> stamp);
  demo_user = some (if truthy (some email) then email else "demo@sentinel.io");
}

module _ (registered : Result (Response (Result String)))
    (logged_in : Result (Response (Result TokenPair))) where
  unfoldable pub register_first : Storage → Result (Response (Result String)) → Submitted
  unfolding on_login rejected_with registration_error is_ok
  register_first s (throws m) = rejected_with s (registers ∷ []) m
  register_first s (returns r) =
      if not (is_ok r)
      then rejected_with s (registers ∷ []) (registration_error r.payload)
      else on_login s (registers ∷ logs_in ∷ []) register logged_in

  -- `submit`
  unfoldable pub submit : Bool → Mode → String → String → Storage → Submitted
  unfolding demo_session on_login register_first
  submit true mode stamp email s = record {
    storage = demo_session stamp email s;
    error = none;
    posts = [];
    notice = record {
      kind = info;
      title = "Demo mode";
      message = some "Backend offline — exploring with simulated live telemetry.";
      duration = none;
    };
    leaves = true;
    loading = false;
  }
  submit false login stamp email s = on_login s (logs_in ∷ []) login logged_in
  submit false register stamp email s = register_first s registered
