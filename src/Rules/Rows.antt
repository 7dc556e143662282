-- ===== src/Rules/Rows.antt =====
-- What the list of dashboard/src/app/rules/page.tsx shows: the state of `useRules`, the rows and the two
-- lines for an empty list, with the names of the features. `print` is `toLocaleString`. An action
-- is not the name of a member of `Object.prototype`.
use sentinal.Base.{
  ℕ, ◌*◌, ◌≡◌, refl, ap, Bool, true, false, not, ◌&&◌, ◌==◌, String, ◌=?◌, Option, none, some, List,
  [], ◌∷◌, ◌<>◌, min, map, length, truthy, if◌then◌else◌, suc,
}
use sentinal.Radix.{to_radix}
use sentinal.Promise.{Result, throws, returns}
use sentinal.Rules.{FraudRule}
use sentinal.Rules.Hook.{RulesHook}
use sentinal.Rules.Page.{RuleStats}

-- The effect that reads the features: any failure gives none.
unfoldable pub features_of : Result (List String) → List String
features_of (throws m) = []
features_of (returns fs) = fs

unfoldable pub action_style : String → String
action_style action =
    if action =? "BLOCK"
    then "text-rose-400 bg-rose-500/10 border-rose-500/30"
    else if action =? "CHALLENGE"
    then "text-orange-400 bg-orange-500/10 border-orange-500/30"
    else if action =? "REVIEW"
    then "text-yellow-400 bg-yellow-500/10 border-yellow-500/30"
    else "text-cyan-400 bg-cyan-500/10 border-cyan-500/30"

-- A row. `delay` is in milliseconds.
pub record Row : Type 0 where
  pub key : String
  pub rule_id : String
  pub name : String
  pub style : String
  pub action : String
  pub says_disabled : Bool
  pub description : String
  pub expression : String
  pub score : ℕ
  pub hits : String
  pub delay : ℕ

unfoldable pub row : (ℕ → String) → ℕ → FraudRule → Row
unfolding action_style
row print i r = record {
  key = r.id;
  rule_id = r.rule_id;
  name = r.name;
  style = action_style r.action;
  action = r.action;
  says_disabled = not r.is_enabled;
  description = if truthy (some r.description) then r.description else "No description";
  expression = r.expression;
  score = r.score_contribution;
  hits = print r.hit_count;
  delay = min (i * 30) 300;
}

unfoldable pub rows_from : (ℕ → String) → ℕ → List FraudRule → List Row
unfolding row
rows_from print i [] = []
rows_from print i (r ∷ rs) = row print i r ∷ rows_from print (suc i) rs

-- The line under the heading.
unfoldable pub summary : (ℕ → String) → RuleStats → String
summary print s =
    to_radix 10 s.enabled
    <> ("/" <> (to_radix 10 s.total <> (" active · " <> (print s.total_hits <> " lifetime hits"))))

unfoldable pub banner : RulesHook → Option String
banner h = elim h.error [
  | none ↦ none
  | some m ↦
      if truthy (some m)
      then some (m <> " — the risk engine must be healthy and seeded (make seed-rules).")
      else none
]

abbrev is_null : {A : Type 0} → Option A → Bool
is_null none = true
is_null (some x) = false

unfoldable pub shows_skeleton : RulesHook → Bool
shows_skeleton h = h.loading && is_null h.rules

unfoldable pub shows_empty : RulesHook → List FraudRule → Bool
shows_empty h filtered = not h.loading && length filtered == 0

length-rows_from :
    (print : ℕ → String) (i : ℕ) (rs : List FraudRule) → length (rows_from print i rs) ≡ length rs
unfolding rows_from
length-rows_from print i [] = refl
length-rows_from print i (r ∷ rs) = ap suc (length-rows_from print (suc i) rs)

-- The rows are those of the listed rules, in their order.
pub rows_from-keys :
    (print : ℕ → String) (i : ℕ) (rs : List FraudRule)
    → map (λ (w : Row). w.key) (rows_from print i rs) ≡ map (λ (r : FraudRule). r.id) rs
unfolding rows_from row
rows_from-keys print i [] = refl
rows_from-keys print i (r ∷ rs) = rw (rows_from-keys print (suc i) rs) refl

-- Once the first load has ended, the page shows a row or the line for an empty list, never both, and no
-- placeholder.
pub shows_empty_lem :
    (print : ℕ → String) (h : RulesHook) (filtered : List FraudRule)
    → h.loading ≡ false
    → (shows_skeleton h ≡ false)
      × (shows_empty h filtered ≡ (length (rows_from print 0 filtered) == 0))
unfolding shows_skeleton shows_empty
shows_empty_lem print h filtered loaded =
    rw (loaded, length-rows_from print 0 filtered) (refl, refl)
