-- ===== src/Rules/Page.antt =====
-- The list of rules on dashboard/src/app/rules/page.tsx: filter, statistics, deletion. `normal` is
-- `trim().toLowerCase()` and `lower` is `toLowerCase()`.
use sentinal.Base.{
  ℕ, ◌+◌, ◌≡◌, refl, arith, Bool, true, false, not, ◌&&◌, String, Option, none, some, List, [], ◌∷◌,
  ◌<>◌, filter, count, length, includes, truthy, if◌then◌else◌,
}
use sentinal.Rules.{FraudRule}

pub data EnabledFilter : Type 0 where
  all enabled disabled : EnabledFilter

unfoldable pub excluded : EnabledFilter → FraudRule → Bool
excluded all r = false
excluded enabled r = not r.is_enabled
excluded disabled r = r.is_enabled

unfoldable pub mentions : (String → String) → String → FraudRule → Bool
mentions lower q r = includes q (lower (r.name <> (" " <> (r.rule_id <> (" " <> r.expression)))))

unfoldable pub is_listed : (String → String) → String → EnabledFilter → FraudRule → Bool
is_listed lower q f r =
    if truthy (some q) && not (mentions lower q r)
    then false
    else if excluded f r
    then false
    else true

unfoldable pub filtered :
    (String → String)
    → (String → String)
    → String
    → EnabledFilter
    → Option (List FraudRule)
    → List FraudRule
filtered normal lower search f none = []
filtered normal lower search f (some rs) = filter (is_listed lower (normal search) f) rs

pub record RuleStats : Type 0 where
  pub total : ℕ
  pub enabled : ℕ
  pub total_hits : ℕ

abbrev sum_hits : List FraudRule → ℕ
sum_hits [] = 0
sum_hits (r ∷ rs) = r.hit_count + sum_hits rs

unfoldable pub stats : Option (List FraudRule) → RuleStats
stats none = record { total = 0; enabled = 0; total_hits = 0 }
stats (some rs) = record {
  total = length rs;
  enabled = count (λ r. r.is_enabled) rs;
  total_hits = sum_hits rs;
}

parts-add :
    (lower : String → String) (q : String) (rs : List FraudRule)
    → length (filter (is_listed lower q enabled) rs)
        + length (filter (is_listed lower q disabled) rs)
      ≡ length (filter (is_listed lower q all) rs)
unfolding is_listed excluded
parts-add lower q [] = omega arith
parts-add lower q (r ∷ rs) = ground (arith, parts-add lower q rs)

blank-lists :
    (lower : String → String) (q : String) (rs : List FraudRule)
    → truthy (some q) ≡ false
    → (length (filter (is_listed lower q enabled) rs) ≡ count (λ r. r.is_enabled) rs)
      × (length (filter (is_listed lower q all) rs) ≡ length rs)
unfolding is_listed excluded
blank-lists lower q [] h = (refl, refl)
blank-lists lower q (r ∷ rs) h = let (a, b) = blank-lists lower q rs h in ground (arith, a, b)

-- For every search the enabled and the disabled rules that are listed add up to all that are listed.
pub filtered-parts :
    (normal lower : String → String) (search : String) (rules : Option (List FraudRule))
    → length (filtered normal lower search enabled rules)
        + length (filtered normal lower search disabled rules)
      ≡ length (filtered normal lower search all rules)
unfolding filtered
filtered-parts normal lower search none = refl
filtered-parts normal lower search (some rs) = parts-add lower (normal search) rs

-- With a blank search the page lists as many rules as its statistics count, for all rules and for the
-- enabled ones.
pub filtered-stats :
    (normal lower : String → String) (search : String) (rules : Option (List FraudRule))
    → truthy (some (normal search)) ≡ false
    → (length (filtered normal lower search enabled rules) ≡ (stats rules).enabled)
      × (length (filtered normal lower search all rules) ≡ (stats rules).total)
unfolding filtered stats
filtered-stats normal lower search none h = (refl, refl)
filtered-stats normal lower search (some rs) h = blank-lists lower (normal search) rs h
