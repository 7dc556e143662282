-- ===== src/Ledger.antt =====
-- The transaction ledger, dashboard/src/app/transactions/page.tsx.
use sentinal.Base.{
  ℕ, ◌+◌, ◌*◌, ◌≡◌, refl, min, suc, or_else, String, Option, List, [], ◌∷◌, filter, take, length,
  length-take, length-filter, count, Bool, true, is_text, is_text-eq, ◌or◌, All, All-take,
  All-filter_self, ◌∙◌, ap,
}
use sentinal.Event.{AnalyticsEvent, event_key, is_blocked}

pub data ActionFilter : Type 0 where
  all : ActionFilter
  only : String → ActionFilter

-- `ACTIONS`
unfoldable pub actions : List ActionFilter
actions = all ∷ only "ALLOW" ∷ only "REVIEW" ∷ only "CHALLENGE" ∷ only "BLOCK" ∷ []

abbrev pub has_action : String → AnalyticsEvent → Bool
has_action action e = is_text e.action action

unfoldable pub filtered : ActionFilter → List AnalyticsEvent → List AnalyticsEvent
filtered all events = events
filtered (only action) events = filter (has_action action) events

pub record Row : Type 0 where
  pub blocked : Bool
  pub event_type : String
  pub source : Option String
  pub action : String
  -- `Math.min(i * 0.03, 0.4)`, in hundredths of a second.
  pub delay : ℕ

unfoldable pub row : ℕ → AnalyticsEvent → Row
row i e = record {
  blocked = is_blocked e;
  event_type = e.event_type;
  source = or_else e.ip_address (event_key e);
  action = e.action or "OBSERVED";
  delay = min (i * 3) 40;
}

abbrev rows_from : ℕ → List AnalyticsEvent → List Row
rows_from i [] = []
rows_from i (e ∷ es) = row i e ∷ rows_from (i + 1) es

unfoldable pub rows : ActionFilter → List AnalyticsEvent → List Row
unfolding filtered row
rows f events = rows_from 0 (take 14 (filtered f events))

length-rows_from : (i : ℕ) (es : List AnalyticsEvent) → length (rows_from i es) ≡ length es
length-rows_from i [] = refl
length-rows_from i (e ∷ es) = ap suc (length-rows_from (i + 1) es)

rows_from-action :
    (action : String) (i : ℕ) (es : List AnalyticsEvent)
    → All (λ e. has_action action e ≡ true) es
    → All (λ (r : Row). r.action ≡ action) (rows_from i es)
unfolding row
rows_from-action action i [] h = tt
rows_from-action action i (e ∷ es) h = (
  ap (λ o. o or "OBSERVED") (is_text-eq e.action action h.0),
  rows_from-action action (i + 1) es h.1,
)

-- The ledger of an action has one row for each event with that action, the first fourteen of them, and
-- every row shows that action.
pub rows-only :
    (action : String) (events : List AnalyticsEvent)
    → (length (rows (only action) events) ≡ min 14 (count (has_action action) events))
      × All (λ (r : Row). r.action ≡ action) (rows (only action) events)
unfolding rows filtered
rows-only action events =
    let kept = filter (has_action action) events in
    (
      length-rows_from 0 (take 14 kept)
          ∙ length-take 14 kept
          ∙ ap (min 14) (length-filter (has_action action) events),
      rows_from-action action 0 (take 14 kept)
          (All-take _ 14 kept (All-filter_self (has_action action) events)),
    )
