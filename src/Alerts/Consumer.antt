-- ===== src/Alerts/Consumer.antt =====
-- The loop of alert-service/kafka.go: one message, from its fetch to its commit. `Message` is what
-- `json.Unmarshal` gives, `none` where it fails.
use sentinal.Base.{
  ℕ, ◌+◌, ◌≡◌, ◌<◌, refl, Bool, true, false, not, String, Option, none, some, truthy, List,
  if◌then◌else◌, All,
}
use sentinal.Alerts.Gate.{Keys, Ask, asks, allow_alert, allow_alert_once}
use sentinal.Alerts.Dispatch.{Dispatched}

pub record AlertEvent : Type 0 where
  pub alert_id : String
  pub user_id : String

abbrev pub Message : Type 0
Message = Option AlertEvent

-- What is left of a message: the keys of Redis, the dispatch that was made, and whether the message is
-- committed.
pub record Handled : Type 0 where
  pub keys : Keys
  pub dispatched : Option Dispatched
  pub commits : Bool

abbrev skipped : Keys → Handled
skipped k = record { keys = k; dispatched = none; commits = true }

-- `send` is the dispatch of the alert; its error is only logged. `webhook` is the configured URL.
module _ (send : AlertEvent → Dispatched) (webhook : String) where
  abbrev pub decided : AlertEvent → Bool × Keys → Handled
  decided m (through, k) =
      if through
      then if truthy (some webhook)
        then record { keys = k; dispatched = some (send m); commits = true }
        else skipped k
      else skipped k

  -- `redis` tells whether Redis answers.
  unfoldable pub handle_message : Bool → ℕ → Message → Keys → Handled
  handle_message redis now none k = skipped k
  handle_message redis now (some m) k =
      if not (truthy (some m.alert_id))
      then skipped k
      else if redis
      then decided m (allow_alert now m.alert_id m.user_id k)
      else record { keys = k; dispatched = none; commits = false }

  -- An alert whose process dies after Redis has let it through and before the commit is lost: when the
  -- message comes again within ten minutes, it is committed and nothing is sent.
  pub redelivered_dropped :
      (now next : ℕ) (m : AlertEvent) (later : List Ask) (k : Keys)
      → truthy (some m.alert_id) ≡ true
      → (allow_alert now m.alert_id m.user_id k).0 ≡ true
      → All (λ (a : Ask). a.now < now + 600) later
      → next < now + 600
      → let k' = asks later (allow_alert now m.alert_id m.user_id k).1 in
        handle_message true next (some m) k'
        ≡ record { keys = k'; dispatched = none; commits = true }
  unfolding handle_message
  redelivered_dropped now next m later k id h before lt =
      let refused = allow_alert_once now next m.alert_id m.user_id m.user_id later k h before lt in
      rw (id, refused) refl
