-- ===== src/Ingest/Batch.antt =====
-- The worker of analytics-service/internal/batch/engine.go and the callers of `AddEvent`, who wait for
-- their answer. There is one worker, as in analytics-service/main.go. The deadlines of the callers and
-- the size of the channel are left out; when the channel is closed, the worker flushes as at a tick.
use sentinal.Base.{
  ℕ, suc, Bool, ◌||◌, List, [], ◌∷◌, ◌++◌, ◌==◌, any, leb, length, map, if◌then◌else◌,
}

-- An event with the goroutine that adds it.
pub record Queued (Event : Type 0) : Type 0 where
  pub producer : ℕ
  pub event : Event

-- An item of a batch with what its caller is told: whether the batch was inserted.
pub record Answered (Event : Type 0) : Type 0 where
  pub item : Queued Event
  pub inserted : Bool

-- The channel and the batch, oldest first; `accepted` holds all events that were put into the channel,
-- `answers` and `broadcast` what was answered and handed to `onEvent`.
pub record Engine (Event : Type 0) : Type 0 where
  pub event_chan : List (Queued Event)
  pub batch : List (Queued Event)
  pub accepted : List (Queued Event)
  pub answers : List (Answered Event)
  pub broadcast : List (Queued Event)
  pub flushes : ℕ

-- Three calls of `InsertBatch` at most, by whether they succeed.
unfoldable pub inserts : Bool → Bool → Bool → Bool
inserts first second third = first || second || third

module _ {Event : Type 0} where
  unfoldable pub new_engine : Engine Event
  new_engine = record {
    event_chan = [];
    batch = [];
    accepted = [];
    answers = [];
    broadcast = [];
    flushes = 0;
  }

  abbrev pub told : Bool → List (Queued Event) → List (Answered Event)
  told ok items = map (λ (q : Queued Event). record { item = q; inserted = ok }) items

  abbrev pub flushed : Bool → Engine Event → Engine Event
  flushed ok e = record e {
    batch = [];
    answers = e.answers ++ told ok e.batch;
    broadcast = if ok then e.broadcast ++ e.batch else e.broadcast;
    flushes = suc e.flushes;
  }

  -- An empty batch is not inserted.
  unfoldable pub flush : Bool → Engine Event → Engine Event
  flush ok e = if leb 1 (length e.batch) then flushed ok e else e

  -- The caller has an event in the channel or in the batch.
  abbrev pub waits : ℕ → List (Queued Event) → Bool
  waits p items = any (λ (q : Queued Event). q.producer == p) items

  unfoldable pub add_event : Queued Event → Engine Event → Engine Event
  add_event q e =
      if waits q.producer e.batch || waits q.producer e.event_chan
      then e
      else record e { event_chan = e.event_chan ++ q ∷ []; accepted = e.accepted ++ q ∷ [] }

  abbrev pub taken : ℕ → Bool → List (Queued Event) → Engine Event → Engine Event
  taken batch_size ok [] e = e
  taken batch_size ok (q ∷ rest) e =
      let more = record e { event_chan = rest; batch = e.batch ++ q ∷ [] } in
      if leb batch_size (length more.batch) then flush ok more else more

  -- The worker takes an item from the channel.
  unfoldable pub receive : ℕ → Bool → Engine Event → Engine Event
  unfolding flush
  receive batch_size ok e = taken batch_size ok e.event_chan e

pub data Moment (Event : Type 0) : Type 0 where
  adds : Queued Event → Moment Event
  receives ticks : Bool → Bool → Bool → Moment Event

module _ {Event : Type 0} (batch_size : ℕ) where
  unfoldable pub step : Moment Event → Engine Event → Engine Event
  unfolding add_event receive flush inserts
  step (adds q) e = add_event q e
  step (receives a b c) e = receive batch_size (inserts a b c) e
  step (ticks a b c) e = flush (inserts a b c) e

  unfoldable pub run : List (Moment Event) → Engine Event → Engine Event
  unfolding step
  run [] e = e
  run (m ∷ ms) e = run ms (step m e)
