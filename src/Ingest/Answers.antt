-- ===== src/Ingest/Answers.antt =====
-- What becomes of the events that are added.
use sentinal.Base.{ℕ, ◌+◌, ◌≡◌, ◌≤◌, ◌<◌, List, [], ◌∷◌, ◌++◌, le→leb, le→leb, length}
use sentinal.Ingest.Batch.{Queued, Engine}
use sentinal.Ingest.Told.{items, stored, of_caller}

module _ {Event : Type 0} where
  -- Every event that was accepted is answered, or still in the batch or the channel, in their order;
  -- those answered with success are broadcast; a caller has one event under way at most, and one
  -- answer for each flush at most; the batch is below its size.
  pub record IsAccounted (batch_size : ℕ) (e : Engine Event) : Type 0 where
    pub in_order : e.accepted ≡ items e.answers ++ (e.batch ++ e.event_chan)
    pub announced : e.broadcast ≡ stored e.answers
    pub one_each : (p : ℕ) → of_caller p e.batch + of_caller p e.event_chan ≤ 1
    pub one_a_flush : (p : ℕ) → of_caller p (items e.answers) ≤ e.flushes
    pub not_full : length e.batch < batch_size

  -- The worker takes an item: the batch with it.
  abbrev more_of : Queued Event → List (Queued Event) → Engine Event → Engine Event
  more_of q rest e = record e { event_chan = rest; batch = e.batch ++ q ∷ [] }
