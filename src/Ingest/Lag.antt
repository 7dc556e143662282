-- ===== src/Ingest/Lag.antt =====
-- The bounds of the hub's buffers.
use sentinal.Base.{
  ℕ, ◌≡◌, ◌≤◌, refl, ap, arith, Bool, true, false, Option, none, some, List, [], ◌∷◌, ◌==◌, length,
  length-append, ◌or◌, if◌then◌else◌,
}
use sentinal.Ingest.Hub.{
  Signal, registers, unregisters, writes, broadcasts, fans_out, pings, new_hub, offer, rest_of,
  broadcast_event, run,
}
use sentinal.Ingest.Clients.{
  Subscriber, on_queue, next_event, follow, follow_all, queue_of, view, run-follow_all,
}

module _ {Event : Type 0} where
  abbrev pub Short : Option (List (Option Event)) → Type 0
  Short none = Unit
  Short (some q) = length q ≤ 64

  -- The queue of a subscriber and the buffer of the hub are within their bounds.
  pub record IsBounded (s : Subscriber Event) : Type 0 where
    pub queued : Short s.queue
    pub buffered : length s.coming ≤ 256

  offer-Short :
      (f : Option Event) (o : Option (List (Option Event))) → Short o → Short (on_queue (offer f) o)
  offer-Short f none h = tt
  offer-Short f (some q) h = ground (arith, length-append q (f ∷ []), h)

  rest-Short : (o : Option (List (Option Event))) → Short o → Short (on_queue rest_of o)
  rest-Short none h = tt
  rest-Short (some []) h = omega arith
  rest-Short (some (f ∷ fs)) h = omega (arith, h)

  kept-Short : (o : Option (List (Option Event))) → Short o → Short (some (o or []))
  kept-Short none h = omega arith
  kept-Short (some q) h = h

  next_event-IsBounded :
      (s : Subscriber Event) (coming : List Event)
      → s.coming ≡ coming
      → IsBounded s
      → IsBounded (next_event s coming)
  next_event-IsBounded s [] e b = b
  next_event-IsBounded s (x ∷ rest) e b = record {
    queued = offer-Short (some x) s.queue b.queued;
    buffered = omega (arith, b.buffered, ap length e);
  }

  -- A change of the queue that concerns the subscriber only if the signal is its own.
  own-IsBounded :
      (own : Bool) (s : Subscriber Event) (o : Option (List (Option Event)))
      → Short o
      → IsBounded s
      → IsBounded (if own then record s { queue = o } else s)
  own-IsBounded true s o h b = record { queued = h; buffered = b.buffered }
  own-IsBounded false s o h b = b

  follow-IsBounded :
      (i : ℕ) (x : Signal Event) (s : Subscriber Event) → IsBounded s → IsBounded (follow i x s)
  follow-IsBounded i (registers j) s b =
      own-IsBounded (j == i) s (some (s.queue or [])) (kept-Short s.queue b.queued) b
  follow-IsBounded i (unregisters j) s b = own-IsBounded (j == i) s none tt b
  follow-IsBounded i (writes j) s b =
      own-IsBounded (j == i) s (on_queue rest_of s.queue) (rest-Short s.queue b.queued) b
  follow-IsBounded i (broadcasts e) s b = record {
    queued = b.queued;
    buffered =
        unfold broadcast_event in ground (arith, b.buffered, length-append s.coming (e ∷ []));
  }
  follow-IsBounded i fans_out s b = next_event-IsBounded s s.coming refl b
  follow-IsBounded i pings s b = record {
    queued = offer-Short none s.queue b.queued;
    buffered = b.buffered;
  }

  follow_all-IsBounded :
      (i : ℕ) (xs : List (Signal Event)) (s : Subscriber Event)
      → IsBounded s
      → IsBounded (follow_all i xs s)
  unfolding follow_all
  follow_all-IsBounded i [] s b = b
  follow_all-IsBounded i (x ∷ xs) s b =
      follow_all-IsBounded i xs (follow i x s) (follow-IsBounded i x s b)

  -- No signal makes the queue of a client exceed 64 frames or the buffer of the hub 256 events.
  pub run-IsBounded : (i : ℕ) (xs : List (Signal Event)) → IsBounded (view i (run xs new_hub))
  run-IsBounded i xs = rw (run-follow_all i xs new_hub) (
      follow_all-IsBounded i xs (view i new_hub)
        (unfold new_hub queue_of in record { queued = tt; buffered = omega arith }))
