-- ===== src/Ingest/Hub.antt =====
-- The fan-out of analytics-service/internal/api/websocket.go. A frame is an event, or `none` for a ping.
-- A client stands for its pointer; its writer goroutine takes the frames of its channel.
use sentinal.Base.{
  ℕ, not, Option, none, some, List, [], ◌∷◌, ◌++◌, ◌==◌, any, filter, ltb, length, map,
  if◌then◌else◌,
}

module _ (Event : Type 0) where
  pub record Client : Type 0 where
    pub id : ℕ
    pub send : List (Option Event)

  pub record Hub : Type 0 where
    pub clients : List Client
    pub broadcast : List Event

  pub data Signal : Type 0 where
    registers unregisters writes : ℕ → Signal
    broadcasts : Event → Signal
    fans_out pings : Signal

module _ {Event : Type 0} where
  unfoldable pub new_hub : Hub Event
  new_hub = record { clients = []; broadcast = [] }

  -- A send that does not block: a frame for which the buffer of 64 has no room is dropped.
  abbrev pub offer : Option Event → List (Option Event) → List (Option Event)
  offer f send = if ltb (length send) 64 then send ++ f ∷ [] else send

  unfoldable pub offer_all : Option Event → List (Client Event) → List (Client Event)
  offer_all f cs = map (λ (c : Client Event). record c { send = offer f c.send }) cs

  unfoldable pub register : ℕ → List (Client Event) → List (Client Event)
  register i cs =
      if any (λ (c : Client Event). c.id == i) cs then cs else record { id = i; send = [] } ∷ cs

  unfoldable pub unregister : ℕ → List (Client Event) → List (Client Event)
  unregister i cs = filter (λ (c : Client Event). not (c.id == i)) cs

  abbrev pub rest_of : List (Option Event) → List (Option Event)
  rest_of [] = []
  rest_of (f ∷ fs) = fs

  -- The writer of a client takes its next frame.
  unfoldable pub write : ℕ → List (Client Event) → List (Client Event)
  write i cs =
      map (λ (c : Client Event). record c { send = if c.id == i then rest_of c.send else c.send })
        cs

  -- `BroadcastEvent`: the buffer holds 256 events.
  unfoldable pub broadcast_event : Event → List Event → List Event
  broadcast_event e buffer = if ltb (length buffer) 256 then buffer ++ e ∷ [] else buffer

  abbrev pub fan_out : Hub Event → List Event → Hub Event
  fan_out h [] = h
  fan_out h (e ∷ rest) = record { clients = offer_all (some e) h.clients; broadcast = rest }

  -- One round of `Run`, a call of `BroadcastEvent`, or a frame that a writer takes.
  unfoldable pub step : Signal Event → Hub Event → Hub Event
  unfolding register unregister write broadcast_event offer_all
  step (registers i) h = record h { clients = register i h.clients }
  step (unregisters i) h = record h { clients = unregister i h.clients }
  step (writes i) h = record h { clients = write i h.clients }
  step (broadcasts e) h = record h { broadcast = broadcast_event e h.broadcast }
  step fans_out h = fan_out h h.broadcast
  step pings h = record h { clients = offer_all none h.clients }

  unfoldable pub run : List (Signal Event) → Hub Event → Hub Event
  unfolding step
  run [] h = h
  run (s ∷ ss) h = run ss (step s h)
