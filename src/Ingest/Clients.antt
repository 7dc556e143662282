-- ===== src/Ingest/Clients.antt =====
-- What one client of the hub sees.
use sentinal.Base.{
  ℕ, ◌≡◌, refl, ap, subst, ◌∙◌, arith, true, false, Option, none, some, List, [], ◌∷◌, ◌==◌, any,
  map, ◌or◌, if◌then◌else◌, Bool-cases, inl, inr,
}
use sentinal.Ingest.Hub.{
  Client, Hub, Signal, registers, unregisters, writes, broadcasts, fans_out, pings, offer,
  offer_all, register, unregister, rest_of, write, broadcast_event, fan_out, step, run,
}

-- The specification of one subscriber: its queue while it is registered, and the events to come.
pub record Subscriber (Event : Type 0) : Type 0 where
  pub queue : Option (List (Option Event))
  pub coming : List Event

module _ {Event : Type 0} where
  abbrev pub on_queue :
      (List (Option Event) → List (Option Event))
      → Option (List (Option Event))
      → Option (List (Option Event))
  on_queue f none = none
  on_queue f (some q) = some (f q)

  abbrev pub next_event : Subscriber Event → List Event → Subscriber Event
  next_event s [] = s
  next_event s (e ∷ rest) = record { queue = on_queue (offer (some e)) s.queue; coming = rest }

  -- Its own signals, the events and the pings; the signals of the others do not concern it.
  abbrev pub follow : ℕ → Signal Event → Subscriber Event → Subscriber Event
  follow i (registers j) s = if j == i then record s { queue = some (s.queue or []) } else s
  follow i (unregisters j) s = if j == i then record s { queue = none } else s
  follow i (writes j) s = if j == i then record s { queue = on_queue rest_of s.queue } else s
  follow i (broadcasts e) s = record s { coming = broadcast_event e s.coming }
  follow i fans_out s = next_event s s.coming
  follow i pings s = record s { queue = on_queue (offer none) s.queue }

  unfoldable pub follow_all : ℕ → List (Signal Event) → Subscriber Event → Subscriber Event
  follow_all i [] s = s
  follow_all i (x ∷ xs) s = follow_all i xs (follow i x s)

  unfoldable pub queue_of : ℕ → List (Client Event) → Option (List (Option Event))
  queue_of i [] = none
  queue_of i (c ∷ cs) = let rest = queue_of i cs in if c.id == i then some c.send else rest

  abbrev pub view : ℕ → Hub Event → Subscriber Event
  view i h = record { queue = queue_of i h.clients; coming = h.broadcast }

  queue_of-map :
      (i : ℕ) (g : ℕ → List (Option Event) → List (Option Event)) (cs : List (Client Event))
      → queue_of i (map (λ (c : Client Event). record c { send = g c.id c.send }) cs)
        ≡ on_queue (g i) (queue_of i cs)
  unfolding queue_of
  queue_of-map i g [] = refl
  queue_of-map i g (c ∷ cs) = elim (Bool-cases (c.id == i)) [
    | inl own ↦
        let e : c.id ≡ i = ground (arith, own) in simp own (ap (λ (k : ℕ). some (g k c.send)) e)
    | inr other ↦ simp other (queue_of-map i g cs)
  ]

  not_there :
      (i : ℕ) (cs : List (Client Event))
      → any (λ (c : Client Event). c.id == i) cs ≡ false
      → queue_of i cs ≡ none
  unfolding queue_of
  not_there i [] h = refl
  not_there i (c ∷ cs) h = ground (arith, not_there i cs, h)

  there :
      (i : ℕ) (cs : List (Client Event))
      → any (λ (c : Client Event). c.id == i) cs ≡ true
      → queue_of i cs ≡ some (queue_of i cs or [])
  unfolding queue_of
  there i [] h = absurd cc
  there i (c ∷ cs) h = elim (Bool-cases (c.id == i)) [
    | inl own ↦ rw own refl
    | inr other ↦ rw other (there i cs (rw other at h))
  ]

  queue_of-register :
      (i j : ℕ) (cs : List (Client Event))
      → queue_of i (register j cs) ≡ (if j == i then some (queue_of i cs or []) else queue_of i cs)
  unfolding register queue_of
  queue_of-register i j cs = elim (Bool-cases (any (λ (c : Client Event). c.id == j) cs)) [
    | inl known ↦ elim (Bool-cases (j == i)) [
      | inr other ↦ simp (known, other)
      | inl own ↦
          let e : j ≡ i = ground (arith, own) in
          let here =
            there i cs
              (subst (λ (k : ℕ). any (λ (c : Client Event). c.id == k) cs ≡ true) e known) in
          simp (known, own) here
    ]
    | inr new ↦ elim (Bool-cases (j == i)) [
      | inr other ↦ simp (new, other, queue_of)
      | inl own ↦
          let e : j ≡ i = ground (arith, own) in
          let gone =
            not_there i cs
              (subst (λ (k : ℕ). any (λ (c : Client Event). c.id == k) cs ≡ false) e new) in
          simp (new, own, queue_of, gone)
    ]
  ]

  queue_of-unregister :
      (i j : ℕ) (cs : List (Client Event))
      → queue_of i (unregister j cs) ≡ (if j == i then none else queue_of i cs)
  unfolding unregister queue_of
  queue_of-unregister i j [] = ground arith
  queue_of-unregister i j (c ∷ cs) = ground (arith, queue_of-unregister i j cs)

  on_queue-writes :
      (i j : ℕ) (o : Option (List (Option Event)))
      → on_queue (λ q. if i == j then rest_of q else q) o
        ≡ (if j == i then on_queue rest_of o else o)
  on_queue-writes i j none = ground arith
  on_queue-writes i j (some q) = ground arith

  -- What a subscriber sees of the hub is its own machine, for one signal.
  step-follow :
      (i : ℕ) (x : Signal Event) (h : Hub Event) → view i (step x h) ≡ follow i x (view i h)
  unfolding step offer_all write
  step-follow i (registers j) h =
      let e = queue_of-register i j h.clients in
      elim (Bool-cases (j == i)) [ inl own ↦ simp (e, own) | inr other ↦ simp (e, other) ]
  step-follow i (unregisters j) h =
      let e = queue_of-unregister i j h.clients in
      elim (Bool-cases (j == i)) [ inl own ↦ simp (e, own) | inr other ↦ simp (e, other) ]
  step-follow i (writes j) h =
      let e =
        queue_of-map i (λ k q. if k == j then rest_of q else q) h.clients
        ∙ on_queue-writes i j (queue_of i h.clients) in
      elim (Bool-cases (j == i)) [ inl own ↦ simp (e, own) | inr other ↦ simp (e, other) ]
  step-follow i (broadcasts e) h = refl
  step-follow i fans_out h = fan_out-follow h h.broadcast refl
    where
      fan_out-follow :
          (h : Hub Event) (buffer : List Event)
          → h.broadcast ≡ buffer
          → view i (fan_out h buffer) ≡ next_event (view i h) buffer
      fan_out-follow h [] e = refl
      fan_out-follow h (e ∷ rest) eq =
          ap (λ q. record { queue = q; coming = rest })
            (queue_of-map i (λ k q. offer (some e) q) h.clients)
  step-follow i pings h =
      ap (λ q. record { queue = q; coming = h.broadcast })
        (queue_of-map i (λ k q. offer none q) h.clients)

  -- The hub implements independent subscribers: whatever the others do, and however far they lag behind,
  -- a client's queue is what its own signals, the events and the pings make of it.
  pub run-follow_all :
      (i : ℕ) (xs : List (Signal Event)) (h : Hub Event)
      → view i (run xs h) ≡ follow_all i xs (view i h)
  unfolding run follow_all
  run-follow_all i [] h = refl
  run-follow_all i (x ∷ xs) h =
      run-follow_all i xs (step x h) ∙ ap (follow_all i xs) (step-follow i x h)
