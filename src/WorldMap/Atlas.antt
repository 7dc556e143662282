-- ===== src/WorldMap/Atlas.antt =====
-- `loadAtlas` with the module's `atlasCache` and `atlasPromise`, and the effect of a map that calls it,
-- dashboard/src/components/map/WorldThreatMap.tsx. A fetch is known by its number.
use sentinal.Base.{
  ℕ, suc, Bool, true, false, ◌&&◌, not, Option, none, some, List, [], ◌∷◌, any, filter, ◌==◌,
  if◌then◌else◌,
}

module _ (F : Type 0) where
  pub record Atlas : Type 0 where
    pub cache : Option (List F)
    pub promise : Option ℕ
    -- The fetches that have not settled, and how many were started.
    pub flying : List ℕ
    pub started : ℕ

  -- A settled promise, or one that settles with a fetch.
  pub data Answer : Type 0 where
    resolved : List F → Answer
    awaits : ℕ → Answer

  unfoldable pub no_atlas : Atlas
  no_atlas = record { cache = none; promise = none; flying = []; started = 0 }

  abbrev join : Option ℕ → Atlas → Atlas × Answer
  join (some n) a = (a, awaits n)
  join none a = (
    record a { promise = some a.started; flying = a.started ∷ a.flying; started = suc a.started },
    awaits a.started,
  )

  unfoldable pub load_atlas : Atlas → Atlas × Answer
  load_atlas a = elim a.cache [ some fs ↦ (a, resolved fs) | none ↦ join a.promise a ]

  -- What the handlers of a fetch do when it settles: the `then` with the features, and the `catch`.
  abbrev pub settled : ℕ → Atlas → Atlas
  settled n a = record a { flying = filter (λ m. not (m == n)) a.flying }

  unfoldable pub arrived : ℕ → List F → Atlas → Atlas
  arrived n fs a = record (settled n a) { cache = some fs }

  unfoldable pub failed : ℕ → Atlas → Atlas
  failed n a = record (settled n a) { promise = none }

  -- A map: what it draws, the fetch whose end it waits for, and whether it is gone.
  pub record View : Type 0 where
    pub countries : Option (List F)
    pub waiting : Option ℕ
    pub cancelled : Bool

  -- `useState(atlasCache)`
  unfoldable pub first_render : Atlas → View
  first_render a = record { countries = a.cache; waiting = none; cancelled = false }

  abbrev take_answer : Answer → View → View
  take_answer (resolved fs) v = record v { countries = some fs }
  take_answer (awaits n) v = record v { waiting = some n }

  -- The effect that follows the first render.
  unfoldable pub mount : Atlas → View → Atlas × View
  unfolding load_atlas
  mount a v = elim a.cache [
    | some fs ↦ (a, v)
    | none ↦ ((load_atlas a).0, take_answer (load_atlas a).1 v)
  ]

  abbrev is_waiting : ℕ → Option ℕ → Bool
  is_waiting n none = false
  is_waiting n (some m) = m == n

  -- `if (!cancelled) setCountries(features)`, when fetch `n` settles.
  unfoldable pub deliver : ℕ → List F → View → View
  deliver n fs v =
      if is_waiting n v.waiting && not v.cancelled then record v { countries = some fs } else v

  unfoldable pub unmount : View → View
  unmount v = record v { cancelled = true }

  -- What happens to the module and to one map: another map's effect, the end of a fetch, its own end.
  pub data Event : Type 0 where
    loads leaves : Event
    arrives : ℕ → List F → Event
    fails : ℕ → Event

  abbrev in_flight : ℕ → Atlas → Bool
  in_flight n a = any (λ m. m == n) a.flying

  -- Only a fetch in flight settles.
  unfoldable pub step : Event → Atlas × View → Atlas × View
  unfolding load_atlas arrived failed deliver unmount
  step loads s = ((load_atlas s.0).0, s.1)
  step leaves s = (s.0, unmount s.1)
  step (arrives n fs) s = if in_flight n s.0 then (arrived n fs s.0, deliver n fs s.1) else s
  step (fails n) s = if in_flight n s.0 then (failed n s.0, deliver n [] s.1) else s

  unfoldable pub run : List Event → Atlas × View → Atlas × View
  unfolding step
  run [] s = s
  run (e ∷ es) s = run es (step e s)
