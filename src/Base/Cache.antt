-- ===== src/Base/Cache.antt =====
-- A function behind a `Map` that keeps its results: what is looked up first, and computed and stored
-- where it is missing. `same` is how the keys of the map are told apart.
use mathlib.Core.Path.{◌≡◌, refl}
use mathlib.Core.Logic.{inl, inr}
use mathlib.Core.Bool.{Bool, true}
use mathlib.Core.Option.{Option, none, some}
use mathlib.Core.List.{List, [], ◌∷◌, map}
use sentinal.Base.Tests.{if◌then◌else◌, Bool-cases, Option-cases}
use sentinal.Base.Lists.{All}

module _ {K V : Type 0} (same : K → K → Bool) (compute : K → V) where
  -- `cache.get(c)`
  unfoldable pub get : K → List (K × V) → Option V
  get c [] = none
  get c (e ∷ es) = let rest = get c es in if same e.0 c then some e.1 else rest

  -- The result, and the cache after the call.
  unfoldable pub cached : K → List (K × V) → V × List (K × V)
  unfolding get
  cached c cache = elim (get c cache) [
    | some d ↦ (d, cache)
    | none ↦ (compute c, (c, compute c) ∷ cache)
  ]

  -- A call for each of several keys.
  unfoldable pub cached_all : List K → List (K × V) → List V × List (K × V)
  unfolding cached
  cached_all [] cache = ([], cache)
  cached_all (c ∷ cs) cache =
      let first = cached c cache in let rest = cached_all cs first.1 in (first.0 ∷ rest.0, rest.1)

  -- Every entry is the result for its key.
  abbrev pub Right : List (K × V) → Type 0
  Right cache = All (λ e. e.1 ≡ compute e.0) cache

  abbrev pub Cached : List (K × V) → K → Type 0
  Cached cache c = (d : V) × (get c cache ≡ some d)

module _ {K V : Type 0} (same : K → K → Bool) (compute : K → V)
    (same-eq : (c d : K) → same c d ≡ true → c ≡ d) (same-refl : (c : K) → same c c ≡ true) where
  get-Right :
      (c : K) (cache : List (K × V)) (d : V)
      → Right same compute cache
      → get same compute c cache ≡ some d
      → d ≡ compute c
  unfolding get
  get-Right c [] d r h = absurd cc
  get-Right c (e ∷ es) d r h = elim (Bool-cases (same e.0 c)) [
    | inl hit ↦
        let k : some e.1 ≡ some d = rw hit at h in
        let own = r.0 in let key = same-eq e.0 c hit in cc
    | inr miss ↦ get-Right c es d r.1 (rw miss at h)
  ]

  pub cached-Right :
      (c : K) (cache : List (K × V))
      → Right same compute cache
      → let r = cached same compute c cache in
        (r.0 ≡ compute c) × Right same compute r.1 × Cached same compute r.1 c
  unfolding cached
  cached-Right c cache r = elim (Option-cases (get same compute c cache)) [
    | inl new ↦ rw (cached, new) (refl, (refl, r), (compute c, rw (get, same-refl c) refl))
    | inr (d, old) ↦ rw (cached, old) (get-Right c cache d r old, r, (d, old))
  ]

  Cached-keep :
      (c k : K) (cache : List (K × V))
      → Cached same compute cache c
      → Cached same compute (cached same compute k cache).1 c
  unfolding cached
  Cached-keep c k cache (d, h) = elim (Option-cases (get same compute k cache)) [
    | inr (e, old) ↦ rw (cached, old) (d, h)
    | inl new ↦ elim (Bool-cases (same k c)) [
      | inl eq ↦ rw (cached, new) (compute k, rw (get, eq) refl)
      | inr ne ↦ rw (cached, new) (d, rw (get, ne) h)
    ]
  ]

  cached_all-keep :
      (cs : List K) (c : K) (cache : List (K × V))
      → Cached same compute cache c
      → Cached same compute (cached_all same compute cs cache).1 c
  unfolding cached_all
  cached_all-keep [] c cache h = h
  cached_all-keep (k ∷ ks) c cache h =
      cached_all-keep ks c (cached same compute k cache).1 (Cached-keep c k cache h)

  pub cached_all-Right :
      (cs : List K) (cache : List (K × V))
      → Right same compute cache
      → let r = cached_all same compute cs cache in
        (r.0 ≡ map compute cs) × Right same compute r.1 × All (Cached same compute r.1) cs
  unfolding cached_all
  cached_all-Right [] cache r = (refl, r, tt)
  cached_all-Right (c ∷ cs) cache r =
      let next = (cached same compute c cache).1 in
      let (e, r1, hit) = cached-Right c cache r in
      let (es, r2, hits) = cached_all-Right cs next r1 in
      (rw (e, es) refl, r2, (cached_all-keep cs c next hit, hits))
