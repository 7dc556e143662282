-- ===== src/WorldMap/Paths.antt =====
-- The path of each country, `countryPath` with its `countryPathCache`,
-- dashboard/src/components/map/WorldThreatMap.tsx. `same` is the identity of features, on which a
-- JavaScript `Map` looks its keys up; `geo_path` is d3-geo's path generator.
use sentinal.Base.{
  ◌≡◌, refl, Bool, true, Option, none, some, String, List, [], ◌∷◌, ◌++◌, ◌or◌, map, All, get,
  cached, cached_all, Right, Cached, cached_all-Right, Option-cases, inl, inr,
}

-- The cache, and the features that the generator was called for, in order.
pub record Paths (F : Type 0) : Type 0 where
  pub cache : List (F × String)
  pub computed : List F

module _ {F : Type 0} (same : F → F → Bool) (geo_path : F → Option String) where
  abbrev pub path_of : F → String
  path_of c = geo_path c or ""

  -- What is drawn, and the state after the call.
  unfoldable pub country_path : F → Paths F → String × Paths F
  unfolding get
  country_path c s = elim (get same path_of c s.cache) [
    | some d ↦ (d, s)
    | none ↦
        (path_of c, record { cache = (c, path_of c) ∷ s.cache; computed = s.computed ++ c ∷ [] })
  ]

  -- The landmasses of one render.
  unfoldable pub draw : List F → Paths F → List String × Paths F
  unfolding country_path
  draw [] s = ([], s)
  draw (c ∷ cs) s =
      let first = country_path c s in let rest = draw cs first.1 in (first.0 ∷ rest.0, rest.1)

  -- But for the calls of the generator, it is a function behind a cache.
  country_path-cached :
      (c : F) (s : Paths F)
      → ((country_path c s).0 ≡ (cached same path_of c s.cache).0)
        × ((country_path c s).1.cache ≡ (cached same path_of c s.cache).1)
  unfolding country_path cached
  country_path-cached c s = elim (Option-cases (get same path_of c s.cache)) [
    | inl new ↦ rw (country_path, cached, new) (refl, refl)
    | inr (d, old) ↦ rw (country_path, cached, old) (refl, refl)
  ]

  draw-cached_all :
      (cs : List F) (s : Paths F)
      → ((draw cs s).0 ≡ (cached_all same path_of cs s.cache).0)
        × ((draw cs s).1.cache ≡ (cached_all same path_of cs s.cache).1)
  unfolding draw cached_all
  draw-cached_all [] s = (refl, refl)
  draw-cached_all (c ∷ cs) s =
      let (e, k) = country_path-cached c s in
      let (es, ks) = draw-cached_all cs (country_path c s).1 in
      (rw (e, es, k) refl, rw (ks, k) refl)

  country_path-hit :
      (c : F) (s : Paths F) → Cached same path_of s.cache c → (country_path c s).1 ≡ s
  unfolding country_path
  country_path-hit c s (d, h) = rw (country_path, h) refl

  draw-hit : (cs : List F) (s : Paths F) → All (Cached same path_of s.cache) cs → (draw cs s).1 ≡ s
  unfolding draw
  draw-hit [] s h = refl
  draw-hit (c ∷ cs) s h = rw (country_path-hit c s h.0) (draw-hit cs s h.1)

module _ {F : Type 0} (same : F → F → Bool) (geo_path : F → Option String)
    (same-eq : (c d : F) → same c d ≡ true → c ≡ d) (same-refl : (c : F) → same c c ≡ true) where
  -- If features are told apart by their identity, then from a cache of right entries a render draws
  -- for every country the path that the generator gives it and leaves right entries, and a further
  -- render of the same countries does not call the generator: it leaves the cache and the calls of the
  -- generator as they are.
  pub draw-pure :
      (cs : List F) (s : Paths F)
      → Right same (path_of same geo_path) s.cache
      → let r = draw same geo_path cs s in
        (r.0 ≡ map (λ c. geo_path c or "") cs)
        × Right same (path_of same geo_path) r.1.cache
        × ((draw same geo_path cs r.1).1 ≡ r.1)
  draw-pure cs s h =
      let path = path_of same geo_path in
      let (drawn, kept) = draw-cached_all same geo_path cs s in
      let (all, right, hits) = cached_all-Right same path same-eq same-refl cs s.cache h in
      (
        rw drawn all,
        rw kept right,
        draw-hit same geo_path cs (draw same geo_path cs s).1 (rw kept hits),
      )
