-- ===== src/WorldMap/Loading.antt =====
-- The atlas as a cell that is idle, loading or loaded, which `loadAtlas` implements.
use sentinal.Base.{
  ℕ, ◌≡◌, refl, sym, subst, ◌∙◌, arith, true, Option, none, some, List, [], ◌∷◌, ◌==◌, ==_refl, any,
  filter, not, Bool-cases, inl, inr,
}
use mathlib.Core.Bool.{false≢true}
use sentinal.WorldMap.Atlas.{
  Atlas, View, no_atlas, load_atlas, arrived, failed, Event, loads, leaves, arrives, fails, step,
  run,
}

module _ (F : Type 0) where
  pub data Cell : Type 0 where
    idle loading : Cell
    loaded : List F → Cell

  -- The moves that the cell allows: geometry is never lost, and never replaced by a failure.
  pub data Move : Cell → Cell → Type 0 where
    stay : {c : Cell} → Move c c
    start : Move idle loading
    finish : {fs : List F} → Move loading (loaded fs)
    give_up : Move loading idle

  abbrev pub Holds : Atlas F → Cell → Type 0
  Holds a idle = (a.cache ≡ none) × (a.promise ≡ none) × (a.flying ≡ [])
  Holds a loading = (n : ℕ) × (a.cache ≡ none) × (a.promise ≡ some n) × (a.flying ≡ n ∷ [])
  Holds a (loaded fs) = (a.cache ≡ some fs) × (a.flying ≡ [])

  -- A step of the code is a move of the cell.
  abbrev pub Moved : Atlas F → Cell → Type 0
  Moved a c = (d : Cell) × Move c d × Holds a d

  load-Moved : (a : Atlas F) (c : Cell) → Holds a c → Moved (load_atlas F a).0 c
  unfolding load_atlas
  load-Moved a idle (h, p, f) = (loading, start, rw (h, p, f) (a.started, refl, refl, refl))
  load-Moved a loading (n, h, p, f) = (loading, stay, rw (h, p, f) (n, refl, refl, refl))
  load-Moved a (loaded fs) (h, f) = (loaded fs, stay, rw (h, f) (refl, refl))

  settled-nil : (n : ℕ) (xs : List ℕ) → xs ≡ n ∷ [] → filter (λ m. not (m == n)) xs ≡ []
  settled-nil n xs h = rw (h, ==_refl n) refl

  alone : (n m : ℕ) (xs : List ℕ) → xs ≡ m ∷ [] → any (λ k. k == n) xs ≡ true → xs ≡ n ∷ []
  alone n m xs h hit = ground (arith, rw h at hit)

  arrived-Moved :
      (n : ℕ) (fs : List F) (a : Atlas F) (c : Cell)
      → Holds a c
      → any (λ m. m == n) a.flying ≡ true
      → Moved (arrived F n fs a) c
  unfolding arrived
  arrived-Moved n fs a idle (h, p, f) hit = absurd (false≢true (rw f at hit))
  arrived-Moved n fs a (loaded gs) (h, f) hit = absurd (false≢true (rw f at hit))
  arrived-Moved n fs a loading (m, h, p, f) hit =
      (loaded fs, finish, (refl, settled-nil n a.flying (alone n m a.flying f hit)))

  failed-Moved :
      (n : ℕ) (a : Atlas F) (c : Cell)
      → Holds a c
      → any (λ m. m == n) a.flying ≡ true
      → Moved (failed F n a) c
  unfolding failed
  failed-Moved n a idle (h, p, f) hit = absurd (false≢true (rw f at hit))
  failed-Moved n a (loaded gs) (h, f) hit = absurd (false≢true (rw f at hit))
  failed-Moved n a loading (m, h, p, f) hit =
      (idle, give_up, (h, refl, settled-nil n a.flying (alone n m a.flying f hit)))

  step-Moved :
      (e : Event F) (s : Atlas F × View F) (c : Cell) → Holds s.0 c → Moved (step F e s).0 c
  unfolding step
  step-Moved loads s c h = load-Moved s.0 c h
  step-Moved leaves s c h = (c, stay, h)
  step-Moved (arrives n fs) s c h = elim (Bool-cases (any (λ m. m == n) s.0.flying)) [
    | inl hit ↦ rw hit (arrived-Moved n fs s.0 c h hit)
    | inr miss ↦ rw miss (c, stay, h)
  ]
  step-Moved (fails n) s c h = elim (Bool-cases (any (λ m. m == n) s.0.flying)) [
    | inl hit ↦ rw hit (failed-Moved n s.0 c h hit)
    | inr miss ↦ rw miss (c, stay, h)
  ]

  pub data Moves : Cell → Cell → Type 0 where
    here : {c : Cell} → Moves c c
    later : {c d e : Cell} → Move c d → Moves d e → Moves c e

  run-Moves :
      (es : List (Event F)) (s : Atlas F × View F) (c : Cell)
      → Holds s.0 c
      → (d : Cell) × Moves c d × Holds (run F es s).0 d
  unfolding run
  run-Moves [] s c h = (c, here, h)
  run-Moves (e ∷ es) s c h =
      let (d, m, k) = step-Moved e s c h in
      let (e, ms, l) = run-Moves es (step F e s) d k in (e, later m ms, l)

  pub run-Holds :
      (es : List (Event F)) (v : View F)
      → (d : Cell) × Moves idle d × Holds (run F es (no_atlas F, v)).0 d
  unfolding no_atlas
  run-Holds es v = run-Moves es (no_atlas F, v) idle (refl, refl, refl)

  -- The geometry is there, after so many fetches, and none is in flight.
  record Kept (fs : List F) (n : ℕ) (a : Atlas F) : Type 0 where
    there : a.cache ≡ some fs
    landed : a.flying ≡ []
    fetched : a.started ≡ n

  none≢some : {A : Type 0} {fs : List F} → ◌≡◌ {A = Option (List F)} none (some fs) → A
  none≢some e = cc

  cell-landed :
      (a : Atlas F) (d : Cell) (fs : List F) → Holds a d → a.cache ≡ some fs → a.flying ≡ []
  cell-landed a idle fs (h, p, f) e = f
  cell-landed a loading fs (n, h, p, f) e = absurd (none≢some (sym h ∙ e))
  cell-landed a (loaded gs) fs (h, f) e = f

  load-Kept : (fs : List F) (n : ℕ) (a : Atlas F) → Kept fs n a → Kept fs n (load_atlas F a).0
  load-Kept fs n a k =
      let same : (load_atlas F a).0 ≡ a = unfold load_atlas in rw k.there refl in
      subst (Kept fs n) (sym same) k

  step-Kept :
      (e : Event F) (s : Atlas F × View F) (fs : List F) (n : ℕ)
      → Kept fs n s.0
      → Kept fs n (step F e s).0
  unfolding step
  step-Kept loads s fs n k = load-Kept fs n s.0 k
  step-Kept leaves s fs n k = k
  step-Kept (arrives m gs) s fs n k = simp k.landed k
  step-Kept (fails m) s fs n k = simp k.landed k

  run_from-Kept :
      (es : List (Event F)) (s : Atlas F × View F) (fs : List F) (n : ℕ)
      → Kept fs n s.0
      → Kept fs n (run F es s).0
  unfolding run
  run_from-Kept [] s fs n k = k
  run_from-Kept (e ∷ es) s fs n k = run_from-Kept es (step F e s) fs n (step-Kept e s fs n k)

  -- Once the geometry is loaded it is never lost, replaced or fetched again: from the start of the module
  -- on, after any history that has loaded it and whatever happens then, the cache still holds it, and
  -- no fetch is in flight or was started since.
  pub run-kept :
      (es more : List (Event F)) (v : View F) (fs : List F)
      → (run F es (no_atlas F, v)).0.cache ≡ some fs
      → let before = run F es (no_atlas F, v) in
        let after = run F more before in
        (after.0.cache ≡ some fs) × (after.0.flying ≡ []) × (after.0.started ≡ before.0.started)
  run-kept es more v fs h =
      let before = run F es (no_atlas F, v) in
      let (d, moves, holds) = run-Holds es v in
      let k =
        run_from-Kept more before fs before.0.started
          (record { there = h; landed = cell-landed before.0 d fs holds h; fetched = refl }) in
      (k.there, k.landed, k.fetched)
