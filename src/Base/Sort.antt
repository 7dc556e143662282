-- ===== src/Base/Sort.antt =====
-- `[...xs].sort((a, b) => key(a) - key(b))` and its descending form: a stable sort by a number.
use sentinal.Base.Tests.{leb, if◌then◌else◌, Bool-cases}
use sentinal.Base.Lists.{length, All, filter}
use Prim.Native.Nat.{ℕ, suc}
use mathlib.Core.Path.{◌≡◌, refl, ap, ◌∙◌, sym}
use mathlib.Core.Logic.{inl, inr}
use mathlib.Core.Bool.{Bool, true, false}
use mathlib.Core.List.{List, [], ◌∷◌, Perm, map}
use mathlib.Core.List.Perm
use native.Mathlib.Omega.{arith}

-- `before x y`: an item `x` that stood in front of `y` may stay there.
module _ {ℓ} {A : Type ℓ} (before : A → A → Bool) where
  unfoldable pub insert : A → List A → List A
  insert x [] = x ∷ []
  insert x (y ∷ ys) = let rest = insert x ys in if before x y then x ∷ y ∷ ys else y ∷ rest

  unfoldable pub sort : List A → List A
  sort [] = []
  sort (x ∷ xs) = insert x (sort xs)

  -- Every item may stand in front of all the later ones.
  abbrev pub InOrder : List A → Type ℓ
  InOrder [] = Unit
  InOrder (x ∷ xs) = All (λ y. before x y ≡ true) xs × InOrder xs

  insert-Perm : (x : A) (xs : List A) → Perm (insert x xs) (x ∷ xs)
  unfolding insert
  insert-Perm x [] = Perm.rfl
  insert-Perm x (y ∷ ys) = elim (Bool-cases (before x y)) [
    | inl h ↦ rw h Perm.rfl
    | inr h ↦ rw h (Perm.trans (Perm.cons y (insert-Perm x ys)) (Perm.swap x y ys))
  ]

  pub sort-Perm : (xs : List A) → Perm (sort xs) xs
  unfolding sort
  sort-Perm [] = Perm.rfl
  sort-Perm (x ∷ xs) = Perm.trans (insert-Perm x (sort xs)) (Perm.cons x (sort-Perm xs))

  filter-insert-Perm :
      (p : A → Bool) (x : A) (xs : List A) → Perm (filter p (insert x xs)) (filter p (x ∷ xs))
  unfolding insert
  filter-insert-Perm p x [] = Perm.rfl
  filter-insert-Perm p x (y ∷ ys) = elim (Bool-cases (before x y)) [
    | inl h ↦ rw h Perm.rfl
    | inr h ↦ elim (Bool-cases (p y)) [
      | inr off ↦ simp (h, off) (filter-insert-Perm p x ys)
      | inl on ↦ elim (Bool-cases (p x)) [
        | inr none ↦
            let ih : Perm (filter p (insert x ys)) (filter p ys) =
              rw none at (filter-insert-Perm p x ys) in
            simp (h, on, none) (Perm.cons y ih)
        | inl one ↦
            let ih : Perm (filter p (insert x ys)) (x ∷ filter p ys) =
              rw one at (filter-insert-Perm p x ys) in
            simp (h, on, one) (Perm.trans (Perm.cons y ih) (Perm.swap x y (filter p ys)))
      ]
    ]
  ]

  filter-cons-Perm :
      (p : A → Bool) (x : A) (xs ys : List A)
      → Perm (filter p xs) (filter p ys)
      → Perm (filter p (x ∷ xs)) (filter p (x ∷ ys))
  filter-cons-Perm p x xs ys h = elim (Bool-cases (p x)) [
    | inl on ↦ rw on (Perm.cons x h)
    | inr off ↦ rw off h
  ]

  pub filter-sort-Perm : (p : A → Bool) (xs : List A) → Perm (filter p (sort xs)) (filter p xs)
  unfolding sort
  filter-sort-Perm p [] = Perm.rfl
  filter-sort-Perm p (x ∷ xs) =
      Perm.trans (filter-insert-Perm p x (sort xs))
        (filter-cons-Perm p x (sort xs) xs (filter-sort-Perm p xs))

  pub length-insert : (x : A) (xs : List A) → length (insert x xs) ≡ suc (length xs)
  unfolding insert
  length-insert x [] = refl
  length-insert x (y ∷ ys) = ground (arith, length-insert x ys)

  pub length-sort : (xs : List A) → length (sort xs) ≡ length xs
  unfolding sort
  length-sort [] = refl
  length-sort (x ∷ xs) = length-insert x (sort xs) ∙ ap suc (length-sort xs)

  insert-All {κ} : (P : A → Type κ) (x : A) (xs : List A) → P x → All P xs → All P (insert x xs)
  unfolding insert
  insert-All P x [] p h = (p, tt)
  insert-All P x (y ∷ ys) p h = elim (Bool-cases (before x y)) [
    | inl e ↦ rw e (p, h)
    | inr e ↦ rw e (h.0, insert-All P x ys p h.1)
  ]

  pub sort-All {κ} : (P : A → Type κ) (xs : List A) → All P xs → All P (sort xs)
  unfolding sort
  sort-All P [] h = tt
  sort-All P (x ∷ xs) h = insert-All P x (sort xs) h.0 (sort-All P xs h.1)

module _ {ℓ} {A : Type ℓ} (before : A → A → Bool)
    (total : (x y : A) → before x y ≡ false → before y x ≡ true)
    (trans : (x y z : A) → before x y ≡ true → before y z ≡ true → before x z ≡ true) where
  All-trans :
      (x y : A) (ys : List A)
      → before x y ≡ true
      → All (λ z. before y z ≡ true) ys
      → All (λ z. before x z ≡ true) ys
  All-trans x y [] h a = tt
  All-trans x y (z ∷ zs) h a = (trans x y z h a.0, All-trans x y zs h a.1)

  insert-InOrder : (x : A) (xs : List A) → InOrder before xs → InOrder before (insert before x xs)
  unfolding insert
  insert-InOrder x [] s = (tt, tt)
  insert-InOrder x (y ∷ ys) s = elim (Bool-cases (before x y)) [
    | inl h ↦ rw h ((h, All-trans x y ys h s.0), s)
    | inr h ↦
        rw h (
          insert-All before (λ z. before y z ≡ true) x ys (total x y h) s.0,
          insert-InOrder x ys s.1,
        )
  ]

  pub sort-InOrder : (xs : List A) → InOrder before (sort before xs)
  unfolding sort
  sort-InOrder [] = tt
  sort-InOrder (x ∷ xs) = insert-InOrder x (sort before xs) (sort-InOrder xs)

-- The two directions in which the dashboard sorts.
abbrev pub ascending {ℓ} : {A : Type ℓ} → (A → ℕ) → A → A → Bool
ascending key x y = leb (key x) (key y)

abbrev pub descending {ℓ} : {A : Type ℓ} → (A → ℕ) → A → A → Bool
descending key x y = leb (key y) (key x)

module _ {ℓ} {A : Type ℓ} (key : A → ℕ) where
  pub ascending-InOrder : (xs : List A) → InOrder (ascending key) (sort (ascending key) xs)
  ascending-InOrder xs =
      sort-InOrder (ascending key) (λ x y h. ground arith) (λ x y z h k. ground arith) xs

  pub descending-InOrder : (xs : List A) → InOrder (descending key) (sort (descending key) xs)
  descending-InOrder xs =
      sort-InOrder (descending key) (λ x y h. ground arith) (λ x y z h k. ground arith) xs

-- To sort and then map is to map and then sort, if the map keeps the order.
module _ {ℓ κ} {A : Type ℓ} {B : Type κ} (f : A → B) (p : A → A → Bool) (q : B → B → Bool)
    (same : (x y : A) → p x y ≡ q (f x) (f y)) where
  map-insert : (x : A) (xs : List A) → map f (insert p x xs) ≡ insert q (f x) (map f xs)
  unfolding insert
  map-insert x [] = refl
  map-insert x (y ∷ ys) = elim (Bool-cases (p x y)) [
    | inl h ↦ rw (insert, h, sym (same x y) ∙ h) refl
    | inr h ↦ rw (insert, h, sym (same x y) ∙ h) (ap (◌∷◌ (f y)) (map-insert x ys))
  ]

  pub map-sort : (xs : List A) → map f (sort p xs) ≡ sort q (map f xs)
  unfolding sort
  map-sort [] = refl
  map-sort (x ∷ xs) = map-insert x (sort p xs) ∙ ap (insert q (f x)) (map-sort xs)
