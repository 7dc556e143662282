-- ===== src/Gateway/Headers.antt =====
-- The headers of a request, as `http.Header` has them: names in their canonical form, the values of one
-- name in their order.
use sentinal.Base.{
  ◌≡◌, refl, arith, true, false, not, String, Option, none, some, List, [], ◌∷◌, ◌++◌, ◌=?◌, filter,
  if◌then◌else◌,
}
use text.Mathlib.TextEquality.{eq_iff}

abbrev pub Headers : Type 0
Headers = List (String × String)

-- `Get` is the first value; a missing header is the empty text there, and `none` here.
unfoldable pub get : String → Headers → Option String
get k [] = none
get k ((j, v) ∷ hs) = let rest = get k hs in if j =? k then some v else rest

unfoldable pub del : String → Headers → Headers
del k hs = filter (λ (h : String × String). not (h.0 =? k)) hs

unfoldable pub set : String → String → Headers → Headers
unfolding del
set k v hs = del k hs ++ (k, v) ∷ []

pub get-del_self : (k : String) (hs : Headers) → get k (del k hs) ≡ none
unfolding get del
get-del_self k [] = refl
get-del_self k ((j, v) ∷ hs) = ground (arith, get-del_self k hs)

pub get-del : (k j : String) (hs : Headers) → (j =? k) ≡ false → get k (del j hs) ≡ get k hs
unfolding get del
get-del k j [] h = refl
get-del k j ((i, v) ∷ hs) h = ground (arith, get-del k j hs h, eq_iff i k, eq_iff i j, eq_iff j k)

get-append_one :
    (k j v : String) (hs : Headers)
    → get k hs ≡ none
    → get k (hs ++ (j, v) ∷ []) ≡ (if j =? k then some v else none)
unfolding get
get-append_one k j v [] h = refl
get-append_one k j v ((i, w) ∷ hs) h = ground (arith, h, get-append_one k j v hs)

get-append_other :
    (k j v : String) (hs : Headers) → (j =? k) ≡ false → get k (hs ++ (j, v) ∷ []) ≡ get k hs
unfolding get
get-append_other k j v [] h = rw h refl
get-append_other k j v ((i, w) ∷ hs) h = ground (arith, get-append_other k j v hs h)

pub get-set_self : (k v : String) (hs : Headers) → get k (set k v hs) ≡ some v
unfolding set
get-set_self k v hs =
    let same : (k =? k) ≡ true = (eq_iff k k).1 refl in
    rw (get-append_one k k v (del k hs) (get-del_self k hs), same) refl

pub get-set : (k j v : String) (hs : Headers) → (j =? k) ≡ false → get k (set j v hs) ≡ get k hs
unfolding set
get-set k j v hs h = rw (get-append_other k j v (del j hs) h) (get-del k j hs h)

-- A header is set where there is a value for it.
unfoldable pub set_some : String → Option String → Headers → Headers
unfolding set
set_some k none hs = hs
set_some k (some v) hs = set k v hs

pub get-set_some :
    (k j : String) (o : Option String) (hs : Headers)
    → (j =? k) ≡ false
    → get k (set_some j o hs) ≡ get k hs
unfolding set_some
get-set_some k j none hs h = refl
get-set_some k j (some v) hs h = get-set k j v hs h

pub get-set_some_self :
    (k : String) (o : Option String) (hs : Headers) → get k hs ≡ none → get k (set_some k o hs) ≡ o
unfolding set_some
get-set_some_self k none hs h = h
get-set_some_self k (some v) hs h = get-set_self k v hs
