-- ===== src/Gateway/Keys.antt =====
-- The key of the tokens: `FetchPublicKey`, `RefreshKey` and `KeyPoller` of
-- gateway/internal/middleware/auth.go. `parse` is `ParsePEMPublicKey`, with its error; `equal` is `Equal`
-- of two keys. The waits and the clock are left out.
use sentinal.Base.{
  ℕ, zero, suc, ◌≡◌, refl, sym, ap, ◌∙◌, Bool, true, false, String, Option, none, some, List, [],
  ◌∷◌, ◌<>◌, ◌==◌, if◌then◌else◌, Bool-cases, inl, inr,
}
use sentinal.Promise.{Result, throws, returns}

-- How a request for the key ends: an error, or a status with the body, which may fail to be read.
pub data Reply : Type 0 where
  fails : String → Reply
  responds : ℕ → Result String → Reply

module _ {Key : Type 0} (parse : String → Result Key) where
  abbrev pub parsed : Result String → Result Key
  parsed (throws e) = throws e
  parsed (returns body) = parse body

  -- Of the loop: a response of 200 ends it, whatever its body is.
  abbrev pub ended : Reply → Option (Result Key)
  ended (fails e) = none
  ended (responds n body) = if n == 200 then some (parsed body) else none

  -- So many attempts from `i` on.
  unfoldable pub fetch_from : (ℕ → Reply) → ℕ → ℕ → Result Key
  fetch_from replies i zero = throws "timeout waiting for auth service public key"
  fetch_from replies i (suc n) =
      let rest = fetch_from replies (suc i) n in
      elim (ended (replies i)) [ none ↦ rest | some r ↦ r ]

  unfoldable pub fetch_public_key : (ℕ → Reply) → Result Key
  unfolding fetch_from
  fetch_public_key replies = fetch_from replies 0 30

-- The poller with the key of the middleware.
pub record Poller (Key : Type 0) : Type 0 where
  pub current : Option Key
  pub public_key : Option Key
  pub last_err : String

module _ {Key : Type 0} (parse : String → Result Key) (equal : Key → Key → Bool)
    (status_text : ℕ → String) where
  -- `NewAuthMiddleware` and `NewKeyPoller`.
  unfoldable pub new_poller : Option Key → Poller Key
  new_poller key = record { current = none; public_key = key; last_err = "" }

  abbrev pub is_same : Option Key → Key → Bool
  is_same none k = false
  is_same (some c) k = equal k c

  -- A good answer; the swap is left out for the key that is there.
  abbrev pub renewed : Key → Poller Key → Poller Key
  renewed k p = record {
    current = some k;
    public_key = if is_same p.current k then p.public_key else some k;
    last_err = "";
  }

  abbrev pub received : Result Key → Poller Key → Poller Key
  received (throws e) p = record p { last_err = e }
  received (returns k) p = renewed k p

  -- One round of the loop.
  unfoldable pub poll : Reply → Poller Key → Poller Key
  poll (fails e) p = record p { last_err = e }
  poll (responds n body) p =
      if n == 200
      then received (parsed parse body) p
      else record p { last_err = "status " <> status_text n }

  unfoldable pub polls : List Reply → Poller Key → Poller Key
  unfolding poll
  polls [] p = p
  polls (r ∷ rs) p = polls rs (poll r p)

  -- The key of a good answer.
  abbrev key_of : Result Key → Option Key → Option Key
  key_of (throws e) old = old
  key_of (returns k) old = some k

  abbrev pub last_key : List Reply → Option Key → Option Key
  last_key [] old = old
  last_key (fails e ∷ rs) old = last_key rs old
  last_key (responds n body ∷ rs) old =
      last_key rs (if n == 200 then key_of (parsed parse body) old else old)

  module _ (equal-eq : (a b : Key) → equal a b ≡ true → a ≡ b) where
    -- The key that was fetched last is the one in use.
    abbrev InUse : Poller Key → Type 0
    InUse p = (c : Key) → p.current ≡ some c → p.public_key ≡ some c

    renewed-key :
        (k : Key) (p : Poller Key) (o : Option Key)
        → p.current ≡ o
        → InUse p
        → (renewed k p).public_key ≡ some k
    renewed-key k p none e h = rw e refl
    renewed-key k p (some c) e h = elim (Bool-cases (equal k c)) [
      | inl same ↦ rw (e, same) (h c e ∙ ap some (sym (equal-eq k c same)))
      | inr other ↦ rw (e, other) refl
    ]

    renewed-InUse : (k : Key) (p : Poller Key) → InUse p → InUse (renewed k p)
    renewed-InUse k p h c e = renewed-key k p p.current refl h ∙ e

    received-InUse : (r : Result Key) (p : Poller Key) → InUse p → InUse (received r p)
    received-InUse (throws e) p h = h
    received-InUse (returns k) p h = renewed-InUse k p h

    received-key :
        (r : Result Key) (p : Poller Key)
        → InUse p
        → (received r p).public_key ≡ key_of r p.public_key
    received-key (throws e) p h = refl
    received-key (returns k) p h = renewed-key k p p.current refl h

    polls-key :
        (rs : List Reply) (p : Poller Key)
        → InUse p
        → (polls rs p).public_key ≡ last_key rs p.public_key
    unfolding polls poll
    polls-key [] p h = refl
    polls-key (fails e ∷ rs) p h = polls-key rs (poll (fails e) p) h
    polls-key (responds n body ∷ rs) p h = elim (Bool-cases (n == 200)) [
      | inr bad ↦ simp bad (polls-key rs (record p { last_err = "status " <> status_text n }) h)
      | inl good ↦
          let r = parsed parse body in
          simp good (
            polls-key rs (received r p) (received-InUse r p h)
            ∙ ap (last_key rs) (received-key r p h))
    ]

    -- Whatever the polls bring, the middleware verifies by the key of the last good answer, or by the one
    -- it was made with: no failure, status or malformed body takes a key away.
    pub polls-last_key :
        (rs : List Reply) (key : Option Key)
        → (polls rs (new_poller key)).public_key ≡ last_key rs key
    unfolding new_poller
    polls-last_key rs key = polls-key rs (new_poller key) (λ c e. none≢some e)
      where
        none≢some : {A : Type 0} {c : Key} → ◌≡◌ {A = Option Key} none (some c) → A
        none≢some e = cc
