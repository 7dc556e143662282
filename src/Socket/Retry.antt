-- ===== src/Socket/Retry.antt =====
-- The backoff schedule.
use sentinal.Base.{
  ℕ, zero, suc, ◌+◌, ◌*◌, ◌^◌, ◌≤◌, ◌<◌, ◌≡◌, refl, none, ap, inl, inr, ltb, ltb→lt, if◌then◌else◌,
  Bool-cases, true, some, arith,
}
use native.Mathlib.Nat.{pow-suc}
use sentinal.Socket.{Socket, Hook, delay, on_close, on_open, on_timer}

pow_pos : (n : ℕ) → 1 ≤ 2 ^ n
pow_pos zero = omega arith
pow_pos (suc n) = omega (arith, pow_pos n, pow-suc 2 n)

pow_below : (n : ℕ) → n < 6 → 2 ^ n ≤ 32
pow_below zero h = omega arith
pow_below (suc zero) h = omega arith
pow_below (suc (suc zero)) h = omega arith
pow_below (suc (suc (suc zero))) h = omega arith
pow_below (suc (suc (suc (suc zero)))) h = omega arith
pow_below (suc (suc (suc (suc (suc zero))))) h = omega arith
pow_below (suc (suc (suc (suc (suc (suc n)))))) h = absurd (omega arith)

-- Six doublings at once.
pow_six : (n : ℕ) → 2 ^ suc (suc (suc (suc (suc (suc n))))) ≡ 64 * 2 ^ n
pow_six n =
    let one = λ (k : ℕ). pow-suc 2 k in
    omega (
      arith,
      one n,
      one (suc n),
      one (suc (suc n)),
      one (suc (suc (suc n))),
      one (suc (suc (suc (suc n)))),
      one (suc (suc (suc (suc (suc n))))),
    )

pow_above : (n : ℕ) → 6 ≤ n → 64 ≤ 2 ^ n
pow_above zero h = absurd (omega arith)
pow_above (suc zero) h = absurd (omega arith)
pow_above (suc (suc zero)) h = absurd (omega arith)
pow_above (suc (suc (suc zero))) h = absurd (omega arith)
pow_above (suc (suc (suc (suc zero)))) h = absurd (omega arith)
pow_above (suc (suc (suc (suc (suc zero))))) h = absurd (omega arith)
pow_above (suc (suc (suc (suc (suc (suc n)))))) h = omega (arith, pow_pos n, pow_six n)

delay-cases : (n : ℕ) → delay n ≡ (if ltb n 6 then 500 * 2 ^ n else 30000)
unfolding delay
delay-cases n = elim (Bool-cases (ltb n 6)) [
  | inl e ↦ rw e (omega (arith, pow_below n (ltb→lt n 6 e)))
  | inr e ↦ rw e (omega (arith, pow_above n (ground arith)))
]

-- The delay lies between half a second and 30 seconds; it doubles from one failure to the next, and
-- from the seventh on it is 30 seconds.
pub delay_schedule :
    (n : ℕ)
    → (500 ≤ delay n) × (delay n ≤ 30000) × (delay n ≡ (if ltb n 6 then 500 * 2 ^ n else 30000))
unfolding delay
delay_schedule n = (omega (arith, pow_pos n), omega arith, delay-cases n)

-- The browser closes the socket that the hook holds.
pub close_held : {D : Type 0} → Hook D → Hook D
close_held h = elim h.socket_ref [ none ↦ h | some s ↦ on_close s h ]

-- `n` attempts in a row that fail before they open, each followed by the reconnect that it arms.
abbrev pub outage : {D : Type 0} → ℕ → Hook D → Hook D
outage zero h = h
outage (suc n) h = outage n (on_timer (close_held h))

-- The hook runs and holds a socket of its current run.
pub record Holds {D : Type 0} (h : Hook D) : Type 0 where
  pub socket : Socket
  pub held : h.socket_ref ≡ some socket
  pub runs : h.running ≡ true
  pub owned : socket.epoch ≡ h.epoch

module _ {D : Type 0} where
  retry_once :
      (h : Hook D)
      → Holds h
      → Holds (on_timer (close_held h)) × ((on_timer (close_held h)).retry_ref ≡ h.retry_ref + 1)
  unfolding close_held on_timer on_close
  retry_once h v = (
    record {
      socket = record { id = h.next_id; epoch = h.epoch };
      held = ground arith;
      runs = ground arith;
      owned = ground arith;
    },
    ground arith,
  )

  outage_lem :
      (n : ℕ) (h : Hook D)
      → Holds h
      → Holds (outage n h) × ((outage n h).retry_ref ≡ h.retry_ref + n)
  outage_lem zero h v = (v, omega arith)
  outage_lem (suc n) h v =
      let (w, e) = retry_once h v in
      let (u, f) = outage_lem n (on_timer (close_held h)) w in (u, omega arith)

  close_arms : (h : Hook D) → Holds h → (close_held h).retry_timer ≡ some (delay h.retry_ref)
  unfolding close_held on_close
  close_arms h v = ground arith

  reopened :
      (h : Hook D)
      → (v : Holds h) → Holds (on_open v.socket h) × ((on_open v.socket h).retry_ref ≡ 0)
  unfolding on_open
  reopened h v = (record { socket = v.socket; held = v.held; runs = v.runs; owned = v.owned }, refl)

  -- After a socket has opened and `n` further attempts have failed, the next failure arms the
  -- reconnect with `delay n`: the schedule restarts at every successful connection.
  pub outage-delay :
      (n : ℕ) (h : Hook D)
      → (v : Holds h) → (close_held (outage n (on_open v.socket h))).retry_timer ≡ some (delay n)
  outage-delay n h v =
      let (u, zeroed) = reopened h v in
      let (w, e) = outage_lem n (on_open v.socket h) u in
      let count : (outage n (on_open v.socket h)).retry_ref ≡ n = omega arith in
      rw (close_arms (outage n (on_open v.socket h)) w) (ap (λ k. some (delay k)) count)
