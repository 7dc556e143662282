-- ===== src/Toasts/Timers.antt =====
-- Auto-dismissal: what a pending timer guarantees about the toast that set it.
use sentinal.Base.{
  ℕ, zero, suc, ◌+◌, ◌≤◌, ◌<◌, ◌≡◌, refl, ◌⊎◌, inl, inr, Bool, true, false, not, ◌&&◌, List, [],
  ◌∷◌, ◌++◌, arith, ◌==◌, filter, any, take_last, drop, ◌or◌, Bool-cases, ltb, ltb→lt,
}
use sentinal.Base.Int.{ℤ, pos_part}
use sentinal.Toasts.{
  Toast, ToastInput, Toasts, Timer, Call, shows, dismisses, drags, waits, toast, dismiss, drag_end,
  elapse, is_due, fires, default_duration, step, run,
}

-- A toast with this identifier is on the screen.
abbrev pub shown : ℕ → List Toast → Bool
shown id ts = any (λ t. t.id == id) ts

-- A timer with this due time and target is pending.
abbrev pending : ℕ → ℕ → List Timer → Bool
pending due id ms = any (λ m. m.due == due && m.target == id) ms

shown-filter :
    (p : Toast → Bool) (id : ℕ) (ts : List Toast)
    → shown id ts ≡ false
    → shown id (filter p ts) ≡ false
shown-filter p id [] h = refl
shown-filter p id (t ∷ ts) h = ground (arith, shown-filter p id ts)

shown-drop : (n id : ℕ) (ts : List Toast) → shown id ts ≡ false → shown id (drop n ts) ≡ false
shown-drop zero id ts h = h
shown-drop (suc n) id [] h = h
shown-drop (suc n) id (t ∷ ts) h = ground (arith, shown-drop n id ts)

shown-snoc :
    (id : ℕ) (ts : List Toast) (t : Toast)
    → shown id ts ≡ false
    → (t.id == id) ≡ false
    → shown id (ts ++ t ∷ []) ≡ false
shown-snoc id [] t h e = ground arith
shown-snoc id (x ∷ xs) t h e = ground (arith, shown-snoc id xs t)

pending-keep :
    (now due id : ℕ) (ms : List Timer)
    → now < due
    → pending due id ms ≡ true
    → pending due id (filter (λ m. not (is_due now m)) ms) ≡ true
unfolding is_due
pending-keep now due id [] h p = p
pending-keep now due id (m ∷ ms) h p = ground (arith, pending-keep now due id ms h)

pending-fires :
    (now due id : ℕ) (ms : List Timer)
    → due ≤ now
    → pending due id ms ≡ true
    → fires now ms id ≡ true
unfolding fires
pending-fires now due id [] h p = p
pending-fires now due id (m ∷ ms) h p = ground (arith, pending-fires now due id ms h)

-- Toasts that a due timer targets are filtered out.
fires_hides :
    (now id : ℕ) (ms : List Timer) (ts : List Toast)
    → fires now ms id ≡ true
    → shown id (filter (λ t. not (fires now ms t.id)) ts) ≡ false
fires_hides now id ms [] h = refl
fires_hides now id ms (t ∷ ts) h = elim (Bool-cases (t.id == id)) [
  | inl e ↦ let same : t.id ≡ id = ground arith in rw same (rw h (fires_hides now id ms ts h))
  | inr ne ↦ ground (arith, fires_hides now id ms ts h)
]

-- What holds of a toast from the moment that it is shown.
record Expires (due id : ℕ) (s : Toasts) : Type 0 where
  used : id < s.next_id
  armed : (shown id s.toasts ≡ false) ⊎ (pending due id s.timers ≡ true)

abbrev shows_for : ToastInput → ℕ
shows_for t = t.duration or default_duration

toast-Expires :
    (now : ℕ) (t : ToastInput) (s : Toasts)
    → 0 < shows_for t
    → Expires (now + shows_for t) s.next_id (toast now t s)
unfolding toast
toast-Expires now t s h = record { used = omega arith; armed = inr (ground arith) }

keep-toast :
    (due id now : ℕ) (t : ToastInput) (s : Toasts)
    → Expires due id s
    → Expires due id (toast now t s)
unfolding toast
keep-toast due id now t s v = record {
  used = omega (arith, v.used);
  armed = elim v.armed [
    | inl gone ↦ inl (
        shown-snoc id (take_last 4 s.toasts) _ (shown-drop _ id s.toasts gone)
          (ground (arith, v.used)))
    | inr p ↦ inr (ground arith)
  ];
}

keep-dismiss : (due id k : ℕ) (s : Toasts) → Expires due id s → Expires due id (dismiss k s)
unfolding dismiss
keep-dismiss due id k s v = record {
  used = v.used;
  armed = elim v.armed [ inl gone ↦ inl (shown-filter _ id s.toasts gone) | inr p ↦ inr p ];
}

keep-drag_end :
    (due id k : ℕ) (offset : ℤ) (s : Toasts)
    → Expires due id s
    → Expires due id (drag_end k offset s)
unfolding drag_end
keep-drag_end due id k offset s v = elim (Bool-cases (ltb 90 (pos_part offset))) [
  | inl far ↦ rw far (keep-dismiss due id k s v)
  | inr near ↦ rw near v
]

elapse-gone :
    (due id now : ℕ) (s : Toasts)
    → due ≤ now
    → Expires due id s
    → shown id (elapse now s).toasts ≡ false
unfolding elapse
elapse-gone due id now s h v = elim v.armed [
  | inl gone ↦ shown-filter _ id s.toasts gone
  | inr p ↦ fires_hides now id s.timers s.toasts (pending-fires now due id s.timers h p)
]

keep-elapse : (due id now : ℕ) (s : Toasts) → Expires due id s → Expires due id (elapse now s)
unfolding elapse
keep-elapse due id now s v = record {
  used = v.used;
  armed = elim v.armed [
    | inl gone ↦ inl (shown-filter _ id s.toasts gone)
    | inr p ↦ elim (Bool-cases (ltb now due)) [
      | inl early ↦ inr (pending-keep now due id s.timers (ltb→lt now due early) p)
      | inr late ↦ inl (unfold elapse in elapse-gone due id now s (ground arith) v)
    ]
  ];
}

keep-step : (due id : ℕ) (s : Toasts) (c : ℕ × Call) → Expires due id s → Expires due id (step s c)
unfolding step
keep-step due id s (now, shows t) v = keep-toast due id now t s v
keep-step due id s (now, dismisses k) v = keep-dismiss due id k s v
keep-step due id s (now, drags k offset) v = keep-drag_end due id k offset s v
keep-step due id s (now, waits) v = keep-elapse due id now s v

keep-run :
    (due id : ℕ) (s : Toasts) (cs : List (ℕ × Call)) → Expires due id s → Expires due id (run s cs)
unfolding run
keep-run due id s [] v = v
keep-run due id s (c ∷ cs) v = keep-run due id (step s c) cs (keep-step due id s c v)

-- A toast that is not sticky is off the screen once its timers have run at or after its due time,
-- whatever other calls were made in between.
pub toast_expires :
    (now later : ℕ) (t : ToastInput) (s : Toasts) (cs : List (ℕ × Call))
    → 0 < (t.duration or default_duration)
    → now + (t.duration or default_duration) ≤ later
    → shown s.next_id (elapse later (run (toast now t s) cs)).toasts ≡ false
toast_expires now later t s cs pos late =
    elapse-gone _ s.next_id later _ late
      (keep-run _ s.next_id (toast now t s) cs (toast-Expires now t s pos))
