-- ===== src/Toasts/Queue.antt =====
-- The queue of visible toasts: bounded, in order of arrival, under distinct identifiers.
use sentinal.Base.{
  ℕ, zero, suc, ◌+◌, ◌-◌, ◌≤◌, ◌≡◌, refl, inl, inr, Bool, Bool-cases, ltb, not, List, [], ◌∷◌, ◌++◌,
  arith, ◌==◌, length, filter, take_last, drop, length-append, length-drop, length-filter, count-le,
}
use sentinal.Base.Int.{ℤ, pos_part}
use sentinal.Toasts.{
  Toast, ToastInput, Toasts, Call, shows, dismisses, drags, waits, toast, dismiss, drag_end, step,
  run, empty,
}

-- Identifiers rise along the list, from `lo` up to below `hi`.
abbrev pub Rising : ℕ → ℕ → List Toast → Type 0
Rising lo hi [] = lo ≤ hi
Rising lo hi (t ∷ ts) = (lo ≤ t.id) × Rising (t.id + 1) hi ts

pub record IsQueue (s : Toasts) : Type 0 where
  pub bounded : length s.toasts ≤ 5
  pub rising : Rising 0 s.next_id s.toasts

Rising-weaken : (lo lo' hi : ℕ) (ts : List Toast) → lo' ≤ lo → Rising lo hi ts → Rising lo' hi ts
Rising-weaken lo lo' hi [] h r = omega arith
Rising-weaken lo lo' hi (t ∷ ts) h r = (omega arith, r.1)

pub Rising-filter :
    (p : Toast → Bool) (lo hi : ℕ) (ts : List Toast) → Rising lo hi ts → Rising lo hi (filter p ts)
Rising-filter p lo hi [] r = r
Rising-filter p lo hi (t ∷ ts) r =
    let rest = Rising-filter p (t.id + 1) hi ts r.1 in
    let h : lo ≤ t.id + 1 = omega arith in
    ground (arith, rest, Rising-weaken (t.id + 1) lo hi (filter p ts) h rest)

pub Rising-drop : (n lo hi : ℕ) (ts : List Toast) → Rising lo hi ts → Rising lo hi (drop n ts)
Rising-drop zero lo hi ts r = r
Rising-drop (suc n) lo hi [] r = r
Rising-drop (suc n) lo hi (t ∷ ts) r =
    Rising-weaken (t.id + 1) lo hi (drop n ts) (omega arith) (Rising-drop n (t.id + 1) hi ts r.1)

pub Rising-snoc :
    (lo hi : ℕ) (ts : List Toast) (t : Toast)
    → Rising lo hi ts
    → t.id ≡ hi
    → Rising lo (hi + 1) (ts ++ t ∷ [])
Rising-snoc lo hi [] t r e = omega arith
Rising-snoc lo hi (x ∷ xs) t r e = (r.0, Rising-snoc (x.id + 1) hi xs t r.1 e)

filter-IsQueue :
    (p : Toast → Bool) (s : Toasts)
    → IsQueue s
    → (length (filter p s.toasts) ≤ 5) × Rising 0 s.next_id (filter p s.toasts)
filter-IsQueue p s v = (
  omega (arith, length-filter p s.toasts, count-le p s.toasts, v.bounded),
  Rising-filter p 0 s.next_id s.toasts v.rising,
)

empty-IsQueue : IsQueue empty
unfolding empty
empty-IsQueue = record { bounded = omega arith; rising = omega arith }

toast-IsQueue : (now : ℕ) (t : ToastInput) (s : Toasts) → IsQueue s → IsQueue (toast now t s)
unfolding toast
toast-IsQueue now t s v = record {
  bounded =
      omega
        (arith, length-append (take_last 4 s.toasts) _, length-drop (length s.toasts - 4) s.toasts);
  rising =
      Rising-snoc 0 s.next_id (take_last 4 s.toasts) _ (Rising-drop _ 0 s.next_id s.toasts v.rising)
        refl;
}

dismiss-IsQueue : (id : ℕ) (s : Toasts) → IsQueue s → IsQueue (dismiss id s)
unfolding dismiss
dismiss-IsQueue id s v =
    let (b, r) = filter-IsQueue (λ t. not (t.id == id)) s v in record { bounded = b; rising = r }

drag_end-IsQueue : (id : ℕ) (offset : ℤ) (s : Toasts) → IsQueue s → IsQueue (drag_end id offset s)
unfolding drag_end
drag_end-IsQueue id offset s v = elim (Bool-cases (ltb 90 (pos_part offset))) [
  | inl far ↦ rw far (dismiss-IsQueue id s v)
  | inr near ↦ rw near v
]

step-IsQueue : (s : Toasts) (c : ℕ × Call) → IsQueue s → IsQueue (step s c)
unfolding step
step-IsQueue s (now, shows t) v = toast-IsQueue now t s v
step-IsQueue s (now, dismisses id) v = dismiss-IsQueue id s v
step-IsQueue s (now, drags id offset) v = drag_end-IsQueue id offset s v
step-IsQueue s (now, waits) v =
    let (b, r) = filter-IsQueue _ s v in record { bounded = b; rising = r }

run-IsQueue : (s : Toasts) (cs : List (ℕ × Call)) → IsQueue s → IsQueue (run s cs)
unfolding run
run-IsQueue s [] v = v
run-IsQueue s (c ∷ cs) v = run-IsQueue (step s c) cs (step-IsQueue s c v)

-- After any sequence of notifications, dismissals, drags and timeouts at most five toasts are
-- visible, and their identifiers rise strictly in the order shown and stay below the next one.
pub run-empty-IsQueue : (cs : List (ℕ × Call)) → IsQueue (run empty cs)
run-empty-IsQueue cs = run-IsQueue empty cs empty-IsQueue
