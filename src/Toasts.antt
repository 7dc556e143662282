-- ===== src/Toasts.antt =====
-- The notification queue, `ToastProvider` of dashboard/src/components/ui/Toast.tsx. A call of a
-- state setter is applied at once; a pending `window.setTimeout` is a timer with its due time.
pub mod Queue
pub mod Timers
use sentinal.Base.{
  ℕ, ◌+◌, ◌≤◌, Bool, not, String, Option, List, [], ◌∷◌, ◌++◌, ◌or◌, if◌then◌else◌, ltb, leb, ◌==◌,
  ◌&&◌, filter, take_last, any,
}
use sentinal.Base.Int.{ℤ, pos_part}

pub data ToastKind : Type 0 where
  success warning danger info : ToastKind

pub record Toast : Type 0 where
  pub id : ℕ
  pub kind : ToastKind
  pub title : String
  pub message : Option String
  pub duration : ℕ

-- `Omit<Toast, "id">`
pub record ToastInput : Type 0 where
  pub kind : ToastKind
  pub title : String
  pub message : Option String
  pub duration : Option ℕ

pub record Timer : Type 0 where
  pub due : ℕ
  pub target : ℕ

pub record Toasts : Type 0 where
  pub toasts : List Toast
  pub next_id : ℕ
  pub timers : List Timer

unfoldable pub empty : Toasts
empty = record { toasts = []; next_id = 1; timers = [] }

unfoldable pub dismiss : ℕ → Toasts → Toasts
dismiss id s = record s { toasts = filter (λ t. not (t.id == id)) s.toasts }

unfoldable pub default_duration : ℕ
default_duration = 4500

-- `toast(t)` at time `now`.
unfoldable pub toast : ℕ → ToastInput → Toasts → Toasts
unfolding default_duration
toast now t s =
    let id = s.next_id in
    let duration = t.duration or default_duration in
    let shown : Toast = record {
      id = id;
      kind = t.kind;
      title = t.title;
      message = t.message;
      duration = duration;
    } in
    record s {
      toasts = take_last 4 s.toasts ++ shown ∷ [];
      next_id = id + 1;
      timers =
          if ltb 0 duration
          then record { due = now + duration; target = id } ∷ s.timers
          else s.timers;
    }

-- `onDragEnd`: a toast that is dragged more than 90 pixels to the right is dismissed.
unfoldable pub drag_end : ℕ → ℤ → Toasts → Toasts
unfolding dismiss
drag_end id offset s = if ltb 90 (pos_part offset) then dismiss id s else s

unfoldable pub is_due : ℕ → Timer → Bool
is_due now t = leb t.due now

-- Some due timer dismisses the toast `id`.
unfoldable pub fires : ℕ → List Timer → ℕ → Bool
unfolding is_due
fires now ms id = any (λ m. is_due now m && m.target == id) ms

-- The callbacks of the timers that are due at `now`.
unfoldable pub elapse : ℕ → Toasts → Toasts
unfolding is_due fires
elapse now s = record s {
  toasts = filter (λ t. not (fires now s.timers t.id)) s.toasts;
  timers = filter (λ m. not (is_due now m)) s.timers;
}

pub data Call : Type 0 where
  shows : ToastInput → Call
  dismisses : ℕ → Call
  drags : ℕ → ℤ → Call
  waits : Call

unfoldable pub step : Toasts → ℕ × Call → Toasts
unfolding toast dismiss drag_end elapse
step s (now, shows t) = toast now t s
step s (now, dismisses id) = dismiss id s
step s (now, drags id offset) = drag_end id offset s
step s (now, waits) = elapse now s

unfoldable pub run : Toasts → List (ℕ × Call) → Toasts
unfolding step
run s [] = s
run s (c ∷ cs) = run (step s c) cs
