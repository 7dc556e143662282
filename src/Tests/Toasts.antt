-- ===== src/Tests/Toasts.antt =====
-- Six notifications, a drag and a timeout.
use sentinal.Base.{ℕ, ◌≡◌, refl, false, none, some, List, [], ◌∷◌, arith, map}
use sentinal.Base.Int.{pos}
use sentinal.Toasts.{
  Toast, ToastInput, success, danger, Call, shows, drags, waits, toast, dismiss, drag_end, elapse,
  step, run, empty, default_duration, is_due, fires,
}
use sentinal.Toasts.Queue.{IsQueue, run-empty-IsQueue}
use sentinal.Toasts.Timers.{shown, toast_expires}

abbrev note : ToastInput
note = record { kind = success; title = "Saved"; message = none; duration = none }

abbrev alert : ToastInput
alert = record { kind = danger; title = "Critical"; message = none; duration = some 6000 }

abbrev calls : List (ℕ × Call)
calls =
    (0, shows note)
    ∷ (10, shows alert)
    ∷ (20, shows note)
    ∷ (30, shows note)
    ∷ (40, shows note)
    ∷ (50, shows alert)
    ∷ (60, drags 3 (pos 91))
    ∷ (4510, waits)
    ∷ []

run-empty-IsQueue_example : IsQueue (run empty calls)
run-empty-IsQueue_example = run-empty-IsQueue calls

toast_expires_example :
    shown empty.next_id (elapse 4600 (run (toast 0 note empty) calls)).toasts ≡ false
unfolding default_duration
toast_expires_example = toast_expires 0 4600 note empty calls (omega arith) (omega arith)

-- The oldest of six is cut, the third is dragged away, the others are still on the screen.
test_calls : map (λ (t : Toast). t.id) (run empty calls).toasts ≡ 2 ∷ 4 ∷ 5 ∷ 6 ∷ []
unfolding run step toast elapse drag_end dismiss empty default_duration is_due fires
test_calls = refl
