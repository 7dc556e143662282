-- ===== src/Tests/Widgets.antt =====
-- A number that goes from 10 to 20 in 900 ms, and one in print.
use sentinal.Widgets.Format.{percent, fixed2, format_value}
use sentinal.Shell.TopBar.{pad2}
use sentinal.Base.{◌≡◌, refl, arith, false, none, [], ◌∷◌}
use sentinal.Widgets.Tween.{nothing, Animated, scaled, effect, frame_at}
use sentinal.Widgets.Shown.{frames_at, tween_settles}

abbrev ten : Animated
ten = record {
  display = scaled 900 1000;
  from_ref = 1000;
  frame = false;
  pending = 0;
  tween = none;
  timer = none;
  clean_up = nothing;
}

tween_settles_example :
    let r =
      frame_at 900 6000
        (frames_at 900 (5300 ∷ 5600 ∷ []) (frame_at 900 5000 (effect 900 false 2000 ten))) in
    (r.display ≡ scaled 900 2000) × (r.from_ref ≡ 2000) × (r.frame ≡ false) × (r.tween ≡ none)
tween_settles_example =
    tween_settles 900 2000 ten 5000 (5300 ∷ 5600 ∷ []) 6000 (omega arith) refl refl (omega arith)
      (omega arith, (omega arith, tt)) (omega arith)

test_percent : format_value (λ n. "") (λ n. "") percent 1204 ≡ "12.04%"
unfolding format_value fixed2 pad2 sentinal.Radix.to_radix sentinal.Base.text_length
test_percent = refl
