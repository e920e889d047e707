-- ===== src/RubberBand/Cases.antt =====
-- The branches of the handlers of frontend/src/rubberband.ts, as equations.
use Prim.Native.String.{String}
use proxyforward.Common.{ℕ, Bool, true, false, not, ◌||◌, List, [], ◌∷◌, ◌≡◌, ◌⊎◌, refl, inl, inr}
use proxyforward.Common.Tests.{Bool-cases}
use proxyforward.RubberBand.{Element}
use proxyforward.RubberBand.Numbers.{Numbers}
use proxyforward.RubberBand.Bands.{
  Motion, nought, along, modify, handed, pushed, pump, pull, ask_frame,
}
use proxyforward.RubberBand.Input.{
  Document, WheelEvent, delta_of, is_dense, is_tail, wheel_push, on_wheel, touch_push, is_finger,
  on_touch_move, key_push, key_dir, on_key,
}

module _ (num : Numbers) where
  pub pump-cases :
      (m : Motion num) → (m.raf ≡ true) × (pump num m ≡ m) ⊎ (pump num m ≡ ask_frame num m.bands m)
  unfolding pump
  pump-cases m = elim (Bool-cases m.raf) [
    | inl asked ↦ inl (asked, rw asked refl)
    | inr quiet ↦ inr (rw quiet refl)
  ]

  pub pull-cases :
      (now : num.R) (o : ℕ) (dy : num.R) (m : Motion num)
      → (pull num now o dy m ≡ (false, pump num (modify num o (handed num) m)))
        ⊎ (pull num now o dy m
            ≡ (true, pump num (modify num o (pushed num now (num.add (m.heap o).raw dy) dy) m)))
  unfolding pull
  pull-cases now o dy m =
      elim (Bool-cases
        (num.le (along num (m.heap o).edge (num.add (m.heap o).raw dy)) (nought num))) [
          | inl back ↦ inl (rw back refl)
          | inr out ↦ inr (rw out refl)
        ]

  -- An event of the wheel is ignored, swallowed, or pushes.
  pub on_wheel-cases :
      (doc : Document num) (e : WheelEvent num) (now : num.R) (m : Motion num)
      → let dy = delta_of num doc.page_height e.mode e.delta_y in
        let heard : Motion num = record m {
          wheel_at = now;
          dense_src = is_dense num dy (num.sub now m.wheel_at);
        } in
        (on_wheel num doc e now m ≡ (false, m))
        ⊎ (on_wheel num doc e now m
            ≡ (true, record heard { guard_until = num.add now (num.lit 90 1) }))
        ⊎ (on_wheel num doc e now m ≡ wheel_push num doc e now dy heard)
  unfolding on_wheel
  on_wheel-cases doc e now m =
      let dy = delta_of num doc.page_height e.mode e.delta_y in
      let heard : Motion num = record m {
        wheel_at = now;
        dense_src = is_dense num dy (num.sub now m.wheel_at);
      } in
      elim (Bool-cases e.ctrl) [
        | inl a ↦ inl (rw a refl)
        | inr a ↦ elim (Bool-cases (num.is_falsy dy || num.lt (num.abs dy) (num.abs e.delta_x))) [
          | inl b ↦ inl (rw (a, b) refl)
          | inr b ↦ elim (Bool-cases (is_tail num now dy heard)) [
            | inl c ↦ inr (inl (rw (a, b, c) refl))
            | inr c ↦ inr (inr (rw (a, b, c) refl))
          ]
        ]
      ]

  -- A move of a finger is ignored, noted, or pushes.
  pub on_touch_move-cases :
      (doc : Document num) (path : List Element) (now : num.R) (i : ℕ) (y : num.R) (m : Motion num)
      → let moved : Motion num = record m { touch_y = y } in
        let r = on_touch_move num doc path now ((i, y) ∷ []) m in
        (r ≡ (false, m))
        ⊎ (r ≡ (false, moved))
        ⊎ (r ≡ touch_push num doc path now (num.sub m.touch_y y) moved)
  unfolding on_touch_move
  on_touch_move-cases doc path now i y m = elim (Bool-cases (not (is_finger num m.touch_id i))) [
    | inl a ↦ inl (rw a refl)
    | inr a ↦ elim (Bool-cases (num.is_falsy (num.sub m.touch_y y))) [
      | inl b ↦ inr (inl (rw (a, b) refl))
      | inr b ↦ inr (inr (rw (a, b) refl))
    ]
  ]

  -- A key is ignored, or pushes.
  pub on_key-cases :
      (doc : Document num) (path : List Element) (now : num.R) (modified consumed : Bool)
      (name : String) (m : Motion num)
      → (on_key num doc path now modified consumed name m ≡ m)
        ⊎ (on_key num doc path now modified consumed name m
            ≡ key_push num doc path now (key_dir num name) m)
  unfolding on_key
  on_key-cases doc path now modified consumed name m = elim (Bool-cases (modified || consumed)) [
    | inl a ↦ inl (rw a refl)
    | inr a ↦ inr (rw a refl)
  ]
