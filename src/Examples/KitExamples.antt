-- ===== src/Examples/KitExamples.antt =====
-- Examples for the switch and the avatars.
use proxyforward.Common.{◌≡◌, refl, true, false, [], ◌∷◌}
use proxyforward.Switches.{gesture, idle, pressed, gesture-tap}

tapped :
    gesture 1 16 100 (102 ∷ []) (idle true (pressed 0 0 false) 0)
    ≡ idle false (pressed 16 100 false) 1
tapped = gesture-tap 1 16 100 (102 ∷ []) true (pressed 0 0 false) 0 (refl, tt)
