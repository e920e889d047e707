-- ===== src/Examples/WallExamples.antt =====
-- Tests and examples for the wall of the players and the debounced search.
use proxyforward.Common.{ℕ, ◌+◌, ◌≡◌, refl, Bool, List, [], ◌∷◌, arith, inr}
use proxyforward.Common.Tests.{◌==◌}
use proxyforward.Common.Decimal.{Text, codes}
use proxyforward.Players.Wall.{
  Wall, all, tunnel, set_chip, can_page, next, IsPage, Step, Step-IsPage,
}
use proxyforward.Polling.Debounced.{mount, fire}
use proxyforward.Polling.Debounced.Burst.{Typed, burst, end_of, last_value, burst-held}

abbrev first_wall : Wall
first_wall = record { search = []; sort = codes "recent"; chip = all; cc = []; offset = 60 }

-- 130 players, of whom one has played through a tunnel
abbrev players_of : Text → Text → Text → ℕ
players_of search [] cc = 130
players_of search (c ∷ cs) cc = 1

Step-IsPage_example : IsPage players_of (set_chip (tunnel (codes "lobby")) first_wall)
Step-IsPage_example =
    Step-IsPage {total = players_of} {s = first_wall} (Step.picks_chip (tunnel (codes "lobby")))
      (refl, inr (omega arith))

next_page : (next 130 first_wall).offset ≡ 120
unfolding next can_page
next_page = refl

no_next_page : (next 120 first_wall).offset ≡ 60
unfolding next can_page
no_next_page = refl

abbrev same_ℕ : ℕ → ℕ → Bool
same_ℕ a b = a == b

abbrev typed_twice : List (Typed ℕ same_ℕ 250)
typed_twice = (record { gap = 100; value = 1 }) ∷ (record { gap = 200; value = 2 }) ∷ []

burst-held_example :
    ((burst ℕ same_ℕ 250 0 typed_twice (mount ℕ same_ℕ 250 0 7)).shown
      ≡ (mount ℕ same_ℕ 250 0 7).shown)
    × ((fire ℕ same_ℕ 250
          (end_of ℕ same_ℕ 250 0 typed_twice + 250)
          (burst ℕ same_ℕ 250 0 typed_twice (mount ℕ same_ℕ 250 0 7))).shown
        ≡ last_value ℕ same_ℕ 250 (mount ℕ same_ℕ 250 0 7).value typed_twice)
burst-held_example =
    burst-held ℕ same_ℕ 250 0 typed_twice (mount ℕ same_ℕ 250 0 7) (unfold mount in refl)
      (unfold mount in (refl, omega arith, (refl, omega arith, tt)))
