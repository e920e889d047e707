-- ===== src/Tunnels/Saves.antt =====
-- The saves of frontend/src/screens/Tunnels.tsx: what the screen and the backend hold after an
-- answer, and what happens to edits that overlap.
use Prim.Native.String.{String}
use proxyforward.Common.{◌≡◌, refl, ◌⊎◌, inl, inr, List, [], ◌∷◌}
use proxyforward.Tunnels.{
  Tunnel, Edit, edited, Screen, persist, edit, done, refused, settle, answer, reload,
}

-- The screen shows what the backend has stored.
abbrev pub IsSynced : Screen → Type 0
IsSynced s = s.tunnels ≡ s.stored

-- The user edits, the backend answers without a failed write, the screen is opened again.
pub data Step (s : Screen) : Screen → Type 0 where
  edits : (e : Edit) → Step s (edit e s)
  stores : Step s (answer done s)
  refuses : (error : String) → Step s (answer (refused error) s)
  reloads : Step s (reload s)

pub data Reach (s : Screen) : Screen → Type 0 where
  here : Reach s s
  next : {u v : Screen} → Reach s u → Step u v → Reach s v

List-cases :
    (ts : List (List Tunnel))
    → (ts ≡ []) ⊎ ((u : List Tunnel) × (us : List (List Tunnel)) × (ts ≡ u ∷ us))
List-cases [] = inl refl
List-cases (u ∷ us) = inr (u, us, refl)

answer-done-IsSynced : (s : Screen) → IsSynced s → IsSynced (answer done s)
unfolding answer settle
answer-done-IsSynced s h = elim (List-cases s.saves) [ inl e ↦ rw e h | inr (u, us, e) ↦ rw e refl ]

answer-refused-IsSynced :
    (error : String) (s : Screen) → IsSynced s → IsSynced (answer (refused error) s)
unfolding answer settle
answer-refused-IsSynced error s h = elim (List-cases s.saves) [
  | inl e ↦ rw e h
  | inr (u, us, e) ↦ rw e h
]

Step-IsSynced : {s t : Screen} → Step s t → IsSynced s → IsSynced t
unfolding edit persist reload
Step-IsSynced (edits e) h = h
Step-IsSynced {s} stores h = answer-done-IsSynced s h
Step-IsSynced {s} (refuses error) h = answer-refused-IsSynced error s h
Step-IsSynced reloads h = refl

-- However edits overlap and whatever the validation refuses: while no write of the file fails, the
-- screen shows the list of the backend's configuration.
pub Reach-IsSynced : {s t : Screen} → IsSynced s → Reach s t → IsSynced t
Reach-IsSynced h here = h
Reach-IsSynced h (next r step) = Step-IsSynced step (Reach-IsSynced h r)

-- Two edits of which the second is made before the first is answered: the second starts from the
-- list before both, so the first is stored and then lost, whatever it was.
pub answer-overlap :
    (first second : Edit) (s : Screen)
    → s.saves ≡ []
    → ((answer done (edit second (edit first s))).stored ≡ edited first s.tunnels)
      × ((answer done (answer done (edit second (edit first s)))).stored ≡ edited second s.tunnels)
unfolding answer settle edit persist
answer-overlap first second s idle = rw idle (refl, refl)
