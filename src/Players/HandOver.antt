-- ===== src/Players/HandOver.antt =====
-- The hand-over of a player's page between screens in frontend/src/players.ts.
use Prim.Native.String.{String}
use proxyforward.Common.{◌≡◌, refl, Option, none, some, List, [], ◌∷◌, ◌++◌}
use proxyforward.Players.{open_dossier_on_mount, take_pending_dossier}

-- Other screens queue players, one after the other, with no mount between them.
abbrev pub queue : List String → Option String → Option String
queue [] pending = pending
queue (u ∷ us) pending = queue us (open_dossier_on_mount u pending)

-- After any players were queued, the next mount gets the last of them, and the mount after it
-- gets none.
pub take_pending_dossier-queue :
    (us : List String) (u : String) (pending : Option String)
    → (take_pending_dossier (queue (us ++ u ∷ []) pending) ≡ (some u, none))
      × (take_pending_dossier (take_pending_dossier (queue (us ++ u ∷ []) pending)).1
          ≡ (none, none))
unfolding open_dossier_on_mount take_pending_dossier
take_pending_dossier-queue [] u pending = (refl, refl)
take_pending_dossier-queue (v ∷ us) u pending = take_pending_dossier-queue us u (some v)
