-- ===== src/Settings/System.antt =====
-- The rows of the system in frontend/src/screens/Settings.tsx: the state of the service, the badge
-- of a database, the firewall's and the service's buttons, and the change of the token.
use proxyforward.Common.{
  ℕ, suc, ◌≡◌, refl, Bool, true, false, not, Option, none, some, List, [], ◌∷◌, ◌&&◌, ◌||◌,
}
use proxyforward.Common.Tests.{◌==◌, if◌then◌else◌}
use proxyforward.Common.Lists.{filter}
use proxyforward.Common.Decimal.{Text, codes, text_eq}
use proxyforward.Common.Texts.{trim, is_empty}

pub data Tone : Type 0 where
  good warn neutral : Tone

pub record Display : Type 0 where
  pub label : Text
  pub tone : Tone
  pub installed : Bool

abbrev pub is_mark : ℕ → Bool
is_mark c = c == b'-' || (c == b'_' || c == b' ')

abbrev pub display_of : Text → Display
display_of t =
    if text_eq t (codes "running")
    then record { label = codes "Running"; tone = good; installed = true }
    else if text_eq t (codes "stopped")
    then record { label = codes "Stopped"; tone = warn; installed = true }
    else if text_eq t (codes "notinstalled")
    then record { label = codes "Not installed"; tone = neutral; installed = false }
    else if text_eq t (codes "…")
    then record { label = codes "…"; tone = neutral; installed = false }
    else record { label = codes "Unknown"; tone = neutral; installed = false }

-- `svcDisplay`; `lower` is `toLowerCase`.
unfoldable pub svc_display : (Text → Text) → Text → Display
svc_display lower svc = display_of (filter (λ c. not (is_mark c)) (lower svc))

pub data MmdbState : Type 0 where
  failed loaded pending : MmdbState

-- `MmdbBadge`; an error that is not there is empty.
unfoldable pub mmdb_badge : Text → Bool → Text → Option MmdbState
mmdb_badge path is_loaded error =
    if is_empty (trim path)
    then none
    else if not (is_empty error)
    then some failed
    else if is_loaded
    then some loaded
    else some pending

-- The two buttons of `SystemSection`
pub data Key : Type 0 where
  fw svc : Key

abbrev pub same_key : Key → Key → Bool
same_key fw fw = true
same_key svc svc = true
same_key _ _ = false

-- `calls` are those under way, `refreshes` how often the states have been asked for.
pub record System : Type 0 where
  pub busy : Option Key
  pub err : Text
  pub calls : List Key
  pub refreshes : ℕ

abbrev pub is_busy : Key → Option Key → Bool
is_busy k none = false
is_busy k (some b) = same_key b k

-- A click on a button of `wrap`, which is disabled while its own key is busy
unfoldable pub wrap : Key → System → System
wrap k s = if is_busy k s.busy then s else record s { busy = some k; err = []; calls = k ∷ s.calls }

-- The end of a call that has failed with an error, or none
abbrev pub or_error : Option Text → Text → Text
or_error none old = old
or_error (some e) old = e

unfoldable pub wrapped : List Key → Option Text → System → System
wrapped rest e s = record s {
  busy = none;
  err = or_error e s.err;
  calls = rest;
  refreshes = suc s.refreshes;
}

-- While the one call runs the button of the other can be clicked, and takes the mark: then the
-- first button is enabled again, and its call is made a second time.
pub wrap-wrap :
    (s : System)
    → s.busy ≡ none
    → (wrap svc (wrap fw (wrap svc s))).calls ≡ svc ∷ fw ∷ svc ∷ s.calls
unfolding wrap
wrap-wrap s e = simp e refl

-- `TokenRotate`
pub record Rotate : Type 0 where
  pub busy : Bool
  pub confirm : Bool
  pub err : Text

-- "Rotate", which is shown when it has been asked for, and disabled while it runs
unfoldable pub rotate : Rotate → Rotate
rotate s = if s.confirm && not s.busy then record s { busy = true; err = [] } else s

-- RegenerateToken has failed with an error, or not; then `onDone`, which is `reload`, is called.
abbrev pub after_rotate : Option Text → Rotate → Rotate
after_rotate none s = record s { confirm = false; busy = false }
after_rotate (some e) s = record s { err = e; busy = false }

unfoldable pub rotated : Option Text → Rotate → Rotate
rotated e s = after_rotate e s

-- `CopyPairingCode`: the code that its button copies, if it is shown
unfoldable pub copy_pairing_code : Bool → Text → Option Text
copy_pairing_code attached code = if attached || is_empty code then none else some code
