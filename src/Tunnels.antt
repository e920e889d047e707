-- ===== src/Tunnels.antt =====
-- frontend/src/screens/Tunnels.tsx: the agent's list of tunnels, with the edits that are saved
-- through the backend, and the button that deletes in two steps. The backend is asked to store a
-- whole list and answers later, in the order of the calls; app/app.go keeps its old list when the
-- validation refuses the new one. `Edits` has the theorems on the lists, `Saves` those on the screen.
pub mod Edits
pub mod Saves
mod Buttons
use Prim.Native.String.{String}
use text.Mathlib.Text.{◌==◌ as str_eq}
use proxyforward.Common.{Bool, true, false, not, ◌||◌, Option, none, some, List, [], ◌∷◌, ◌++◌, map}
use proxyforward.Common.Int.{ℤ}
use proxyforward.Common.Tests.{if◌then◌else◌}
use proxyforward.Common.Lists.{filter}

-- `config.TunnelOptions`
pub record TunnelOptions : Type 0 where
  pub minecraft_aware : Bool
  pub proxy_protocol_v2 : Bool
  pub offline_motd : String
  pub bandwidth_limit_mbps : ℤ
  pub bandwidth_limit_scope : String

-- `config.Tunnel`
pub record Tunnel : Type 0 where
  pub id : String
  pub name : String
  pub protocol : String
  pub local_addr : String
  pub public_port : ℤ
  pub enabled : Bool
  pub options : TunnelOptions

-- `findIndex(…) >= 0`
abbrev pub has_id : String → List Tunnel → Bool
has_id id [] = false
has_id id (t ∷ ts) = str_eq t.id id || has_id id ts

-- The lists that `onSave`, `onDelete` and `onToggle` persist.
unfoldable pub saved : Tunnel → List Tunnel → List Tunnel
saved t ts =
    if has_id t.id ts then map (λ x. if str_eq x.id t.id then t else x) ts else ts ++ t ∷ []

unfoldable pub deleted : String → List Tunnel → List Tunnel
deleted id ts = filter (λ t. not (str_eq t.id id)) ts

unfoldable pub toggled : String → Bool → List Tunnel → List Tunnel
toggled id enabled ts = map (λ t. if str_eq t.id id then record t { enabled = enabled } else t) ts

-- An edit of the list.
pub data Edit : Type 0 where
  save : Tunnel → Edit
  delete : String → Edit
  toggle : String → Bool → Edit

unfoldable pub edited : Edit → List Tunnel → List Tunnel
unfolding saved deleted toggled
edited (save t) ts = saved t ts
edited (delete id) ts = deleted id ts
edited (toggle id enabled) ts = toggled id enabled ts

-- The screen's state, the list of the backend's configuration, and the saves that it has still to
-- answer, the first one first.
pub record Screen : Type 0 where
  pub tunnels : List Tunnel
  pub editing : Option Tunnel
  pub err : String
  pub stored : List Tunnel
  pub saves : List (List Tunnel)

-- `persist`, up to its `await`
unfoldable pub persist : List Tunnel → Screen → Screen
persist next s = record s { err = ""; saves = s.saves ++ next ∷ [] }

-- `onSave`, `onDelete`, `onToggle`
unfoldable pub edit : Edit → Screen → Screen
unfolding edited persist
edit e s = persist (edited e s.tunnels) s

-- The end of a call of the backend: stored; refused by the validation; or the file could not be
-- written, when the backend's configuration has the new list nevertheless.
pub data Reply : Type 0 where
  done : Reply
  refused : String → Reply
  unwritten : String → Reply

-- The `try` of `persist` from its `await` on.
unfoldable pub settle : Reply → List Tunnel → Screen → Screen
settle done next s = record s { stored = next; tunnels = next; editing = none }
settle (refused e) next s = record s { err = e }
settle (unwritten e) next s = record s { stored = next; err = e }

-- The backend answers the first save.
unfoldable pub answer : Reply → Screen → Screen
unfolding settle
answer reply s = elim s.saves [
  | [] ↦ s
  | next ∷ rest ↦ settle reply next (record s { saves = rest })
]

-- `reload`, which reads the backend's configuration
unfoldable pub reload : Screen → Screen
reload s = record s { tunnels = s.stored }
