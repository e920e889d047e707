-- ===== src/App.antt =====
-- frontend/src/App.tsx: the tint of the backdrop with its 3 s hold, the screen that is shown, and
-- the keyboard's shortcuts. The state of the tint is what `ambientRef` keeps, the attribute
-- data-ambient and the timers that the page has set; time is in milliseconds. `Tint` and `Rail`
-- have the theorems; `Wizard` has the hold of the set-up wizard. The view transition of `go` only
-- animates the change of screen.
pub mod Tint
pub mod Rail
pub mod Wizard
use Prim.Native.String.{String}
use text.Mathlib.Text.{◌==◌ as str_eq}
use proxyforward.Common.{
  ℕ, suc, ◌+◌, Bool, true, false, not, ◌&&◌, ◌||◌, Option, none, some, List, [], ◌∷◌,
}
use proxyforward.Common.Tests.{if◌then◌else◌, ◌==◌, leb}
use proxyforward.Common.Lists.{filter, find?}
use proxyforward.Common.Decimal.{Text, text_eq}
use proxyforward.Status.{Status}
use proxyforward.Nav.{NavId, overview, settings, NavItem, main_nav, nav_for, same_id}

-- `Ambient`
pub data Ambient : Type 0 where
  ok warn bad : Ambient

-- `a === b`
abbrev pub same : Ambient → Ambient → Bool
same ok ok = true
same warn warn = true
same bad bad = true
same _ _ = false

-- The end of `ambientOf`: the verdict on a live link.
abbrev pub by_health : String → Ambient
by_health score = if str_eq score "bad" then bad else if str_eq score "warn" then warn else ok

-- `ambientOf`
unfoldable pub ambient_of : Option Status → Ambient
ambient_of none = ok
ambient_of (some s) =
    let agent = str_eq s.role "agent" in
    if str_eq s.mode "wizard" || str_eq s.role ""
    then ok
    else if not (str_eq s.engine_fatal "")
    then bad
    else if not (if agent then s.link_up else s.agent_connected)
    then if agent then bad else warn
    else by_health s.health_score

-- A timer of the page, with the state that its callback applies.
pub record Timer : Type 0 where
  pub id : ℕ
  pub due : ℕ
  pub next : Ambient

-- `ambientRef` and what it drives; `ids` counts the timers that were set.
pub record Backdrop : Type 0 where
  pub attribute : Option Ambient
  pub applied : Option Ambient
  pub pending : Option Ambient
  pub timer : ℕ
  pub timers : List Timer
  pub ids : ℕ

-- `clearTimeout`: to clear a timer that has fired, or that was never set, does nothing.
abbrev pub clear : ℕ → List Timer → List Timer
clear id ts = filter (λ t. not (t.id == id)) ts

-- `apply`, the callback for a state
unfoldable pub apply : Ambient → Backdrop → Backdrop
apply next b = record b { attribute = some next; applied = some next; pending = none }

-- `ref.pending === next`
abbrev pub is_pending : Option Ambient → Ambient → Bool
is_pending none next = false
is_pending (some p) next = same p next

-- `setTimeout(apply, 3000)`, with what is kept of it
unfoldable pub count_down : ℕ → Ambient → Backdrop → Backdrop
count_down now next b = record b {
  pending = some next;
  timer = suc b.ids;
  timers = (record { id = suc b.ids; due = now + 3000; next = next }) ∷ clear b.timer b.timers;
  ids = suc b.ids;
}

-- The last lines of the effect, where the next state is not the one that is applied.
unfoldable pub shift : ℕ → Ambient → Backdrop → Backdrop
unfolding count_down
shift now next b = if is_pending b.pending next then b else count_down now next b

-- The reading is the state that is applied: a countdown is called off.
unfoldable pub steady : Backdrop → Backdrop
steady b = elim b.pending [
  | none ↦ b
  | some p ↦ record b { pending = none; timers = clear b.timer b.timers }
]

-- The effect of a reading at a time.
unfoldable pub observe : ℕ → Ambient → Backdrop → Backdrop
unfolding apply shift steady
observe now next b = elim b.applied [
  | none ↦ apply next b
  | some a ↦ if same next a then steady b else shift now next b
]

-- The page calls a timer back.
unfoldable pub fire : Timer → Backdrop → Backdrop
unfolding apply
fire t b = apply t.next (record b { timers = clear t.id b.timers })

-- `mainNav(role).some(n => n.id === nav)`
abbrev pub has_screen : List NavItem → NavId → Bool
has_screen [] nav = false
has_screen (n ∷ ns) nav = same_id n.id nav || has_screen ns nav

-- The effect after a change of the role or the screen.
unfoldable pub fall_back : String → NavId → NavId
fall_back role nav =
    if not (same_id nav settings) && not (has_screen (main_nav role) nav) then overview else nav

-- What the keyboard drives.
pub record Console : Type 0 where
  pub nav : NavId
  pub palette : Bool

-- A `KeyboardEvent`: the key is a text of code units.
pub record KeyEvent : Type 0 where
  pub ctrl : Bool
  pub alt : Bool
  pub meta : Bool
  pub key : Text

-- `go`
unfoldable pub go : NavId → Console → Console
go id c = if same_id id c.nav then c else record c { nav = id }

-- `e.key.toLowerCase() === 'k'`; the Kelvin sign U+212A has the lower case k too.
abbrev pub is_k : Text → Bool
is_k (c ∷ []) = c == 107 || c == 75 || c == 8490
is_k _ = false

-- The handler of keydown in `App`.
unfoldable pub key_down : String → KeyEvent → Console → Console
unfolding go
key_down role e c =
    if not e.ctrl || e.alt || e.meta
    then c
    else if is_k e.key
    then record c { palette = not c.palette }
    else elim (find? (λ n. text_eq n.shortcut e.key) (nav_for role)) [
      | none ↦ c
      | some hit ↦ go hit.id c
    ]
