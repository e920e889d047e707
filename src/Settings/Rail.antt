-- ===== src/Settings/Rail.antt =====
-- `SectionRail` of frontend/src/screens/Settings.tsx: the sections, the one that is read, and the
-- pin that holds a jump. Heights are measured from a point above the document, so that none is
-- negative; only their differences count.
pub mod Spied
use proxyforward.Common.{
  ℕ, ◌+◌, ◌-◌, ◌*◌, Bool, true, false, Option, none, some, List, [], ◌∷◌, ◌++◌,
}
use proxyforward.Common.Tests.{ltb, leb, if◌then◌else◌}
use proxyforward.Common.Decimal.{Text, codes}

-- `SectionDef`
pub record SectionDef : Type 0 where
  pub id : Text
  pub label : Text

abbrev pub section : Text → Text → SectionDef
section id label = record { id = id; label = label }

abbrev pub security : Bool → List SectionDef
security true = []
security false = section (codes "security") (codes "Security") ∷ []

-- `sections`
unfoldable pub sections : Bool → List SectionDef
sections is_agent =
    section (codes "appearance") (codes "Appearance")
    ∷ section (codes "connection") (codes "Connection")
    ∷ (security is_agent
        ++ (section (codes "analytics") (codes "Analytics")
            ∷ section (codes "telemetry") (codes "Telemetry")
            ∷ section (codes "system") (codes "System")
            ∷ section (codes "backup") (codes "Backup")
            ∷ section (codes "about") (codes "About")
            ∷ []))

-- The scroller: its padding at the top, its place, and how far it is scrolled
pub record Scroller : Type 0 where
  pub chrome : ℕ
  pub rect_top : ℕ
  pub client_height : ℕ
  pub scroll_height : ℕ
  pub scroll_top : ℕ

abbrev pub base : Scroller → ℕ
base v = (v.rect_top + v.chrome) + 96

abbrev pub max_scroll : Scroller → ℕ
max_scroll v = v.scroll_height - v.client_height

abbrev pub floor : Scroller → ℕ
floor v = (v.rect_top + v.client_height) - 24

abbrev pub min : ℕ → ℕ → ℕ
min a b = if leb a b then a else b

-- `top <= line`, multiplied by `maxScroll` where that is positive
unfoldable pub is_passed : Scroller → ℕ → Bool
is_passed v top =
    let m = max_scroll v in
    if ltb 0 m
    then leb (top * m) (base v * m + (floor v - base v) * min m v.scroll_top)
    else leb top (base v)

abbrev pub passed_at : Scroller → Option ℕ → Bool
passed_at v none = false
passed_at v (some top) = is_passed v top

-- The loop over the sections; `top_of` finds the element of one, and its top.
unfoldable pub spied_from : Scroller → (Text → Option ℕ) → Text → List SectionDef → Text
spied_from v top_of current [] = current
spied_from v top_of current (s ∷ ss) =
    spied_from v top_of (if passed_at v (top_of s.id) then s.id else current) ss

abbrev pub first_id : List SectionDef → Text
first_id [] = []
first_id (s ∷ ss) = s.id

unfoldable pub spied : Scroller → (Text → Option ℕ) → List SectionDef → Text
unfolding spied_from
spied v top_of ss = spied_from v top_of (first_id ss) ss

-- The rail: the pin, and whether its timer runs
pub record Rail : Type 0 where
  pub active : Text
  pub pinned : Bool
  pub timer : Bool

-- A scroll, at which `current` would be spied
unfoldable pub on_scroll : Text → Rail → Rail
on_scroll current r = if r.pinned then record r { timer = true } else record r { active = current }

unfoldable pub jump : Text → Rail → Rail
jump id r = record { active = id; pinned = true; timer = true }

-- The timer of the pin
unfoldable pub settle : Rail → Rail
settle r = if r.timer then record r { pinned = false; timer = false } else r
