-- ===== src/Palette.antt =====
-- frontend/src/components/CommandPalette.tsx: the palette's list of results, its selection and its
-- keys. `Results` proves what the list holds, `Keys` what the keys do with the selection.
pub mod Results
pub mod Groups
pub mod Keys
use proxyforward.Common.{
  ℕ, zero, suc, ◌-◌, Bool, true, false, not, ◌&&◌, Option, none, some, List, [], ◌∷◌, ◌++◌, map,
}
use proxyforward.Common.Tests.{ltb, leb, ◌==◌, if◌then◌else◌}
use proxyforward.Common.Lists.{length, get_elem?, filter}
use proxyforward.Common.Sort.{sort_by}
use proxyforward.Common.Decimal.{Text, codes}
use proxyforward.Common.Texts.{is_space}
use proxyforward.Common.Int.{ℤ, pos, negsuc}
use proxyforward.Status.{Status}
use proxyforward.Commands.{
  Section, navigate, appearance, actions, Command, nav_commands, commands, passes, fuzzy_score,
}
use proxyforward.Commands.Fuzzy.{is_match}

-- `all`
unfoldable pub all : Status → List Command
all s = nav_commands s.role ++ commands

-- `available`
unfoldable pub available : Status → List Command
available s = filter (λ c. passes s c.gate) (all s)

-- `!q.trim()`: every character is white space.
abbrev pub is_blank : Text → Bool
is_blank [] = true
is_blank (c ∷ cs) = is_space c && is_blank cs

-- A command with its score.
pub record Scored : Type 0 where
  pub c : Command
  pub s : ℤ

-- `b.s - a.s > 0`
abbrev pub is_above : ℤ → ℤ → Bool
is_above (pos b) (pos a) = ltb a b
is_above (pos b) (negsuc a) = true
is_above (negsuc b) (pos a) = false
is_above (negsuc b) (negsuc a) = ltb b a

-- `(a, b) => b.s - a.s`: the first goes before the second.
unfoldable pub outranks : Scored → Scored → Bool
outranks a b = is_above a.s b.s

module _ (lower : Text → Text) where
  -- The text that is searched, with its score.
  abbrev pub scored : Text → Command → Scored
  scored q c = record { c = c; s = fuzzy_score lower (c.title ++ (codes " " ++ c.hint)) q }

  -- `results`
  unfoldable pub results : Status → Text → List Command
  results s q =
      if is_blank q
      then available s
      else map (λ x. x.c)
          (sort_by outranks (filter (λ x. is_match x.s) (map (scored q) (available s))))

-- `a === b`, on sections
abbrev pub section_code : Section → ℕ
section_code navigate = 0
section_code appearance = 1
section_code actions = 2

pub record Group : Type 0 where
  pub section : Section
  pub list : List Command

-- One round of the loop of `grouped`: a section that is new comes last.
unfoldable pub add : Command → List Group → List Group
add c [] = (record { section = c.section; list = c ∷ [] }) ∷ []
add c (g ∷ gs) =
    if section_code g.section == section_code c.section
    then (record g { list = g.list ++ c ∷ [] }) ∷ gs
    else g ∷ add c gs

-- `grouped`, while browsing
unfoldable pub grouped : List Group → List Command → List Group
grouped gs [] = gs
grouped gs (c ∷ cs) = grouped (add c gs) cs

-- The commands in the order in which the groups are rendered, which `flatIndex` counts.
unfoldable pub rendered : List Group → List Command
rendered [] = []
rendered (g ∷ gs) = g.list ++ rendered gs

-- The component's state. `closes` counts the calls of `onClose` that are due.
pub record Palette : Type 0 where
  pub q : Text
  pub idx : ℤ
  pub closing : Bool
  pub closes : ℕ

pub data Event : Type 0 where
  input : Text → Event
  arrow_down arrow_up enter escape scrim : Event
  hover click : ℕ → Event

-- `setIdx(i => Math.min(n - 1, i + 1))`
unfoldable pub down : ℕ → ℤ → ℤ
down zero i = negsuc 0
down (suc n) (pos i) = if ltb i n then pos (suc i) else pos n
down (suc n) (negsuc zero) = pos 0
down (suc n) (negsuc (suc i)) = negsuc i

-- `setIdx(i => Math.max(0, i - 1))`
unfoldable pub up : ℤ → ℤ
up (pos i) = pos (i - 1)
up (negsuc i) = pos 0

-- `results[idx]`
unfoldable pub at : List Command → ℤ → Option Command
at cs (pos i) = get_elem? cs i
at cs (negsuc i) = none

-- `beginClose`
abbrev pub begin_close : Palette → Palette
begin_close p = record p { closing = true; closes = suc p.closes }

-- `if (c) run(c)`: the palette closes and the command runs.
abbrev pub run_if : Palette → Option Command → Palette × Option Command
run_if p none = (p, none)
run_if p (some c) = (begin_close p, some c)

-- One event while the results are cs: the next state, and the command that is run. A new query
-- puts the selection back to the first result; an equal one changes nothing.
unfoldable pub step : List Command → Palette → Event → Palette × Option Command
unfolding down up at
step cs p (input q) = (record p { q = q; idx = pos 0 }, none)
step cs p arrow_down = (record p { idx = down (length cs) p.idx }, none)
step cs p arrow_up = (record p { idx = up p.idx }, none)
step cs p enter = run_if p (at cs p.idx)
step cs p escape = (begin_close p, none)
step cs p scrim = (begin_close p, none)
step cs p (hover i) = (record p { idx = pos i }, none)
step cs p (click i) = run_if p (get_elem? cs i)

-- `useState('')`, `useState(0)`, `useState(false)`
abbrev pub opened : Palette
opened = record { q = []; idx = pos 0; closing = false; closes = 0 }
