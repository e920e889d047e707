-- ===== src/Palette/Groups.antt =====
-- The sections of frontend/src/components/CommandPalette.tsx: rendering the commands by section
-- keeps the order in which the keys walk through them.
use mathlib.Core.List.{append-nil, append_assoc}
use proxyforward.Common.{
  ℕ, suc, ◌≤◌, ◌≡◌, refl, sym, ap, ◌∙◌, Bool, List, [], ◌∷◌, ◌++◌, map, arith, inl, inr,
}
use proxyforward.Common.Tests.{Bool-cases, ◌==◌}
use proxyforward.Common.Lists.{filter, All}
use proxyforward.Status.{Status}
use proxyforward.Nav.{NavItem, nav_for}
use proxyforward.Commands.{Command, passes, nav_command, nav_commands, commands}
use proxyforward.Palette.{all, available, section_code, Group, add, grouped, rendered}

-- The sections of the groups ascend, from lo on.
abbrev Ascends : ℕ → List Group → Type 0
Ascends lo [] = Unit
Ascends lo (g ∷ gs) = (lo ≤ section_code g.section) × Ascends (suc (section_code g.section)) gs

abbrev Below : ℕ → List Group → Type 0
Below hi gs = All (λ g. section_code g.section ≤ hi) gs

-- The sections of the commands never go back, from lo on.
abbrev IsSorted : ℕ → List Command → Type 0
IsSorted lo [] = Unit
IsSorted lo (c ∷ cs) = (lo ≤ section_code c.section) × IsSorted (section_code c.section) cs

-- A command whose section is not before those of the groups comes last.
rendered-add :
    (c : Command) (lo : ℕ) (gs : List Group)
    → lo ≤ section_code c.section
    → Ascends lo gs
    → Below (section_code c.section) gs
    → (rendered (add c gs) ≡ rendered gs ++ c ∷ [])
      × Ascends lo (add c gs)
      × Below (section_code c.section) (add c gs)
unfolding rendered add
rendered-add c lo [] l h b = (refl, (l, tt), (omega arith, tt))
rendered-add c lo (g ∷ []) l h b =
    elim (Bool-cases (section_code g.section == section_code c.section)) [
      | inl e ↦ rw e (append-nil _ ∙ ap (λ t. t ++ c ∷ []) (sym (append-nil g.list)), h, b)
      | inr e ↦ rw e (
        ap (λ t. t ++ c ∷ []) (sym (append-nil g.list)),
        (h.0, (ground arith, tt)),
        (b.0, (omega arith, tt)),
      )
    ]
rendered-add c lo (g ∷ g' ∷ gs) l h b =
    elim (Bool-cases (section_code g.section == section_code c.section)) [
      | inl e ↦ absurd (ground arith)
      | inr e ↦
          let (same, up, low) =
            rendered-add c (suc (section_code g.section)) (g' ∷ gs) (ground arith) h.1 b.1 in
          rw (e, add)
            (
              ap (λ t. g.list ++ t) same ∙ sym (append_assoc g.list (rendered (g' ∷ gs)) (c ∷ [])),
              (h.0, up),
              (b.0, low),
            )
    ]

Below-mono : {lo hi : ℕ} (gs : List Group) → lo ≤ hi → Below lo gs → Below hi gs
Below-mono [] h b = tt
Below-mono (g ∷ gs) h (b, bs) = (omega arith, Below-mono gs h bs)

rendered-grouped :
    (lo : ℕ) (gs : List Group) (cs : List Command)
    → Ascends 0 gs
    → Below lo gs
    → IsSorted lo cs
    → rendered (grouped gs cs) ≡ rendered gs ++ cs
unfolding grouped
rendered-grouped lo gs [] a b h = sym (append-nil _)
rendered-grouped lo gs (c ∷ cs) a b (h, hs) =
    let (e, a', b') = rendered-add c 0 gs (omega arith) a (Below-mono gs h b) in
    rendered-grouped (section_code c.section) (add c gs) cs a' b' hs
    ∙ rw e (append_assoc (rendered gs) (c ∷ []) cs)

IsSorted-mono : {lo hi : ℕ} (cs : List Command) → lo ≤ hi → IsSorted hi cs → IsSorted lo cs
IsSorted-mono [] h s = tt
IsSorted-mono (c ∷ cs) h (s, ss) = (omega arith, ss)

filter-IsSorted :
    (lo : ℕ) (p : Command → Bool) (cs : List Command) → IsSorted lo cs → IsSorted lo (filter p cs)
filter-IsSorted lo p [] h = tt
filter-IsSorted lo p (c ∷ cs) (h, hs) = elim (Bool-cases (p c)) [
  | inl e ↦ rw e (h, filter-IsSorted _ p cs hs)
  | inr e ↦ rw e (filter-IsSorted lo p cs (IsSorted-mono cs h hs))
]

all-IsSorted : (s : Status) → IsSorted 0 (all s)
unfolding all nav_commands
all-IsSorted s = rail (nav_for s.role)
  where
    rail : (ns : List NavItem) → IsSorted 0 (map nav_command ns ++ commands)
    rail [] = omega arith
    rail (n ∷ ns) = (omega arith, rail ns)

-- While browsing, the groups show the available commands in their own order: what the keys select
-- by its place in the list is what stands at that place on the screen.
pub rendered-available : (s : Status) → rendered (grouped [] (available s)) ≡ available s
unfolding available rendered
rendered-available s =
    rendered-grouped 0 [] (available s) tt tt
      (filter-IsSorted 0 (λ c. passes s c.gate) (all s) (all-IsSorted s))
