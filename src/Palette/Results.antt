-- ===== src/Palette/Results.antt =====
-- The results of frontend/src/components/CommandPalette.tsx: what the list holds.
use mathlib.Core.List.{Perm}
use mathlib.Core.List.Perm
use proxyforward.Common.{
  ◌≡◌, ◌≤◌, refl, Bool, true, false, List, [], ◌∷◌, ◌++◌, map, arith, inl, inr,
}
use proxyforward.Common.Tests.{Bool-cases}
use proxyforward.Common.Lists.{filter, All}
use proxyforward.Common.Sort.{
  IsOrder, IsArranged, sort_by, All-sort_by, IsArranged-sort_by, sort_by-perm,
}
use proxyforward.Common.Decimal.{Text, codes}
use proxyforward.Common.Int.{ℤ, pos, negsuc}
use proxyforward.Status.{Status}
use proxyforward.Commands.{Command, passes, fuzzy_score}
use proxyforward.Commands.Fuzzy.{is_match}
use proxyforward.Palette.{all, available, is_blank, Scored, is_above, outranks, scored, results}

-- Filtering, sorting and the way back to the commands keep what all elements satisfy.
All-filter {ℓ κ} :
    {A : Type ℓ} (P : A → Type κ) (p : A → Bool) (xs : List A) → All P xs → All P (filter p xs)
All-filter P p [] h = tt
All-filter P p (x ∷ xs) (h, hs) = elim (Bool-cases (p x)) [
  | inl e ↦ rw e (h, All-filter P p xs hs)
  | inr e ↦ rw e (All-filter P p xs hs)
]

filter-All {ℓ} : {A : Type ℓ} (p : A → Bool) (xs : List A) → All (λ x. p x ≡ true) (filter p xs)
filter-All p [] = tt
filter-All p (x ∷ xs) = elim (Bool-cases (p x)) [
  | inl e ↦ rw e (e, filter-All p xs)
  | inr e ↦ rw e (filter-All p xs)
]

All-image {ℓ κ μ} :
    {A : Type ℓ} {B : Type κ} (P : B → Type μ) (f : A → B) (xs : List A)
    → All (λ x. P (f x)) xs
    → All P (map f xs)
All-image P f [] h = tt
All-image P f (x ∷ xs) (h, hs) = (h, All-image P f xs hs)

is_above_trans : (a b c : ℤ) → is_above b a ≡ false → is_above c b ≡ false → is_above c a ≡ false
is_above_trans (pos a) (pos b) (pos c) h k = ground arith
is_above_trans (pos a) (pos b) (negsuc c) h k = refl
is_above_trans (pos a) (negsuc b) (pos c) h k = cc
is_above_trans (pos a) (negsuc b) (negsuc c) h k = refl
is_above_trans (negsuc a) (pos b) c h k = cc
is_above_trans (negsuc a) (negsuc b) (pos c) h k = cc
is_above_trans (negsuc a) (negsuc b) (negsuc c) h k = ground arith

is_above_asymm : (a b : ℤ) → is_above a b ≡ true → is_above b a ≡ false
is_above_asymm (pos a) (pos b) h = ground arith
is_above_asymm (pos a) (negsuc b) h = refl
is_above_asymm (negsuc a) (pos b) h = cc
is_above_asymm (negsuc a) (negsuc b) h = ground arith

-- The order of the integers
abbrev pub IsAtMost : ℤ → ℤ → Type 0
IsAtMost (pos a) (pos b) = a ≤ b
IsAtMost (pos a) (negsuc b) = true ≡ false
IsAtMost (negsuc a) (pos b) = Unit
IsAtMost (negsuc a) (negsuc b) = b ≤ a

is_above-IsAtMost : (a b : ℤ) → is_above a b ≡ false → IsAtMost a b
is_above-IsAtMost (pos a) (pos b) h = ground (arith, h)
is_above-IsAtMost (pos a) (negsuc b) h = h
is_above-IsAtMost (negsuc a) (pos b) h = tt
is_above-IsAtMost (negsuc a) (negsuc b) h = ground (arith, h)

-- Of two results in their places: the second scores at most as much as the first.
abbrev pub Scores : Scored → Scored → Type 0
Scores x y = IsAtMost y.s x.s

outranks-Scores : (x y : Scored) → outranks y x ≡ false → Scores x y
unfolding outranks
outranks-Scores x y h = is_above-IsAtMost y.s x.s h

outranks-IsOrder : IsOrder outranks
unfolding outranks
outranks-IsOrder = record {
  asymm = λ a b. is_above_asymm a.s b.s;
  not_trans = λ a b c. is_above_trans a.s b.s c.s;
}

All-self :
    (lower : Text → Text) (q : Text) (p : Scored → Bool) (cs : List Command)
    → All (λ x. scored lower q x.c ≡ x) (filter p (map (scored lower q) cs))
All-self lower q p [] = tt
All-self lower q p (c ∷ cs) = elim (Bool-cases (p (scored lower q c))) [
  | inl e ↦ rw e (refl, All-self lower q p cs)
  | inr e ↦ rw e (All-self lower q p cs)
]

map_self :
    (f : Command → Scored) (xs : List Scored)
    → All (λ x. f x.c ≡ x) xs
    → map f (map (λ x. x.c) xs) ≡ xs
map_self f [] h = refl
map_self f (x ∷ xs) (h, hs) = cc (h, map_self f xs hs)

map-filter :
    (f : Command → Scored) (p : Scored → Bool) (cs : List Command)
    → ((c : Command) → (f c).c ≡ c)
    → map (λ x. x.c) (filter p (map f cs)) ≡ filter (λ c. p (f c)) cs
map-filter f p [] h = refl
map-filter f p (c ∷ cs) h = elim (Bool-cases (p (f c))) [
  | inl e ↦ rw (e, h, map-filter f p cs h)
  | inr e ↦ rw (e, map-filter f p cs h)
]

-- Whatever is typed, the palette lists only commands whose gate is open in the present status.
pub results-passes :
    (lower : Text → Text) (s : Status) (q : Text)
    → All (λ c. passes s c.gate ≡ true) (results lower s q)
unfolding results available
results-passes lower s q =
    let gated = filter-All (λ (c : Command). passes s c.gate) (all s) in
    elim (Bool-cases (is_blank q)) [
      | inl e ↦ rw e gated
      | inr e ↦ rw e (
          All-image _ (λ x. x.c) _
            (All-sort_by outranks (λ x. passes s x.c.gate ≡ true) _
              (All-filter _ (λ x. is_match x.s) _ (All-image _ (scored lower q) _ gated))))
    ]

-- For a query that is not blank the results are the available commands that match it, each as
-- often as it is available, and no later one scores higher.
pub results-IsRanked :
    (lower : Text → Text) (s : Status) (q : Text)
    → is_blank q ≡ false
    → Perm (results lower s q) (
        filter
          (λ c. is_match (fuzzy_score lower (c.title ++ (codes " " ++ c.hint)) q))
          (available s))
      × IsArranged Scores (map (scored lower q) (results lower s q))
unfolding results
results-IsRanked lower s q h =
    let found = filter (λ (x : Scored). is_match x.s) (map (scored lower q) (available s)) in
    rw h (
      rw (← map-filter (scored lower q) (λ x. is_match x.s) (available s) (λ c. refl))
          (Perm.map _ (sort_by-perm outranks found)),
      rw
          (map_self (scored lower q) (sort_by outranks found)
            (All-sort_by outranks _ found (All-self lower q _ (available s))))
          (IsArranged-sort_by outranks Scores outranks-Scores outranks-IsOrder found),
    )
