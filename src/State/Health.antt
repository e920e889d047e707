-- ===== src/State/Health.antt =====
-- `worstHealth` of frontend/src/state.ts: the verdict is the worst of the scores, whatever their
-- order.
use Prim.Native.String.{String}
use text.Mathlib.Text.{◌==◌ as str_eq}
use mathlib.Core.Path.{subst}
use proxyforward.Common.{
  ℕ, ◌≤◌, ◌≡◌, refl, sym, ◌∙◌, ◌⊎◌, ◌||◌, true, false, List, [], ◌∷◌, arith, inl, inr,
}
use proxyforward.Common.Tests.{if◌then◌else◌, Bool-cases}
use proxyforward.Common.Lists.{All}
use proxyforward.State.{Tone, good, warn, bad, worst_from, worst_health}

abbrev pub rank : Tone → ℕ
rank good = 0
rank warn = 1
rank bad = 2

-- The verdict on one agent; an unknown score calls for caution, any other text for none.
abbrev pub tone_of : String → Tone
tone_of score =
    if str_eq score "bad"
    then bad
    else if str_eq score "warn" || str_eq score "unknown"
    then warn
    else good

abbrev pub Some : (String → Type 0) → List String → Type 0
Some P [] = ⊥
Some P (x ∷ xs) = P x ⊎ Some P xs

-- The verdict is at least every score's, and is one of them unless it is `good`.
pub record IsWorst (scores : List String) (tone : Tone) : Type 0 where
  pub covers : All (λ s. rank (tone_of s) ≤ rank tone) scores
  pub attained : (tone ≡ good) ⊎ Some (λ s. tone_of s ≡ tone) scores

worst_from-le :
    (tone : Tone) (scores : List String) → rank tone ≤ 1 → rank tone ≤ rank (worst_from tone scores)
unfolding worst_from
worst_from-le tone [] h = omega arith
worst_from-le tone (s ∷ rest) h = ground (arith, worst_from-le tone rest, worst_from-le warn rest)

rank-le : (tone : Tone) → rank tone ≤ 2
rank-le good = omega arith
rank-le warn = omega arith
rank-le bad = omega arith

bad-covers : (scores : List String) → All (λ s. rank (tone_of s) ≤ 2) scores
bad-covers [] = tt
bad-covers (s ∷ rest) = (rank-le (tone_of s), bad-covers rest)

-- The two ways of one round.
worst_from-stop :
    (tone : Tone) (s : String) (rest : List String)
    → str_eq s "bad" ≡ true
    → worst_from tone (s ∷ rest) ≡ bad
unfolding worst_from
worst_from-stop tone s rest h = rw h

worst_from-next :
    (tone : Tone) (s : String) (rest : List String)
    → str_eq s "bad" ≡ false
    → worst_from tone (s ∷ rest)
      ≡ worst_from (if str_eq s "warn" || str_eq s "unknown" then warn else tone) rest
unfolding worst_from
worst_from-next tone s rest h = rw h

worst_from-covers :
    (tone : Tone) (scores : List String)
    → rank tone ≤ 1
    → All (λ s. rank (tone_of s) ≤ rank (worst_from tone scores)) scores
worst_from-covers tone [] h = tt
worst_from-covers tone (s ∷ rest) h = elim (Bool-cases (str_eq s "bad")) [
  | inl p ↦ at_rank (worst_from-stop tone s rest p) (rank-le (tone_of s), bad-covers rest)
  | inr p ↦ elim (Bool-cases (str_eq s "warn" || str_eq s "unknown")) [
    | inl q ↦ at_rank (worst_from-next tone s rest p ∙ rw q) (
      rw (p, q) (worst_from-le warn rest (omega arith)),
      worst_from-covers warn rest (omega arith),
    )
    | inr q ↦
        at_rank (worst_from-next tone s rest p ∙ rw q)
          (rw (p, q) (omega arith), worst_from-covers tone rest h)
  ]
]
  where
    at_rank :
        {t u : Tone}
        → t ≡ u
        → All (λ s. rank (tone_of s) ≤ rank u) (s ∷ rest)
        → All (λ s. rank (tone_of s) ≤ rank t) (s ∷ rest)
    at_rank e a = subst (λ v. All (λ s. rank (tone_of s) ≤ rank v) (s ∷ rest)) (sym e) a

worst_from-attained :
    (tone : Tone) (scores : List String)
    → (worst_from tone scores ≡ tone) ⊎ Some (λ s. tone_of s ≡ worst_from tone scores) scores
unfolding worst_from
worst_from-attained tone [] = inl refl
worst_from-attained tone (s ∷ rest) =
    ground (arith, worst_from-attained tone rest, worst_from-attained warn rest)

-- `worstHealth` answers the worst verdict on its items, and `good` for none.
pub worst_health-IsWorst : (scores : List String) → IsWorst scores (worst_health scores)
unfolding worst_health
worst_health-IsWorst scores = record {
  covers = worst_from-covers good scores (omega arith);
  attained = worst_from-attained good scores;
}
