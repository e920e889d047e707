-- ===== src/Analytics/Replay/Nearest.antt =====
-- What the playhead of a replay (frontend/src/screens/Analytics.tsx) reads out.
use mathlib.Core.Path.{subst}
use proxyforward.Common.{
  ℕ, ◌≤◌, ◌<◌, ◌≡◌, refl, sym, ap, Option, some, List, [], ◌∷◌, ◌⊎◌, arith, inl, inr,
}
use proxyforward.Common.Tests.{ltb, ltb→lt, Bool-cases}
use proxyforward.Common.Lists.{All}
use proxyforward.Analytics.Replay.{distance, Best, nearest_from, point_of, nearest}

module _ {ℓ} {A : Type ℓ} (time : A → ℕ) (cursor : ℕ) where
  -- Of the samples, p is the first of the nearest ones.
  pub data IsNearest (p : A) : List A → Type ℓ where
    first :
        {ps : List A}
        → All (λ q. distance (time p) cursor ≤ distance (time q) cursor) ps
        → IsNearest p (p ∷ ps)
    later :
        {q : A} {ps : List A}
        → distance (time p) cursor < distance (time q) cursor
        → IsNearest p ps
        → IsNearest p (q ∷ ps)

  abbrev far_of : A → ℕ
  far_of p = distance (time p) cursor

  abbrev with_far : A → Best A
  with_far p = record { point = p; far = far_of p }

  abbrev Found : A → A → List A → Type ℓ
  Found r p ps =
      ((r ≡ p) × All (λ q. far_of p ≤ far_of q) ps) ⊎ ((far_of r < far_of p) × IsNearest r ps)

  first_or_later : (r p : A) (ps : List A) → Found r p ps → IsNearest r (p ∷ ps)
  first_or_later r p ps (inl (e, h)) = subst (λ v. IsNearest v (p ∷ ps)) (sym e) (IsNearest.first h)
  first_or_later r p ps (inr (h, g)) = IsNearest.later h g

  kept_closer :
      (r p q : A) (ps : List A)
      → far_of q < far_of p
      → Found r q ps
      → (far_of r < far_of p) × IsNearest r (q ∷ ps)
  kept_closer r p q ps c (inl (e, h)) =
      (subst (λ v. far_of v < far_of p) (sym e) c, first_or_later r q ps (inl (e, h)))
  kept_closer r p q ps c (inr (h, g)) = (omega (arith, h, c), IsNearest.later h g)

  passed_over : (r p q : A) (ps : List A) → far_of p ≤ far_of q → Found r p ps → Found r p (q ∷ ps)
  passed_over r p q ps c (inl (e, h)) = inl (e, (c, h))
  passed_over r p q ps c (inr (h, g)) = inr (h, IsNearest.later (omega (arith, h, c)) g)

  -- What the loop makes of its best sample so far, and more
  abbrev Outcome : A → List A → Option (Best A) → Type ℓ
  Outcome p ps found = (r : A) × (found ≡ some (with_far r)) × Found r p ps

  nearest_from-Outcome :
      (p : A) (ps : List A) → Outcome p ps (nearest_from time cursor (some (with_far p)) ps)
  unfolding nearest_from
  nearest_from-Outcome p [] = (p, refl, inl (refl, tt))
  nearest_from-Outcome p (q ∷ ps) = elim (Bool-cases (ltb (far_of q) (far_of p))) [
    | inl h ↦
        let (r, e, found) = nearest_from-Outcome q ps in
        let closer : far_of q < far_of p = ltb→lt (far_of q) (far_of p) h in
        rw h (r, e, inr (kept_closer r p q ps closer found))
    | inr h ↦
        let (r, e, found) = nearest_from-Outcome p ps in
        let no_closer : far_of p ≤ far_of q = ground (arith, h) in
        rw h (r, e, passed_over r p q ps no_closer found)
  ]

  -- Of samples there are, the playhead reads out the first of those that are nearest to it.
  pub nearest-IsNearest :
      (p : A) (ps : List A)
      → (r : A) × (nearest time cursor (p ∷ ps) ≡ some r) × IsNearest r (p ∷ ps)
  unfolding nearest nearest_from
  nearest-IsNearest p ps =
      let (r, e, found) = nearest_from-Outcome p ps in
      (r, ap (λ b. point_of b) e, first_or_later r p ps found)
