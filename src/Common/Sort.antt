-- ===== src/Common/Sort.antt =====
-- `Array.prototype.sort`, which is stable: each element goes behind all that it does not precede.
-- The laws are for a comparison that is a strict weak order. `Kept` has what sorting does to the
-- elements that pass a test.
pub mod Kept
use mathlib.Core.Path.{◌≡◌}
use mathlib.Core.Bool.{Bool, true, false}
use mathlib.Core.Logic.{inl, inr}
use mathlib.Core.List.{List, [], ◌∷◌, ◌++◌, Perm, append-nil, perm_middle}
use mathlib.Core.List.Perm
use proxyforward.Common.Tests.{if◌then◌else◌, Bool-cases}
use proxyforward.Common.Lists.{All, All-map}

-- `precedes` is a strict weak order.
pub record IsOrder {ℓ} {A : Type ℓ} (precedes : A → A → Bool) : Type ℓ where
  pub asymm : (a b : A) → precedes a b ≡ true → precedes b a ≡ false
  pub not_trans : (a b c : A) → precedes b a ≡ false → precedes c b ≡ false → precedes c a ≡ false

-- Every element has a relation to all that come after it.
abbrev pub IsArranged {ℓ} : {A : Type ℓ} → (A → A → Type 0) → List A → Type 0
IsArranged R [] = Unit
IsArranged R (x ∷ xs) = All (λ y. R x y) xs × IsArranged R xs

module _ {ℓ} {A : Type ℓ} (precedes : A → A → Bool) where
  unfoldable pub insert : A → List A → List A
  insert x [] = x ∷ []
  insert x (y ∷ ys) = if precedes x y then x ∷ y ∷ ys else y ∷ insert x ys

  -- The elements are taken one by one into the list that is sorted so far.
  unfoldable pub sort_into : List A → List A → List A
  unfolding insert
  sort_into sorted [] = sorted
  sort_into sorted (x ∷ xs) = sort_into (insert x sorted) xs

  unfoldable pub sort_by : List A → List A
  unfolding sort_into
  sort_by xs = sort_into [] xs

  -- No element is preceded by a later one.
  abbrev pub IsOrdered : List A → Type 0
  IsOrdered [] = Unit
  IsOrdered (x ∷ xs) = All (λ y. precedes y x ≡ false) xs × IsOrdered xs

  All-insert {κ} : (P : A → Type κ) (x : A) (ys : List A) → P x → All P ys → All P (insert x ys)
  unfolding insert
  All-insert P x [] h hs = (h, tt)
  All-insert P x (y ∷ ys) h (g, gs) = elim (Bool-cases (precedes x y)) [
    | inl e ↦ rw e (h, (g, gs))
    | inr e ↦ rw e (g, All-insert P x ys h gs)
  ]

  All-sort_into {κ} :
      (P : A → Type κ) (ys xs : List A) → All P ys → All P xs → All P (sort_into ys xs)
  unfolding sort_into
  All-sort_into P ys [] hs gs = hs
  All-sort_into P ys (x ∷ xs) hs (g, gs) =
      All-sort_into P (insert x ys) xs (All-insert P x ys g hs) gs

  -- Sorting keeps what holds of every element.
  pub All-sort_by {κ} : (P : A → Type κ) (xs : List A) → All P xs → All P (sort_by xs)
  unfolding sort_by
  All-sort_by P xs h = All-sort_into P [] xs tt h

  insert-IsOrdered :
      (o : IsOrder precedes) (x : A) (ys : List A) → IsOrdered ys → IsOrdered (insert x ys)
  unfolding insert
  insert-IsOrdered o x [] h = (tt, tt)
  insert-IsOrdered o x (y ∷ ys) (h, hs) = elim (Bool-cases (precedes x y)) [
    | inl e ↦
        let low = o.asymm x y e in
        rw e ((low, All-map (λ z k. o.not_trans x y z low k) ys h), (h, hs))
    | inr e ↦ rw e (All-insert (λ z. precedes z y ≡ false) x ys e h, insert-IsOrdered o x ys hs)
  ]

  sort_into-IsOrdered :
      (o : IsOrder precedes) (ys xs : List A) → IsOrdered ys → IsOrdered (sort_into ys xs)
  unfolding sort_into
  sort_into-IsOrdered o ys [] h = h
  sort_into-IsOrdered o ys (x ∷ xs) h =
      sort_into-IsOrdered o (insert x ys) xs (insert-IsOrdered o x ys h)

  pub sort_by-IsOrdered : (o : IsOrder precedes) (xs : List A) → IsOrdered (sort_by xs)
  unfolding sort_by
  sort_by-IsOrdered o xs = sort_into-IsOrdered o [] xs tt

  insert-perm : (x : A) (ys : List A) → Perm (insert x ys) (x ∷ ys)
  unfolding insert
  insert-perm x [] = Perm.refl _
  insert-perm x (y ∷ ys) = elim (Bool-cases (precedes x y)) [
    | inl e ↦ rw e (Perm.refl _)
    | inr e ↦ rw e (Perm.trans (Perm.cons y (insert-perm x ys)) (Perm.swap x y ys))
  ]

  sort_into-perm : (ys xs : List A) → Perm (sort_into ys xs) (ys ++ xs)
  unfolding sort_into
  sort_into-perm ys [] = rw append-nil (Perm.refl ys)
  sort_into-perm ys (x ∷ xs) =
      Perm.trans (sort_into-perm (insert x ys) xs)
        (Perm.trans (Perm.append (insert-perm x ys) (Perm.refl xs)) (Perm.symm (perm_middle ys xs)))

  pub sort_by-perm : (xs : List A) → Perm (sort_by xs) xs
  unfolding sort_by
  sort_by-perm xs = sort_into-perm [] xs

  -- What a comparison says of two elements in their places holds along the sorted list.
  pub IsArranged-sort_by :
      (R : A → A → Type 0)
      → ((x y : A) → precedes y x ≡ false → R x y)
      → IsOrder precedes
      → (xs : List A) → IsArranged R (sort_by xs)
  IsArranged-sort_by R f o xs = arranged (sort_by xs) (sort_by-IsOrdered o xs)
    where
      arranged : (ys : List A) → IsOrdered ys → IsArranged R ys
      arranged [] h = tt
      arranged (y ∷ ys) (h, hs) = (All-map (λ z k. f y z k) ys h, arranged ys hs)
