-- ===== src/Common/Lists.antt =====
-- Lists measured and indexed by native numbers, under the library's names.
use Prim.Native.Nat.{ℕ, zero, suc, ◌+◌}
use mathlib.Core.Path.{◌≡◌, refl, sym, subst}
use mathlib.Core.Bool.{Bool, true, false}
use mathlib.Core.List.{List, [], ◌∷◌, ◌++◌}
use mathlib.Core.Logic.{◌⊎◌, inl, inr}
use mathlib.Core.Option.{Option, none, some}
use native.Mathlib.Omega.{arith}
use proxyforward.Common.Tests.{if◌then◌else◌, Bool-cases}

module _ {ℓ} {A : Type ℓ} where
  abbrev pub length : List A → ℕ
  length [] = 0
  length (x ∷ xs) = suc (length xs)

  abbrev pub get_elem? : List A → ℕ → Option A
  get_elem? [] i = none
  get_elem? (x ∷ xs) zero = some x
  get_elem? (x ∷ xs) (suc i) = get_elem? xs i

  -- `Array.prototype.filter`
  abbrev pub filter : (A → Bool) → List A → List A
  filter p [] = []
  filter p (x ∷ xs) = if p x then x ∷ filter p xs else filter p xs

  -- `Array.prototype.find`
  abbrev pub find? : (A → Bool) → List A → Option A
  find? p [] = none
  find? p (x ∷ xs) = if p x then some x else find? p xs

  pub length-append : (xs ys : List A) → length (xs ++ ys) ≡ length xs + length ys
  length-append [] ys = omega arith
  length-append (x ∷ xs) ys = omega (arith, length-append xs ys)

-- A property of every element.
abbrev pub All {ℓ κ} : {A : Type ℓ} → (A → Type κ) → List A → Type κ
All P [] = Unit
All P (x ∷ xs) = P x × All P xs

pub All-map {ℓ κ} :
    {A : Type ℓ} {P Q : A → Type κ} (f : (x : A) → P x → Q x) (xs : List A) → All P xs → All Q xs
All-map f [] h = tt
All-map f (x ∷ xs) (p, h) = (f x p, All-map f xs h)

-- An element of a list of numbers
abbrev pub IsIn : ℕ → List ℕ → Type 0
IsIn i [] = true ≡ false
IsIn i (o ∷ os) = (i ≡ o) ⊎ IsIn i os

pub none_left : (xs : List ℕ) → All (λ i. true ≡ false) xs → xs ≡ []
none_left [] h = refl
none_left (x ∷ xs) h = let clash : true ≡ false = h.0 in cc

pub all_in : (xs : List ℕ) → All (λ i. IsIn i xs) xs
all_in [] = tt
all_in (x ∷ xs) = (inl refl, All-map (λ i g. inr g) xs (all_in xs))

pub All-filter {ℓ κ} :
    {A : Type ℓ} {P Q : A → Type κ} (p : A → Bool) (f : (x : A) → P x → p x ≡ true → Q x)
    (xs : List A)
    → All P xs
    → All Q (filter p xs)
All-filter p f [] h = tt
All-filter {P = P} {Q = Q} p f (x ∷ xs) (g, h) = elim (Bool-cases (p x)) [
  | inl e ↦ rw e (f x g e, All-filter {P = P} {Q = Q} p f xs h)
  | inr e ↦ rw e (All-filter {P = P} {Q = Q} p f xs h)
]

pub All-snoc {ℓ κ} :
    {A : Type ℓ} (P : A → Type κ) (xs : List A) (x : A) → All P xs → P x → All P (xs ++ x ∷ [])
All-snoc P [] x h p = (p, tt)
All-snoc P (y ∷ xs) x (q, h) p = (q, All-snoc P xs x h p)

pub All-at {κ} : (P : ℕ → Type κ) (xs : List ℕ) (i : ℕ) → IsIn i xs → All P xs → P i
All-at P [] i h g = let clash : true ≡ false = h in cc
All-at P (x ∷ xs) i (inl e) (p, g) = subst P (sym e) p
All-at P (x ∷ xs) i (inr h) (p, g) = All-at P xs i h g
