-- ===== src/Chart/Candles.antt =====
-- The candles of frontend/src/components/BandwidthChart.tsx: at most 150 of them stand for all buckets.
use mathlib.Core.Path.{subst}
use native.Mathlib.Nat.{mul-le-mul_right}
use proxyforward.Common.{
  ℕ, zero, suc, ◌+◌, ◌-◌, ◌*◌, ◌≤◌, ◌≡◌, refl, sym, ap, ◌∙◌, List, [], ◌∷◌, ◌++◌, map, arith, inl,
  inr,
}
use proxyforward.Common.Tests.{leb, Bool-cases}
use proxyforward.Common.Lists.{length}
use proxyforward.History.{candles}
use proxyforward.Chart.Buckets.{
  Bucket, folded, total, max_of, highest, merged, split_at, groups, group_size, coalesced,
}

split_at-parts : (n : ℕ) (bs : List Bucket) → (split_at n bs).0 ++ (split_at n bs).1 ≡ bs
split_at-parts zero bs = refl
split_at-parts (suc n) [] = refl
split_at-parts (suc n) (b ∷ bs) = ap (b ∷◌) (split_at-parts n bs)

length-split_at : (n : ℕ) (bs : List Bucket) → length (split_at n bs).1 ≡ length bs - n
length-split_at zero bs = omega arith
length-split_at (suc n) [] = omega arith
length-split_at (suc n) (b ∷ bs) = omega (arith, length-split_at n bs)

split_at-short : (n : ℕ) (bs : List Bucket) → length bs ≤ n → (split_at n bs).1 ≡ []
split_at-short zero [] h = refl
split_at-short zero (b ∷ bs) h = absurd (omega arith)
split_at-short (suc n) [] h = refl
split_at-short (suc n) (b ∷ bs) h = split_at-short n bs (omega arith)

-- What is folded over the groups is what is folded over the buckets.
module _ (op : ℕ → ℕ → ℕ) (unit : (n : ℕ) → op 0 n ≡ n)
    (assoc : (a b c : ℕ) → op (op a b) c ≡ op a (op b c)) (get : Bucket → ℕ) where
  folded-append :
      (xs ys : List Bucket) → folded op get (xs ++ ys) ≡ op (folded op get xs) (folded op get ys)
  folded-append [] ys = sym (unit (folded op get ys))
  folded-append (x ∷ xs) ys =
      ap (op (get x)) (folded-append xs ys)
      ∙ sym (assoc (get x) (folded op get xs) (folded op get ys))

  folded-groups :
      ((b : Bucket) (bs : List Bucket) → get (merged (b, bs)) ≡ folded op get (b ∷ bs))
      → (fuel k : ℕ) (bs : List Bucket) → length bs ≤ fuel
      → folded op get (map merged (groups fuel k bs)) ≡ folded op get bs
  folded-groups h fuel k [] l = refl
  folded-groups h zero k (b ∷ bs) l = absurd (omega arith)
  folded-groups h (suc fuel) k (b ∷ bs) l =
      let others = (split_at (k - 1) bs).0 in
      let rest = (split_at (k - 1) bs).1 in
      ap (λ n. op n (folded op get (map merged (groups fuel k rest)))) (h b others)
      ∙ ap (op (folded op get (b ∷ others)))
          (folded-groups h fuel k rest (omega (arith, length-split_at (k - 1) bs)))
      ∙ sym (folded-append (b ∷ others) rest)
      ∙ ap (λ v. folded op get (b ∷ v)) (split_at-parts (k - 1) bs)

length-groups :
    (fuel j : ℕ) (bs : List Bucket) → length (groups fuel (suc j) bs) * suc j ≤ length bs + j
length-groups fuel j [] = omega arith
length-groups zero j (b ∷ bs) = omega arith
length-groups (suc fuel) j (b ∷ bs) = elim (Bool-cases (leb j (length bs))) [
  | inl e ↦
      let room : j ≤ length bs = ground (arith, e) in
      omega
        (arith, length-groups fuel j (split_at (suc j - 1) bs).1, length-split_at (suc j - 1) bs)
  | inr e ↦
      let tight : length bs ≤ j = ground (arith, e) in
      let none_left = split_at-short (suc j - 1) bs (omega arith) in rw none_left (omega arith)
]

few : (g n k : ℕ) → g * k ≤ n + (k - 1) → n ≤ 150 * k → 1 ≤ k → g ≤ 150
few g n k h l p = elim (Bool-cases (leb g 150)) [
  | inl e ↦ ground (arith, e)
  | inr e ↦
      let many : 151 ≤ g = ground (arith, e) in absurd (omega (arith, mul-le-mul_right k many))
]

max_of-unit : (n : ℕ) → max_of 0 n ≡ n
max_of-unit n = ground arith

max_of_assoc : (a b c : ℕ) → max_of (max_of a b) c ≡ max_of a (max_of b c)
max_of_assoc a b c = ground arith

-- The candles of buckets that are too many.
abbrev grouped : List Bucket → List Bucket
grouped bs = map merged (groups (length bs) (group_size bs) bs)

total-grouped :
    (get : Bucket → ℕ)
    → ((b : Bucket) (bs : List Bucket) → get (merged (b, bs)) ≡ total get (b ∷ bs))
    → (bs : List Bucket) → total get (grouped bs) ≡ total get bs
total-grouped get h bs =
    folded-groups (λ a b. a + b) (λ n. omega arith) (λ a b c. omega arith) get h (length bs)
      (group_size bs) bs (omega arith)

highest-grouped :
    (get : Bucket → ℕ)
    → ((b : Bucket) (bs : List Bucket) → get (merged (b, bs)) ≡ highest get (b ∷ bs))
    → (bs : List Bucket) → highest get (grouped bs) ≡ highest get bs
highest-grouped get h bs =
    folded-groups max_of max_of-unit max_of_assoc get h (length bs) (group_size bs) bs (omega arith)

length-map : {A B : Type 0} (f : A → B) (xs : List A) → length (map f xs) ≡ length xs
length-map f [] = refl
length-map f (x ∷ xs) = ap suc (length-map f xs)

length-grouped : (bs : List Bucket) → length (grouped bs) ≤ 150
length-grouped [] = omega arith
length-grouped (b ∷ bs) =
    let n = length (b ∷ bs) in
    let k = group_size (b ∷ bs) in
    let some_size : 1 ≤ k = omega arith in
    let size : suc (k - 1) ≡ k = omega arith in
    let gs = groups n k (b ∷ bs) in
    let bound : length gs * k ≤ n + (k - 1) =
      subst (λ v. length (groups n v (b ∷ bs)) * v ≤ n + (k - 1)) size
        (length-groups n (k - 1) (b ∷ bs)) in
    omega (arith, length-map merged gs, few (length gs) n k bound (omega arith) some_size)

-- The candles that are drawn for any buckets are no more than 150, move the same bytes in and out,
-- and reach the same highest rates.
pub coalesced-keeps :
    (raw : List Bucket) (ms : ℕ)
    → let bs = (coalesced candles raw ms).0 in
      (length bs ≤ 150)
      × (total (λ b. b.bytes_in) bs ≡ total (λ b. b.bytes_in) raw)
      × (total (λ b. b.bytes_out) bs ≡ total (λ b. b.bytes_out) raw)
      × (highest (λ b. b.ih) bs ≡ highest (λ b. b.ih) raw)
      × (highest (λ b. b.oh) bs ≡ highest (λ b. b.oh) raw)
unfolding coalesced merged
coalesced-keeps raw ms = elim (Bool-cases (leb (length raw) 150)) [
  | inl e ↦ rw e (ground (arith, e), refl, refl, refl, refl)
  | inr e ↦ rw e (
    length-grouped raw,
    total-grouped (λ b. b.bytes_in) (λ b bs. refl) raw,
    total-grouped (λ b. b.bytes_out) (λ b bs. refl) raw,
    highest-grouped (λ b. b.ih) (λ b bs. refl) raw,
    highest-grouped (λ b. b.oh) (λ b bs. refl) raw,
  )
]
