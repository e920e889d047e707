-- ===== src/Common/Sort/Kept.antt =====
-- `Array.prototype.sort` and the elements that pass a test, where there is one of them at most.
use proxyforward.Common.{
  ◌≡◌, refl, ap, ◌∙◌, Bool, true, false, Option, none, some, List, [], ◌∷◌, inl, inr,
}
use proxyforward.Common.Tests.{Bool-cases}
use proxyforward.Common.Lists.{filter}
use proxyforward.Common.Sort.{insert, sort_into, sort_by}

abbrev pub to_list {ℓ} : {A : Type ℓ} → Option A → List A
to_list none = []
to_list (some a) = a ∷ []

module _ {ℓ} {A : Type ℓ} (precedes : A → A → Bool) (p : A → Bool) where
  filter-insert_out :
      (x : A) (ys : List A) → p x ≡ false → filter p (insert precedes x ys) ≡ filter p ys
  unfolding insert
  filter-insert_out x [] h = rw h refl
  filter-insert_out x (y ∷ ys) h = elim (Bool-cases (precedes x y)) [
    | inl e ↦ rw e (rw h refl)
    | inr e ↦ elim (Bool-cases (p y)) [
      | inl g ↦ rw e (rw g (ap (y ∷◌) (filter-insert_out x ys h)))
      | inr g ↦ rw e (rw g (filter-insert_out x ys h))
    ]
  ]

  filter-insert_in :
      (x : A) (ys : List A)
      → p x ≡ true
      → filter p ys ≡ []
      → filter p (insert precedes x ys) ≡ x ∷ []
  unfolding insert
  filter-insert_in x [] h g = rw h refl
  filter-insert_in x (y ∷ ys) h g = elim (Bool-cases (p y)) [
    | inl k ↦ let clash : y ∷ filter p ys ≡ [] = rw k at g in cc
    | inr k ↦
        let rest : filter p ys ≡ [] = rw k at g in
        elim (Bool-cases (precedes x y)) [
          | inl e ↦ rw e (rw (h, k, rest) refl)
          | inr e ↦ rw e (rw k (filter-insert_in x ys h rest))
        ]
  ]

  filter-sort_into_out :
      (ys xs : List A) → filter p xs ≡ [] → filter p (sort_into precedes ys xs) ≡ filter p ys
  unfolding sort_into
  filter-sort_into_out ys [] h = refl
  filter-sort_into_out ys (x ∷ xs) h = elim (Bool-cases (p x)) [
    | inl k ↦ let clash : x ∷ filter p xs ≡ [] = rw k at h in cc
    | inr k ↦ filter-sort_into_out (insert precedes x ys) xs (rw k at h) ∙ filter-insert_out x ys k
  ]

  filter-sort_into :
      (r : A) (ys xs : List A)
      → filter p ys ≡ []
      → filter p xs ≡ r ∷ []
      → filter p (sort_into precedes ys xs) ≡ r ∷ []
  unfolding sort_into
  filter-sort_into r ys [] h g = let clash : [] ≡ r ∷ [] = g in cc
  filter-sort_into r ys (x ∷ xs) h g = elim (Bool-cases (p x)) [
    | inl k ↦
        let whole : x ∷ filter p xs ≡ r ∷ [] = rw k at g in
        let rest : filter p xs ≡ [] = cc in
        filter-sort_into_out (insert precedes x ys) xs rest
        ∙ (filter-insert_in x ys k h ∙ rw rest at whole)
    | inr k ↦
        filter-sort_into r (insert precedes x ys) xs (filter-insert_out x ys k ∙ h) (rw k at g)
  ]

  -- Where one element at most passes, sorting keeps it.
  pub filter-sort_by :
      (xs : List A) (o : Option A)
      → filter p xs ≡ to_list o
      → filter p (sort_by precedes xs) ≡ to_list o
  unfolding sort_by
  filter-sort_by xs none h = filter-sort_into_out [] xs h
  filter-sort_by xs (some r) h = filter-sort_into r [] xs refl h
