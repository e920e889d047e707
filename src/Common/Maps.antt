-- ===== src/Common/Maps.antt =====
-- `Map` with texts for keys, as the list of its entries in the order of their insertion.
use mathlib.Core.Path.{◌≡◌, refl, sym, ap, ◌∙◌}
use mathlib.Core.Bool.{Bool, true, false}
use mathlib.Core.List.{List, [], ◌∷◌}
use mathlib.Core.Option.{Option, none, some}
use mathlib.Core.Logic.{inl, inr}
use proxyforward.Common.Tests.{if◌then◌else◌, Bool-cases, by_test}
use proxyforward.Common.Lists.{filter}
use proxyforward.Common.Decimal.{Text, text_eq, eq_of_text_eq}

-- An entry
pub record Entry {ℓ} (A : Type ℓ) : Type ℓ where
  pub key : Text
  pub value : A

abbrev pub entry {ℓ} : {A : Type ℓ} → Text → A → Entry A
entry k v = record { key = k; value = v }

abbrev pub is_some {ℓ} : {A : Type ℓ} → Option A → Bool
is_some none = false
is_some (some a) = true

-- `get`
abbrev pub get {ℓ} : {A : Type ℓ} → Text → List (Entry A) → Option A
get k [] = none
get k (e ∷ es) = if text_eq k e.key then some e.value else get k es

-- `set`: a key that is there keeps its place.
abbrev pub put {ℓ} : {A : Type ℓ} → Text → A → List (Entry A) → List (Entry A)
put k v [] = entry k v ∷ []
put k v (e ∷ es) = if text_eq k e.key then entry k v ∷ es else e ∷ put k v es

-- No key is there twice.
abbrev pub Distinct {ℓ} : {A : Type ℓ} → List (Entry A) → Type ℓ
Distinct [] = Unit
Distinct (e ∷ es) = (get e.key es ≡ none) × Distinct es

pub text_eq_sym : (s t : Text) → text_eq s t ≡ text_eq t s
text_eq_sym s t = elim (Bool-cases (text_eq s t)) [
  | inl e ↦ rw (eq_of_text_eq s t e) refl
  | inr e ↦ elim (Bool-cases (text_eq t s)) [
    | inl f ↦ rw (eq_of_text_eq t s f) refl
    | inr f ↦ rw (e, f) refl
  ]
]

pub get-put {ℓ} :
    {A : Type ℓ} (k l : Text) (v : A) (es : List (Entry A))
    → get l (put k v es) ≡ (if text_eq l k then some v else get l es)
get-put k l v [] = refl
get-put k l v (e ∷ es) = elim (Bool-cases (text_eq k e.key)) [
  | inl h ↦
      let same : text_eq l e.key ≡ text_eq l k =
        ap (λ x. text_eq l x) (sym (eq_of_text_eq k e.key h)) in
      elim (Bool-cases (text_eq l k)) [
        | inl g ↦ rw h (rw g refl)
        | inr g ↦ rw h (rw same (rw g refl))
      ]
  | inr h ↦ elim (Bool-cases (text_eq l e.key)) [
    | inl g ↦
        let apart : text_eq l k ≡ false =
          ap (λ x. text_eq x k) (eq_of_text_eq l e.key g) ∙ (text_eq_sym e.key k ∙ h) in
        rw h (rw (g, apart) refl)
    | inr g ↦ rw h (rw g (get-put k l v es))
  ]
]

pub put-Distinct {ℓ} :
    {A : Type ℓ} (k : Text) (v : A) (es : List (Entry A)) → Distinct es → Distinct (put k v es)
put-Distinct k v [] h = (refl, tt)
put-Distinct k v (e ∷ es) (h, hs) = elim (Bool-cases (text_eq k e.key)) [
  | inl g ↦ rw g (ap (λ x. get x es) (eq_of_text_eq k e.key g) ∙ h, hs)
  | inr g ↦
      let apart : text_eq e.key k ≡ false = text_eq_sym e.key k ∙ g in
      rw g (get-put k e.key v es ∙ rw apart h, put-Distinct k v es hs)
]

-- Deleting keys, `filter` on them.
pub get-filter {ℓ} :
    {A : Type ℓ} (p : Text → Bool) (k : Text) (es : List (Entry A))
    → get k (filter (λ e. p e.key) es) ≡ (if p k then get k es else none)
get-filter p k [] = by_test (λ z. none ≡ z) (p k) none none (λ e. refl) (λ e. refl)
get-filter p k (e ∷ es) = elim (Bool-cases (p e.key)) [
  | inl h ↦ elim (Bool-cases (text_eq k e.key)) [
    | inl g ↦ let same : p k ≡ true = ap p (eq_of_text_eq k e.key g) ∙ h in rw h (rw (g, same) refl)
    | inr g ↦ rw h (rw g (get-filter p k es))
  ]
  | inr h ↦ elim (Bool-cases (text_eq k e.key)) [
    | inl g ↦
        let same : p k ≡ false = ap p (eq_of_text_eq k e.key g) ∙ h in
        rw h (rw (g, same) (get-filter p k es ∙ rw same refl))
    | inr g ↦ rw h (rw g (get-filter p k es))
  ]
]
