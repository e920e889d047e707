-- ===== src/Tunnels/Edits.antt =====
-- The edits of frontend/src/screens/Tunnels.tsx on the list, seen as a map from ids to tunnels.
use Prim.Native.String.{String}
use text.Mathlib.Text.{◌==◌ as str_eq}
use text.Mathlib.TextEquality.{eq_iff}
use mathlib.Core.Option
use proxyforward.Common.{
  ◌≡◌, ◌≢◌, refl, Bool, true, false, not, Option, none, some, List, [], ◌∷◌, ◌++◌, map, inl, inr,
  arith,
}
use proxyforward.Common.Tests.{Bool-cases, if◌then◌else◌}
use proxyforward.Common.Lists.{find?, filter}
use proxyforward.Tunnels.{Tunnel, has_id, saved, deleted, toggled}

-- The tunnel of an id.
abbrev pub lookup : String → List Tunnel → Option Tunnel
lookup id ts = find? (λ t. str_eq t.id id) ts

str_eq_ne : (s t : String) → s ≢ t → str_eq s t ≡ false
str_eq_ne s t h = ground (arith, eq_iff s t)

str_eq_refl : (s : String) → str_eq s s ≡ true
str_eq_refl s = (eq_iff s s).1 refl

abbrev replace : Tunnel → List Tunnel → List Tunnel
replace t ts = map (λ x. if str_eq x.id t.id then t else x) ts

lookup-replace :
    (t : Tunnel) (ts : List Tunnel) → has_id t.id ts ≡ true → lookup t.id (replace t ts) ≡ some t
lookup-replace t [] h = cc
lookup-replace t (x ∷ xs) h = elim (Bool-cases (str_eq x.id t.id)) [
  | inl e ↦ rw (e, str_eq_refl t.id) refl
  | inr e ↦ rw (e, e) (lookup-replace t xs (rw e at h))
]

lookup-replace_ne :
    (t : Tunnel) (id : String) (ts : List Tunnel)
    → str_eq t.id id ≡ false
    → lookup id (replace t ts) ≡ lookup id ts
lookup-replace_ne t id [] h = refl
lookup-replace_ne t id (x ∷ xs) h = elim (Bool-cases (str_eq x.id t.id)) [
  | inl e ↦
      let same : x.id ≡ t.id = (eq_iff _ _).0 e in rw (e, h, same, h) (lookup-replace_ne t id xs h)
  | inr e ↦ rw e (elim (Bool-cases (str_eq x.id id)) [
    | inl q ↦ rw q refl
    | inr q ↦ rw q (lookup-replace_ne t id xs h)
  ])
]

lookup-append :
    (t : Tunnel) (ts : List Tunnel) → has_id t.id ts ≡ false → lookup t.id (ts ++ t ∷ []) ≡ some t
lookup-append t [] h = rw (str_eq_refl t.id) refl
lookup-append t (x ∷ xs) h = elim (Bool-cases (str_eq x.id t.id)) [
  | inl e ↦ let clash : true ≡ false = rw e at h in cc
  | inr e ↦ rw e (lookup-append t xs (rw e at h))
]

lookup-append_ne :
    (t : Tunnel) (id : String) (ts : List Tunnel)
    → str_eq t.id id ≡ false
    → lookup id (ts ++ t ∷ []) ≡ lookup id ts
lookup-append_ne t id [] h = rw h refl
lookup-append_ne t id (x ∷ xs) h = elim (Bool-cases (str_eq x.id id)) [
  | inl q ↦ rw q refl
  | inr q ↦ rw q (lookup-append_ne t id xs h)
]

-- To save a tunnel puts it under its id, whether it is new or not, and leaves every other id as it
-- was.
pub lookup-saved :
    (t : Tunnel) (ts : List Tunnel)
    → (lookup t.id (saved t ts) ≡ some t)
      × ((id : String) → t.id ≢ id → lookup id (saved t ts) ≡ lookup id ts)
unfolding saved
lookup-saved t ts = elim (Bool-cases (has_id t.id ts)) [
  | inl e ↦ rw e (lookup-replace t ts e, λ id n. lookup-replace_ne t id ts (str_eq_ne _ _ n))
  | inr e ↦ rw e (lookup-append t ts e, λ id n. lookup-append_ne t id ts (str_eq_ne _ _ n))
]

lookup-filter :
    (id : String) (ts : List Tunnel) → lookup id (filter (λ t. not (str_eq t.id id)) ts) ≡ none
lookup-filter id [] = refl
lookup-filter id (x ∷ xs) = elim (Bool-cases (str_eq x.id id)) [
  | inl e ↦ rw e (lookup-filter id xs)
  | inr e ↦ rw (e, e) (lookup-filter id xs)
]

lookup-filter_ne :
    (id other : String) (ts : List Tunnel)
    → str_eq id other ≡ false
    → lookup other (filter (λ t. not (str_eq t.id id)) ts) ≡ lookup other ts
lookup-filter_ne id other [] h = refl
lookup-filter_ne id other (x ∷ xs) h = elim (Bool-cases (str_eq x.id id)) [
  | inl e ↦
      let same : x.id ≡ id = (eq_iff _ _).0 e in rw (e, same, h) (lookup-filter_ne id other xs h)
  | inr e ↦ rw e (elim (Bool-cases (str_eq x.id other)) [
    | inl q ↦ rw q refl
    | inr q ↦ rw q (lookup-filter_ne id other xs h)
  ])
]

-- To delete an id leaves none of its tunnels, and every other id as it was.
pub lookup-deleted :
    (id : String) (ts : List Tunnel)
    → (lookup id (deleted id ts) ≡ none)
      × ((other : String) → id ≢ other → lookup other (deleted id ts) ≡ lookup other ts)
unfolding deleted
lookup-deleted id ts =
    (lookup-filter id ts, λ other n. lookup-filter_ne id other ts (str_eq_ne _ _ n))

-- The tunnel with its flag set.
abbrev pub with_enabled : Bool → Tunnel → Tunnel
with_enabled on t = record t { enabled = on }

lookup-toggled_self :
    (id : String) (on : Bool) (ts : List Tunnel)
    → lookup id (toggled id on ts) ≡ Option.map (with_enabled on) (lookup id ts)
unfolding toggled
lookup-toggled_self id on [] = refl
lookup-toggled_self id on (x ∷ xs) = elim (Bool-cases (str_eq x.id id)) [
  | inl e ↦ rw (e, e) refl
  | inr e ↦ rw (e, e) (lookup-toggled_self id on xs)
]

lookup-toggled_ne :
    (id other : String) (on : Bool) (ts : List Tunnel)
    → str_eq id other ≡ false
    → lookup other (toggled id on ts) ≡ lookup other ts
unfolding toggled
lookup-toggled_ne id other on [] h = refl
lookup-toggled_ne id other on (x ∷ xs) h = elim (Bool-cases (str_eq x.id id)) [
  | inl e ↦
      let same : x.id ≡ id = (eq_iff _ _).0 e in
      rw (e, same, h) (lookup-toggled_ne id other on xs h)
  | inr e ↦ rw e (elim (Bool-cases (str_eq x.id other)) [
    | inl q ↦ rw q refl
    | inr q ↦ rw q (lookup-toggled_ne id other on xs h)
  ])
]

-- The switch of a tunnel sets its flag, changes nothing else of it, and leaves every other id as
-- it was; without such a tunnel it adds none.
pub lookup-toggled :
    (id : String) (on : Bool) (ts : List Tunnel)
    → (lookup id (toggled id on ts) ≡ Option.map (with_enabled on) (lookup id ts))
      × ((other : String) → id ≢ other → lookup other (toggled id on ts) ≡ lookup other ts)
lookup-toggled id on ts =
    (lookup-toggled_self id on ts, λ other n. lookup-toggled_ne id other on ts (str_eq_ne _ _ n))
