-- ===== src/Nav/Laws.antt =====
-- The rail of frontend/src/nav.ts: its shortcuts, its items for each role, and its labels.
use Prim.Native.String.{String}
use text.Mathlib.Text.{◌==◌ as str_eq}
use text.Mathlib.TextEquality.{eq_iff}
use proxyforward.Common.{
  ℕ, zero, suc, ◌+◌, ◌≡◌, ◌≢◌, refl, sym, ap, ◌∙◌, ◌⊎◌, false, some, List, [], ◌∷◌, ◌++◌, map,
  arith, inl, inr,
}
use proxyforward.Common.Tests.{Bool-cases}
use proxyforward.Common.Lists.{length, get_elem?, filter, find?, All}
use proxyforward.Common.Decimal.{
  text_eq, text_eq_refl, eq_of_text_eq, decimal, read_digits, read_digits-decimal,
}
use proxyforward.Nav.{
  overview, agents, traffic, players, analytics, tunnels, activity, settings, NavItem, NavDef, main,
  settings_def, is_visible, assign, main_nav, settings_nav, nav_for, label_of,
}

-- Two numbers with the same digits are equal.
decimal-inj : (m n : ℕ) → decimal m ≡ decimal n → m ≡ n
decimal-inj m n e = sym (read_digits-decimal m) ∙ ap (read_digits 0) e ∙ read_digits-decimal n

text_eq-decimal : (m n : ℕ) → m ≢ n → text_eq (decimal m) (decimal n) ≡ false
text_eq-decimal m n h = elim (Bool-cases (text_eq (decimal m) (decimal n))) [
  | inl same ↦ absurd (h (decimal-inj m n (eq_of_text_eq (decimal m) (decimal n) same)))
  | inr other ↦ other
]

-- The item at a place bears the number of the place, and is found by it.
shortcut-assign :
    (i k j : ℕ) (ds : List NavDef) {n : NavItem}
    → i + k ≡ j
    → get_elem? (assign i ds) k ≡ some n
    → n.shortcut ≡ decimal (suc j)
shortcut-assign i k j [] e h = cc
shortcut-assign i zero j (d ∷ ds) e h = let here : i ≡ j = omega arith in rw here at (shortcut_of h)
  where
    shortcut_of : {m n : NavItem} → some m ≡ some n → n.shortcut ≡ m.shortcut
    shortcut_of q = cc
shortcut-assign i (suc k) j (d ∷ ds) e h = shortcut-assign (suc i) k j ds (omega arith) h

find-assign :
    (i k j : ℕ) (ds : List NavDef) {n : NavItem}
    → i + k ≡ j
    → get_elem? (assign i ds) k ≡ some n
    → find? (λ m. text_eq m.shortcut (decimal (suc j))) (assign i ds) ≡ some n
find-assign i k j [] e h = cc
find-assign i zero j (d ∷ ds) e h = let here : j ≡ i = omega arith in rw (here, text_eq_refl) h
find-assign i (suc k) j (d ∷ ds) e h =
    rw (text_eq-decimal (suc i) (suc j) (omega arith)) (find-assign (suc i) k j ds (omega arith) h)

assign-append :
    (i : ℕ) (ds : List NavDef) (d : NavDef)
    → assign i ds ++ assign (i + length (assign i ds)) (d ∷ []) ≡ assign i (ds ++ d ∷ [])
assign-append i [] d = let e : i + 0 ≡ i = omega arith in rw e
assign-append i (c ∷ ds) d =
    let later : i + suc (length (assign (suc i) ds)) ≡ suc i + length (assign (suc i) ds) =
      omega arith in
    rw later (
      ap (record { id = c.id; label = c.label; shortcut = decimal (suc i) } ∷◌)
        (assign-append (suc i) ds d))

-- The keyboard's list is the visible screens, Settings the last, numbered from 1.
nav_for-eq-assign :
    (role : String) → nav_for role ≡ assign 0 (filter (is_visible role) main ++ settings_def ∷ [])
unfolding nav_for settings_nav main_nav
nav_for-eq-assign role =
    let e : 0 + length (main_nav role) ≡ length (main_nav role) = omega arith in
    rw (← assign-append 0 (filter (is_visible role) main) settings_def, e)

-- The Ctrl-digit of each place leads to the item at that place: no two shortcuts collide.
pub nav_for-shortcut :
    (role : String) (k : ℕ) {n : NavItem}
    → get_elem? (nav_for role) k ≡ some n
    → (n.shortcut ≡ decimal (suc k))
      × (find? (λ m. text_eq m.shortcut (decimal (suc k))) (nav_for role) ≡ some n)
nav_for-shortcut role k h =
    let ds = filter (is_visible role) main ++ settings_def ∷ [] in
    let at = rw nav_for-eq-assign at h in
    (
      shortcut-assign 0 k k ds (omega arith) at,
      rw nav_for-eq-assign (find-assign 0 k k ds (omega arith) at),
    )

-- The screens of a rail in order: the agents' screen is for a gateway only, all others are for
-- every role.
pub nav_for_ids :
    (role : String)
    → ((role ≡ "gateway")
        × (map (λ n. n.id) (nav_for role)
            ≡ overview ∷ agents ∷ traffic ∷ players ∷ analytics ∷ tunnels ∷ activity ∷ settings
              ∷ []))
      ⊎ ((role ≢ "gateway")
          × (map (λ n. n.id) (nav_for role)
              ≡ overview ∷ traffic ∷ players ∷ analytics ∷ tunnels ∷ activity ∷ settings ∷ []))
unfolding main_nav nav_for settings_nav
nav_for_ids role = elim (Bool-cases (str_eq "gateway" role)) [
  | inl p ↦ inl (sym ((eq_iff _ _).0 p), rw (← (eq_iff _ _).0 p))
  | inr p ↦ inr (ground (arith, eq_iff "gateway" role), rw p)
]

-- Every item bears the label that the title bar shows for its screen.
pub label_of-nav_for : (role : String) → All (λ n. label_of n.id ≡ n.label) (nav_for role)
unfolding main_nav nav_for settings_nav label_of
label_of-nav_for role = elim (Bool-cases (str_eq "gateway" role)) [
  | inl p ↦ rw p (refl, (refl, (refl, (refl, (refl, (refl, (refl, (refl, tt))))))))
  | inr p ↦ rw p (refl, (refl, (refl, (refl, (refl, (refl, (refl, tt)))))))
]
