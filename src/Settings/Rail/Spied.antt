-- ===== src/Settings/Rail/Spied.antt =====
-- The section that the rail of frontend/src/screens/Settings.tsx marks.
use proxyforward.Common.{
  ℕ, ◌+◌, ◌-◌, ◌*◌, ◌≤◌, ◌<◌, ◌≡◌, ◌⊎◌, refl, sym, ap, ◌∙◌, true, false, Option, List, [], ◌∷◌,
  arith, inl, inr,
}
use proxyforward.Common.Tests.{ltb, leb, Bool-cases, by_test, leb→le, ltb→lt}
use proxyforward.Common.Lists.{All}
use proxyforward.Common.Decimal.{Text}
use native.Mathlib.Nat.{mul-le-mul_right, add-mul}
use proxyforward.Settings.Rail.{
  SectionDef, Scroller, base, max_scroll, floor, min, is_passed, passed_at, spied_from, first_id,
  spied, Rail, on_scroll, jump, settle,
}

leb-mul : (m x y : ℕ) → 0 < m → leb (x * m) (y * m) ≡ leb x y
leb-mul m x y h = elim (Bool-cases (leb x y)) [
  | inl e ↦ let below : x * m ≤ y * m = mul-le-mul_right m (leb→le x y e) in rw e (ground arith)
  | inr e ↦
      let above : y < x = ground (arith, e) in
      let scaled : y * m < x * m = grind (arith, h, above) in rw e (ground arith)
]

no_way : (b d m t : ℕ) → t ≡ 0 → b + d * min m t ≡ b
no_way b d m t e = let least : min m t ≡ 0 = ground (arith, e) in rw least (grind arith)

whole_way : (b f m : ℕ) → b ≤ f → b * m + (f - b) * m ≡ f * m
whole_way b f m h =
    let sum : b + (f - b) ≡ f = omega arith in sym (add-mul b (f - b) m) ∙ ap (◌* m) sum

-- Unscrolled, the line is the base; at the end of the way it is the floor, where that is lower.
is_passed-start : (v : Scroller) (top : ℕ) → v.scroll_top ≡ 0 → is_passed v top ≡ leb top (base v)
unfolding is_passed
is_passed-start v top e =
    by_test (λ b. b ≡ leb top (base v)) (ltb 0 (max_scroll v))
      (leb (top * max_scroll v)
        (base v * max_scroll v + (floor v - base v) * min (max_scroll v) v.scroll_top))
      (leb top (base v))
      (λ h.
        let none_yet : base v * max_scroll v + (floor v - base v) * min (max_scroll v) v.scroll_top
            ≡ base v * max_scroll v =
          no_way (base v * max_scroll v) (floor v - base v) (max_scroll v) v.scroll_top e in
        rw none_yet (leb-mul (max_scroll v) top (base v) (ltb→lt 0 (max_scroll v) h)))
      (λ h. refl)

is_passed-end :
    (v : Scroller) (top : ℕ)
    → 0 < max_scroll v
    → max_scroll v ≤ v.scroll_top
    → base v ≤ floor v
    → is_passed v top ≡ leb top (floor v)
unfolding is_passed
is_passed-end v top h g k =
    let scrolls : ltb 0 (max_scroll v) ≡ true = ground arith in
    let least : min (max_scroll v) v.scroll_top ≡ max_scroll v = ground (arith, g) in
    let whole : base v * max_scroll v + (floor v - base v) * max_scroll v ≡ floor v * max_scroll v =
      whole_way (base v) (floor v) (max_scroll v) k in
    rw scrolls (rw least (rw whole (leb-mul (max_scroll v) top (floor v) h)))

-- A section is passed and no later one is.
abbrev pub IsLastPassed : Scroller → (Text → Option ℕ) → Text → List SectionDef → Type 0
IsLastPassed v top_of id [] = true ≡ false
IsLastPassed v top_of id (s ∷ ss) =
    ((id ≡ s.id)
      × (passed_at v (top_of s.id) ≡ true)
      × All (λ later. passed_at v (top_of later.id) ≡ false) ss)
    ⊎ IsLastPassed v top_of id ss

module _ (v : Scroller) (top_of : Text → Option ℕ) where
  abbrev pub NonePassed : List SectionDef → Type 0
  NonePassed ss = All (λ s. passed_at v (top_of s.id) ≡ false) ss

  -- What the loop returns that starts with `current`
  abbrev pub Spies : List SectionDef → Text → Text → Type 0
  Spies ss current id = IsLastPassed v top_of id ss ⊎ ((id ≡ current) × NonePassed ss)

  pass :
      (s : SectionDef) (ss : List SectionDef) (current id : Text)
      → passed_at v (top_of s.id) ≡ true
      → Spies ss s.id id
      → Spies (s ∷ ss) current id
  pass s ss current id e (inl h) = inl (inr h)
  pass s ss current id e (inr (h, g)) = inl (inl (h, e, g))

  leave :
      (s : SectionDef) (ss : List SectionDef) (current id : Text)
      → passed_at v (top_of s.id) ≡ false
      → Spies ss current id
      → Spies (s ∷ ss) current id
  leave s ss current id e (inl h) = inl (inr h)
  leave s ss current id e (inr (h, g)) = inr (h, (e, g))

  spied_from-Spies :
      (current : Text) (ss : List SectionDef) → Spies ss current (spied_from v top_of current ss)
  unfolding spied_from
  spied_from-Spies current [] = inr (refl, tt)
  spied_from-Spies current (s ∷ ss) =
      by_test (λ c. Spies (s ∷ ss) current (spied_from v top_of c ss)) (passed_at v (top_of s.id))
        s.id current
        (λ e. pass s ss current (spied_from v top_of s.id ss) e (spied_from-Spies s.id ss))
        (λ e. leave s ss current (spied_from v top_of current ss) e (spied_from-Spies current ss))

  -- At the end of the way, where the floor of the view is not above the base: a section is passed
  -- exactly when it does not start below the floor, and the rail marks the last one that is passed,
  -- or the first of all if none is.
  pub spied-IsLastPassed :
      (ss : List SectionDef)
      → 0 < max_scroll v
      → max_scroll v ≤ v.scroll_top
      → base v ≤ floor v
      → Spies ss (first_id ss) (spied v top_of ss)
        × ((top : ℕ) → is_passed v top ≡ leb top (floor v))
  unfolding spied
  spied-IsLastPassed ss h g k =
      (spied_from-Spies (first_id ss) ss, λ top. is_passed-end v top h g k)

-- The scrolls of a jump
abbrev pub scrolls : List Text → Rail → Rail
scrolls [] r = r
scrolls (current ∷ cs) r = scrolls cs (on_scroll current r)

-- A rail that a jump has just pinned
abbrev held : Text → Rail
held id = record { active = id; pinned = true; timer = true }

scrolls-held : (cs : List Text) (id : Text) → scrolls cs (held id) ≡ held id
unfolding on_scroll
scrolls-held [] id = refl
scrolls-held (c ∷ cs) id = scrolls-held cs id

-- After a jump no scroll moves the mark, until the timer, which runs all the time, lets the next
-- one move it.
pub scrolls-jump :
    (cs : List Text) (id current : Text) (r : Rail)
    → ((scrolls cs (jump id r)).active ≡ id)
      × ((scrolls cs (jump id r)).timer ≡ true)
      × ((on_scroll current (settle (scrolls cs (jump id r)))).active ≡ current)
unfolding jump on_scroll settle
scrolls-jump cs id current r = simp (scrolls-held cs id) (refl, refl, refl)
