-- ===== src/RubberBand/Chaining.antt =====
-- Native scroll chaining in `ownerFor` of frontend/src/rubberband.ts.
use mathlib.Core.Path.{subst}
use proxyforward.Common.{
  ℕ, ◌≡◌, refl, sym, ap, ◌⊎◌, true, false, Option, none, some, List, [], ◌∷◌, ◌++◌, inl, inr,
}
use proxyforward.Common.Tests.{Bool-cases, some-inj}
use proxyforward.Common.Lists.{All}
use proxyforward.RubberBand.{
  Element, Direction, has_room, is_scroller, Verdict, native, absorbed, passed, walk, decide,
  owner_for,
}

module _ (px : ℕ) where
  -- An element that the input goes past: no page, no fixed overlay, and no scroller that has room
  -- or contains its overscroll.
  pub data Passes (dir : Direction) (e : Element) : Type 0 where
    other : e.page ≡ false → e.html ≡ false → Passes dir e
    still :
        e.page ≡ false → e.html ≡ true → is_scroller px e ≡ false → e.fixed ≡ false → Passes dir e
    chains :
        e.page ≡ false
        → e.html ≡ true
        → is_scroller px e ≡ true
        → has_room px e dir ≡ false
        → e.contains ≡ false
        → e.fixed ≡ false
        → Passes dir e

  -- An inner element absorbs the push: it is a scroller that contains its overscroll.
  pub record Absorbs (dir : Direction) (es : List Element) (owner : Element) : Type 0 where
    pub inner : List Element
    pub outer : List Element
    pub chain : es ≡ inner ++ owner ∷ outer
    pub passes : All (Passes dir) inner
    pub scrolls : is_scroller px owner ≡ true
    pub contains : owner.contains ≡ true

  walk-pass :
      (dir : Direction) (e : Element) (es : List Element)
      → Passes dir e
      → walk px dir (e ∷ es) ≡ walk px dir es
  unfolding walk
  walk-pass dir e es (other p h) = rw (p, h) refl
  walk-pass dir e es (still p h s f) = rw (p, h, s, f) refl
  walk-pass dir e es (chains p h s r c f) = rw (p, h, s, r, c, f) refl

  walk-passes :
      (dir : Direction) (inner es : List Element)
      → All (Passes dir) inner
      → walk px dir (inner ++ es) ≡ walk px dir es
  walk-passes dir [] es h = refl
  walk-passes dir (e ∷ inner) es (p, h) =
      rw (walk-pass dir e (inner ++ es) p) (walk-passes dir inner es h)

  -- Where the input gets to a scroller that has room, the browser scrolls it and no band takes
  -- over, whatever lies outside.
  pub owner_for-has_room :
      (pg : Option Element) (dir : Direction) (inner outer : List Element) (e : Element)
      → All (Passes dir) inner
      → e.page ≡ false
      → e.html ≡ true
      → is_scroller px e ≡ true
      → has_room px e dir ≡ true
      → owner_for px pg dir (inner ++ e ∷ outer) ≡ none
  unfolding owner_for walk decide
  owner_for-has_room pg dir inner outer e passes p h s r =
      rw (owner_for, walk-passes dir inner (e ∷ outer) passes) (rw (p, h, s, r) refl)

  -- The walk gets to the page's scroller, or out of the document.
  abbrev pub AtPage : List Element → Type 0
  AtPage [] = Unit
  AtPage (e ∷ es) = e.page ≡ true

  pub record Ends (dir : Direction) (es : List Element) : Type 0 where
    pub inner : List Element
    pub outer : List Element
    pub chain : es ≡ inner ++ outer
    pub passes : All (Passes dir) inner
    pub end : AtPage outer

  -- What the walk has found out.
  abbrev Found : Direction → List Element → Verdict → Type 0
  Found dir es native = Unit
  Found dir es passed = Ends dir es
  Found dir es (absorbed e) = Absorbs dir es e × (has_room px e dir ≡ false)

  extend :
      (dir : Direction) (e : Element) (es : List Element) (v : Verdict)
      → Passes dir e
      → Found dir es v
      → Found dir (e ∷ es) v
  extend dir e es native p f = tt
  extend dir e es passed p f = record {
    inner = e ∷ f.inner;
    outer = f.outer;
    chain = ap (e ∷◌) f.chain;
    passes = (p, f.passes);
    end = f.end;
  }
  extend dir e es (absorbed o) p (f, r) = (
    record {
      inner = e ∷ f.inner;
      outer = f.outer;
      chain = ap (e ∷◌) f.chain;
      passes = (p, f.passes);
      scrolls = f.scrolls;
      contains = f.contains;
    },
    r,
  )

  by_verdict :
      (dir : Direction) (es : List Element) {v : Verdict}
      → walk px dir es ≡ v
      → Found dir es v
      → Found dir es (walk px dir es)
  by_verdict dir es e f = subst (λ v. Found dir es v) (sym e) f

  here_absorbed :
      (dir : Direction) (e : Element) (es : List Element)
      → is_scroller px e ≡ true
      → e.contains ≡ true
      → Absorbs dir (e ∷ es) e
  here_absorbed dir e es s c = record {
    inner = [];
    outer = es;
    chain = refl;
    passes = tt;
    scrolls = s;
    contains = c;
  }

  passing :
      (dir : Direction) (e : Element) (es : List Element)
      → Passes dir e
      → Found dir es (walk px dir es)
      → Found dir (e ∷ es) (walk px dir (e ∷ es))
  passing dir e es p rest =
      by_verdict dir (e ∷ es) (walk-pass dir e es p) (extend dir e es (walk px dir es) p rest)

  scroller :
      (dir : Direction) (e : Element) (es : List Element)
      → e.page ≡ false
      → e.html ≡ true
      → is_scroller px e ≡ true
      → Found dir es (walk px dir es)
      → Found dir (e ∷ es) (walk px dir (e ∷ es))
  scroller dir e es p h s rest = elim (Bool-cases (has_room px e dir)) [
    | inl r ↦ by_verdict dir (e ∷ es) {v = native} (unfold walk in simp (p, h, s, r)) tt
    | inr r ↦ elim (Bool-cases e.contains) [
      | inl c ↦
          by_verdict dir (e ∷ es) {v = absorbed e} (unfold walk in simp (p, h, s, r, c))
            (here_absorbed dir e es s c, r)
      | inr c ↦ elim (Bool-cases e.fixed) [
        | inl f ↦ by_verdict dir (e ∷ es) {v = native} (unfold walk in simp (p, h, s, r, c, f)) tt
        | inr f ↦ passing dir e es (chains p h s r c f) rest
      ]
    ]
  ]

  walk-Found : (dir : Direction) (es : List Element) → Found dir es (walk px dir es)
  unfolding walk
  walk-Found dir [] = record { inner = []; outer = []; chain = refl; passes = tt; end = tt }
  walk-Found dir (e ∷ es) =
      let rest = walk-Found dir es in
      elim (Bool-cases e.page) [
        | inl p ↦
            by_verdict dir (e ∷ es) {v = passed} (simp p)
              (record { inner = []; outer = e ∷ es; chain = refl; passes = tt; end = p })
        | inr p ↦ elim (Bool-cases e.html) [
          | inr h ↦ passing dir e es (other p h) rest
          | inl h ↦ elim (Bool-cases (is_scroller px e)) [
            | inr s ↦ elim (Bool-cases e.fixed) [
              | inl f ↦ by_verdict dir (e ∷ es) {v = native} (simp (p, h, s, f)) tt
              | inr f ↦ passing dir e es (still p h s f) rest
            ]
            | inl s ↦ scroller dir e es p h s rest
          ]
        ]
      ]

  -- The band's owner is the innermost scroller that contains its overscroll, or the page's.
  abbrev pub Owns : Option Element → Direction → List Element → Element → Type 0
  Owns pg dir es o = Absorbs dir es o ⊎ ((pg ≡ some o) × Ends dir es)

  owner_of :
      (pg : Option Element) (dir : Direction) (es : List Element) (v : Verdict) {o : Element}
      → Found dir es v
      → decide px pg dir v ≡ some o
      → (has_room px o dir ≡ false) × Owns pg dir es o
  unfolding decide
  owner_of pg dir es native f e = cc
  owner_of pg dir es (absorbed a) {o} (f, r) e =
      let same : a ≡ o = some-inj e in (rw (← same) r, rw (← same) (inl f))
  owner_of none dir es passed f e = cc
  owner_of (some p) dir es passed {o} f e = elim (Bool-cases (has_room px p dir)) [
    | inl r ↦ let clash : none ≡ some o = rw r at e in cc
    | inr r ↦
        let same : p ≡ o = some-inj (rw r at e) in (rw (← same) r, rw (← same) (inr (refl, f)))
  ]

  -- A band takes over only where nothing can scroll: its owner has no room in the direction of the
  -- push, nor has any scroller on the way out to it, and no fixed overlay lies on that way. It is
  -- the first scroller that contains its overscroll, or the page's where there is none.
  pub owner_for-Owns :
      (pg : Option Element) (dir : Direction) (es : List Element) {o : Element}
      → owner_for px pg dir es ≡ some o
      → (has_room px o dir ≡ false) × Owns pg dir es o
  unfolding owner_for
  owner_for-Owns pg dir es e = owner_of pg dir es (walk px dir es) (walk-Found dir es) e
