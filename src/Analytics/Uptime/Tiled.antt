-- ===== src/Analytics/Uptime/Tiled.antt =====
-- The uptime band of frontend/src/screens/Analytics.tsx shows at each instant what was last known.
use proxyforward.Common.{
  ℕ, ◌+◌, ◌-◌, ◌≤◌, ◌<◌, ◌≡◌, refl, ap, ◌∙◌, Bool, true, false, ◌&&◌, Option, none, some, List, [],
  ◌∷◌, arith, inl, inr,
}
use proxyforward.Common.Tests.{ltb, leb, if◌then◌else◌, Bool-cases, ltb→lt, lt→ltb}
use proxyforward.Common.Lists.{All, All-map, All-filter, filter}
use proxyforward.Analytics.Uptime.{
  Event, Segment, max, min, place, end_of, segment, segments, starts_unknown, band,
}

-- The events come in the order of their times.
abbrev pub InOrder : List Event → Type 0
InOrder [] = Unit
InOrder (e ∷ es) = All (λ f. e.t ≤ f.t) es × InOrder es

-- What the events up to a time say: the state of the last of them
abbrev pub last_state : Option Bool → List Event → ℕ → Option Bool
last_state old [] t = old
last_state old (e ∷ es) t = last_state (if leb e.t t then some e.up else old) es t

-- The colour of a place: that of the first segment which is over it
abbrev pub is_over : ℕ → Segment → Bool
is_over x s = leb s.left x && ltb x (s.left + s.width)

abbrev pub shown_at : ℕ → List Segment → Option (Option Bool)
shown_at x [] = none
shown_at x (s ∷ ss) = if is_over x s then some s.up else shown_at x ss

last_state-later :
    (old : Option Bool) (es : List Event) (t : ℕ)
    → All (λ f. t < f.t) es
    → last_state old es t ≡ old
last_state-later old [] t h = refl
last_state-later old (e ∷ es) t (p, h) =
    let late : leb e.t t ≡ false = ground (arith, p) in rw late (last_state-later old es t h)

max-le : (a b t : ℕ) → a ≤ t → b ≤ t → max a b ≤ t
max-le a b t h g = ground arith

place-inside : (t0 now t : ℕ) → t0 ≤ t → t ≤ now → place t0 now t ≡ t - t0
place-inside t0 now t h g =
    let high : max t0 t ≡ t = ground arith in
    let low : min now t ≡ t = ground arith in rw high (rw low refl)

-- From an event on, its state is shown until the next one.
module _ (t0 now t : ℕ) (from : t0 ≤ t) (till : t < now) where
  over :
      (start end : ℕ) (up : Option Bool)
      → t0 ≤ start
      → start ≤ t
      → end ≤ now
      → start < end
      → is_over (t - t0) (record {
        left = place t0 now start;
        width = place t0 now end - place t0 now start;
        up = up;
      })
        ≡ ltb t end
  over start end up a b c d =
      rw (place-inside t0 now start a (omega arith), place-inside t0 now end (omega arith) c)
        (ground arith)

  -- What the round of an event shows, when the next one is at `end` and the rest shows `later`
  segment-shown :
      (e : Event) (end : ℕ) (rest : List Segment) (later : Option (Option Bool))
      → e.t ≤ t
      → end ≤ now
      → (end ≤ t → shown_at (t - t0) rest ≡ later)
      → shown_at (t - t0) (segment t0 now e end rest)
        ≡ (if ltb t end then some (some e.up) else later)
  segment-shown e end rest later a b h =
      let start = max e.t t0 in
      let early : start ≤ t = ground arith in
      let after_t0 : t0 ≤ start = ground arith in
      elim (Bool-cases (leb end start)) [
        | inl g ↦
            let gone : end ≤ t = ground (arith, g) in
            let past : ltb t end ≡ false = ground arith in rw (g, past) (h gone)
        | inr g ↦
            let wide : start < end = ground (arith, g) in
            let lit = over start end (some e.up) after_t0 early b wide in
            elim (Bool-cases (ltb t end)) [
              | inl k ↦ rw g (rw (lit ∙ k) (rw k refl))
              | inr k ↦ rw g (rw (lit ∙ k) (rw k (h (ground (arith, k)))))
            ]
      ]

  segments-shown :
      (e : Event) (es : List Event)
      → e.t ≤ t
      → InOrder (e ∷ es)
      → All (λ f. f.t < now) es
      → shown_at (t - t0) (segments t0 now (e ∷ es)) ≡ some (last_state (some e.up) es t)
  unfolding segments
  segments-shown e [] a o c =
      let open_end : ltb t now ≡ true = lt→ltb t now till in
      segment-shown e now [] none a (omega arith) (λ h. absurd (omega arith)) ∙ rw open_end refl
  segments-shown e (f ∷ es) a (o, os) (c, cs) =
      segment-shown e f.t (segments t0 now (f ∷ es)) (some (last_state (some f.up) es t)) a
        (omega arith) (λ h. segments-shown f es h os cs)
      ∙ elim (Bool-cases (ltb t f.t)) [
        | inl k ↦
            let first_after : t < f.t = ltb→lt t f.t k in
            rw
              (
                k,
                last_state-later (some e.up) (f ∷ es) t
                    (first_after, All-map (λ g l. omega (arith, l, first_after)) es os.0),
              )
              refl
        | inr k ↦ let taken : leb f.t t ≡ true = ground (arith, k) in rw (k, taken) refl
      ]

  -- The whole band, of events before now
  clipped-shown :
      (es : List Event)
      → InOrder es
      → All (λ f. f.t < now) es
      → shown_at (t - t0) (
          if starts_unknown t0 es
          then record { left = 0; width = place t0 now (end_of now es); up = none }
            ∷ segments t0 now es
          else segments t0 now es)
        ≡ some (last_state none es t)
  clipped-shown [] o c =
      let lit : is_over (t - t0) (record { left = 0; width = place t0 now now; up = none }) ≡ true =
        rw (place-inside t0 now now (omega arith) (omega arith)) (ground arith) in
      rw lit refl
  clipped-shown (e ∷ es) (o, os) (c, cs) = elim (Bool-cases (ltb t0 e.t)) [
    | inl g ↦
        let later : t0 ≤ e.t = ground (arith, g) in
        let lit : is_over (t - t0) (record { left = 0; width = place t0 now e.t; up = none })
            ≡ ltb t e.t =
          rw (place-inside t0 now e.t later (omega arith)) (ground arith) in
        elim (Bool-cases (ltb t e.t)) [
          | inl k ↦
              let first_after : t < e.t = ltb→lt t e.t k in
              rw
                (
                  g,
                  lit ∙ k,
                  last_state-later none (e ∷ es) t
                      (first_after, All-map (λ f l. omega (arith, l, first_after)) es o),
                )
                refl
          | inr k ↦
              let taken : leb e.t t ≡ true = ground (arith, k) in
              rw (g, lit ∙ k, taken) (segments-shown e es (ground (arith, k)) (o, os) cs)
        ]
    | inr g ↦
        let taken : leb e.t t ≡ true = ground (arith, g) in
        rw (g, taken) (segments-shown e es (ground (arith, g)) (o, os) cs)
  ]

before : (now : ℕ) (es : List Event) → All (λ f. f.t < now) (filter (λ e. ltb e.t now) es)
before now [] = tt
before now (e ∷ es) = elim (Bool-cases (ltb e.t now)) [
  | inl h ↦ rw h (ltb→lt e.t now h, before now es)
  | inr h ↦ rw h (before now es)
]

filter-InOrder : (now : ℕ) (es : List Event) → InOrder es → InOrder (filter (λ e. ltb e.t now) es)
filter-InOrder now [] o = tt
filter-InOrder now (e ∷ es) (o, os) = elim (Bool-cases (ltb e.t now)) [
  | inl h ↦ rw h (
    All-filter {P = λ f. e.t ≤ f.t} {Q = λ f. e.t ≤ f.t} (λ f. ltb f.t now) (λ f l k. l) es o,
    filter-InOrder now es os,
  )
  | inr h ↦ rw h (filter-InOrder now es os)
]

last_state-filter :
    (now t : ℕ) (old : Option Bool) (es : List Event)
    → t < now
    → last_state old (filter (λ e. ltb e.t now) es) t ≡ last_state old es t
last_state-filter now t old [] h = refl
last_state-filter now t old (e ∷ es) h = elim (Bool-cases (ltb e.t now)) [
  | inl k ↦ rw k (last_state-filter now t (if leb e.t t then some e.up else old) es h)
  | inr k ↦
      let late : leb e.t t ≡ false = ground (arith, k) in
      rw (k, late) (last_state-filter now t old es h)
]

-- For events in the order of their times: at every instant from t0 on and before now, the band shows
-- the state of the last event up to it, and that it is unknown where there is none.
pub band-shown :
    (t0 now t : ℕ) (events : List Event)
    → InOrder events
    → t0 ≤ t
    → t < now
    → shown_at (t - t0) (band t0 now events) ≡ some (last_state none events t)
unfolding band
band-shown t0 now t events o from till =
    clipped-shown t0 now t from till (filter (λ e. ltb e.t now) events)
      (filter-InOrder now events o) (before now events)
    ∙ ap some (last_state-filter now t none events till)
