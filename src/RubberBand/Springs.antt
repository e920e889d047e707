-- ===== src/RubberBand/Springs.antt =====
-- What the frame of frontend/src/rubberband.ts keeps of a band: how it is let go, and that a band
-- which is not held is not taken up again.
use proxyforward.Common.{Bool, true, false, ◌&&◌, ◌≡◌, refl, ◌∙◌, inl, inr}
use proxyforward.Common.Tests.{if◌then◌else◌, Bool-cases}
use proxyforward.RubberBand.Numbers.{Numbers}
use proxyforward.RubberBand.Bands.{Band, along}
use proxyforward.RubberBand.Frame.{
  let_go, swing, glide, propagate, idled, melted, leaked, leaking, sprung, elapsed, advanced,
  framed,
}

module _ (num : Numbers) where
  -- What stays of a band: its scroller, its content, its release and, when it is not held, that.
  pub record Keeps (b c : Band num) : Type 0 where
    pub scroller : c.scroller ≡ b.scroller
    pub content : c.content ≡ b.content
    pub auto_release : c.auto_release ≡ b.auto_release
    pub free : b.held ≡ false → c.held ≡ false

  Keeps-refl : (b : Band num) → Keeps b b
  Keeps-refl b = record { scroller = refl; content = refl; auto_release = refl; free = λ h. h }

  Keeps-trans : {b c d : Band num} → Keeps b c → Keeps c d → Keeps b d
  Keeps-trans g h = record {
    scroller = h.scroller ∙ g.scroller;
    content = h.content ∙ g.content;
    auto_release = h.auto_release ∙ g.auto_release;
    free = λ e. h.free (g.free e);
  }

  Keeps-test : (t : Bool) (b c d : Band num) → Keeps b c → Keeps b d → Keeps b (if t then c else d)
  Keeps-test true b c d g h = g
  Keeps-test false b c d g h = h

  let_go-Keeps : (b : Band num) → Keeps b (let_go num b)
  let_go-Keeps b = record { scroller = refl; content = refl; auto_release = refl; free = λ h. refl }

  idled-Keeps : (now : num.R) (b : Band num) → Keeps b (idled num now b)
  unfolding idled
  idled-Keeps now b =
      Keeps-test (b.held && b.auto_release && num.lt (num.lit 90 1) (num.sub now b.last_input)) b
        (let_go num b) b (let_go-Keeps b) (Keeps-refl b)

  melted-Keeps : (dt : num.R) (b : Band num) → Keeps b (melted num dt b)
  unfolding melted
  melted-Keeps dt b = record { scroller = refl; content = refl; auto_release = refl; free = λ h. h }

  Keeps-test_pair :
      (t : Bool) (b : Band num) (p q : Band num × Bool)
      → Keeps b p.0
      → Keeps b q.0
      → Keeps b (if t then p else q).0
  Keeps-test_pair true b p q g h = g
  Keeps-test_pair false b p q g h = h

  leaked-Keeps : (out : num.R) (b : Band num) → Keeps b (leaked num out b).0
  leaked-Keeps out b =
      Keeps-test_pair (num.lt b.peak_out out) b (record b { peak_out = out }, false)
        (if num.lt (num.lit 4 1) b.peak_out && num.lt out (num.mul (num.lit 9 10) b.peak_out)
          then (let_go num b, true)
          else (b, false))
        (record { scroller = refl; content = refl; auto_release = refl; free = λ h. h })
        (Keeps-test_pair
          (num.lt (num.lit 4 1) b.peak_out && num.lt out (num.mul (num.lit 9 10) b.peak_out)) b
          (let_go num b, true) (b, false) (let_go-Keeps b) (Keeps-refl b))

  leaking-Keeps : (dt : num.R) (b : Band num) → Keeps b (leaking num dt b).0
  unfolding leaking
  leaking-Keeps dt b =
      let out = along num b.edge (num.neg b.offset) in
      Keeps-test_pair (b.held && b.leak) b (leaked num out (melted num dt b)) (b, false)
        (Keeps-trans (melted-Keeps dt b) (leaked-Keeps out (melted num dt b))) (Keeps-refl b)

  propagate-Keeps : (w zeta dt : num.R) (b : Band num) → Keeps b (propagate num w zeta dt b)
  unfolding propagate swing glide
  propagate-Keeps w zeta dt b =
      Keeps-test (num.lt zeta (num.lit 1 1)) b (swing num w zeta dt b) (glide num w zeta dt b)
        (record { scroller = refl; content = refl; auto_release = refl; free = λ h. h })
        (record { scroller = refl; content = refl; auto_release = refl; free = λ h. h })

  sprung-Keeps : (dt : num.R) (b : Band num) → Keeps b (sprung num dt b)
  unfolding sprung
  sprung-Keeps dt b =
      Keeps-test b.held b (propagate num b.omega (num.lit 1 1) dt b)
        (propagate num b.rel_omega (num.lit 55 100) dt b)
        (propagate-Keeps b.omega (num.lit 1 1) dt b)
        (propagate-Keeps b.rel_omega (num.lit 55 100) dt b)

  -- A band whose input has stopped for more than 90 ms, and that lets go by itself
  abbrev pub IsIdle : num.R → Band num → Type 0
  IsIdle now b = (b.auto_release ≡ true) × (num.lt (num.lit 90 1) (num.sub now b.last_input) ≡ true)

  idled-free : (now : num.R) (b : Band num) → IsIdle now b → (idled num now b).held ≡ false
  unfolding idled
  idled-free now b (auto, idle) = elim (Bool-cases b.held) [
    | inl h ↦ rw (h, auto, idle) refl
    | inr h ↦ rw h refl
  ]

  after_idle-Keeps :
      (now : num.R) (b : Band num)
      → Keeps (idled num now (record b { last = now })) (framed num now b)
  unfolding framed advanced
  after_idle-Keeps now b =
      Keeps-trans (leaking-Keeps (elapsed num now b) (idled num now (record b { last = now })))
        (sprung-Keeps (elapsed num now b) (advanced num now b).0)

  pub framed-Keeps : (now : num.R) (b : Band num) → Keeps b (framed num now b)
  framed-Keeps now b =
      let timed : Band num = record b { last = now } in
      let start : Keeps b timed = record {
        scroller = refl;
        content = refl;
        auto_release = refl;
        free = λ h. h;
      } in
      Keeps-trans (Keeps-trans start (idled-Keeps now timed)) (after_idle-Keeps now b)

  pub framed-free : (now : num.R) (b : Band num) → IsIdle now b → (framed num now b).held ≡ false
  framed-free now b h = (after_idle-Keeps now b).free (idled-free now (record b { last = now }) h)
