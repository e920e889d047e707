-- ===== src/Examples/BandExamples.antt =====
-- Examples for the bands of the rubber band.
use proxyforward.Common.{
  ℕ, suc, ◌+◌, ◌*◌, ◌/◌, ◌%◌, ◌≡◌, refl, Bool, true, false, not, some, [], ◌∷◌, inl,
}
use proxyforward.Common.Tests.{◌==◌, if◌then◌else◌, ltb}
use proxyforward.Common.Int.{ℤ, pos, negsuc, neg, sub_ℕ}
use proxyforward.RubberBand.{Element, down, owner_for, walk, decide, has_room}
use proxyforward.RubberBand.Numbers.{Numbers}
use proxyforward.RubberBand.Bands.{
  Band, Motion, band_for, make_band, modify, claim, claimed, pump, pull, pushed, delete,
}
use proxyforward.RubberBand.Frame.{tick, tick_all, tick_band}
use proxyforward.RubberBand.Input.{
  Document, WheelEvent, pixels, owner, on_wheel, is_tail, wheel_push, on_touch_move, touch_push,
}
use proxyforward.RubberBand.Steps.{Step, Reach, Orderly, loaded}
use proxyforward.RubberBand.Due.{IsDue, Reach-IsDue}
use proxyforward.RubberBand.Holds.{AreHeld}
use proxyforward.RubberBand.Release.{Reach-AreHeld}
use proxyforward.RubberBand.Idle.{tick-releases}
use proxyforward.RubberBand.Lost.{pulling, Pushes, Moves, tick-move-lost}

-- Numbers in thousandths, with the first terms of the series.
abbrev plus : ℤ → ℤ → ℤ
plus (pos a) (pos b) = pos (a + b)
plus (pos a) (negsuc b) = sub_ℕ a (suc b)
plus (negsuc a) (pos b) = sub_ℕ b (suc a)
plus (negsuc a) (negsuc b) = negsuc (suc (a + b))

abbrev minus : ℤ → ℤ
minus (pos a) = neg a
minus (negsuc a) = pos (suc a)

abbrev size : ℤ → ℕ
size (pos a) = a
size (negsuc a) = suc a

abbrev scaled : ℤ → ℕ → ℤ
scaled (pos a) n = pos n
scaled (negsuc a) n = neg n

abbrev times : ℤ → ℤ → ℤ
times (pos a) b = scaled b (a * size b / 1000)
times (negsuc a) b = scaled (minus b) (suc a * size b / 1000)

abbrev over : ℤ → ℤ → ℤ
over (pos a) b = scaled b (1000 * a / size b)
over (negsuc a) b = scaled (minus b) (1000 * suc a / size b)

abbrev below : ℤ → ℤ → Bool
below (pos a) (pos b) = ltb a b
below (pos a) (negsuc b) = false
below (negsuc a) (pos b) = true
below (negsuc a) (negsuc b) = ltb b a

abbrev thousandths : Numbers
thousandths = record {
  R = ℤ;
  lit = λ n d. pos (1000 * n / d);
  add = plus;
  sub = λ a b. plus a (minus b);
  mul = times;
  div = over;
  neg = minus;
  abs = λ a. pos (size a);
  exp = λ a. plus (pos 1000) a;
  sin = λ a. a;
  cos = λ a. pos 1000;
  sqrt = λ a. a;
  min = λ a b. if below a b then a else b;
  max = λ a b. if below a b then b else a;
  lt = below;
  le = λ a b. not (below b a);
  is_integer = λ a. size a % 1000 == 0;
  or_zero = λ a. a;
  is_falsy = λ a. size a == 0;
}

-- A page of 2000 px, of which 1000 px show, scrolled to its end.
abbrev page_end : Element
page_end = record {
  id = 7;
  html = true;
  page = true;
  scrolls = true;
  contains = false;
  fixed = false;
  scroll_height = 2000;
  client_height = 1000;
  scroll_top = 1000;
}

abbrev document : Document thousandths
document = record {
  px = 1;
  page = some page_end;
  page_height = some (pos 1_000_000);
  scroller_of = λ e. record { id = e.id; content = some 8; height = pos 1_000_000 };
}

abbrev notch : WheelEvent thousandths
notch = record {
  ctrl = false;
  mode = pixels;
  delta_x = pos 0;
  delta_y = pos 120_000;
  path = page_end ∷ [];
}

abbrev no_band : ℕ → Band thousandths
no_band o = record {
  scroller = 0;
  content = 0;
  offset = pos 0;
  vel = pos 0;
  target = pos 0;
  raw = pos 0;
  edge = down;
  max = pos 32_000;
  held = false;
  omega = pos 0;
  rel_omega = pos 0;
  leak = false;
  peak_out = pos 0;
  in_rate = pos 0;
  peak_rate = pos 0;
  auto_release = false;
  last_input = pos 0;
  last = pos 0;
}

-- One notch of the wheel, past the end of the page, a second after the start.
abbrev notched : Motion thousandths
notched = (on_wheel thousandths document notch (pos 1_000_000) (loaded thousandths no_band)).1

notched_run : Reach thousandths (loaded thousandths no_band) notched
notched_run = Reach.next Reach.here (Step.wheel document notch (pos 1_000_000))

notched_bands : notched.bands ≡ 0 ∷ []
unfolding on_wheel is_tail wheel_push owner owner_for walk decide has_room band_for make_band pull
    pump modify claim claimed
notched_bands = refl

Reach-IsDue_example : IsDue thousandths notched
Reach-IsDue_example = Reach-IsDue thousandths notched_run

notched_orderly : Orderly thousandths (loaded thousandths no_band) notched
notched_orderly = Orderly.then Orderly.start (Step.wheel document notch (pos 1_000_000)) tt

Reach-AreHeld_example : AreHeld thousandths notched
Reach-AreHeld_example = Reach-AreHeld thousandths notched_orderly

tick-releases_example : ((tick thousandths (pos 1_100_000) (λ c. true) notched).heap 0).held ≡ false
unfolding on_wheel is_tail wheel_push owner owner_for walk decide has_room band_for make_band pull
    pump modify claim claimed pushed
tick-releases_example =
    tick-releases thousandths (pos 1_100_000) (λ c. true) 0 notched_orderly (inl refl) (λ e. cc)
      refl refl

-- A finger that pulls up the end of the page.
abbrev touched : Motion thousandths
touched = record (loaded thousandths no_band) {
  heap = λ o. record (no_band o) { content = 8; raw = pos 30_000 };
  touch_y = pos 500_000;
}

-- The frame that finds the content gone, and a first move after it
abbrev framed : Motion thousandths
framed = tick thousandths (pos 1_016_000) (λ c. false) (pulling thousandths 0 3 touched)

abbrev dragged : Motion thousandths
dragged =
    (on_touch_move thousandths document (page_end ∷ []) (pos 1_032_000) ((3, pos 490_000) ∷ [])
      framed).1

framed-Pushes : Pushes thousandths 0 (pos 490_000) framed
unfolding tick tick_all tick_band delete
framed-Pushes = (refl, refl)

dragged_run : Moves thousandths 0 3 framed dragged
dragged_run =
    Moves.moved document (page_end ∷ []) (pos 1_032_000) (pos 490_000) Moves.begun framed-Pushes

tick-move-lost_example :
    let r =
      on_touch_move thousandths document
        (page_end ∷ [])
        (pos 1_048_000)
        ((3, pos 480_000) ∷ [])
        dragged in
    (r.0 ≡ true) × (r.1.bands ≡ []) × (r.1.raf ≡ false)
unfolding tick tick_all tick_band delete on_touch_move touch_push pull pump modify pushed
tick-move-lost_example =
    tick-move-lost thousandths document (page_end ∷ []) (pos 1_016_000) (pos 1_048_000)
      (pos 480_000) (λ c. false) 0 3 touched refl dragged_run (refl, refl)
