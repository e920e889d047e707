-- ===== src/RubberBand/Bands.antt =====
-- The life of the bands of frontend/src/rubberband.ts: `bandFor`, `claim`, `pull`, `rest`, `pump` and
-- `resetBands`. A band is an object that the map and the latches `wheelBand` and `touchBand` share,
-- and that outlives its place in the map: the heap has the objects by number, the map is the list of
-- those in it, in order. A scroller or a content is a number. The styles that are painted are left out.
use proxyforward.Common.{ℕ, suc, Bool, true, false, not, Option, none, some, List, [], ◌∷◌, ◌++◌}
use proxyforward.Common.Tests.{◌==◌, if◌then◌else◌}
use proxyforward.Common.Lists.{filter, find?}
use proxyforward.RubberBand.{Direction, down, up}
use proxyforward.RubberBand.Numbers.{Numbers}

module _ (num : Numbers) where
  -- `Band`, less its glow
  pub record Band : Type 0 where
    pub scroller : ℕ
    pub content : ℕ
    pub offset : num.R
    pub vel : num.R
    pub target : num.R
    pub raw : num.R
    pub edge : Direction
    pub max : num.R
    pub held : Bool
    pub omega : num.R
    pub rel_omega : num.R
    pub leak : Bool
    pub peak_out : num.R
    pub in_rate : num.R
    pub peak_rate : num.R
    pub auto_release : Bool
    pub last_input : num.R
    pub last : num.R

  -- The module's variables. No `inertiaEdge` is its 0, no `touchId` is its -1.
  pub record Motion : Type 0 where
    pub heap : ℕ → Band
    pub made : ℕ
    pub bands : List ℕ
    pub raf : Bool
    pub wheel_band : Option ℕ
    pub touch_band : Option ℕ
    pub touch_id : Option ℕ
    pub touch_y : num.R
    pub wheel_at : num.R
    pub dense_src : Bool
    pub guard_until : num.R
    pub inertia_edge : Option Direction
    pub inertia_rate : num.R

  abbrev pub nought : num.R
  nought = num.lit 0 1

  -- A product with `edge` or `dir`
  abbrev pub along : Direction → num.R → num.R
  along down x = x
  along up x = num.neg x

  -- `falloff`
  unfoldable pub falloff : num.R → num.R → num.R
  falloff raw max =
      let c = num.lit 55 100 in
      let r = num.abs raw in num.div (num.mul (num.mul r max) c) (num.add max (num.mul c r))

  -- `unfalloff`
  unfoldable pub unfalloff : num.R → num.R → num.R
  unfalloff pull max =
      let p = num.min pull (num.mul max (num.lit 98 100)) in
      num.div (num.mul p max) (num.mul (num.lit 55 100) (num.sub max p))

  abbrev pub put : ℕ → Band → (ℕ → Band) → ℕ → Band
  put o b heap i = if i == o then b else heap i

  -- A change of the fields of one band.
  unfoldable pub modify : ℕ → (Band → Band) → Motion → Motion
  modify o f m = record m { heap = put o (f (m.heap o)) m.heap }

  -- `bands.get(scroller)`
  abbrev pub get_band : ℕ → Motion → Option ℕ
  get_band s m = find? (λ o. (m.heap o).scroller == s) m.bands

  -- The clamp of a scroller's height
  abbrev pub max_pull : num.R → num.R
  max_pull height =
      num.max (num.lit 32 1) (num.min (num.mul (num.lit 35 100) height) (num.lit 160 1))

  unfoldable pub new_band : ℕ → ℕ → num.R → num.R → Band
  new_band s content height now = record {
    scroller = s;
    content = content;
    offset = nought;
    vel = nought;
    target = nought;
    raw = nought;
    edge = down;
    max = max_pull height;
    held = true;
    omega = num.lit 34 1;
    rel_omega = num.lit 14 1;
    leak = false;
    peak_out = nought;
    in_rate = nought;
    peak_rate = nought;
    auto_release = true;
    last_input = now;
    last = now;
  }

  -- A scroller as the document has it: its content, if any, and its `clientHeight`.
  pub record Scroller : Type 0 where
    pub id : ℕ
    pub content : Option ℕ
    pub height : num.R

  -- `bandFor`, when the map has no band for the scroller
  unfoldable pub make_band : Scroller → Option ℕ → num.R → Motion → Option ℕ × Motion
  unfolding new_band
  make_band s none now m = (none, m)
  make_band s (some c) now m = (
    some m.made,
    record m {
      heap = put m.made (new_band s.id c s.height now) m.heap;
      made = suc m.made;
      bands = m.bands ++ m.made ∷ [];
    },
  )

  abbrev pub or_make : Option ℕ → Scroller → num.R → Motion → Option ℕ × Motion
  or_make (some o) s now m = (some o, m)
  or_make none s now m = make_band s s.content now m

  -- `bandFor`
  unfoldable pub band_for : Scroller → num.R → Motion → Option ℕ × Motion
  band_for s now m = or_make (get_band s.id m) s now m

  -- The fields that `claim` sets
  unfoldable pub claimed : Direction → Bool → Band → Band
  claimed edge auto b =
      let pull = along edge (num.neg b.offset) in
      record b {
        edge = edge;
        auto_release = auto;
        held = true;
        leak = false;
        peak_out = nought;
        in_rate = nought;
        peak_rate = nought;
        raw = if num.lt nought pull then along edge (unfalloff pull b.max) else nought;
      }

  -- `claim`
  unfoldable pub claim : ℕ → Direction → Bool → Motion → Motion
  claim o edge auto = modify o (claimed edge auto)

  -- `pump`
  abbrev pub ask_frame : List ℕ → Motion → Motion
  ask_frame [] m = m
  ask_frame (o ∷ os) m = record m { raf = true }

  unfoldable pub pump : Motion → Motion
  pump m = if m.raf then m else ask_frame m.bands m

  -- `pull`, back through the edge
  unfoldable pub handed : Band → Band
  handed b = record b { raw = nought; target = nought; held = false; auto_release = true }

  -- The running mean of the input's strength
  abbrev pub mean_rate : num.R → Band → num.R
  mean_rate dy b = num.add b.in_rate (num.mul (num.lit 3 10) (num.sub (num.abs dy) b.in_rate))

  -- `pull`, outward
  unfoldable pub pushed : num.R → num.R → num.R → Band → Band
  unfolding falloff
  pushed now raw dy b =
      let rate = mean_rate dy b in
      record b {
        raw = raw;
        held = true;
        in_rate = rate;
        peak_rate = if num.lt b.peak_rate rate then rate else b.peak_rate;
        last_input = now;
        target = num.neg (along b.edge (falloff raw b.max));
      }

  -- `pull`: whether the band takes the input
  unfoldable pub pull : num.R → ℕ → num.R → Motion → Bool × Motion
  unfolding pump
  pull now o dy m =
      let b = m.heap o in
      let raw = num.add b.raw dy in
      if num.le (along b.edge raw) nought
      then (false, pump (modify o handed m))
      else (true, pump (modify o (pushed now raw dy) m))

  -- `x === b`
  abbrev pub is_latched : ℕ → Option ℕ → Bool
  is_latched o none = false
  is_latched o (some i) = i == o

  -- `bands.delete(b.scroller)`
  unfoldable pub delete : ℕ → Motion → Motion
  delete o m = record m {
    bands = filter (λ i. not ((m.heap i).scroller == (m.heap o).scroller)) m.bands;
  }

  abbrev pub unlatch : ℕ → Option ℕ → Option ℕ
  unlatch o latch = if is_latched o latch then none else latch

  -- `rest`
  unfoldable pub rest : ℕ → Motion → Motion
  unfolding delete
  rest o m = record (delete o m) {
    wheel_band = unlatch o m.wheel_band;
    touch_band = unlatch o m.touch_band;
  }

  abbrev pub rest_all : List ℕ → Motion → Motion
  rest_all [] m = m
  rest_all (o ∷ os) m = rest_all os (rest o m)

  -- `resetBands`
  unfoldable pub reset_bands : Motion → Motion
  reset_bands m = record (rest_all m.bands m) {
    wheel_band = none;
    touch_band = none;
    touch_id = none;
    raf = false;
  }
