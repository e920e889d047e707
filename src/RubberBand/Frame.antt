-- ===== src/RubberBand/Frame.antt =====
-- The spring of frontend/src/rubberband.ts: `propagate` and the frame `tick`.
use proxyforward.Common.{ℕ, Bool, true, false, not, ◌&&◌, some, List, [], ◌∷◌}
use proxyforward.Common.Tests.{if◌then◌else◌}
use proxyforward.RubberBand.Numbers.{Numbers}
use proxyforward.RubberBand.Bands.{
  Band, Motion, nought, along, falloff, put, rest, delete, ask_frame,
}

module _ (num : Numbers) where
  -- `propagate`, below critical damping
  unfoldable pub swing : num.R → num.R → num.R → Band num → Band num
  swing w zeta dt b =
      let x = num.sub b.offset b.target in
      let v = b.vel in
      let decay = num.exp (num.mul (num.mul (num.neg zeta) w) dt) in
      let wd = num.mul w (num.sqrt (num.sub (num.lit 1 1) (num.mul zeta zeta))) in
      let c = num.cos (num.mul wd dt) in
      let s = num.sin (num.mul wd dt) in
      let zw = num.mul zeta w in
      let turn = num.div (num.add v (num.mul zw x)) wd in
      let pull = num.div (num.add (num.mul (num.mul w w) x) (num.mul zw v)) wd in
      record b {
        offset = num.add b.target (num.mul decay (num.add (num.mul x c) (num.mul turn s)));
        vel = num.mul decay (num.sub (num.mul v c) (num.mul pull s));
      }

  -- `propagate`, critically damped
  unfoldable pub glide : num.R → num.R → num.R → Band num → Band num
  glide w zeta dt b =
      let x = num.sub b.offset b.target in
      let v = b.vel in
      let decay = num.exp (num.mul (num.mul (num.neg zeta) w) dt) in
      let turn = num.add v (num.mul w x) in
      record b {
        offset = num.add b.target (num.mul decay (num.add x (num.mul turn dt)));
        vel = num.mul decay (num.sub v (num.mul (num.mul w dt) turn));
      }

  -- `propagate`
  unfoldable pub propagate : num.R → num.R → num.R → Band num → Band num
  unfolding swing glide
  propagate w zeta dt b = if num.lt zeta (num.lit 1 1) then swing w zeta dt b else glide w zeta dt b

  -- `held = false; target = 0`
  abbrev pub let_go : Band num → Band num
  let_go b = record b { held = false; target = nought num }

  -- The end of a gesture that is idle
  unfoldable pub idled : num.R → Band num → Band num
  idled now b =
      if b.held && b.auto_release && num.lt (num.lit 90 1) (num.sub now b.last_input)
      then let_go b
      else b

  -- The momentum leak of `raw`
  unfoldable pub melted : num.R → Band num → Band num
  unfolding falloff
  melted dt b =
      let raw = num.mul b.raw (num.exp (num.div (num.neg dt) (num.lit 1 10))) in
      record b { raw = raw; target = num.neg (along num b.edge (falloff num raw b.max)) }

  -- The pull after the leak, and whether the flick is spent
  abbrev pub leaked : num.R → Band num → Band num × Bool
  leaked out b =
      if num.lt b.peak_out out
      then (record b { peak_out = out }, false)
      else if num.lt (num.lit 4 1) b.peak_out && num.lt out (num.mul (num.lit 9 10) b.peak_out)
      then (let_go b, true)
      else (b, false)

  unfoldable pub leaking : num.R → Band num → Band num × Bool
  unfolding melted
  leaking dt b =
      if b.held && b.leak
      then leaked (along num b.edge (num.neg b.offset)) (melted dt b)
      else (b, false)

  -- The spring of a band in its present hold
  unfoldable pub sprung : num.R → Band num → Band num
  unfolding propagate
  sprung dt b =
      if b.held
      then propagate b.omega (num.lit 1 1) dt b
      else propagate b.rel_omega (num.lit 55 100) dt b

  -- `Math.max(0, (now - b.last) / 1000) || 0`
  abbrev pub elapsed : num.R → Band num → num.R
  elapsed now b = num.or_zero (num.max (nought num) (num.div (num.sub now b.last) (num.lit 1000 1)))

  -- A band before its spring, and whether its flick is spent.
  unfoldable pub advanced : num.R → Band num → Band num × Bool
  unfolding idled leaking
  advanced now b = leaking (elapsed now b) (idled now (record b { last = now }))

  -- Whether a band has come to rest.
  unfoldable pub is_settled : Band num → Bool
  is_settled b =
      not b.held && num.lt (num.abs b.offset) (num.lit 1 2) && num.lt (num.abs b.vel) (num.lit 8 1)

  -- A flick that is spent arms the guard against its tail.
  abbrev pub guarded : num.R → Band num → Bool → Motion num → Motion num
  guarded now b false m = m
  guarded now b true m = record m {
    inertia_edge = some b.edge;
    inertia_rate = b.peak_rate;
    guard_until = num.add now (num.lit 90 1);
  }

  -- A band as the frame leaves it.
  unfoldable pub framed : num.R → Band num → Band num
  unfolding advanced sprung
  framed now b = sprung (elapsed now b) (advanced now b).0

  -- The body of the loop of `tick`
  unfoldable pub tick_band : num.R → (ℕ → Bool) → ℕ → Motion num → Motion num
  unfolding framed advanced is_settled
  tick_band now connected o m =
      let b = m.heap o in
      let after = framed now b in
      let next =
        guarded now (advanced now b).0 (advanced now b).1
          (record m { heap = put num o after m.heap }) in
      if not (connected b.content)
      then delete num o m
      else if is_settled after
      then rest num o next
      else next

  -- The loop of `tick`, over the bands that there are when it starts
  unfoldable pub tick_all : num.R → (ℕ → Bool) → List ℕ → Motion num → Motion num
  unfolding tick_band
  tick_all now connected [] m = m
  tick_all now connected (o ∷ os) m = tick_all now connected os (tick_band now connected o m)

  abbrev pub ask_next : Motion num → Motion num
  ask_next m = ask_frame num m.bands m

  -- `tick`: `connected` is `isConnected` of the contents.
  unfoldable pub tick : num.R → (ℕ → Bool) → Motion num → Motion num
  unfolding tick_all
  tick now connected m = ask_next (tick_all now connected m.bands (record m { raf = false }))
