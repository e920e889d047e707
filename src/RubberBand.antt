-- ===== src/RubberBand.antt =====
-- frontend/src/rubberband.ts: which scroller answers a push past an end. The document is what the
-- code reads of it: the elements from the target of the input out to the body, each with its
-- computed style and its scroll lengths, and the page's own scroller. `Chaining` has the theorems.
-- Lengths are whole multiples of a fraction of a pixel, px of them to the pixel, so that the
-- fractional scrollTop of a scaled screen is exact. `Bands`, `Frame` and `Input` have the life of the
-- bands over any numbers (`Numbers`), `Due` and `Release` what holds of it.
pub mod Chaining
pub mod Numbers
pub mod Bands
pub mod Frame
pub mod Input
pub mod Steps
pub mod Cases
pub mod Reset
pub mod Due
pub mod Springs
pub mod Holds
pub mod Rests
pub mod Bursts
pub mod Release
pub mod Idle
pub mod Lost
use proxyforward.Common.{
  ℕ, ◌+◌, Bool, true, false, not, ◌&&◌, ◌||◌, Option, none, some, List, [], ◌∷◌,
}
use proxyforward.Common.Tests.{if◌then◌else◌, ltb}

-- An element: `html` is `el instanceof HTMLElement`, `page` is `el === pg`, `id` tells elements
-- apart, and the rest is what `ownerFor` asks of the style and the lengths.
pub record Element : Type 0 where
  pub id : ℕ
  pub html : Bool
  pub page : Bool
  pub scrolls : Bool
  pub contains : Bool
  pub fixed : Bool
  pub scroll_height : ℕ
  pub client_height : ℕ
  pub scroll_top : ℕ

-- The direction of a push.
pub data Direction : Type 0 where
  down up : Direction

-- What the walk of `ownerFor` comes to: to leave the input to the browser, an element that
-- absorbs it, or the end of the walk.
pub data Verdict : Type 0 where
  native : Verdict
  absorbed : Element → Verdict
  passed : Verdict

module _ (px : ℕ) where
  -- `room(el, dir) > 1`: more than a pixel is left to scroll. A scrollTop past the end leaves none.
  unfoldable pub has_room : Element → Direction → Bool
  has_room e down = ltb (e.client_height + e.scroll_top + px) e.scroll_height
  has_room e up = ltb px e.scroll_top

  -- `scrolls(cs) && el.scrollHeight - el.clientHeight > 1`
  unfoldable pub is_scroller : Element → Bool
  is_scroller e = e.scrolls && ltb (e.client_height + px) e.scroll_height

  -- One element that is no scroller, or that chains outward.
  abbrev pub beyond : Element → Verdict → Verdict
  beyond e rest = if e.fixed then native else rest

  -- The loop of `ownerFor`.
  unfoldable pub walk : Direction → List Element → Verdict
  unfolding has_room is_scroller
  walk dir [] = passed
  walk dir (e ∷ es) =
      let rest = walk dir es in
      if e.page
      then passed
      else if not e.html
      then rest
      else if is_scroller e
      then if has_room e dir then native else if e.contains then absorbed e else beyond e rest
      else beyond e rest

  -- The end of `ownerFor`, with the page's scroller `pg`.
  unfoldable pub decide : Option Element → Direction → Verdict → Option Element
  unfolding has_room
  decide pg dir native = none
  decide pg dir (absorbed e) = some e
  decide none dir passed = none
  decide (some p) dir passed = if has_room p dir then none else some p

  -- `ownerFor`
  unfoldable pub owner_for : Option Element → Direction → List Element → Option Element
  unfolding walk decide
  owner_for pg dir es = decide pg dir (walk dir es)
