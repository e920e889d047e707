-- ===== src/RubberBand/Numbers.antt =====
-- The numbers of the physics of frontend/src/rubberband.ts, with what JavaScript has on them. No
-- law is asked for: what is shown of the bands holds for floating-point numbers with their rounding.
use proxyforward.Common.{ℕ, Bool}

pub record Numbers : Type 1 where
  pub R : Type 0
  -- A literal n / d
  pub lit : ℕ → ℕ → R
  pub add : R → R → R
  pub sub : R → R → R
  pub mul : R → R → R
  pub div : R → R → R
  pub neg : R → R
  pub abs : R → R
  pub exp : R → R
  pub sin : R → R
  pub cos : R → R
  pub sqrt : R → R
  pub min : R → R → R
  pub max : R → R → R
  -- `a < b` and `a <= b`
  pub lt : R → R → Bool
  pub le : R → R → Bool
  -- `Number.isInteger`
  pub is_integer : R → Bool
  -- `a || 0`
  pub or_zero : R → R
  -- `!a`
  pub is_falsy : R → Bool
