-- ===== src/Agents/Order.antt =====
-- The sort and the filter of the roster in frontend/src/screens/Agents.tsx.
use proxyforward.Common.{ℕ, zero, ◌≤◌, Bool, true, false, ◌&&◌, ◌||◌, List, [], ◌∷◌}
use proxyforward.Common.Tests.{◌==◌, ltb}
use proxyforward.Common.Lists.{filter, All}
use proxyforward.Common.Sort.{sort_by}
use proxyforward.Common.Decimal.{Text}
use proxyforward.Common.Texts.{is_empty, trim, contains}
use proxyforward.Common.Int.{ℤ, pos, negsuc, sub_ℕ}
use proxyforward.Agents.{Row, health_rank, row_seg, traffic, players, tier, display_name}

-- `SortKey`
pub data SortKey : Type 0 where
  health by_traffic by_players name : SortKey

-- `a || b`, on numbers
abbrev pub or_number : ℤ → ℤ → ℤ
or_number (pos zero) b = b
or_number a b = a

abbrev pub is_negative : ℤ → Bool
is_negative (pos n) = false
is_negative (negsuc n) = true

module _ (lower : Text → Text) (locale_compare : Text → Text → ℤ) where
  -- The comparison of `sorted`
  unfoldable pub compare_rows : SortKey → Row → Row → ℤ
  compare_rows name a b = locale_compare (display_name a.view) (display_name b.view)
  compare_rows by_players a b = or_number (sub_ℕ (tier a.view) (tier b.view)) (
      or_number (sub_ℕ (players b.live) (players a.live)) (sub_ℕ (traffic b.live) (traffic a.live)))
  compare_rows by_traffic a b =
      or_number (sub_ℕ (tier a.view) (tier b.view)) (sub_ℕ (traffic b.live) (traffic a.live))
  compare_rows health a b = or_number (sub_ℕ (tier a.view) (tier b.view)) (
      or_number (sub_ℕ (health_rank (row_seg a.live)) (health_rank (row_seg b.live)))
        (sub_ℕ (traffic b.live) (traffic a.live)))

  -- The filter of `sorted`: an empty query keeps all.
  unfoldable pub matches : Text → Row → Bool
  matches query r =
      let f = lower (trim query) in
      is_empty f
      || contains f (lower r.view.hostname)
      || contains f (lower r.view.agent_id)
      || contains f (lower r.view.nickname)

  abbrev pub precedes : SortKey → Row → Row → Bool
  precedes key a b = is_negative (compare_rows key a b)

  -- `sorted`
  unfoldable pub sorted : SortKey → Text → List Row → List Row
  sorted key query rows = sort_by (precedes key) (filter (matches query) rows)

-- The tests by keys that the comparison comes to.
abbrev lex : ℕ → ℕ → Bool → Bool
lex a b rest = ltb a b || (a == b && rest)

-- The comparison goes by the tier, and then by what is sorted for, the busier first.
module _ (lower : Text → Text) (locale_compare : Text → Text → ℤ) where
  abbrev goes_before : SortKey → Row → Row → Bool
  goes_before = precedes lower locale_compare

-- The keys that sort by numbers.
abbrev pub IsNumeric : SortKey → Type 0
IsNumeric name = ⊥
IsNumeric _ = Unit

-- Connected agents come first, then those offline, then the revoked ones.
abbrev pub ByTier : List Row → Type 0
ByTier [] = Unit
ByTier (r ∷ rs) = All (λ s. tier r.view ≤ tier s.view) rs × ByTier rs
