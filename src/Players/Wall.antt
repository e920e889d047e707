-- ===== src/Players/Wall.antt =====
-- The wall of frontend/src/screens/Players.tsx: what it asks of the backend, its pages, and which of
-- the players of a page it shows. The search is the one that has been debounced; `is_live` is
-- `liveUUIDs.has`, and `total` the number of players that the backend has for a search, a tunnel and
-- a country, whatever the order and the page are.
use proxyforward.Common.{
  ℕ, ◌+◌, ◌-◌, ◌%◌, ◌<◌, ◌≡◌, refl, ◌⊎◌, Bool, true, false, not, ◌&&◌, ◌||◌, List, [], arith, inl,
  inr,
}
use proxyforward.Common.Tests.{ltb, leb, ◌==◌, if◌then◌else◌, by_test}
use proxyforward.Common.Lists.{filter, All, All-filter}
use proxyforward.Common.Decimal.{Text, text_eq}

pub data FilterChip : Type 0 where
  all online : FilterChip
  tunnel : Text → FilterChip

-- `PlayersQuery`, without the agent, which this screen does not set
pub record PlayersQuery : Type 0 where
  pub search : Text
  pub sort : Text
  pub tunnel_id : Text
  pub cc : Text
  pub offset : ℕ
  pub limit : ℕ

-- `PlayerCard`: the fields that decide whether it is shown
pub record PlayerCard : Type 0 where
  pub uuid : Text
  pub online : Bool

pub record Wall : Type 0 where
  pub search : Text
  pub sort : Text
  pub chip : FilterChip
  pub cc : Text
  pub offset : ℕ

-- `PLAYERS_PAGE_SIZE`
abbrev pub page_size : ℕ
page_size = 60

abbrev pub tunnel_of : FilterChip → Text
tunnel_of all = []
tunnel_of online = []
tunnel_of (tunnel id) = id

unfoldable pub query : Wall → PlayersQuery
query s = record {
  search = s.search;
  sort = s.sort;
  tunnel_id = tunnel_of s.chip;
  cc = s.cc;
  offset = s.offset;
  limit = page_size;
}

abbrev pub is_online : FilterChip → Bool
is_online all = false
is_online online = true
is_online (tunnel id) = false

-- `players`
unfoldable pub shown : (Text → Bool) → FilterChip → List PlayerCard → List PlayerCard
shown is_live chip rows =
    if is_online chip then filter (λ p. p.online || is_live p.uuid) rows else rows

unfoldable pub can_page : FilterChip → ℕ → Bool
can_page chip total = not (is_online chip) && ltb page_size total

-- A change of what is asked for goes back to the first page.
unfoldable pub set_search : Text → Wall → Wall
set_search v s = if text_eq v s.search then s else record s { search = v; offset = 0 }

unfoldable pub set_sort : Text → Wall → Wall
set_sort v s = if text_eq v s.sort then s else record s { sort = v; offset = 0 }

unfoldable pub set_cc : Text → Wall → Wall
set_cc v s = if text_eq v s.cc then s else record s { cc = v; offset = 0 }

abbrev pub same_chip : FilterChip → FilterChip → Bool
same_chip all all = true
same_chip online online = true
same_chip (tunnel a) (tunnel b) = text_eq a b
same_chip _ _ = false

unfoldable pub set_chip : FilterChip → Wall → Wall
set_chip v s = if same_chip v s.chip then s else record s { chip = v; offset = 0 }

-- "Previous" and "Next", which are there when `can_page`
unfoldable pub previous : ℕ → Wall → Wall
previous total s =
    if can_page s.chip total && not (s.offset == 0)
    then record s { offset = s.offset - page_size }
    else s

unfoldable pub next : ℕ → Wall → Wall
next total s =
    if can_page s.chip total && not (leb total (s.offset + page_size))
    then record s { offset = s.offset + page_size }
    else s

-- With "online" the wall looks for the players who are online on the page that is loaded alone: one
-- who is not on it is not shown, and there is no way to another page.
shown-online :
    (is_live : Text → Bool) (rows : List PlayerCard) (id : Text) (total : ℕ)
    → All (λ p. text_eq id p.uuid ≡ false) rows
    → All (λ p. text_eq id p.uuid ≡ false) (shown is_live online rows)
      × (can_page online total ≡ false)
unfolding shown can_page
shown-online is_live rows id total h = (
  All-filter {P = λ p. text_eq id p.uuid ≡ false} {Q = λ p. text_eq id p.uuid ≡ false}
      (λ p. p.online || is_live p.uuid) (λ p l e. l) rows h,
  refl,
)

-- `total`, of what the wall asks for
abbrev pub total_of : (Text → Text → Text → ℕ) → Wall → ℕ
total_of total s = total s.search (tunnel_of s.chip) s.cc

abbrev IsOffset : ℕ → ℕ → Type 0
IsOffset total offset = (offset % page_size ≡ 0) × ((offset ≡ 0) ⊎ (offset < total))

-- A page of the list that the wall asks for
abbrev pub IsPage : (Text → Text → Text → ℕ) → Wall → Type 0
IsPage total s = IsOffset (total_of total s) s.offset

-- The events of the wall, while the players that the backend has for each search, tunnel and country
-- stay as many
pub data Step (total : Text → Text → Text → ℕ) (s : Wall) : Wall → Type 0 where
  searches : (v : Text) → Step total s (set_search v s)
  sorts : (v : Text) → Step total s (set_sort v s)
  picks_country : (v : Text) → Step total s (set_cc v s)
  picks_chip : (v : FilterChip) → Step total s (set_chip v s)
  goes_back : Step total s (previous (total_of total s) s)
  goes_on : Step total s (next (total_of total s) s)

first-IsPage :
    (total : Text → Text → Text → ℕ) (s t : Wall) (b : Bool)
    → t.offset ≡ 0
    → IsPage total s
    → IsPage total (if b then s else t)
first-IsPage total s t b e h =
    by_test (IsPage total) b s t (λ q. h) (λ q. (omega (arith, e), inl e))

next-IsPage :
    (total : Text → Text → Text → ℕ) (s : Wall)
    → IsPage total s
    → IsPage total (next (total_of total s) s)
unfolding next
next-IsPage total s (m, h) =
    let n = total_of total s in
    by_test (IsPage total) (can_page s.chip n && not (leb n (s.offset + page_size)))
      (record s { offset = s.offset + page_size }) s
      (λ e. (omega (arith, m), inr (ground (arith, e)))) (λ e. (m, h))

before : (a b total : ℕ) → (a ≡ 0) ⊎ (a < total) → (a - b ≡ 0) ⊎ (a - b < total)
before a b total (inl e) = inl (omega (arith, e))
before a b total (inr h) = inr (omega (arith, h))

previous-IsPage :
    (total : Text → Text → Text → ℕ) (s : Wall)
    → IsPage total s
    → IsPage total (previous (total_of total s) s)
unfolding previous
previous-IsPage total s (m, h) =
    let n = total_of total s in
    by_test (IsPage total) (can_page s.chip n && not (s.offset == 0))
      (record s { offset = s.offset - page_size }) s
      (λ e. (omega (arith, m), before s.offset page_size n h)) (λ e. (m, h))

-- While the players that the backend has for each search, tunnel and country stay as many: from a
-- page of the list that the wall asks for every event, a change of what it asks for included, leads
-- to a page of the list that it asks for then. Its offset is a multiple of 60, and below the number
-- of the players in that list unless it is 0.
pub Step-IsPage :
    {total : Text → Text → Text → ℕ} {s t : Wall} → Step total s t → IsPage total s → IsPage total t
unfolding set_search set_sort set_cc set_chip
Step-IsPage {total = total} {s = s} (searches v) h =
    first-IsPage total s _ (text_eq v s.search) refl h
Step-IsPage {total = total} {s = s} (sorts v) h = first-IsPage total s _ (text_eq v s.sort) refl h
Step-IsPage {total = total} {s = s} (picks_country v) h =
    first-IsPage total s _ (text_eq v s.cc) refl h
Step-IsPage {total = total} {s = s} (picks_chip v) h =
    first-IsPage total s _ (same_chip v s.chip) refl h
Step-IsPage {total = total} {s = s} goes_back h = previous-IsPage total s h
Step-IsPage {total = total} {s = s} goes_on h = next-IsPage total s h
