-- ===== src/Activity.antt =====
-- frontend/src/screens/Activity.tsx: the filter of the log's tail and the lines that are copied.
-- `toLowerCase`, `toUpperCase` and the text of a time are parameters.
use proxyforward.Common.{
  ℕ, zero, suc, ◌≤◌, ◌≡◌, refl, sym, ap, ◌∙◌, Bool, true, false, not, ◌&&◌, ◌||◌, Option, none,
  some, List, [], ◌∷◌, ◌++◌, arith, inl, inr,
}
use proxyforward.Common.Tests.{if◌then◌else◌, ltb, Bool-cases}
use proxyforward.Common.Lists.{filter}
use proxyforward.Common.Decimal.{Text, text_eq, codes}
use proxyforward.Common.Texts.{is_empty, trim, trim_end, contains}

-- `logging.Entry`
pub record Entry : Type 0 where
  pub seq : ℕ
  pub time_ms : ℕ
  pub level : Text
  pub msg : Text
  pub attrs : Text

-- `LEVELS`
abbrev pub levels : List Text
levels = codes "debug" ∷ codes "info" ∷ codes "warn" ∷ codes "error" ∷ []

-- `indexOf`, from an index on; nothing is its -1.
abbrev pub index_from : ℕ → List Text → Text → Option ℕ
index_from i [] t = none
index_from i (l ∷ ls) t = if text_eq l t then some i else index_from (suc i) ls t

-- `minRank`
unfoldable pub min_rank : Text → Option ℕ
min_rank level = if text_eq level (codes "all") then none else index_from 0 levels level

-- `minRank >= 0 && rank < minRank`
abbrev pub is_below : Option ℕ → Option ℕ → Bool
is_below none rank = false
is_below (some m) none = true
is_below (some m) (some i) = ltb i m

-- `padEnd`, with spaces
abbrev pub pad_end : ℕ → Text → Text
pad_end zero t = t
pad_end (suc n) [] = 32 ∷ pad_end n []
pad_end (suc n) (c ∷ cs) = c ∷ pad_end n cs

module _ (lower upper : Text → Text) (iso : ℕ → Text) where
  abbrev pub is_loud : Option ℕ → Entry → Bool
  is_loud min e = not (is_below min (index_from 0 levels (lower e.level)))

  abbrev pub is_found : Text → Entry → Bool
  is_found q e = is_empty q || contains q (lower (e.msg ++ (32 ∷ e.attrs)))

  -- `filtered`
  unfoldable pub filtered : Text → Text → List Entry → List Entry
  unfolding min_rank
  filtered level query entries =
      filter (λ e. is_loud (min_rank level) e && is_found (lower (trim query)) e) entries

  -- `fmtLine`
  unfoldable pub fmt_line : Entry → Text
  fmt_line e =
      trim_end
        (iso e.time_ms ++ (32 ∷ (pad_end 5 (upper e.level) ++ (32 ∷ (e.msg ++ (32 ∷ e.attrs))))))

-- A level that is at least as high hides at least as much.
abbrev pub IsAtMost : Option ℕ → Option ℕ → Type 0
IsAtMost none n = Unit
IsAtMost (some m) none = ⊥
IsAtMost (some m) (some n) = m ≤ n

is_below-raised :
    (m n rank : Option ℕ) → IsAtMost m n → is_below n rank ≡ false → is_below m rank ≡ false
is_below-raised none n rank h e = refl
is_below-raised (some m) none rank h e = absurd h
is_below-raised (some m) (some n) none h e = e
is_below-raised (some m) (some n) (some i) h e = ground (arith, h, e)

shown-raised :
    (m n rank : Option ℕ) (b : Bool)
    → IsAtMost m n
    → (not (is_below n rank) && b) ≡ true
    → (not (is_below m rank) && b) ≡ true
shown-raised m n rank b h e = elim (Bool-cases (is_below n rank)) [
  | inl below ↦ let clash : false ≡ true = rw below at e in cc
  | inr loud ↦
      let louder = is_below-raised m n rank h loud in
      let found : b ≡ true = rw loud at e in rw louder found
]

filter-filter :
    (p q : Entry → Bool) (es : List Entry)
    → ((e : Entry) → p e ≡ true → q e ≡ true)
    → filter p (filter q es) ≡ filter p es
filter-filter p q [] h = refl
filter-filter p q (e ∷ es) h = elim (Bool-cases (q e)) [
  | inl in_q ↦ elim (Bool-cases (p e)) [
    | inl shown ↦ rw (in_q, shown) (ap (e ∷◌) (filter-filter p q es h))
    | inr hidden ↦ rw (in_q, hidden) (filter-filter p q es h)
  ]
  | inr out_q ↦ elim (Bool-cases (p e)) [
    | inl shown ↦ let clash : true ≡ false = sym (h e shown) ∙ out_q in cc
    | inr hidden ↦ rw (out_q, hidden) (filter-filter p q es h)
  ]
]

module _ (lower upper : Text → Text) (iso : ℕ → Text) where
  -- To raise the level filters what was shown further: it shows nothing that the lower level hid, and
  -- hides nothing that the higher one alone would show.
  pub filtered-raised :
      (low high query : Text) (entries : List Entry)
      → IsAtMost (min_rank low) (min_rank high)
      → filtered lower upper iso high query (filtered lower upper iso low query entries)
        ≡ filtered lower upper iso high query entries
  unfolding filtered
  filtered-raised low high query entries h =
      filter-filter
        (λ e.
          is_loud lower upper iso (min_rank high) e
          && is_found lower upper iso (lower (trim query)) e)
        (λ e.
          is_loud lower upper iso (min_rank low) e
          && is_found lower upper iso (lower (trim query)) e)
        entries
        (λ e.
          shown-raised (min_rank low) (min_rank high) (index_from 0 levels (lower e.level))
            (is_found lower upper iso (lower (trim query)) e) h)
