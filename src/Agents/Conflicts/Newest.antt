-- ===== src/Agents/Conflicts/Newest.antt =====
-- What `conflicts` of frontend/src/screens/Agents.tsx shows of an identity.
use proxyforward.Common.{
  ℕ, ◌≤◌, ◌≡◌, refl, map, sym, ap, ◌∙◌, Bool, true, false, not, Option, none, some, List, [], ◌∷◌,
  arith, inl, inr,
}
use proxyforward.Common.Tests.{ltb, if◌then◌else◌, Bool-cases}
use proxyforward.Common.Lists.{filter, All}
use proxyforward.Common.Sort.{IsOrder, IsArranged, IsArranged-sort_by}
use proxyforward.Common.Sort.Kept.{to_list, filter-sort_by}
use proxyforward.Common.Decimal.{Text, text_eq, text_eq_refl, eq_of_text_eq}
use proxyforward.Agents.Conflicts.{
  GwEvent, key_of, put_newer, newest, has, later, conflicts, better, best,
}

-- The number of the first entry of a key.
abbrev seq_at : Text → List GwEvent → Option ℕ
seq_at k [] = none
seq_at k (p ∷ ps) = if text_eq (key_of p) k then some p.seq else seq_at k ps

text_eq-miss : (a b k : Text) → text_eq a b ≡ false → text_eq a k ≡ true → text_eq b k ≡ false
text_eq-miss a b k other mine = elim (Bool-cases (text_eq b k)) [
  | inl hit ↦
      let same : a ≡ b = eq_of_text_eq a k mine ∙ sym (eq_of_text_eq b k hit) in
      let clash : true ≡ false = sym (text_eq_refl b) ∙ rw same at other in cc
  | inr miss ↦ miss
]

seq_at-put_newer :
    (k : Text) (e : GwEvent) (ps : List GwEvent)
    → seq_at k (put_newer e ps)
      ≡ (if text_eq (key_of e) k then better (seq_at k ps) e.seq else seq_at k ps)
unfolding put_newer
seq_at-put_newer k e [] = refl
seq_at-put_newer k e (p ∷ ps) = elim (Bool-cases (text_eq (key_of p) (key_of e))) [
  | inl same ↦
      let equal : key_of p ≡ key_of e = eq_of_text_eq _ _ same in
      elim (Bool-cases (ltb p.seq e.seq)) [
        | inl newer ↦ elim (Bool-cases (text_eq (key_of e) k)) [
          | inl hit ↦ rw (same, newer, equal, hit) (rw newer refl)
          | inr miss ↦ rw (same, newer, equal, miss) refl
        ]
        | inr older ↦ elim (Bool-cases (text_eq (key_of e) k)) [
          | inl hit ↦ rw (same, older, equal, hit) (rw older refl)
          | inr miss ↦ rw (same, older, equal, miss) refl
        ]
      ]
  | inr other ↦ elim (Bool-cases (text_eq (key_of p) k)) [
    | inl mine ↦
        let miss : text_eq (key_of e) k ≡ false = text_eq-miss (key_of p) (key_of e) k other mine in
        rw (other, mine, miss) refl
    | inr not_mine ↦ rw (other, not_mine) (seq_at-put_newer k e ps)
  ]
]

seq_at-newest :
    (k : Text) (ps es : List GwEvent) → seq_at k (newest ps es) ≡ best (seq_at k ps) k es
unfolding newest
seq_at-newest k ps [] = refl
seq_at-newest k ps (e ∷ es) =
    seq_at-newest k (put_newer e ps) es ∙ ap (λ acc. best acc k es) (seq_at-put_newer k e ps)

-- Each identity is there once.
abbrev Lacks : Text → List GwEvent → Type 0
Lacks k ps = All (λ p. text_eq (key_of p) k ≡ false) ps

abbrev IsDistinct : List GwEvent → Type 0
IsDistinct [] = Unit
IsDistinct (p ∷ ps) = Lacks (key_of p) ps × IsDistinct ps

Lacks-put_newer :
    (k : Text) (e : GwEvent) (ps : List GwEvent)
    → text_eq (key_of e) k ≡ false
    → Lacks k ps
    → Lacks k (put_newer e ps)
unfolding put_newer
Lacks-put_newer k e [] miss h = (miss, tt)
Lacks-put_newer k e (p ∷ ps) miss (g, h) = elim (Bool-cases (text_eq (key_of p) (key_of e))) [
  | inl same ↦ elim (Bool-cases (ltb p.seq e.seq)) [
    | inl newer ↦ rw (same, newer) (miss, h)
    | inr older ↦ rw (same, older) (g, h)
  ]
  | inr other ↦ rw other (g, Lacks-put_newer k e ps miss h)
]

text_eq-flip : (a b : Text) → text_eq a b ≡ false → text_eq b a ≡ false
text_eq-flip a b h = elim (Bool-cases (text_eq b a)) [
  | inl hit ↦
      let clash : true ≡ false = sym (text_eq_refl a) ∙ rw (eq_of_text_eq b a hit) at h in cc
  | inr miss ↦ miss
]

IsDistinct-put_newer :
    (e : GwEvent) (ps : List GwEvent) → IsDistinct ps → IsDistinct (put_newer e ps)
unfolding put_newer
IsDistinct-put_newer e [] h = (tt, tt)
IsDistinct-put_newer e (p ∷ ps) (g, h) = elim (Bool-cases (text_eq (key_of p) (key_of e))) [
  | inl same ↦ elim (Bool-cases (ltb p.seq e.seq)) [
    | inl newer ↦ rw (same, newer) (rw (eq_of_text_eq (key_of p) (key_of e) same) at g, h)
    | inr older ↦ rw (same, older) (g, h)
  ]
  | inr other ↦ rw other (
    Lacks-put_newer (key_of p) e ps (text_eq-flip (key_of p) (key_of e) other) g,
    IsDistinct-put_newer e ps h,
  )
]

IsDistinct-newest : (ps es : List GwEvent) → IsDistinct ps → IsDistinct (newest ps es)
unfolding newest
IsDistinct-newest ps [] h = h
IsDistinct-newest ps (e ∷ es) h =
    IsDistinct-newest (put_newer e ps) es (IsDistinct-put_newer e ps h)

-- The entry of a key that is not dismissed.
abbrev open_at : Text → List ℕ → List GwEvent → Option GwEvent
open_at k dismissed [] = none
open_at k dismissed (p ∷ ps) =
    if text_eq (key_of p) k
    then (if has p.seq dismissed then none else some p)
    else open_at k dismissed ps

abbrev is_open : List ℕ → GwEvent → Bool
is_open dismissed e = not (has e.seq dismissed)

abbrev pub has_key : Text → GwEvent → Bool
has_key k e = text_eq (key_of e) k

-- The numbers that are shown of an identity whose newest event is known.
abbrev pub open_seq : List ℕ → Option ℕ → List ℕ
open_seq dismissed none = []
open_seq dismissed (some n) = if has n dismissed then [] else n ∷ []

filter-Lacks :
    (k : Text) (dismissed : List ℕ) (ps : List GwEvent)
    → Lacks k ps
    → filter (has_key k) (filter (is_open dismissed) ps) ≡ []
filter-Lacks k dismissed [] h = refl
filter-Lacks k dismissed (p ∷ ps) (g, h) = elim (Bool-cases (has p.seq dismissed)) [
  | inl gone ↦ rw gone (filter-Lacks k dismissed ps h)
  | inr kept ↦ rw kept (rw g (filter-Lacks k dismissed ps h))
]

filter-open_at :
    (k : Text) (dismissed : List ℕ) (ps : List GwEvent)
    → IsDistinct ps
    → filter (has_key k) (filter (is_open dismissed) ps) ≡ to_list (open_at k dismissed ps)
filter-open_at k dismissed [] h = refl
filter-open_at k dismissed (p ∷ ps) (g, h) = elim (Bool-cases (text_eq (key_of p) k)) [
  | inl mine ↦
      let lacks : Lacks k ps = rw (eq_of_text_eq (key_of p) k mine) at g in
      elim (Bool-cases (has p.seq dismissed)) [
        | inl gone ↦ rw (mine, gone) (filter-Lacks k dismissed ps lacks)
        | inr kept ↦ rw (mine, kept) (rw mine (ap (p ∷◌) (filter-Lacks k dismissed ps lacks)))
      ]
  | inr other ↦ elim (Bool-cases (has p.seq dismissed)) [
    | inl gone ↦ rw (other, gone) (filter-open_at k dismissed ps h)
    | inr kept ↦ rw (other, kept) (rw other (filter-open_at k dismissed ps h))
  ]
]

seq-open_at :
    (k : Text) (dismissed : List ℕ) (ps : List GwEvent)
    → map (λ e. e.seq) (to_list (open_at k dismissed ps)) ≡ open_seq dismissed (seq_at k ps)
seq-open_at k dismissed [] = refl
seq-open_at k dismissed (p ∷ ps) = elim (Bool-cases (text_eq (key_of p) k)) [
  | inl mine ↦ elim (Bool-cases (has p.seq dismissed)) [
    | inl gone ↦ rw (mine, gone) refl
    | inr kept ↦ rw (mine, kept) refl
  ]
  | inr other ↦ rw other (seq-open_at k dismissed ps)
]

-- The second event is no newer than the first.
abbrev pub IsNewer : GwEvent → GwEvent → Type 0
IsNewer e f = f.seq ≤ e.seq

later-IsOrder : IsOrder later
later-IsOrder = record { asymm = λ a b h. ground arith; not_trans = λ a b c h k. ground arith }

-- Of every identity the list shows its newest event, once, unless this is dismissed, and nothing
-- else of it; and no later one in the list is newer.
pub conflicts-IsNewest :
    (events : List GwEvent) (dismissed : List ℕ) (k : Text)
    → (map (λ e. e.seq) (filter (has_key k) (conflicts events dismissed))
        ≡ open_seq dismissed (best none k events))
      × IsArranged IsNewer (conflicts events dismissed)
unfolding conflicts
conflicts-IsNewest events dismissed k =
    let found = newest [] events in
    let kept = filter (is_open dismissed) found in
    (
      ap (map (λ e. e.seq)) (
            filter-sort_by later (has_key k) kept (open_at k dismissed found)
              (filter-open_at k dismissed found (IsDistinct-newest [] events tt)))
          ∙ seq-open_at k dismissed found
          ∙ ap (open_seq dismissed) (seq_at-newest k [] events),
      IsArranged-sort_by later IsNewer (λ e f h. ground (arith, h)) later-IsOrder kept,
    )
