-- ===== src/Commands/Fuzzy.antt =====
-- `fuzzyScore` of frontend/src/commands.tsx: the greedy scan finds a match exactly when the query
-- is a subsequence of the text, and then scores it above 0.
use native.Mathlib.Decide.{ℕ_discrete}
use proxyforward.Common.{
  ℕ, zero, suc, ◌+◌, ◌*◌, ◌≤◌, ◌≡◌, ◌≢◌, refl, ◌∙◌, ◌↔◌, Bool, true, false, none, some, [], ◌∷◌,
  arith, inl, inr,
}
use proxyforward.Common.Tests.{if◌then◌else◌, Option-cases, ◌==◌}
use proxyforward.Common.Lists.{length}
use proxyforward.Common.Decimal.{Text}
use proxyforward.Common.Int.{ℤ, pos, negsuc, sub_ℕ}
use proxyforward.Commands.{index_of, drop, word_start, score_from, score_of, needle, fuzzy_score}

-- `q` can be had from `t` by leaving characters out.
pub data Subsequence : Text → Text → Type 0 where
  done : {t : Text} → Subsequence [] t
  keep : {c : ℕ} {q t : Text} → Subsequence q t → Subsequence (c ∷ q) (c ∷ t)
  skip : {c : ℕ} {q t : Text} → Subsequence q t → Subsequence q (c ∷ t)

-- A subsequence of a text's tail is one of the text.
Subsequence-drop : (n : ℕ) {q : Text} (t : Text) → Subsequence q (drop n t) → Subsequence q t
Subsequence-drop zero t h = h
Subsequence-drop (suc n) [] h = h
Subsequence-drop (suc n) (c ∷ t) h = skip (Subsequence-drop n t h)

-- Without its first character it is still one.
Subsequence-tail : {c : ℕ} {q t : Text} → Subsequence (c ∷ q) t → Subsequence q t
Subsequence-tail (keep h) = skip h
Subsequence-tail (skip h) = skip (Subsequence-tail h)

Subsequence-behind : {x c : ℕ} {q t : Text} → Subsequence (x ∷ q) (c ∷ t) → Subsequence q t
Subsequence-behind (keep h) = h
Subsequence-behind (skip h) = Subsequence-tail h

Subsequence-other :
    {x c : ℕ} {q t : Text} → c ≢ x → Subsequence (x ∷ q) (c ∷ t) → Subsequence (x ∷ q) t
Subsequence-other h (keep s) = absurd (h refl)
Subsequence-other h (skip s) = s

Subsequence-here : (x c : ℕ) {q t : Text} → c ≡ x → Subsequence q t → Subsequence (x ∷ q) (c ∷ t)
Subsequence-here x c e h = rw e (keep h)

no_Subsequence-nil : {x : ℕ} {q t : Text} → t ≡ [] → ¬ Subsequence (x ∷ q) t
no_Subsequence-nil e (keep h) = cc
no_Subsequence-nil e (skip h) = cc

-- The two ways of one step of the scan.
index_of-here : (ch c : ℕ) (t : Text) → c ≡ ch → index_of ch (c ∷ t) ≡ some 0
unfolding index_of
index_of-here ch c t e = ground arith

index_of-later :
    (ch c : ℕ) (t : Text)
    → c ≢ ch
    → index_of ch (c ∷ t) ≡ elim (index_of ch t) [ none ↦ none | some k ↦ some (suc k) ]
unfolding index_of
index_of-later ch c t h = ground arith

index_of-none : (ch : ℕ) (q t : Text) → index_of ch t ≡ none → ¬ Subsequence (ch ∷ q) t
index_of-none ch q [] e = no_Subsequence-nil refl
index_of-none ch q (c ∷ t) e = elim (ℕ_discrete c ch) [
  | yes same ↦ λ s. cc (index_of-here ch c t same)
  | no other ↦ elim (Option-cases (index_of ch t)) [
    | inl missed ↦ λ s. index_of-none ch q t missed (Subsequence-other other s)
    | inr (k, found) ↦ λ s. cc (rw found at (index_of-later ch c t other))
  ]
]

index_of-some :
    (ch : ℕ) (q t : Text) (k : ℕ)
    → index_of ch t ≡ some k
    → Subsequence (ch ∷ q) t ↔ Subsequence q (drop (suc k) t)
index_of-some ch q [] k e = unfold index_of in cc
index_of-some ch q (c ∷ t) k e = elim (ℕ_discrete c ch) [
  | yes same ↦
      let at_start : k ≡ 0 = cc (index_of-here ch c t same) in
      rw at_start (Subsequence-behind, Subsequence-here ch c same)
  | no other ↦ elim (Option-cases (index_of ch t)) [
    | inl missed ↦ absurd (cc (rw missed at (index_of-later ch c t other)))
    | inr (j, found) ↦
        let next : k ≡ suc j = cc (rw found at (index_of-later ch c t other)) in
        let (to, from) = index_of-some ch q t j found in
        rw next (λ s. to (Subsequence-other other s), λ s. skip (from s))
  ]
]

drop-drop : (k n j : ℕ) (t : Text) → n + k ≡ j → drop k (drop n t) ≡ drop j t
drop-drop k zero j t e = let same : k ≡ j = omega arith in rw same
drop-drop zero (suc n) zero [] e = absurd (omega arith)
drop-drop (suc k) (suc n) zero [] e = absurd (omega arith)
drop-drop zero (suc n) (suc j) [] e = refl
drop-drop (suc k) (suc n) (suc j) [] e = refl
drop-drop k (suc n) zero (c ∷ t) e = absurd (omega arith)
drop-drop k (suc n) (suc j) (c ∷ t) e = drop-drop k n j t (omega arith)

-- One round of the scan, after a hit at distance k.
abbrev next_streak : ℕ → ℕ → ℕ
next_streak streak k = if k == 0 then streak + 1 else 1

abbrev next_total : Text → ℕ → ℕ → ℕ → ℕ → ℕ
next_total t ti total streak k =
    total + (next_streak streak k * 2 + (if word_start t (ti + k) then 3 else 0))

score_from-miss :
    (t : Text) (ti total streak ch : ℕ) (q : Text)
    → index_of ch (drop ti t) ≡ none
    → score_from t ti total streak (ch ∷ q) ≡ none
unfolding score_from
score_from-miss t ti total streak ch q e = rw (e, score_from)

score_from-hit :
    (t : Text) (ti total streak ch : ℕ) (q : Text) (k : ℕ)
    → index_of ch (drop ti t) ≡ some k
    → score_from t ti total streak (ch ∷ q)
      ≡ score_from t (ti + k + 1) (next_total t ti total streak k) (next_streak streak k) q
unfolding score_from
score_from-hit t ti total streak ch q k e = rw (e, score_from)

-- What the scan has found once it returns a total.
score_from_sound :
    (t : Text) (ti total streak : ℕ) (q : Text) (s : ℕ)
    → score_from t ti total streak q ≡ some s
    → Subsequence q (drop ti t) × (total + 2 * length q ≤ s)
score_from_sound t ti total streak [] s e = (done, unfold score_from in ground arith)
score_from_sound t ti total streak (ch ∷ q) s e = elim (Option-cases (index_of ch (drop ti t))) [
  | inl missed ↦ absurd (cc (score_from-miss t ti total streak ch q missed))
  | inr (k, found) ↦
      let rest = rw (score_from-hit t ti total streak ch q k found) at e in
      let (sub, bound) =
        score_from_sound t (ti + k + 1) (next_total t ti total streak k) (next_streak streak k) q s
          rest in
      (
        (index_of-some ch q (drop ti t) k found).1
            (rw (drop-drop (suc k) ti (ti + k + 1) t (omega arith)) sub),
        ground arith,
      )
]

score_from_complete :
    (t : Text) (ti total streak : ℕ) (q : Text)
    → Subsequence q (drop ti t)
    → (s : ℕ) × (score_from t ti total streak q ≡ some s)
score_from_complete t ti total streak [] h = (total, unfold score_from in refl)
score_from_complete t ti total streak (ch ∷ q) h = elim (Option-cases (index_of ch (drop ti t))) [
  | inl missed ↦ absurd (index_of-none ch q (drop ti t) missed h)
  | inr (k, found) ↦
      let sub = (index_of-some ch q (drop ti t) k found).0 h in
      let (s, e) =
        score_from_complete t (ti + k + 1) (next_total t ti total streak k) (next_streak streak k) q
          (rw (drop-drop (suc k) ti (ti + k + 1) t (omega arith)) at sub) in
      (s, score_from-hit t ti total streak ch q k found ∙ e)
]

-- `score >= 0`
abbrev pub is_match : ℤ → Bool
is_match (pos n) = true
is_match (negsuc n) = false

score_of-miss :
    (t : Text) (ch : ℕ) (q : Text)
    → score_from t 0 0 0 (ch ∷ q) ≡ none
    → score_of t (ch ∷ q) ≡ negsuc 99
unfolding score_of
score_of-miss t ch q e = rw (e, score_of)

score_of-hit :
    (t : Text) (ch : ℕ) (q : Text) (total : ℕ)
    → score_from t 0 0 0 (ch ∷ q) ≡ some total
    → score_of t (ch ∷ q) ≡ sub_ℕ (100 * total) (length t)
unfolding score_of
score_of-hit t ch q total e = rw (e, score_of)

score_of-is_match_iff :
    (t q : Text) → length t ≤ 200 → (is_match (score_of t q) ≡ true) ↔ Subsequence q t
score_of-is_match_iff t [] h = (λ _. done, λ _. unfold score_of in refl)
score_of-is_match_iff t (ch ∷ q) h = elim (Option-cases (score_from t 0 0 0 (ch ∷ q))) [
  | inl missed ↦ rw (score_of-miss t ch q missed) (
    λ e. absurd (cc e),
    λ s. let (total, e) = score_from_complete t 0 0 0 (ch ∷ q) s in absurd (cc),
  )
  | inr (total, e) ↦
      let (sub, bound) = score_from_sound t 0 0 0 (ch ∷ q) total e in
      rw (score_of-hit t ch q total e) (λ _. sub, λ _. ground arith)
]

-- A text of at most 200 characters passes the palette's test `score >= 0` exactly when the query,
-- in lower case and without spaces, is a subsequence of the text in lower case.
pub fuzzy_score-is_match_iff :
    (lower : Text → Text) (text query : Text)
    → length (lower text) ≤ 200
    → (is_match (fuzzy_score lower text query) ≡ true)
      ↔ Subsequence (needle lower query) (lower text)
unfolding fuzzy_score
fuzzy_score-is_match_iff lower text query h =
    score_of-is_match_iff (lower text) (needle lower query) h
