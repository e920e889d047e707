-- ===== src/State/Flags.antt =====
-- `flagEmoji` of frontend/src/state.ts: which codes have a flag, and what the flag stands for.
use proxyforward.Common.{ℕ, ◌+◌, ◌-◌, ◌≤◌, ◌≡◌, ◌≢◌, ◌↔◌, ◌⊎◌, Option, none, some, [], ◌∷◌, arith}
use proxyforward.Common.Decimal.{Text}
use proxyforward.State.{flag_emoji}

-- A letter in either case.
abbrev pub IsLetter : ℕ → Type 0
IsLetter c = ((b'A' ≤ c) × (c ≤ b'Z')) ⊎ ((b'a' ≤ c) × (c ≤ b'z'))

-- `o` is a code of two letters.
abbrev pub IsCountry : Option Text → Type 0
IsCountry (some (a ∷ b ∷ [])) = IsLetter a × IsLetter b
IsCountry _ = ⊥

-- The letter from `A` to `Z` that a regional indicator stands for.
abbrev pub letter_of : ℕ → ℕ
letter_of p = p - 0x1f1e6 + b'A'

-- `p` is the indicator of the letter c, in either case.
pub record IsIndicatorOf (p c : ℕ) : Type 0 where
  pub low : 0x1f1e6 ≤ p
  pub high : p ≤ 0x1f1ff
  pub same : (letter_of p ≡ c) ⊎ (letter_of p + 32 ≡ c)

-- Exactly the codes of two letters have a flag.
pub flag_emoji-ne-none_iff : (o : Option Text) → (flag_emoji o ≢ none) ↔ IsCountry o
unfolding flag_emoji
flag_emoji-ne-none_iff none = ground arith
flag_emoji-ne-none_iff (some []) = ground arith
flag_emoji-ne-none_iff (some (a ∷ [])) = ground arith
flag_emoji-ne-none_iff (some (a ∷ b ∷ [])) = ground arith
flag_emoji-ne-none_iff (some (a ∷ b ∷ c ∷ r)) = ground arith

-- A flag is two regional indicators, those of the two letters of the code.
pub flag_emoji_lem :
    (a b : ℕ) {p q : ℕ}
    → flag_emoji (some (a ∷ b ∷ [])) ≡ some (p, q)
    → IsIndicatorOf p a × IsIndicatorOf q b
unfolding flag_emoji
flag_emoji_lem a b h = ground arith
