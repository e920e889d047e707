-- ===== src/Setup/Trimmed.antt =====
-- White space around the pairing code that is pasted into frontend/src/screens/Wizard.tsx.
use proxyforward.Common.{ℕ, ◌≡◌, refl, true, false, [], ◌∷◌, ◌++◌, inl, inr, arith}
use proxyforward.Common.Tests.{and_false, Bool-cases}
use proxyforward.Common.Lists.{All, length}
use proxyforward.Common.Decimal.{Text}
use proxyforward.Common.Texts.{trim_start, trim_end, is_space, is_empty}
use proxyforward.Setup.{is_hex, all_hex}

abbrev pub IsPin : Text → Type 0
IsPin t = (length t ≡ 64) × (all_hex t ≡ true)

abbrev pub IsBlank : Text → Type 0
IsBlank t = All (λ c. is_space c ≡ true) t

-- A text ends here: the white space behind it is trimmed, and no more.
abbrev pub Ends : Text → Text → Type 0
Ends blank t = (trim_end (t ++ blank) ≡ t) × (is_empty t ≡ false)

trim_end-blank : (t : Text) → IsBlank t → trim_end t ≡ []
unfolding trim_end
trim_end-blank [] h = refl
trim_end-blank (c ∷ cs) (p, h) = rw (trim_end-blank cs h, p) refl

not_space : (c : ℕ) → is_hex c ≡ true → is_space c ≡ false
not_space c h = ground (arith, h)

trim_end-hex : (blank t : Text) → IsBlank blank → all_hex t ≡ true → trim_end (t ++ blank) ≡ t
unfolding trim_end
trim_end-hex blank [] b h = trim_end-blank blank b
trim_end-hex blank (c ∷ cs) b h = elim (Bool-cases (is_hex c)) [
  | inl p ↦ rw (trim_end-hex blank cs b (rw p at h), not_space c p) refl
  | inr p ↦ let clash : false ≡ true = rw p at h in cc
]

pub Ends-append : (blank a t : Text) → Ends blank t → Ends blank (a ++ t)
unfolding trim_end
Ends-append blank [] t h = h
Ends-append blank (c ∷ cs) t h =
    let (e, f) = Ends-append blank cs t h in (rw (e, f) (rw (and_false (is_space c)) refl), refl)

pub Ends-pin : (blank pin : Text) → IsBlank blank → IsPin pin → Ends blank pin
Ends-pin blank [] b (l, h) = absurd (omega (arith, l))
Ends-pin blank (c ∷ cs) b (l, h) = (trim_end-hex blank (c ∷ cs) b h, refl)

pub trim_start-blank :
    (blank : Text) (c : ℕ) (cs : Text)
    → IsBlank blank
    → is_space c ≡ false
    → trim_start (blank ++ c ∷ cs) ≡ c ∷ cs
unfolding trim_start
trim_start-blank [] c cs b h = rw h refl
trim_start-blank (x ∷ xs) c cs (p, b) h = rw p (trim_start-blank xs c cs b h)
