-- ===== src/Settings/Folded.antt =====
-- The defaults that `save` of frontend/src/screens/Settings.tsx puts into empty fields are those
-- that the fields showed.
use proxyforward.Common.{ℕ, zero, suc, ◌≡◌, refl, true, false, ◌&&◌, List, [], ◌∷◌, map, inl, inr}
use proxyforward.Common.Tests.{and_false, if◌then◌else◌, Bool-cases, by_test}
use proxyforward.Common.Lists.{All}
use proxyforward.Common.Int.{ℤ, pos, negsuc, is_positive}
use proxyforward.Common.Decimal.{Text, decimal}
use proxyforward.Common.Texts.{trim, trim_start, trim_end, is_empty}
use proxyforward.Settings.{Config, MetricsConfig, def, num_str, or_number, or_addr, folded}

-- A field of a number with its placeholder
pub record Number : Type 0 where
  pub value : ℤ
  pub placeholder : ℕ

abbrev pub numbers : Config → List Number
numbers c =
    (record { value = c.agent.gateway_port; placeholder = def.control_port })
    ∷ (record { value = c.gateway.control_port; placeholder = def.control_port })
    ∷ (record { value = c.gateway.max_conns_global; placeholder = def.max_conns_global })
    ∷ (record { value = c.gateway.max_conns_per_ip; placeholder = def.max_conns_per_ip })
    ∷ (record { value = c.gateway.auth_attempts_per_min; placeholder = def.auth_attempts_per_min })
    ∷ (record { value = c.analytics.retention_days; placeholder = def.retention_days })
    ∷ []

-- What is seen in a field
abbrev pub seen : Number → Text
seen f = if is_empty (num_str f.value) then decimal f.placeholder else num_str f.value

abbrev pub IsNatural : Number → Type 0
IsNatural f = (n : ℕ) × (f.value ≡ pos n)

seen-or_number :
    (v : ℤ) (n d : ℕ)
    → v ≡ pos n
    → seen (record { value = or_number v (suc d); placeholder = suc d })
      ≡ seen (record { value = v; placeholder = suc d })
unfolding num_str
seen-or_number v zero d e =
    simp e
      (elim (Bool-cases (is_empty (decimal (suc d)))) [ inl f ↦ rw f refl | inr f ↦ rw f refl ])
seen-or_number v (suc n) d e = simp e refl

positive-or_number : (v : ℤ) (n d : ℕ) → v ≡ pos n → is_positive (or_number v (suc d)) ≡ true
positive-or_number v zero d e = simp e refl
positive-or_number v (suc n) d e = simp e refl

-- An address is there where the endpoint is on.
abbrev pub IsServed : MetricsConfig → Type 0
IsServed m = m.prometheus_enabled && is_empty (trim m.prometheus_addr) ≡ false

or_addr-IsServed : (m : MetricsConfig) → IsServed (or_addr m)
unfolding trim trim_start trim_end
or_addr-IsServed m =
    by_test IsServed (m.prometheus_enabled && is_empty (trim m.prometheus_addr))
      (record m { prometheus_addr = def.prometheus_addr }) m (λ e. and_false m.prometheus_enabled)
      (λ e. e)

-- Where no number is negative: what is sent has a positive number in each field, and an address for
-- the endpoint that is on; and the fields of the numbers show what they showed, as a value or as a
-- placeholder.
pub folded-Shows :
    (c : Config)
    → All IsNatural (numbers c)
    → (map seen (numbers (folded c)) ≡ map seen (numbers c))
      × All (λ f. is_positive f.value ≡ true) (numbers (folded c))
      × IsServed (folded c).metrics
unfolding folded
folded-Shows c ((a, h), ((b, i), ((d, j), ((e, k), ((f, l), ((g, m), z)))))) = (
  rw
      (
        seen-or_number c.agent.gateway_port a 8473 h,
        seen-or_number c.gateway.control_port b 8473 i,
        seen-or_number c.gateway.max_conns_global d 4095 j,
        seen-or_number c.gateway.max_conns_per_ip e 31 k,
        seen-or_number c.gateway.auth_attempts_per_min f 9 l,
        seen-or_number c.analytics.retention_days g 179 m,
      )
      refl,
  (
    positive-or_number c.agent.gateway_port a 8473 h,
    (
      positive-or_number c.gateway.control_port b 8473 i,
      (
        positive-or_number c.gateway.max_conns_global d 4095 j,
        (
          positive-or_number c.gateway.max_conns_per_ip e 31 k,
          (
            positive-or_number c.gateway.auth_attempts_per_min f 9 l,
            (positive-or_number c.analytics.retention_days g 179 m, tt),
          ),
        ),
      ),
    ),
  ),
  or_addr-IsServed c.metrics,
)

-- A negative number shows as a field that is empty, with its placeholder, but is sent as it is.
pub folded-negative :
    (c : Config) (n : ℕ)
    → c.gateway.max_conns_global ≡ negsuc n
    → (num_str c.gateway.max_conns_global ≡ []) × ((folded c).gateway.max_conns_global ≡ negsuc n)
unfolding folded num_str
folded-negative c n e = simp e (refl, refl)
