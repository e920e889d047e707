-- ===== src/Pill.antt =====
-- frontend/src/components/ConnectionPill.tsx: the state of the link in the title bar.
use Prim.Native.String.{String}
use text.Mathlib.Text.{◌==◌ as str_eq}
use proxyforward.Common.{
  ℕ, ◌≤◌, ◌≡◌, ◌↔◌, ◌⊎◌, refl, sym, ap, ◌∙◌, Bool, true, false, not, ◌&&◌, ◌||◌, List, [], ◌∷◌, inl,
  inr, arith,
}
use proxyforward.Common.Tests.{if◌then◌else◌, ltb, ◌==◌, Bool-cases}
use proxyforward.Common.Lists.{length, All, All-map}
use proxyforward.State.{Tone, good, warn, bad, worst_health}
use proxyforward.State.Health.{tone_of, rank, Some, worst_health-IsWorst}
use proxyforward.Status.{Status}

-- What the pill says, with its number of agents
pub data Label : Type 0 where
  syncing connected reconnecting waiting agent_online : Label
  agents_online : ℕ → Label

abbrev pub is_agent : Status → Bool
is_agent s = str_eq s.role "agent"

-- `up`
abbrev pub is_up : Status → Bool
is_up s = if is_agent s then s.link_up else s.agent_connected

abbrev pub fleet_label : List String → Label
fleet_label [] = waiting
fleet_label (a ∷ []) = agent_online
fleet_label (a ∷ b ∷ rest) = agents_online (length (a ∷ b ∷ rest))

-- `label`, when the snapshots come in
unfoldable pub label : Status → Label
label s = if is_agent s then (if is_up s then connected else reconnecting) else fleet_label s.agents

-- The tone of the agent's own link
abbrev pub own_tone : String → Tone
own_tone score = if str_eq score "warn" then warn else if str_eq score "bad" then bad else good

-- `tone`
unfoldable pub tone : Status → Tone
tone s =
    if not (is_up s)
    then (if is_agent s then bad else warn)
    else if is_agent s
    then own_tone s.health_score
    else worst_health s.agents

-- `showTail`
unfoldable pub show_tail : Status → Bool
show_tail s = is_up s && (is_agent s || length s.agents == 1)

-- `showLoss`, for a loss in any unit
unfoldable pub show_loss : Status → ℕ → Bool
unfolding show_tail
show_loss s loss = show_tail s && ltb 0 loss

-- One agent, named or not
fleet-single : (rest : List String) → (length rest == 1) ≡ true → fleet_label rest ≡ agent_online
fleet-single [] h = let clash : false ≡ true = h in cc
fleet-single (a ∷ []) h = refl
fleet-single (a ∷ b ∷ rest) h = absurd (ground (arith, h))

-- What is shown of one link is shown only where the pill names one: the agent's own that is up, or
-- the only agent of a gateway.
pub show_tail-single :
    (s : Status) → show_tail s ≡ true → (label s ≡ connected) ⊎ (label s ≡ agent_online)
unfolding show_tail label
show_tail-single s h = elim (Bool-cases (is_agent s)) [
  | inl e ↦ let up : s.link_up ≡ true = ground (arith, e, h) in inl (rw (e, up) refl)
  | inr e ↦
      let one : (length s.agents == 1) ≡ true = ground (arith, e, h) in
      inr (rw e (fleet-single s.agents one))
]

rank-zero : (t : Tone) → rank t ≤ 0 → t ≡ good
rank-zero good h = refl
rank-zero warn h = absurd (omega arith)
rank-zero bad h = absurd (omega arith)

Some-good :
    (t : Tone) (scores : List String)
    → All (λ a. tone_of a ≡ good) scores
    → Some (λ a. tone_of a ≡ t) scores
    → t ≡ good
Some-good t [] h x = absurd x
Some-good t (a ∷ rest) (g, h) (inl e) = sym e ∙ g
Some-good t (a ∷ rest) (g, h) (inr e) = Some-good t rest h e

fleet-good :
    (scores : List String) → (worst_health scores ≡ good) ↔ All (λ a. tone_of a ≡ good) scores
fleet-good scores =
    let worst = worst_health-IsWorst scores in
    (
      λ e. All-map (λ a l. rank-zero (tone_of a) (omega (arith, ap rank e))) scores worst.covers,
      λ h. elim worst.attained [ inl e ↦ e | inr e ↦ Some-good (worst_health scores) scores h e ],
    )

tone-fleet :
    (s : Status) → is_agent s ≡ false → s.agent_connected ≡ true → tone s ≡ worst_health s.agents
unfolding tone
tone-fleet s gate up = rw (gate, up) refl

-- The dot of a gateway whose link is up is good exactly when no agent has a score of warn, bad or
-- unknown.
pub tone-good_iff :
    (s : Status)
    → is_agent s ≡ false
    → s.agent_connected ≡ true
    → (tone s ≡ good) ↔ All (λ a. tone_of a ≡ good) s.agents
tone-good_iff s gate up =
    let fleet = fleet-good s.agents in
    (λ e. fleet.0 (sym (tone-fleet s gate up) ∙ e), λ h. tone-fleet s gate up ∙ fleet.1 h)
