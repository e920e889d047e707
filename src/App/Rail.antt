-- ===== src/App/Rail.antt =====
-- The screen that frontend/src/App.tsx shows, against the rail of the role.
use Prim.Native.String.{String}
use text.Mathlib.Text.{◌==◌ as str_eq}
use proxyforward.Common.{
  ℕ, zero, suc, ◌≡◌, refl, sym, ap, ◌∙◌, true, false, some, [], ◌∷◌, arith, inl, inr,
}
use proxyforward.Common.Tests.{==_iff, Bool-cases}
use proxyforward.Common.Lists.{get_elem?, All}
use proxyforward.Common.Decimal.{Text, decimal, IsDigit, decimal-IsDigit}
use proxyforward.Nav.{
  NavId, overview, agents, traffic, players, analytics, tunnels, activity, settings, NavItem,
  main_nav, settings_nav, nav_for, id_code, same_id,
}
use proxyforward.Nav.Laws.{nav_for-shortcut}
use proxyforward.App.{has_screen, fall_back, Console, go, is_k, key_down}

-- The screen is one that the role has.
abbrev pub IsInRail : String → NavId → Type 0
IsInRail role nav = has_screen (nav_for role) nav ≡ true

abbrev Settles : String → NavId → Type 0
Settles role nav =
    IsInRail role (fall_back role nav) × (IsInRail role nav → fall_back role nav ≡ nav)

gateway : (role : String) (nav : NavId) → str_eq "gateway" role ≡ true → Settles role nav
unfolding fall_back main_nav nav_for settings_nav
gateway role overview p = (refl, λ h. refl)
gateway role agents p = rw p (refl, λ h. refl)
gateway role traffic p = rw p (refl, λ h. refl)
gateway role players p = rw p (refl, λ h. refl)
gateway role analytics p = rw p (refl, λ h. refl)
gateway role tunnels p = rw p (refl, λ h. refl)
gateway role activity p = rw p (refl, λ h. refl)
gateway role settings p = rw p (refl, λ h. refl)

other : (role : String) (nav : NavId) → str_eq "gateway" role ≡ false → Settles role nav
unfolding fall_back main_nav nav_for settings_nav
other role overview p = (refl, λ h. refl)
other role agents p = rw p (refl, λ h. cc)
other role traffic p = rw p (refl, λ h. refl)
other role players p = rw p (refl, λ h. refl)
other role analytics p = rw p (refl, λ h. refl)
other role tunnels p = rw p (refl, λ h. refl)
other role activity p = rw p (refl, λ h. refl)
other role settings p = rw p (refl, λ h. refl)

-- After the effect the screen is one of the rail, whatever the role has become; a screen of the
-- rail is not left.
pub fall_back-IsInRail :
    (role : String) (nav : NavId)
    → IsInRail role (fall_back role nav) × (IsInRail role nav → fall_back role nav ≡ nav)
fall_back-IsInRail role nav = elim (Bool-cases (str_eq "gateway" role)) [
  | inl p ↦ gateway role nav p
  | inr p ↦ other role nav p
]

-- The screen of a place in `NavId`.
abbrev screen : ℕ → NavId
screen zero = overview
screen (suc zero) = agents
screen (suc (suc zero)) = traffic
screen (suc (suc (suc zero))) = players
screen (suc (suc (suc (suc zero)))) = analytics
screen (suc (suc (suc (suc (suc zero))))) = tunnels
screen (suc (suc (suc (suc (suc (suc zero)))))) = activity
screen _ = settings

screen-id_code : (n : NavId) → screen (id_code n) ≡ n
screen-id_code overview = refl
screen-id_code agents = refl
screen-id_code traffic = refl
screen-id_code players = refl
screen-id_code analytics = refl
screen-id_code tunnels = refl
screen-id_code activity = refl
screen-id_code settings = refl

nav-go : (id : NavId) (c : Console) → go id c ≡ record c { nav = id }
unfolding go
nav-go id c = elim (Bool-cases (same_id id c.nav)) [
  | inl e ↦
      let here : id ≡ c.nav =
        sym (screen-id_code id) ∙ ap screen ((==_iff _ _).0 e) ∙ screen-id_code c.nav in
      rw (e, here) refl
  | inr e ↦ rw e refl
]

not_k : (t : Text) → All IsDigit t → is_k t ≡ false
not_k [] h = refl
not_k (c ∷ []) (p, tt) = ground arith
not_k (c ∷ d ∷ t) h = refl

-- Ctrl and the digit of a place of the rail lead to the screen at that place, and leave the
-- palette as it is.
pub key_down-shortcut :
    (role : String) (k : ℕ) (c : Console) {n : NavItem}
    → get_elem? (nav_for role) k ≡ some n
    → key_down role (record { ctrl = true; alt = false; meta = false; key = decimal (suc k) }) c
      ≡ record c { nav = n.id }
unfolding key_down
key_down-shortcut role k c {n} h =
    rw (not_k (decimal (suc k)) (decimal-IsDigit (suc k)), (nav_for-shortcut role k h).1)
      (nav-go n.id c)
