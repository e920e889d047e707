-- ===== src/Switcher/Calls.antt =====
-- The calls of `doSwitch` in frontend/src/components/RoleSwitcher.tsx, and what the confirmation
-- shows after them.
use Prim.Native.String.{String}
use proxyforward.Common.{
  ◌≡◌, ◌↔◌, refl, sym, ◌∙◌, Bool, true, false, ◌||◌, none, some, List, [], ◌∷◌,
}
use proxyforward.Switcher.{
  Role, agent, gateway, Config, Switcher, Outcome, ok, error, Backend, Call, getting, setting_up,
  saving, restarting, then_restart, switch_after, switch_calls, begin_switch, end_switch,
}

abbrev pub is_restart : Call → Bool
is_restart restarting = true
is_restart getting = false
is_restart (setting_up host) = false
is_restart (saving c) = false

abbrev pub restarts : List Call → Bool
restarts [] = false
restarts (c ∷ cs) = is_restart c || restarts cs

-- The config that a switch to agent saves is the stored one with its role changed.
abbrev pub SavedAgent : Backend → Outcome Config → Type 0
SavedAgent b (ok c) = b.save_settings (record c { role = "agent" }) ≡ ok tt
SavedAgent b (error e) = ⊥

restart_saved :
    (b : Backend) (saved : Outcome Unit) → restarts (then_restart b saved).0 ≡ true → saved ≡ ok tt
restart_saved b (ok u) h = refl
restart_saved b (error e) h = cc

after_saved :
    (b : Backend) (target : Role) (o : Outcome Config)
    → restarts (switch_after b target o).0 ≡ true
    → (target ≡ agent) × SavedAgent b o
after_saved b target (error e) h = cc
after_saved b gateway (ok c) h = cc
after_saved b agent (ok c) h =
    (refl, restart_saved b (b.save_settings (record c { role = "agent" })) h)

-- The engine is restarted by a switch to agent alone, and only after the stored config, with no
-- change but its role, has been saved.
pub switch_calls-saved :
    (b : Backend) (target : Role)
    → restarts (switch_calls b target).0 ≡ true
    → (target ≡ agent) × SavedAgent b b.get_config
unfolding switch_calls
switch_calls-saved b target h = after_saved b target b.get_config h

-- A switch that ends is no longer busy, and its confirmation goes exactly when every call succeeded;
-- when one failed it stays, with the text of the error.
pub end_switch_lem :
    (o : Outcome Unit) (r : Role) (w : Switcher)
    → w.confirm ≡ some r
    → let n = end_switch o (begin_switch w) in
      (n.busy ≡ false)
      × ((n.confirm ≡ none) ↔ (o ≡ ok tt))
      × ((e : String) → o ≡ error e → (n.err ≡ e) × (n.confirm ≡ some r))
unfolding end_switch begin_switch
end_switch_lem (ok u) r w h = (refl, (λ e. refl, λ e. refl), λ e f. cc)
end_switch_lem (error t) r w h =
    (refl, (λ e. let clash : some r ≡ none = sym h ∙ e in cc, λ e. cc), λ e f. (cc, h))
