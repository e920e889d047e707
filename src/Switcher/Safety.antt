-- ===== src/Switcher/Safety.antt =====
-- The menu and the confirmation of frontend/src/components/RoleSwitcher.tsx, over any run of what the
-- user does under one status and one reading of the config.
use mathlib.Core.Path.{subst}
use proxyforward.Common.{
  suc, ◌≡◌, ◌⊎◌, refl, sym, ◌∙◌, true, false, not, ◌&&◌, Option, none, some, List, [], ◌∷◌, inl,
  inr, arith,
}
use proxyforward.Common.Tests.{if◌then◌else◌, by_test}
use proxyforward.Status.{Status}
use proxyforward.Switcher.{
  Role, agent, gateway, Config, Switcher, role_of, same_role, is_paired, is_attached, worn_role,
  preview, close, pick, toggle, dismiss, begin_switch, end_switch, Outcome, ok, error,
}

-- What the user does, and the end of a switch. The items of the menu are there while it is open, the
-- buttons of the confirmation while it is shown.
pub data Event : Type 0 where
  press leave closing cancel confirmed : Event
  enter : Role → Event
  choose : Role → Event
  ended : Outcome Unit → Event

abbrev pub confirmed_by : Option Role → Switcher → Switcher
confirmed_by none w = w
confirmed_by (some r) w = if w.busy then w else begin_switch w

unfoldable pub step : Status → Event → Switcher → Switcher
unfolding toggle close preview dismiss begin_switch end_switch
step s press w = toggle s w
step s closing w = close s w
step s leave w = if w.is_open then preview s none w else w
step s (enter r) w = if w.is_open then preview s (some r) w else w
step s (choose r) w = if w.is_open then pick s r w else w
step s cancel w = dismiss w
step s confirmed w = confirmed_by w.confirm w
step s (ended o) w = if w.busy then end_switch o w else w

unfoldable pub run : Status → List Event → Switcher → Switcher
unfolding step
run s [] w = w
run s (e ∷ es) w = run s es (step s e w)

-- A machine may be asked to become an agent when it is paired, and never what it is.
abbrev pub MayConfirm : Status → Option Config → Option Role → Type 0
MayConfirm s cfg none = Unit
MayConfirm s cfg (some r) =
    (same_role r (role_of s) ≡ false) × ((r ≡ gateway) ⊎ (is_paired cfg ≡ true))

-- The closed menu leaves the document with the role of the machine.
pub record IsSafe (s : Status) (cfg : Option Config) (w : Switcher) : Type 0 where
  pub config : w.cfg ≡ cfg
  pub worn : w.is_open ≡ false → w.worn ≡ worn_role s none
  pub confirm : MayConfirm s cfg w.confirm

close-IsSafe :
    (s : Status) (cfg : Option Config) (w : Switcher) → IsSafe s cfg w → IsSafe s cfg (close s w)
unfolding close preview
close-IsSafe s cfg w h = record { config = h.config; worn = λ e. refl; confirm = h.confirm }

toggle-IsSafe :
    (s : Status) (cfg : Option Config) (w : Switcher) → IsSafe s cfg w → IsSafe s cfg (toggle s w)
unfolding toggle preview
toggle-IsSafe s cfg w h =
    by_test (IsSafe s cfg) (is_attached s) w
      (if w.is_open
        then preview s none (record w { is_open = false })
        else record w { is_open = true })
      (λ e. h)
      (λ e.
        by_test (IsSafe s cfg) w.is_open (preview s none (record w { is_open = false }))
          (record w { is_open = true })
          (λ o. record { config = h.config; worn = λ c. refl; confirm = h.confirm })
          (λ o. record { config = h.config; worn = λ c. cc; confirm = h.confirm }))

may_become :
    (r : Role) (cfg : Option Config)
    → (same_role r agent && not (is_paired cfg)) ≡ false
    → (r ≡ gateway) ⊎ (is_paired cfg ≡ true)
may_become gateway cfg e = inl refl
may_become agent cfg e = inr (ground (arith, e))

pick-IsSafe :
    (s : Status) (cfg : Option Config) (r : Role) (w : Switcher)
    → IsSafe s cfg w
    → IsSafe s cfg (pick s r w)
unfolding pick close preview
pick-IsSafe s cfg r w h =
    let closed = close s w in
    by_test (IsSafe s cfg) (same_role r (role_of s)) closed
      (if same_role r agent && not (is_paired w.cfg)
        then record closed { pairings = suc closed.pairings }
        else record closed { err = ""; confirm = some r })
      (λ e. close-IsSafe s cfg w h)
      (λ other.
        by_test (IsSafe s cfg) (same_role r agent && not (is_paired w.cfg))
          (record closed { pairings = suc closed.pairings })
          (record closed { err = ""; confirm = some r })
          (λ e. record { config = h.config; worn = λ c. refl; confirm = h.confirm })
          (λ e. record {
            config = h.config;
            worn = λ c. refl;
            confirm = (
              other,
              may_become r cfg
                  (subst (λ c. (same_role r agent && not (is_paired c)) ≡ false) h.config e),
            );
          }))

dismiss-IsSafe :
    (s : Status) (cfg : Option Config) (w : Switcher) → IsSafe s cfg w → IsSafe s cfg (dismiss w)
unfolding dismiss
dismiss-IsSafe s cfg w h =
    by_test (IsSafe s cfg) w.busy w (record w { confirm = none; err = "" }) (λ e. h)
      (λ e. record { config = h.config; worn = h.worn; confirm = tt })

preview-IsSafe :
    (s : Status) (cfg : Option Config) (r : Option Role) (w : Switcher)
    → w.is_open ≡ true
    → IsSafe s cfg w
    → IsSafe s cfg (preview s r w)
unfolding preview
preview-IsSafe s cfg r w e h = record {
  config = h.config;
  worn = λ c. let clash : true ≡ false = sym e ∙ c in cc;
  confirm = h.confirm;
}

begin-IsSafe :
    (s : Status) (cfg : Option Config) (c : Option Role) (w : Switcher)
    → IsSafe s cfg w
    → IsSafe s cfg (confirmed_by c w)
unfolding begin_switch
begin-IsSafe s cfg none w h = h
begin-IsSafe s cfg (some r) w h =
    by_test (IsSafe s cfg) w.busy w (begin_switch w) (λ e. h)
      (λ e. record { config = h.config; worn = h.worn; confirm = h.confirm })

end-IsSafe :
    (s : Status) (cfg : Option Config) (o : Outcome Unit) (w : Switcher)
    → IsSafe s cfg w
    → IsSafe s cfg (end_switch o w)
unfolding end_switch
end-IsSafe s cfg (ok u) w h = record { config = h.config; worn = h.worn; confirm = tt }
end-IsSafe s cfg (error e) w h = record { config = h.config; worn = h.worn; confirm = h.confirm }

step-IsSafe :
    (s : Status) (cfg : Option Config) (e : Event) (w : Switcher)
    → IsSafe s cfg w
    → IsSafe s cfg (step s e w)
unfolding step
step-IsSafe s cfg press w h = toggle-IsSafe s cfg w h
step-IsSafe s cfg closing w h = close-IsSafe s cfg w h
step-IsSafe s cfg leave w h =
    by_test (IsSafe s cfg) w.is_open (preview s none w) w (λ o. preview-IsSafe s cfg none w o h)
      (λ o. h)
step-IsSafe s cfg (enter r) w h =
    by_test (IsSafe s cfg) w.is_open (preview s (some r) w) w
      (λ o. preview-IsSafe s cfg (some r) w o h) (λ o. h)
step-IsSafe s cfg (choose r) w h =
    by_test (IsSafe s cfg) w.is_open (pick s r w) w (λ o. pick-IsSafe s cfg r w h) (λ o. h)
step-IsSafe s cfg cancel w h = dismiss-IsSafe s cfg w h
step-IsSafe s cfg confirmed w h = begin-IsSafe s cfg w.confirm w h
step-IsSafe s cfg (ended o) w h =
    by_test (IsSafe s cfg) w.busy (end_switch o w) w (λ b. end-IsSafe s cfg o w h) (λ b. h)

-- Over any run of events under one status and one reading of the config, from a state that is so: a
-- closed menu leaves the document with the machine's own role, never a previewed one; a role that
-- waits for its confirmation is not the machine's own, and is the agent's only if it is paired.
pub run-IsSafe :
    (s : Status) (cfg : Option Config) (es : List Event) (w : Switcher)
    → IsSafe s cfg w
    → IsSafe s cfg (run s es w)
unfolding run
run-IsSafe s cfg [] w h = h
run-IsSafe s cfg (e ∷ es) w h = run-IsSafe s cfg es (step s e w) (step-IsSafe s cfg e w h)
