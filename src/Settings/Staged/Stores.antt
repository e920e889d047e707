-- ===== src/Settings/Staged/Stores.antt =====
-- What the settings screen (frontend/src/screens/Settings.tsx) shows against what the backend has,
-- where the backend answers, and where a token, a theme or an import changes what it has.
use mathlib.Core.Path.{subst}
use proxyforward.Common.{
  ℕ, zero, suc, List, [], ◌∷◌, ◌++◌, ◌≡◌, refl, sym, ◌∙◌, Bool, true, false, not, ◌||◌, Option,
  none, some,
}
use proxyforward.Common.Lists.{All, All-map, All-snoc}
use proxyforward.Common.Tests.{by_test, if◌then◌else◌}
use proxyforward.Common.Decimal.{Text, codes, text_eq}
use proxyforward.Settings.{Config}
use proxyforward.Settings.Staged.{
  Save, idle, sending, restarting, Settings, reload, answer_with, reloaded, fail_reload, new_token,
  rotated, imported,
}

-- The theme and the token are stored apart from the rest.
abbrev pub but_own : Config → Config
but_own c = record c { ui = record c.ui { theme = [] }; gateway = record c.gateway { token = [] } }

abbrev pub IsStored : Option Config → Config → Type 0
IsStored none stored = Unit
IsStored (some c) stored = but_own c ≡ but_own stored

-- The same, but for an import that has not been read
abbrev pub Shows : Bool → Option Config → Config → Type 0
Shows true o stored = Unit
Shows false o stored = IsStored o stored

pub Shows-same :
    (u : Bool) (c stored : Config) → but_own c ≡ but_own stored → Shows u (some c) stored
Shows-same true c stored h = tt
Shows-same false c stored h = h

Shows-but_own :
    (u : Bool) (o : Option Config) (a b : Config)
    → but_own a ≡ but_own b
    → Shows u o a
    → Shows u o b
Shows-but_own true o a b e h = tt
Shows-but_own false none a b e h = tt
Shows-but_own false (some c) a b e h = h ∙ e

abbrev pub IsApplied : Bool → Save → Option Config → Config → Type 0
IsApplied u idle cfg stored = Unit
IsApplied u (sending out) cfg stored = Unit
IsApplied u restarting cfg stored = Shows u cfg stored

IsApplied-of :
    (u : Bool) (v : Save) (o : Option Config) (stored : Config)
    → Shows u o stored
    → IsApplied u v o stored
IsApplied-of u idle o stored h = tt
IsApplied-of u (sending out) o stored h = tt
IsApplied-of u restarting o stored h = h

IsApplied-but_own :
    (u : Bool) (v : Save) (o : Option Config) (a b : Config)
    → but_own a ≡ but_own b
    → IsApplied u v o a
    → IsApplied u v o b
IsApplied-but_own u idle o a b e h = tt
IsApplied-but_own u (sending out) o a b e h = tt
IsApplied-but_own u restarting o a b e h = Shows-but_own u o a b e h

abbrev pub runs : Save → Bool
runs idle = false
runs (sending out) = true
runs restarting = true

abbrev pub Brings : Config → List Config → Type 0
Brings stored cs = All (λ c. but_own c ≡ but_own stored) cs

-- Without unsaved changes the screen shows what is stored; it is saving as long as a save runs; and
-- the answers under way bring what is stored.
pub record IsClean (u : Bool) (s : Settings) : Type 0 where
  pub clean : s.dirty ≡ false → Shows u s.cfg s.stored
  pub applied : IsApplied u s.save s.cfg s.stored
  pub busy : s.saving ≡ runs s.save
  pub fresh : Brings s.stored s.answers

pub Brings-none : (stored : Config) (cs : List Config) → cs ≡ [] → Brings stored cs
Brings-none stored cs e = subst (Brings stored) (sym e) tt

Brings-out :
    (stored : Config) (before : List Config) (c : Config) (rest : List Config)
    → Brings stored (before ++ c ∷ rest)
    → Brings stored (before ++ rest) × (but_own c ≡ but_own stored)
Brings-out stored [] c rest (p, h) = (h, p)
Brings-out stored (b ∷ bs) c rest (p, h) =
    let (others, q) = Brings-out stored bs c rest h in ((p, others), q)

pub reloaded-IsClean :
    (u : Bool) (s : Settings) (before : List Config) (c : Config) (rest : List Config)
    → s.answers ≡ before ++ c ∷ rest
    → IsClean u s
    → IsClean false (reloaded (before ++ rest) c s)
unfolding reloaded
reloaded-IsClean u s before c rest e h =
    let (others, same) = Brings-out s.stored before c rest (subst (Brings s.stored) e h.fresh) in
    record {
      clean = λ d. same;
      applied = IsApplied-of false s.save (some c) s.stored same;
      busy = h.busy;
      fresh = others;
    }

pub answer_with-IsClean :
    (u : Bool) (n : ℕ) (s : Settings) → IsClean u s → IsClean u (answer_with n s)
answer_with-IsClean u zero s h = h
answer_with-IsClean u (suc n) s h = record {
  clean = h.clean;
  applied = h.applied;
  busy = h.busy;
  fresh = All-snoc _ s.answers s.stored h.fresh refl;
}

pub fail_reload-IsClean :
    (u : Bool) (n : ℕ) (e : Text) (s : Settings) → IsClean u s → IsClean u (fail_reload n e s)
fail_reload-IsClean u zero e s h = h
fail_reload-IsClean u (suc n) e s h = record {
  clean = h.clean;
  applied = h.applied;
  busy = h.busy;
  fresh = h.fresh;
}

pub reload-IsClean : (u : Bool) (s : Settings) → IsClean u s → IsClean u (reload s)
unfolding reload
reload-IsClean u s h = record {
  clean = h.clean;
  applied = h.applied;
  busy = h.busy;
  fresh = h.fresh;
}

-- The backend's own changes: what else is stored stays.
pub restored-IsClean :
    (u : Bool) (s : Settings) (c : Config)
    → but_own s.stored ≡ but_own c
    → IsClean u s
    → IsClean u (record s { stored = c })
restored-IsClean u s c e h = record {
  clean = λ d. Shows-but_own u s.cfg s.stored c e (h.clean d);
  applied = IsApplied-but_own u s.save s.cfg s.stored c e h.applied;
  busy = h.busy;
  fresh = All-map (λ a g. g ∙ e) s.answers h.fresh;
}

pub rotated-IsClean :
    (u written : Bool) (token : Text) (s : Settings)
    → IsClean u s
    → IsClean u (rotated written token s)
unfolding rotated
rotated-IsClean u written token s h =
    let kept : IsClean u (new_token token s) = restored-IsClean u s _ refl h in
    by_test (IsClean u) (s.attached || not (text_eq s.stored.role (codes "gateway"))) s
      (if written then reload (new_token token s) else new_token token s) (λ e. h)
      (λ e.
        by_test (IsClean u) written (reload (new_token token s)) (new_token token s)
          (λ d. reload-IsClean u (new_token token s) kept) (λ d. kept))

IsClean-unread : (u : Bool) (s : Settings) → IsClean u s → IsClean true s
IsClean-unread u s h = record {
  clean = λ d. tt;
  applied = IsApplied-of true s.save s.cfg s.stored tt;
  busy = h.busy;
  fresh = h.fresh;
}

pub imported-IsClean :
    (u : Bool) (c : Config) (s : Settings)
    → s.answers ≡ []
    → IsClean u s
    → IsClean true (imported c s)
unfolding imported
imported-IsClean u c s e h =
    let t : Settings = record s { stored = c } in
    by_test (IsClean true) s.attached s (reload t) (λ d. IsClean-unread u s h)
      (λ d. reload-IsClean true t (record {
        clean = λ g. tt;
        applied = IsApplied-of true s.save s.cfg c tt;
        busy = h.busy;
        fresh = Brings-none c s.answers e;
      }))
