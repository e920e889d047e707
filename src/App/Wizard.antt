-- ===== src/App/Wizard.antt =====
-- The hold of the set-up wizard in frontend/src/App.tsx: the wizard takes the stage when the backend
-- asks for it, when a pairing link comes in or when the console reopens it, and hands over by
-- `finishWizard`. A link is the text that the backend passes on; the view transition of the
-- hand-over only animates it.
use Prim.Native.String.{String}
use text.Mathlib.Text.{◌==◌ as str_eq}
use proxyforward.Common.{
  ◌≡◌, ◌⊎◌, refl, sym, ◌∙◌, Bool, true, false, not, ◌&&◌, ◌||◌, Option, none, some, inl, inr,
}
use proxyforward.Common.Tests.{if◌then◌else◌, Bool-cases}
use proxyforward.Status.{Status}

-- `backendWizard`
abbrev pub backend_wizard : Option Status → Bool
backend_wizard none = false
backend_wizard (some s) = str_eq s.mode "wizard" || str_eq s.role ""

-- The state of `App` that decides on the stage.
pub record Stage : Type 0 where
  pub status : Option Status
  pub hold : Bool
  pub deep_link : String

-- The effect after a reading, which runs when `backendWizard` has changed.
unfoldable pub hold_on : Bool → Stage → Stage
hold_on before s = if backend_wizard s.status && not before then record s { hold = true } else s

-- A reading of the status.
unfoldable pub tick : Option Status → Stage → Stage
unfolding hold_on
tick status s = hold_on (backend_wizard s.status) (record s { status = status })

-- A pairing link that came with the start; the empty text is none.
unfoldable pub drain_link : String → Stage → Stage
drain_link url s = if str_eq url "" then s else record s { deep_link = url; hold = true }

-- A pairing link that comes later.
unfoldable pub warm_link : String → Stage → Stage
warm_link url s = record s { deep_link = url; hold = true }

-- `onPair`
unfoldable pub pair : Stage → Stage
pair s = record s { hold = true }

-- `finishWizard`
unfoldable pub finish_wizard : Stage → Stage
finish_wizard s = record s { deep_link = ""; hold = false }

-- What `App` shows.
pub data View : Type 0 where
  spinner wizard console : View

abbrev pub stage_view : Bool → Bool → View
stage_view backend hold = if backend || hold then wizard else console

-- The stage for a status that is known, or not yet.
abbrev pub view_of : Option Status → Bool → View
view_of none hold = spinner
view_of (some status) hold = stage_view (backend_wizard (some status)) hold

unfoldable pub view : Stage → View
view s = view_of s.status s.hold

-- What may happen before the wizard hands over.
pub data Step (s : Stage) : Stage → Type 0 where
  ticked : (status : Option Status) → Step s (tick status s)
  drained : (url : String) → Step s (drain_link url s)
  linked : (url : String) → Step s (warm_link url s)
  paired : Step s (pair s)

pub data Reach (s : Stage) : Stage → Type 0 where
  here : Reach s s
  next : {t u : Stage} → Reach s t → Step t u → Reach s u

-- The wizard of the backend is held.
abbrev pub Holds : Stage → Type 0
Holds s = backend_wizard s.status ≡ true → s.hold ≡ true

-- The page has just come up.
abbrev pub blank : Stage
blank = record { status = none; hold = false; deep_link = "" }

tick-Holds : (status : Option Status) (s : Stage) → Holds s → Holds (tick status s)
unfolding tick hold_on
tick-Holds status s h = elim (Bool-cases (backend_wizard status)) [
  | inr off ↦ rw off (λ e. let clash : true ≡ false = sym e ∙ off in cc)
  | inl on ↦ elim (Bool-cases (backend_wizard s.status)) [
    | inl was ↦ rw (on, was) (λ e. h was)
    | inr was ↦ rw (on, was) (λ e. refl)
  ]
]

drain_link-Holds : (url : String) (s : Stage) → Holds s → Holds (drain_link url s)
unfolding drain_link
drain_link-Holds url s h = elim (Bool-cases (str_eq url "")) [
  | inl e ↦ rw e h
  | inr e ↦ rw e (λ b. refl)
]

Step-Holds : {s t : Stage} → Step s t → Holds s → Holds t
Step-Holds {s} (ticked status) h = tick-Holds status s h
Step-Holds {s} (drained url) h = drain_link-Holds url s h
Step-Holds (linked url) h = unfold warm_link in λ e. refl
Step-Holds paired h = unfold pair in λ e. refl

Reach-Holds : {s : Stage} → Reach blank s → Holds s
Reach-Holds here = λ e. cc
Reach-Holds (next r step) = Step-Holds step (Reach-Holds r)

tick-hold : (status : Option Status) (s : Stage) → s.hold ≡ true → (tick status s).hold ≡ true
unfolding tick hold_on
tick-hold status s h = elim (Bool-cases (backend_wizard status && not (backend_wizard s.status))) [
  | inl e ↦ rw e refl
  | inr e ↦ rw e h
]

drain_link-hold : (url : String) (s : Stage) → s.hold ≡ true → (drain_link url s).hold ≡ true
unfolding drain_link
drain_link-hold url s h = elim (Bool-cases (str_eq url "")) [ inl e ↦ rw e h | inr e ↦ rw e refl ]

Step-hold : {s t : Stage} → Step s t → s.hold ≡ true → t.hold ≡ true
Step-hold {s} (ticked status) h = tick-hold status s h
Step-hold {s} (drained url) h = drain_link-hold url s h
Step-hold (linked url) h = unfold warm_link in refl
Step-hold paired h = unfold pair in refl

stage_view-held :
    (backend hold : Bool)
    → (backend ≡ true → hold ≡ true)
    → stage_view backend hold ≡ wizard
    → hold ≡ true
stage_view-held true hold h e = h refl
stage_view-held false true h e = refl
stage_view-held false false h e = cc

stage_view-hold : (backend : Bool) → stage_view backend true ≡ wizard
stage_view-hold true = refl
stage_view-hold false = refl

held_by_view :
    (status : Option Status) (hold : Bool)
    → (backend_wizard status ≡ true → hold ≡ true)
    → view_of status hold ≡ wizard
    → hold ≡ true
held_by_view none hold h e = cc
held_by_view (some status) hold h e = stage_view-held (backend_wizard (some status)) hold h e

view_by_hold :
    (status : Option Status) (hold : Bool)
    → hold ≡ true
    → (view_of status hold ≡ wizard) ⊎ (status ≡ none)
view_by_hold none hold h = inr refl
view_by_hold (some status) hold h = inl (rw h (stage_view-hold (backend_wizard (some status))))

-- From the start of the page on, before the wizard hands over: once it is shown, no reading, link
-- or other opening takes it from the stage while there is a status, not even the backend's leaving
-- of the set-up.
pub view-Step :
    {s t : Stage}
    → Reach blank s
    → Step s t
    → view s ≡ wizard
    → (view t ≡ wizard) ⊎ (t.status ≡ none)
unfolding view
view-Step {s} {t} r step e =
    view_by_hold t.status t.hold (Step-hold step (held_by_view s.status s.hold (Reach-Holds r) e))
