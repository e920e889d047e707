-- ===== src/Dialogs.antt =====
-- The floats and dialogs of frontend/src/components/ui.tsx: where `Menu` and `Select` put their list,
-- and the exit of `Modal`, with the confirmation of frontend/src/components/RoleSwitcher.tsx in it.
-- Lengths are whole multiples of a fraction of a pixel, px of them to the pixel; the trigger is on the
-- screen.
use Prim.Native.String.{String}
use proxyforward.Common.{
  ℕ, zero, suc, ◌+◌, ◌-◌, ◌*◌, ◌≤◌, ◌<◌, ◌≡◌, ◌⊎◌, refl, Bool, true, false, ◌&&◌, none, some, arith,
  inl, inr,
}
use proxyforward.Common.Tests.{if◌then◌else◌, ltb, Bool-cases}
use proxyforward.Switcher.{Role, Switcher, Outcome, ok, error, dismiss, begin_switch, end_switch}

-- The rectangle of the trigger, from its top to its bottom
pub record Trigger : Type 0 where
  pub top : ℕ
  pub bottom : ℕ

-- `up` of `place`: there is less than 220 px below the trigger, and more above it.
unfoldable pub is_up : ℕ → ℕ → Trigger → Bool
is_up px height r = ltb height (r.bottom + 220 * px) && ltb height (r.top + r.bottom)

-- `maxHeight` of a `Menu`
unfoldable pub max_height : ℕ → ℕ → Trigger → ℕ
unfolding is_up
max_height px height r = if is_up px height r then r.top - 12 * px else height - r.bottom - 12 * px

-- The top of a list of some height: it ends 4 px above the trigger, or starts 4 px below it.
unfoldable pub list_top : ℕ → ℕ → Trigger → ℕ → ℕ
unfolding is_up
list_top px height r list = if is_up px height r then r.top - 4 * px - list else r.bottom + 4 * px

-- A menu that is no taller than its `maxHeight` is on the screen, 8 px from its edges, and apart from
-- its trigger, whenever there are 12 px above the trigger and below it; and it has 208 px for itself,
-- or all that the larger of the two sides has, less 12 px.
pub max_height-fits :
    (px height : ℕ) (r : Trigger) (list : ℕ)
    → r.top ≤ r.bottom
    → r.bottom + 12 * px ≤ height
    → 12 * px ≤ r.top
    → list ≤ max_height px height r
    → let top = list_top px height r list in
      (8 * px ≤ top)
      × (top + list + 8 * px ≤ height)
      × ((top + list + 4 * px ≤ r.top) ⊎ (r.bottom + 4 * px ≤ top))
      × ((208 * px ≤ max_height px height r)
          ⊎ ((r.top ≤ max_height px height r + 12 * px)
              × (height ≤ r.bottom + max_height px height r + 12 * px)))
unfolding max_height list_top is_up
max_height-fits px height r list ordered below above fits =
    elim (Bool-cases (ltb height (r.bottom + 220 * px))) [
      | inr roomy ↦
          let room : r.bottom + 220 * px ≤ height = ground (arith, roomy) in
          let h : list ≤ height - r.bottom - 12 * px = rw roomy at fits in
          rw roomy (omega arith, omega arith, inr (omega arith), inl (omega arith))
      | inl tight ↦ elim (Bool-cases (ltb height (r.top + r.bottom))) [
        | inr lower ↦
            let more : r.top + r.bottom ≤ height = ground (arith, lower) in
            let h : list ≤ height - r.bottom - 12 * px = rw (tight, lower) at fits in
            rw (tight, lower)
              (omega arith, omega arith, inr (omega arith), inr (omega arith, omega arith))
        | inl upper ↦
            let more : height < r.top + r.bottom = ground (arith, upper) in
            let h : list ≤ r.top - 12 * px = rw (tight, upper) at fits in
            rw (tight, upper)
              (omega arith, omega arith, inl (omega arith), inr (omega arith, omega arith))
      ]
    ]

-- `Modal`: whether it plays its exit, and how many timers of `begin` are to come
pub record Modal : Type 0 where
  pub closing : Bool
  pub timers : ℕ

-- The confirmation of the role switcher in its dialog
pub record Confirmation : Type 0 where
  pub modal : Modal
  pub switcher : Switcher

-- `begin`, by the Escape key, the scrim or the cross
unfoldable pub begin : Confirmation → Confirmation
begin c = record c { modal = record { closing = true; timers = suc c.modal.timers } }

-- The timer of `begin`, which calls `onClose`
unfoldable pub fire : Confirmation → Confirmation
fire c = elim c.modal.timers [
  | zero ↦ c
  | suc n ↦ record {
    modal = record { closing = c.modal.closing; timers = n };
    switcher = dismiss c.switcher;
  }
]

-- The end of `doSwitch`
unfoldable pub ended : Outcome Unit → Confirmation → Confirmation
ended o c = record c { switcher = end_switch o c.switcher }

-- The start of `doSwitch`, by the button of the dialog, which is disabled while one runs
unfoldable pub switches : Confirmation → Confirmation
switches c = record c { switcher = begin_switch c.switcher }

-- What can happen while the dialog is there
pub data Step (c : Confirmation) : Confirmation → Type 0 where
  begins : Step c (begin c)
  fires : Step c (fire c)
  starts : c.switcher.busy ≡ false → Step c (switches c)
  ends : (o : Outcome Unit) → c.switcher.busy ≡ true → Step c (ended o c)

pub data Reach (c : Confirmation) : Confirmation → Type 0 where
  here : Reach c c
  next : {u v : Confirmation} → Reach c u → Step u v → Reach c v

-- The dialog of a role that has faded out, or is gone
abbrev IsFaded : Role → Confirmation → Type 0
IsFaded r c =
    (c.modal.closing ≡ true) × ((c.switcher.confirm ≡ some r) ⊎ (c.switcher.confirm ≡ none))

dismiss-confirm :
    (r : Role) (w : Switcher)
    → (w.confirm ≡ some r) ⊎ (w.confirm ≡ none)
    → ((dismiss w).confirm ≡ some r) ⊎ ((dismiss w).confirm ≡ none)
unfolding dismiss
dismiss-confirm r w h = elim (Bool-cases w.busy) [
  | inl busy ↦ rw busy h
  | inr idle ↦ rw idle (inr refl)
]

fire-IsFaded : (r : Role) (c : Confirmation) → IsFaded r c → IsFaded r (fire c)
unfolding fire
fire-IsFaded r c (out, h) =
    elim c.modal.timers
      as (λ t. IsFaded r (elim t [
        | zero ↦ c
        | suc n ↦ record {
          modal = record { closing = c.modal.closing; timers = n };
          switcher = dismiss c.switcher;
        }
      ])) [ zero ↦ (out, h) | suc n ↦ (out, dismiss-confirm r c.switcher h) ]

ended-IsFaded :
    (r : Role) (o : Outcome Unit) (c : Confirmation) → IsFaded r c → IsFaded r (ended o c)
unfolding ended end_switch
ended-IsFaded r (ok u) c (out, h) = (out, inr refl)
ended-IsFaded r (error e) c h = h

Step-IsFaded : {c d : Confirmation} (r : Role) → Step c d → IsFaded r c → IsFaded r d
unfolding begin switches begin_switch
Step-IsFaded r begins (out, h) = (refl, h)
Step-IsFaded {c} r fires h = fire-IsFaded r c h
Step-IsFaded r (starts idle) h = h
Step-IsFaded {c} r (ends o busy) h = ended-IsFaded r o c h

Reach-IsFaded : {c d : Confirmation} (r : Role) → IsFaded r c → Reach c d → IsFaded r d
Reach-IsFaded r h here = h
Reach-IsFaded r h (next run s) = Step-IsFaded r s (Reach-IsFaded r h run)

-- A confirmation that is dismissed while its switch runs plays its exit but stays: when the switch
-- fails, the text of the error is in it, and no timer of that dismissal is to come. Whatever follows
-- while it is there - it is dismissed again, timers fire, the switch is tried again and ends - never
-- shows it again: it is still faded out, or it is gone.
pub begin-fire-stuck :
    (e : String) (r : Role) (c : Confirmation) {d : Confirmation}
    → c.switcher.busy ≡ true
    → c.switcher.confirm ≡ some r
    → Reach (ended (error e) (fire (begin c))) d
    → let n = ended (error e) (fire (begin c)) in
      (n.switcher.confirm ≡ some r)
      × (n.switcher.err ≡ e)
      × (n.modal.timers ≡ c.modal.timers)
      × (d.modal.closing ≡ true)
      × ((d.switcher.confirm ≡ some r) ⊎ (d.switcher.confirm ≡ none))
unfolding begin fire ended dismiss end_switch
begin-fire-stuck e r c busy shown run =
    let stays : (ended (error e) (fire (begin c))).switcher.confirm ≡ some r = rw busy shown in
    let (out, h) = Reach-IsFaded r (refl, inl stays) run in (stays, refl, refl, out, h)
