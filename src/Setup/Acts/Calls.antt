-- ===== src/Setup/Acts/Calls.antt =====
-- The calls of the wizard (frontend/src/screens/Wizard.tsx) along its runs.
use mathlib.Core.Path.{subst}
use proxyforward.Common.{
  ℕ, zero, suc, ◌≡◌, ◌⊎◌, refl, ap, sym, ◌∙◌, Bool, true, false, ◌&&◌, Option, none, some, List, [],
  ◌∷◌, ◌++◌, inl, inr,
}
use proxyforward.Common.Tests.{if◌then◌else◌, Bool-cases, by_test}
use proxyforward.Common.Lists.{get_elem?}
use proxyforward.Common.Int.{ℤ, pos, negsuc}
use proxyforward.Common.Decimal.{Text, codes}
use proxyforward.Common.Texts.{
  trim, trim_start, trim_end, is_space, is_empty, parse_int, starts_with,
}
use proxyforward.Common.Maps.{is_some}
use proxyforward.Setup.{parse_pairing}
use proxyforward.Setup.Ticket.{remove_at}
use proxyforward.Setup.Acts.{
  Act, role, gateway, agent, import_backup, live, Kind, as_gateway, as_agent, Call, setup_gateway,
  setup_agent, Wizard, start, or_default, do_gateway, do_agent, succeed, fail, deep_link, choose,
  back, back_from_live, leave_live, start_gateway, enter, connect,
}

-- Trimmed text is left as it is.
solid_or_empty :
    (t : Text)
    → (trim_start t ≡ []) ⊎ ((c : ℕ) × (cs : Text) × (trim_start t ≡ c ∷ cs) × (is_space c ≡ false))
unfolding trim_start
solid_or_empty [] = inl refl
solid_or_empty (c ∷ cs) = elim (Bool-cases (is_space c)) [
  | inl e ↦ rw e (solid_or_empty cs)
  | inr e ↦ rw e (inr (c, cs, refl, e))
]

trim_end-trim_end : (t : Text) → trim_end (trim_end t) ≡ trim_end t
unfolding trim_end
trim_end-trim_end [] = refl
trim_end-trim_end (c ∷ cs) = elim (Bool-cases (is_space c && is_empty (trim_end cs))) [
  | inl e ↦ rw e refl
  | inr e ↦ rw e (rw (trim_end-trim_end cs) (rw e refl))
]

pub trim-trim : (t : Text) → trim (trim t) ≡ trim t
unfolding trim
trim-trim t = elim (solid_or_empty t) [
  | inl e ↦ rw e (unfold trim_end trim_start in refl)
  | inr (c, cs, e, solid) ↦
      let kept : trim_end (c ∷ cs) ≡ c ∷ trim_end cs = unfold trim_end in rw solid refl in
      rw (e, kept)
        (let same : trim_start (c ∷ trim_end cs) ≡ c ∷ trim_end cs =
            unfold trim_start in rw solid refl in
          rw same (ap trim_end (sym kept) ∙ (trim_end-trim_end (c ∷ cs) ∙ kept)))
]

parse_pairing-trim : (t : Text) → parse_pairing (trim t) ≡ parse_pairing t
unfolding parse_pairing
parse_pairing-trim t = rw (trim-trim t) refl

abbrev pub is_zero : ℤ → Bool
is_zero (pos zero) = true
is_zero (pos (suc n)) = false
is_zero (negsuc n) = false

-- A call that may be made: the code of an agent is one that the screen has read, and its port is
-- not 0.
abbrev pub IsCall : Call → Type 0
IsCall (setup_gateway host) = Unit
IsCall (setup_agent code local port) =
    (is_some (parse_pairing code) ≡ true) × (is_zero port ≡ false)

or_default-ne : (o : Option ℤ) → is_zero (or_default o) ≡ false
or_default-ne none = refl
or_default-ne (some (pos zero)) = refl
or_default-ne (some (pos (suc n))) = refl
or_default-ne (some (negsuc n)) = refl

-- What may happen; Enter is pressed only when no call is under way.
pub data Step (s : Wizard) : Wizard → Type 0 where
  chosen : (a : Act) → Step s (choose a s)
  went_back : Step s (back s)
  left_live : Step s (back_from_live s)
  linked : (link : Text) → Step s (deep_link link s)
  typed_host : (t : Text) → Step s (record s { public_host = t })
  typed_pairing : (t : Text) → Step s (record s { pairing = t })
  typed_local : (t : Text) → Step s (record s { local_addr = t })
  typed_port : (t : Text) → Step s (record s { public_port = t })
  started : Step s (start_gateway s)
  entered : s.busy ≡ false → Step s (enter s)
  connected : Step s (connect s)
  answered :
      (i : ℕ) (c : Call)
      → get_elem? s.pending i ≡ some c
      → Step s (succeed c (record s { pending = remove_at s.pending i }))
  failed :
      (i : ℕ) (c : Call) (e : Text)
      → get_elem? s.pending i ≡ some c
      → Step s (fail e (record s { pending = remove_at s.pending i }))

pub data Reach : Wizard → Type 0 where
  first : Reach start
  next : {s t : Wizard} → Reach s → Step s t → Reach t

-- The calls under way, and the flag of it
abbrev pub IsOne : Bool → List Call → Type 0
IsOne busy [] = busy ≡ false
IsOne busy (c ∷ []) = (busy ≡ true) × IsCall c
IsOne busy (c ∷ d ∷ ds) = true ≡ false

idle : (busy : Bool) (cs : List Call) → busy ≡ false → IsOne busy cs → cs ≡ []
idle busy [] e h = refl
idle busy (c ∷ []) e (h, k) = let clash : true ≡ false = sym h ∙ e in cc
idle busy (c ∷ d ∷ ds) e h = cc

alone :
    (busy : Bool) (cs : List Call) (i : ℕ) (c : Call)
    → get_elem? cs i ≡ some c
    → IsOne busy cs
    → remove_at cs i ≡ []
alone busy [] i c e h = refl
alone busy (c ∷ []) zero d e h = refl
alone busy (c ∷ []) (suc i) d e h = let clash : none ≡ some d = e in cc
alone busy (c ∷ d ∷ ds) i e f h = cc

abbrev Kept : Wizard → Type 0
Kept s = IsOne s.busy s.pending

do_gateway-Kept : (s : Wizard) → s.busy ≡ false → Kept s → Kept (do_gateway s)
unfolding do_gateway
do_gateway-Kept s e h = simp (idle s.busy s.pending e h) (refl, tt)

do_agent-Kept :
    (s : Wizard)
    → s.busy ≡ false
    → is_some (parse_pairing s.pairing) ≡ true
    → Kept s
    → Kept (do_agent s)
unfolding do_agent
do_agent-Kept s e p h = simp (idle s.busy s.pending e h) (
  refl,
  (ap is_some (parse_pairing-trim s.pairing) ∙ p, or_default-ne (parse_int (trim s.public_port))),
)

start_gateway-Kept : (s : Wizard) → Kept s → Kept (start_gateway s)
unfolding start_gateway
start_gateway-Kept s h =
    elim s.act as (λ a. Kept (elim a [ gateway ↦ if s.busy then s else do_gateway s | _ ↦ s ])) [
      | gateway ↦ by_test Kept s.busy s (do_gateway s) (λ e. h) (λ e. do_gateway-Kept s e h)
      | _ ↦ h
    ]

enter-Kept : (s : Wizard) → s.busy ≡ false → Kept s → Kept (enter s)
unfolding enter
enter-Kept s e h = elim s.act as (λ a. Kept (elim a [ gateway ↦ do_gateway s | _ ↦ s ])) [
  | gateway ↦ do_gateway-Kept s e h
  | _ ↦ h
]

connect-Kept : (s : Wizard) → Kept s → Kept (connect s)
unfolding connect
connect-Kept s h =
    elim s.act
      as (λ a. Kept (elim a [
        | agent ↦ if s.busy then s else if is_some (parse_pairing s.pairing) then do_agent s else s
        | _ ↦ s
      ])) [
        | agent ↦
            by_test Kept s.busy s (if is_some (parse_pairing s.pairing) then do_agent s else s)
              (λ e. h)
              (λ e.
                by_test Kept (is_some (parse_pairing s.pairing)) (do_agent s) s
                  (λ p. do_agent-Kept s e p h) (λ p. h))
        | _ ↦ h
      ]

choose-Kept : (a : Act) (s : Wizard) → Kept s → Kept (choose a s)
unfolding choose
choose-Kept a s h =
    elim s.act as (λ b. Kept (elim b [ role ↦ record s { err = []; act = a } | _ ↦ s ])) [
      | role ↦ h
      | _ ↦ h
    ]

back-Kept : (s : Wizard) → Kept s → Kept (back s)
unfolding back
back-Kept s h =
    elim s.act as (λ b. Kept (elim b [ role ↦ s | live ↦ s | _ ↦ record s { act = role } ])) [
      | role ↦ h
      | live ↦ h
      | _ ↦ h
    ]

leave_live-Kept : (a : Act) (k : Kind) (s : Wizard) → Kept s → Kept (leave_live a k s)
leave_live-Kept live as_agent s h = h
leave_live-Kept live as_gateway s h = h
leave_live-Kept role k s h = h
leave_live-Kept gateway k s h = h
leave_live-Kept agent k s h = h
leave_live-Kept import_backup k s h = h

Step-Kept : {s t : Wizard} → Step s t → Kept s → Kept t
unfolding deep_link succeed fail back_from_live
Step-Kept {s = s} (chosen a) h = choose-Kept a s h
Step-Kept {s = s} went_back h = back-Kept s h
Step-Kept {s = s} left_live h = leave_live-Kept s.act s.kind s h
Step-Kept {s = s} (linked link) h =
    by_test Kept (starts_with (codes "pxf://") link)
      (record s { err = []; kind = as_agent; pairing = link; act = agent }) s (λ e. h) (λ e. h)
Step-Kept {s = s} (typed_host t) h = h
Step-Kept {s = s} (typed_pairing t) h = h
Step-Kept {s = s} (typed_local t) h = h
Step-Kept {s = s} (typed_port t) h = h
Step-Kept {s = s} started h = start_gateway-Kept s h
Step-Kept {s = s} (entered e) h = enter-Kept s e h
Step-Kept {s = s} connected h = connect-Kept s h
Step-Kept {s = s} (answered i c e) h = simp (alone s.busy s.pending i c e h) refl
Step-Kept {s = s} (failed i c err e) h = simp (alone s.busy s.pending i c e h) refl

-- Along any run in which Enter is pressed only while no call is under way: at most one call is, and
-- the wizard is busy exactly as long; and an agent is set up only with a code that the screen has
-- read, and a port that is not 0.
pub Reach-IsOne : {s : Wizard} → Reach s → IsOne s.busy s.pending
unfolding start
Reach-IsOne first = refl
Reach-IsOne (next r st) = Step-Kept st (Reach-IsOne r)

enter-do_gateway : (s : Wizard) → s.act ≡ gateway → enter s ≡ do_gateway s
unfolding enter
enter-do_gateway s e =
    subst (λ a. (elim a [ gateway ↦ do_gateway s | _ ↦ s ]) ≡ do_gateway s) (sym e) refl

-- Enter in the address of the gateway sets it up again while the first call is under way.
pub enter_twice :
    (s : Wizard)
    → s.act ≡ gateway
    → (enter (enter s)).pending
      ≡ (s.pending ++ setup_gateway (trim s.public_host) ∷ [])
        ++ setup_gateway (trim s.public_host) ∷ []
enter_twice s e =
    rw (enter-do_gateway s e)
      (rw (enter-do_gateway (do_gateway s) (unfold do_gateway in e)) (unfold do_gateway in refl))

-- A pairing link that comes while the gateway is set up is given up when the call succeeds: the
-- wizard goes live as a gateway.
pub succeed-deep_link :
    (s : Wizard) (link host : Text)
    → starts_with (codes "pxf://") link ≡ true
    → ((deep_link link s).act ≡ agent)
      × ((succeed (setup_gateway host) (deep_link link s)).act ≡ live)
      × ((succeed (setup_gateway host) (deep_link link s)).kind ≡ as_gateway)
unfolding deep_link succeed
succeed-deep_link s link host e = simp e (refl, refl, refl)
