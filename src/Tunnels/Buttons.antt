-- ===== src/Tunnels/Buttons.antt =====
-- The buttons of a tunnel in frontend/src/screens/Tunnels.tsx: `DeleteButton`, which deletes in two
-- steps, and `TestPath`, which waits for the backend. The clock of an event is an argument.
use proxyforward.Common.{
  ℕ, zero, suc, ◌+◌, ◌≡◌, refl, ap, ◌∙◌, Bool, true, false, not, ◌&&◌, Option, none, some, [],
  arith, inl, inr,
}
use proxyforward.Common.Tests.{leb, if◌then◌else◌, Bool-cases}
use proxyforward.Common.Decimal.{Text}

-- `armed` is the time of the click that armed the button, and `deletes` counts the calls of
-- `onDelete`.
pub record DeleteButton : Type 0 where
  pub armed : Option ℕ
  pub deletes : ℕ

-- The timer of 2500 ms
abbrev disarm_at : ℕ → Option ℕ → DeleteButton → DeleteButton
disarm_at now none s = s
disarm_at now (some t) s = if leb (t + 2500) now then record s { armed = none } else s

unfoldable disarm : ℕ → DeleteButton → DeleteButton
disarm now s = disarm_at now s.armed s

abbrev press : ℕ → Option ℕ → DeleteButton → DeleteButton
press now none s = record s { armed = some now }
press now (some t) s = record s { deletes = suc s.deletes }

-- A click, after the timer if that is due
unfoldable click : ℕ → DeleteButton → DeleteButton
unfolding disarm
click now s = let t = disarm now s in press now t.armed t

-- A click that comes 2500 ms or more after the one that armed the button deletes nothing: it arms it
-- again. One that comes earlier deletes.
click-click :
    (first second : ℕ) (s : DeleteButton)
    → s.armed ≡ none
    → (click second (click first s)).deletes
      ≡ (if leb (first + 2500) second then s.deletes else suc s.deletes)
unfolding click disarm
click-click first second s e = elim (Bool-cases (leb (first + 2500) second)) [
  | inl h ↦ simp (e, h) refl
  | inr h ↦ simp (e, h) refl
]

-- What `TestPath` shows
data PathState : Type 0 where
  idle busy ok fail : PathState

-- `calls` are those of TestReachability that have not been answered.
record TestPath : Type 0 where
  state : PathState
  msg : Text
  calls : ℕ

abbrev is_busy : PathState → Bool
is_busy idle = false
is_busy busy = true
is_busy ok = false
is_busy fail = false

-- The button, which is disabled for a tunnel that is not bound and while it waits
unfoldable run : Bool → TestPath → TestPath
run bound s =
    if bound && not (is_busy s.state)
    then record s { state = busy; msg = []; calls = suc s.calls }
    else s

abbrev one_less : ℕ → ℕ
one_less zero = zero
one_less (suc n) = n

unfoldable reached : Text → TestPath → TestPath
reached res s = record s { state = ok; msg = res; calls = one_less s.calls }

unfoldable unreachable : Text → TestPath → TestPath
unreachable e s = record s { state = fail; msg = e; calls = one_less s.calls }

-- It waits exactly as long as there is a call, and never for two.
abbrev IsOneCall : TestPath → Type 0
IsOneCall s = s.calls ≡ (if is_busy s.state then 1 else 0)

run-IsOneCall : (bound : Bool) (s : TestPath) → IsOneCall s → IsOneCall (run bound s)
unfolding run
run-IsOneCall bound s h = elim (Bool-cases (bound && not (is_busy s.state))) [
  | inl e ↦ rw e (ground (arith, h, e))
  | inr e ↦ rw e h
]

reached-IsOneCall :
    (res : Text) (s : TestPath) → IsOneCall s → s.state ≡ busy → IsOneCall (reached res s)
unfolding reached
reached-IsOneCall res s h e =
    let one : s.calls ≡ 1 = h ∙ ap (λ v. if is_busy v then 1 else 0) e in ap one_less one
