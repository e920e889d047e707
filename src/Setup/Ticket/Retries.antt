-- ===== src/Setup/Ticket/Retries.antt =====
-- The retries of the issue of a pairing code (frontend/src/screens/Wizard.tsx): that they end, and
-- what becomes of one that has been cancelled.
use proxyforward.Common.{
  ℕ, zero, suc, ◌+◌, ◌≤◌, ◌≡◌, refl, ap, ◌∙◌, Bool, true, false, some, List, [], ◌∷◌, ◌++◌, arith,
}
use proxyforward.Common.Tests.{and_false, ◌==◌, ltb}
use proxyforward.Common.Lists.{get_elem?}
use proxyforward.Common.Decimal.{Text}
use proxyforward.Setup.Ticket.{
  Job, Ticket, issue, set_reusable, answer, fail, fire, ended_call, ended_timer,
}

-- One round in which the first call fails, and the first timer after it fires
abbrev pub fail_first : Text → List Job → Ticket → Ticket
fail_first e [] s = s
fail_first e (j ∷ js) s = fail j e (ended_call 0 s)

abbrev pub fire_first : List Job → Ticket → Ticket
fire_first [] s = s
fire_first (j ∷ js) s = fire j (ended_timer 0 s)

abbrev pub round : Text → Ticket → Ticket
round e s = let t = fail_first e s.calls s in fire_first t.timers t

abbrev pub rounds : ℕ → Text → Ticket → Ticket
rounds zero e s = s
rounds (suc k) e s = rounds k e (round e s)

-- A screen whose attempt n of its present run is under way, and nothing else
abbrev pub waiting : ℕ → Ticket → Ticket
waiting n s = record s {
  busy = true;
  calls = (record { run = s.run; n = n; reusable = s.reusable }) ∷ [];
  timers = [];
}

round-waiting :
    (e : Text) (n : ℕ) (s : Ticket)
    → s.mounted ≡ true
    → ltb n 20 ≡ true
    → round e (waiting n s) ≡ waiting (suc n) s
unfolding fail fire
round-waiting e n s m h =
    let same : (s.run == s.run) ≡ true = ground arith in simp (m, same, h) refl

rounds-waiting :
    (k n : ℕ) (e : Text) (s : Ticket)
    → s.mounted ≡ true
    → n + k ≡ 20
    → rounds (suc k) e (waiting n s) ≡ record s { busy = false; err = e; calls = []; timers = [] }
unfolding fail
rounds-waiting zero n e s m h =
    let same : (s.run == s.run) ≡ true = ground arith in
    let last : ltb n 20 ≡ false = ground (arith, h) in simp (m, same, last) refl
rounds-waiting (suc k) n e s m h =
    let more : ltb n 20 ≡ true = ground (arith, h) in
    ap (rounds (suc k) e) (round-waiting e n s m more)
    ∙ rounds-waiting k (suc n) e s m (omega arith)

rounds-busy :
    (k n m : ℕ) (e : Text) (s : Ticket)
    → s.mounted ≡ true
    → n + k ≡ m
    → m ≤ 20
    → rounds k e (waiting n s) ≡ waiting m s
rounds-busy zero n m e s h at l = let same : n ≡ m = omega (arith, at) in ap (λ i. waiting i s) same
rounds-busy (suc k) n m e s h at l =
    let more : ltb n 20 ≡ true = ground (arith, at, l) in
    ap (rounds k e) (round-waiting e n s h more) ∙ rounds-busy k (suc n) m e s h (omega arith) l

-- On a mounted screen, when nothing else is under way and every call fails, an issue ends with its
-- 21st call and no earlier: after k failures, k at most 20, the screen is still busy with the next
-- call, shows no other error, and has no timer left; after the 21st failure it is no longer busy and
-- shows the error, and there is no call and no timer.
pub rounds-issue :
    (v : Bool) (e : Text) (s : Ticket) (k : ℕ)
    → s.mounted ≡ true
    → s.calls ≡ []
    → s.timers ≡ []
    → k ≤ 20
    → (rounds k e (issue v s) ≡ waiting k (issue v s))
      × (rounds 21 e (issue v s)
          ≡ record (issue v s) { busy = false; err = e; calls = []; timers = [] })
unfolding issue
rounds-issue v e s k m c t l =
    let start : issue v s ≡ waiting 0 (issue v s) = rw (c, t) refl in
    (
      ap (rounds k e) start ∙ rounds-busy k 0 k e (issue v s) m (omega arith) l,
      ap (rounds 21 e) start ∙ rounds-waiting 20 0 e (issue v s) m refl,
    )

-- A retry of the present run, for a reusable code, still waits after the toggle has gone to single
-- use: its timer makes its call, and whatever code this answers is not shown.
pub fire-set_reusable :
    (i : ℕ) (j : Job) (s : Ticket)
    → s.reusable ≡ true
    → get_elem? s.timers i ≡ some j
    → j.run ≡ s.run
    → (get_elem? (set_reusable false s).timers i ≡ some j)
      × ((fire j (ended_timer i (set_reusable false s))).calls
          ≡ (set_reusable false s).calls ++ j ∷ [])
      × ((code : Text)
          → answer j code (fire j (ended_timer i (set_reusable false s)))
            ≡ fire j (ended_timer i (set_reusable false s)))
unfolding set_reusable issue fire answer
fire-set_reusable i j s r e same =
    let older : (j.run == suc s.run) ≡ false = ground (arith, same) in
    simp (r, older, and_false s.mounted) (e, refl, λ code. refl)
