-- ===== src/Setup/Ticket/Safe.antt =====
-- The issue of a pairing code (frontend/src/screens/Wizard.tsx) under every order of its answers
-- and timers.
use mathlib.Core.Path.{subst}
use proxyforward.Common.{
  ℕ, suc, ◌+◌, ◌≤◌, ◌≡◌, refl, ap, sym, ◌∙◌, ◌⊎◌, Bool, true, false, some, List, [], ◌∷◌, ◌++◌, inl,
  inr, arith,
}
use proxyforward.Common.Tests.{◌==◌, ltb, if◌then◌else◌, Bool-cases, by_test, ==_iff}
use proxyforward.Common.Lists.{get_elem?, All, All-map, All-snoc}
use proxyforward.Setup.Ticket.Jobs.{count, count-snoc, count-remove, All-remove, All-get}
use proxyforward.Common.Decimal.{Text}
use proxyforward.Setup.Ticket.{
  Job, Ticket, same_bool, remove_at, issue, mount, new_code, set_reusable, is_live, answer, fail,
  fire, dismiss, unmount, ended_call, ended_timer, blank,
}

-- No run is older than its present one, and later than it has none; none has more than 21 attempts;
-- and those of the present run issue the kind of code that the toggle shows.
abbrev pub IsJob : ℕ → Bool → Job → Type 0
IsJob run reusable j = (j.run ≤ run) × (j.n ≤ 20) × (j.run ≡ run → j.reusable ≡ reusable)

-- `Answers r c`: the backend issued the code c, reusable if r.
module _ (Answers : Bool → Text → Type 0) where
  -- While it is mounted: it is busy exactly as long as one attempt of the present run is under way,
  -- and a code that is shown is of the kind that the toggle shows.
  pub record IsSafe (s : Ticket) : Type 0 where
    pub calls : All (IsJob s.run s.reusable) s.calls
    pub timers : All (IsJob s.run s.reusable) s.timers
    pub under_way :
        s.mounted ≡ true → count s.run s.calls + count s.run s.timers ≡ (if s.busy then 1 else 0)
    pub shows : (s.code ≡ []) ⊎ Answers s.reusable s.code

  -- What may happen
  pub data Step (s : Ticket) : Ticket → Type 0 where
    renewed : Step s (new_code s)
    toggled : (v : Bool) → Step s (set_reusable v s)
    answered :
        (i : ℕ) (j : Job) (code : Text)
        → get_elem? s.calls i ≡ some j
        → Answers j.reusable code
        → Step s (answer j code (ended_call i s))
    failed :
        (i : ℕ) (j : Job) (e : Text)
        → get_elem? s.calls i ≡ some j
        → Step s (fail j e (ended_call i s))
    fired : (i : ℕ) (j : Job) → get_elem? s.timers i ≡ some j → Step s (fire j (ended_timer i s))
    dismissed : Step s (dismiss s)
    unmounted : Step s (unmount s)

  pub data Reach : Ticket → Type 0 where
    here : Reach mount
    next : {s t : Ticket} → Reach s → Step s t → Reach t

  later : (run : ℕ) (r v : Bool) (j : Job) → IsJob run r j → IsJob (suc run) v j
  later run r v j (a, b, c) = (omega arith, b, λ e. absurd (omega arith))

  count-later : (run : ℕ) (r : Bool) (js : List Job) → All (IsJob run r) js → count (suc run) js ≡ 0
  count-later run r [] h = refl
  count-later run r (j ∷ js) ((a, b, c), h) =
      let old : (j.run == suc run) ≡ false = ground arith in
      rw old (omega (arith, count-later run r js h))

  issue-IsSafe : (v : Bool) (s : Ticket) → IsSafe s → IsSafe (issue v s)
  unfolding issue
  issue-IsSafe v s h = record {
    calls =
        All-snoc (IsJob (suc s.run) v) s.calls _
          (All-map (later s.run s.reusable v) s.calls h.calls)
          (omega arith, omega arith, λ e. refl);
    timers = All-map (later s.run s.reusable v) s.timers h.timers;
    under_way = λ m.
        let old = count-later s.run s.reusable s.calls h.calls in
        let waits = count-later s.run s.reusable s.timers h.timers in
        let same : (suc s.run == suc s.run) ≡ true = ground arith in
        rw (count-snoc (suc s.run) s.calls _) (rw (old, waits, same) refl);
    shows = inl refl;
  }

  -- The state when a call or a timer of the list has ended
  live_run : (j : Job) (s : Ticket) → is_live j s ≡ true → (s.mounted ≡ true) × (j.run ≡ s.run)
  live_run j s h = elim (Bool-cases s.mounted) [
    | inl m ↦ (m, ((==_iff j.run s.run).0 (rw m at h)))
    | inr m ↦ let clash : false ≡ true = rw m at h in cc
  ]

  -- One attempt that is taken out, with a more under way in its list and b in the other.
  module _ (j : Job) (s : Ticket) (a b : ℕ)
      (sum : s.mounted ≡ true
        → ((if j.run == s.run then 1 else 0) + a) + b ≡ (if s.busy then 1 else 0)) where
    -- It was the only one of the present run.
    only_live : is_live j s ≡ true → (a + b ≡ 0) × (s.busy ≡ true)
    only_live l =
        let (m, r) = live_run j s l in
        let same : (j.run == s.run) ≡ true = (==_iff j.run s.run).1 r in
        let one : (1 + a) + b ≡ (if s.busy then 1 else 0) = rw same at (sum m) in
        elim (Bool-cases s.busy) [
          | inl y ↦ (omega (arith, rw y at one), y)
          | inr y ↦ absurd (omega (arith, rw y at one))
        ]

    -- It was one of another run.
    not_live : is_live j s ≡ false → s.mounted ≡ true → a + b ≡ (if s.busy then 1 else 0)
    not_live l m =
        let other : (j.run == s.run) ≡ false = rw m at l in
        let left : (0 + a) + b ≡ (if s.busy then 1 else 0) = rw other at (sum m) in
        omega (arith, left)

  module _ (i : ℕ) (j : Job) (s : Ticket) (e : get_elem? s.calls i ≡ some j) (h : IsSafe s) where
    rest_of_calls :
        s.mounted ≡ true
        → ((if j.run == s.run then 1 else 0) + count s.run (remove_at s.calls i))
            + count s.run s.timers
          ≡ (if s.busy then 1 else 0)
    rest_of_calls m =
        ap (◌+ count s.run s.timers) (sym (count-remove s.run s.calls i j e)) ∙ h.under_way m

    ended_call-IsSafe : is_live j s ≡ false → IsSafe (ended_call i s)
    ended_call-IsSafe l = record {
      calls = All-remove (IsJob s.run s.reusable) s.calls i h.calls;
      timers = h.timers;
      under_way =
          not_live j s (count s.run (remove_at s.calls i)) (count s.run s.timers) rest_of_calls l;
      shows = h.shows;
    }

    none_left :
        is_live j s ≡ true
        → (count s.run (remove_at s.calls i) + count s.run s.timers ≡ 0) × (s.busy ≡ true)
    none_left l =
        only_live j s (count s.run (remove_at s.calls i)) (count s.run s.timers) rest_of_calls l

    answer-IsSafe :
        (code : Text) → Answers j.reusable code → IsSafe (answer j code (ended_call i s))
    unfolding answer
    answer-IsSafe code a =
        by_test IsSafe (is_live j s) (record (ended_call i s) { code = code; busy = false })
          (ended_call i s)
          (λ l. record {
            calls = All-remove (IsJob s.run s.reusable) s.calls i h.calls;
            timers = h.timers;
            under_way = λ m. (none_left l).0;
            shows = inr (
                subst (λ b. Answers b code)
                  ((All-get (IsJob s.run s.reusable) s.calls i j e h.calls).2 (live_run j s l).1)
                  a);
          })
          ended_call-IsSafe

    fail-IsSafe : (err : Text) → IsSafe (fail j err (ended_call i s))
    unfolding fail
    fail-IsSafe err =
        let job = All-get (IsJob s.run s.reusable) s.calls i j e h.calls in
        let rest = All-remove (IsJob s.run s.reusable) s.calls i h.calls in
        by_test IsSafe (is_live j s)
          (if ltb j.n 20
            then record (ended_call i s) { timers = s.timers ++ (record j { n = suc j.n }) ∷ [] }
            else record (ended_call i s) { err = err; busy = false })
          (ended_call i s)
          (λ l.
            by_test IsSafe (ltb j.n 20)
              (record (ended_call i s) { timers = s.timers ++ (record j { n = suc j.n }) ∷ [] })
              (record (ended_call i s) { err = err; busy = false })
              (λ few. record {
                calls = rest;
                timers =
                    All-snoc (IsJob s.run s.reusable) s.timers _ h.timers
                      (job.0, ground arith, job.2);
                under_way = λ m.
                    let same : (j.run == s.run) ≡ true =
                      (==_iff j.run s.run).1 (live_run j s l).1 in
                    let (zero_left, y) = none_left l in
                    rw (count-snoc s.run s.timers _) (rw (same, y) (omega (arith, zero_left)));
                shows = h.shows;
              })
              (λ many. record {
                calls = rest;
                timers = h.timers;
                under_way = λ m. (none_left l).0;
                shows = h.shows;
              }))
          ended_call-IsSafe

  fire-IsSafe :
      (i : ℕ) (j : Job) (s : Ticket)
      → get_elem? s.timers i ≡ some j
      → IsSafe s
      → IsSafe (fire j (ended_timer i s))
  unfolding fire
  fire-IsSafe i j s e h = record {
    calls =
        All-snoc (IsJob s.run s.reusable) s.calls j h.calls
          (All-get (IsJob s.run s.reusable) s.timers i j e h.timers);
    timers = All-remove (IsJob s.run s.reusable) s.timers i h.timers;
    under_way = λ m.
        rw (count-snoc s.run s.calls j)
          (omega (arith, h.under_way m, count-remove s.run s.timers i j e));
    shows = h.shows;
  }

  Step-IsSafe : {s t : Ticket} → Step s t → IsSafe s → IsSafe t
  unfolding new_code set_reusable dismiss unmount
  Step-IsSafe {s = s} renewed h =
      by_test IsSafe s.busy s (issue s.reusable s) (λ e. h) (λ e. issue-IsSafe s.reusable s h)
  Step-IsSafe {s = s} (toggled v) h =
      by_test IsSafe (same_bool v s.reusable) s (issue v s) (λ e. h) (λ e. issue-IsSafe v s h)
  Step-IsSafe {s = s} (answered i j code e a) h = answer-IsSafe i j s e h code a
  Step-IsSafe {s = s} (failed i j err e) h = fail-IsSafe i j s e h err
  Step-IsSafe {s = s} (fired i j e) h = fire-IsSafe i j s e h
  Step-IsSafe {s = s} dismissed h = record {
    calls = h.calls;
    timers = h.timers;
    under_way = h.under_way;
    shows = h.shows;
  }
  Step-IsSafe {s = s} unmounted h = record {
    calls = h.calls;
    timers = h.timers;
    under_way = λ m. let clash : false ≡ true = m in cc;
    shows = h.shows;
  }

  blank-IsSafe : IsSafe blank
  blank-IsSafe = record { calls = tt; timers = tt; under_way = λ m. refl; shows = inl refl }

  -- Along any run: while the screen is mounted it is busy exactly as long as one attempt of the
  -- present issue is under way, one of 21 at most; and a code that is shown was issued for the kind
  -- of code that the toggle shows.
  pub Reach-IsSafe : {s : Ticket} → Reach s → IsSafe s
  unfolding mount
  Reach-IsSafe here = issue-IsSafe false blank blank-IsSafe
  Reach-IsSafe (next r st) = Step-IsSafe st (Reach-IsSafe r)
