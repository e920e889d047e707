-- ===== src/App/Tint.antt =====
-- The tint of the backdrop in frontend/src/App.tsx, through readings and timers.
use proxyforward.Common.{
  ℕ, suc, ◌+◌, ◌≤◌, ◌≡◌, refl, sym, ap, ◌∙◌, Bool, true, false, none, some, List, [], ◌∷◌, arith,
  inl, inr,
}
use proxyforward.Common.Tests.{Bool-cases, ◌==◌}
use proxyforward.App.{
  Ambient, ok, warn, bad, same, Timer, Backdrop, apply, count_down, shift, steady, observe, fire,
}

-- A run up to a time: the tint, the last reading, and since when all readings have been that one.
pub record Trace : Type 0 where
  pub tint : Backdrop
  pub now : ℕ
  pub last : Ambient
  pub since : ℕ

-- A page that has just come up, before its first reading.
abbrev pub blank : Backdrop
blank = record { attribute = none; applied = none; pending = none; timer = 0; timers = []; ids = 0 }

-- The first reading, at a time.
abbrev pub first : ℕ → Ambient → Trace
first now a = record { tint = observe now a blank; now = now; last = a; since = now }

abbrev pub since_when : Bool → ℕ → ℕ → ℕ
since_when true since now = since
since_when false since now = now

-- A reading at a later time.
abbrev pub read : ℕ → Ambient → Trace → Trace
read now a t = record {
  tint = observe now a t.tint;
  now = now;
  last = a;
  since = since_when (same a t.last) t.since now;
}

-- A timer is called back at a later time.
abbrev pub call_back : ℕ → Timer → Trace → Trace
call_back now timer t = record t { tint = fire timer t.tint; now = now }

pub data Step (t : Trace) : Trace → Type 0 where
  reading : (now : ℕ) (a : Ambient) → t.now ≤ now → Step t (read now a t)
  timeout :
      (now : ℕ) (timer : Timer)
      → t.now ≤ now
      → timer.due ≤ now
      → (rest : List Timer) → t.tint.timers ≡ timer ∷ rest
      → Step t (call_back now timer t)

pub data Reach (t : Trace) : Trace → Type 0 where
  here : Reach t t
  next : {u v : Trace} → Reach t u → Step u v → Reach t v

-- The tint that shows a state, at rest and with a countdown to another one.
abbrev pub settled : Ambient → ℕ → ℕ → Backdrop
settled a timer ids = record {
  attribute = some a;
  applied = some a;
  pending = none;
  timer = timer;
  timers = [];
  ids = ids;
}

abbrev pub counting : Ambient → Ambient → ℕ → ℕ → ℕ → Backdrop
counting a p start timer ids = record {
  attribute = some a;
  applied = some a;
  pending = some p;
  timer = timer;
  timers = (record { id = timer; due = start + 3000; next = p }) ∷ [];
  ids = ids;
}

-- The page shows the last reading and no timer runs; or it shows another state, and its one timer
-- runs for the last reading, which all readings have been since the timer was set or longer.
pub data Follows : Trace → Type 0 where
  rests :
      (a : Ambient) (timer ids since now : ℕ)
      → since ≤ now
      → Follows (record { tint = settled a timer ids; now = now; last = a; since = since })
  counts :
      (a p : Ambient) (timer ids start since now : ℕ)
      → same p a ≡ false
      → since ≤ start
      → start ≤ now
      → Follows (record { tint = counting a p start timer ids; now = now; last = p; since = since })

eq_of_same : (a b : Ambient) → same a b ≡ true → a ≡ b
eq_of_same ok ok h = refl
eq_of_same warn warn h = refl
eq_of_same bad bad h = refl
eq_of_same ok warn h = cc
eq_of_same ok bad h = cc
eq_of_same warn ok h = cc
eq_of_same warn bad h = cc
eq_of_same bad ok h = cc
eq_of_same bad warn h = cc

same_refl : (a : Ambient) → same a a ≡ true
same_refl ok = refl
same_refl warn = refl
same_refl bad = refl

same_comm : (a b : Ambient) → same a b ≡ same b a
same_comm ok ok = refl
same_comm warn warn = refl
same_comm bad bad = refl
same_comm ok warn = refl
same_comm ok bad = refl
same_comm warn ok = refl
same_comm warn bad = refl
same_comm bad ok = refl
same_comm bad warn = refl

same_sym : (a b : Ambient) → same a b ≡ false → same b a ≡ false
same_sym a b h = same_comm b a ∙ h

==_refl : (n : ℕ) → (n == n) ≡ true
==_refl n = ground arith

since_when-le :
    (b : Bool) (since now later : ℕ) → since ≤ now → now ≤ later → since_when b since later ≤ later
since_when-le true since now later h k = omega arith
since_when-le false since now later h k = omega arith

read-Follows :
    (now : ℕ) (a : Ambient) (t : Trace) → t.now ≤ now → Follows t → Follows (read now a t)
unfolding observe steady shift count_down
read-Follows now a t h (rests c timer ids since before l) = elim (Bool-cases (same a c)) [
  | inl e ↦ rw (e, eq_of_same a c e) (rests c timer ids since now (omega arith))
  | inr e ↦ rw e (counts c a (suc ids) (suc ids) now now now e (omega arith) (omega arith))
]
read-Follows now a t h (counts c p timer ids start since before d l k) =
    elim (Bool-cases (same a c)) [
      | inl e ↦
          rw (e, eq_of_same a c e, same_sym p c d, ==_refl timer)
            (rests c timer ids now now (omega arith))
      | inr e ↦ elim (Bool-cases (same p a)) [
        | inl q ↦
            rw (e, q, ← eq_of_same p a q, same_refl p)
              (counts c p timer ids start since now d l (omega arith))
        | inr q ↦
            rw (e, q, same_sym p a q, ==_refl timer)
              (counts c a (suc ids) (suc ids) now now now e (omega arith) (omega arith))
      ]
    ]

first-Follows : (now : ℕ) (a : Ambient) → Follows (first now a)
unfolding observe apply
first-Follows now a = rests a 0 0 now now (omega arith)

-- The head of a list of timers.
abbrev head_or : Timer → List Timer → Timer
head_or d [] = d
head_or d (t ∷ ts) = t

call_back-Follows :
    (now : ℕ) (timer : Timer) (rest : List Timer) (t : Trace)
    → t.now ≤ now
    → t.tint.timers ≡ timer ∷ rest
    → Follows t
    → Follows (call_back now timer t)
unfolding fire apply
call_back-Follows now timer rest t h e (rests c i ids since before l) = cc
call_back-Follows now timer rest t h e (counts c p i ids start since before d l k) =
    let only : record { id = i; due = start + 3000; next = p } ≡ timer = ap (head_or timer) e in
    rw (← only, ==_refl i) (rests p i ids since now (omega arith))

Step-Follows : {t u : Trace} → Step t u → Follows t → Follows u
Step-Follows {t} (reading now a h) f = read-Follows now a t h f
Step-Follows {t} (timeout now timer h due rest e) f = call_back-Follows now timer rest t h e f

-- From the first reading on, however readings and timers come: the page shows the last reading and
-- no timer runs, or it shows another state and its one timer runs for the last reading, which all
-- readings have been since that timer was set.
pub Reach-Follows : (now : ℕ) (a : Ambient) {t : Trace} → Reach (first now a) t → Follows t
Reach-Follows now a here = first-Follows now a
Reach-Follows now a (next r s) = Step-Follows s (Reach-Follows now a r)

holds_by_then :
    (now : ℕ) (timer : Timer) (rest : List Timer) (t : Trace)
    → timer.due ≤ now
    → t.tint.timers ≡ timer ∷ rest
    → Follows t
    → (timer.next ≡ t.last) × (t.since + 3000 ≤ now)
holds_by_then now timer rest t due e (rests c i ids since before l) = cc
holds_by_then now timer rest t due e (counts c p i ids start since before d l k) =
    let only : record { id = i; due = start + 3000; next = p } ≡ timer = ap (head_or timer) e in
    (ap (λ u. u.next) (sym only), omega (arith, ap (λ u. u.due) only))

-- When a timer that is due changes the tint, then to the last reading, and all readings of the last
-- 3 s were that one.
pub call_back-holds :
    (first_at : ℕ) (a : Ambient) (now : ℕ) (timer : Timer) (rest : List Timer) {t : Trace}
    → Reach (first first_at a) t
    → timer.due ≤ now
    → t.tint.timers ≡ timer ∷ rest
    → ((call_back now timer t).tint.attribute ≡ some t.last) × (t.since + 3000 ≤ now)
unfolding fire apply
call_back-holds first_at a now timer rest {t} r due e =
    let (is_last, held) = holds_by_then now timer rest t due e (Reach-Follows first_at a r) in
    (rw is_last refl, held)
