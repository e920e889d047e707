-- ===== src/Agents/Refines.antt =====
-- The tail of frontend/src/screens/Agents.tsx refines the gateway's log: every step of
-- `useGatewayEvents` keeps what the screen has at the end of what it knows of the log.
use mathlib.Core.Path.{subst}
use proxyforward.Common.{
  ℕ, suc, ◌<◌, ◌≡◌, refl, sym, ap, ◌∙◌, ◌⊎◌, Bool, true, false, none, List, [], ◌∷◌, ◌++◌, arith,
  inl, inr,
}
use proxyforward.Common.Tests.{◌==◌, Bool-cases}
use proxyforward.Common.Lists.{All-map}
use proxyforward.Agents.Events.{
  drop, capped, last_or, Pull, Tail, pull, enable, fire, take, answer, fail,
}
use proxyforward.Agents.Log.{
  Ascends, after, upto, all_above, upto-after, upto_last, last_or-append, Ascends-append,
  upto-append, capped-append,
}
use proxyforward.Agents.Synced.{
  World, asked, without, Step, logged, enabled, fired, answered, answered_nothing, failed, Reach,
  here, next, IsCurrent, asked_new, asked_only, IsCurrent-without,
}

-- What is known and what is new make the log.
last_or-fresh :
    (n : ℕ) (log : List ℕ) (x : ℕ) (xs : List ℕ)
    → Ascends 0 log
    → after n log ≡ x ∷ xs
    → last_or 0 log ≡ last_or x xs
last_or-fresh n log x xs h e =
    ap (last_or 0) (sym (upto-after n 0 log h))
    ∙ ap (λ v. last_or 0 (upto n log ++ v)) e
    ∙ last_or-append 0 (upto n log) x xs

caught_up :
    (n : ℕ) (log : List ℕ) (x : ℕ) (xs : List ℕ)
    → Ascends 0 log
    → after n log ≡ x ∷ xs
    → capped (capped (upto n log) ++ x ∷ xs) ≡ capped (upto (last_or x xs) log)
caught_up n log x xs h e =
    let whole : upto (last_or x xs) log ≡ log =
      upto_last 0 (last_or x xs) log h (omega (arith, last_or-fresh n log x xs h e)) in
    capped-append (upto n log) (x ∷ xs)
    ∙ ap (λ v. capped (upto n log ++ v)) (sym e)
    ∙ ap capped (upto-after n 0 log h ∙ sym whole)

take-IsCurrent :
    (w : World) (fresh : List ℕ)
    → IsCurrent w
    → asked w.tail.effect w.tail.pulls ≡ []
    → (fresh ≡ []) ⊎ (after w.tail.last_seq w.log ≡ fresh)
    → IsCurrent (record w { tail = take fresh w.tail })
unfolding take
take-IsCurrent w [] h idle from = record {
  log = h.log;
  events = h.events;
  known = h.known;
  old = h.old;
  single = inl idle;
}
take-IsCurrent w (x ∷ xs) h idle (inl e) = cc
take-IsCurrent w (x ∷ xs) h idle (inr e) = record {
  log = h.log;
  events = ap (λ v. capped (v ++ x ∷ xs)) h.events ∙ caught_up w.tail.last_seq w.log x xs h.log e;
  known = omega (arith, last_or-fresh w.tail.last_seq w.log x xs h.log e);
  old = h.old;
  single = inl idle;
}

-- An answer is taken by the effect that asked, and changes nothing otherwise.
pub answer-cases :
    (p : Pull) (fresh : List ℕ) (t : Tail)
    → (answer p fresh t ≡ t) ⊎ ((p.effect == t.effect) ≡ true) × (answer p fresh t ≡ take fresh t)
unfolding answer
answer-cases p fresh t = elim (Bool-cases t.alive) [
  | inr dead ↦ inl (rw dead refl)
  | inl live ↦ elim (Bool-cases (p.effect == t.effect)) [
    | inr other ↦ inl (rw (live, other) refl)
    | inl mine ↦ inr (mine, rw (live, mine) refl)
  ]
]

answer-IsCurrent :
    (w : World) (before : List Pull) (p : Pull) (rest : List Pull) (fresh : List ℕ)
    → w.tail.pulls ≡ before ++ p ∷ rest
    → (fresh ≡ []) ⊎ (after p.since w.log ≡ fresh)
    → IsCurrent w
    → IsCurrent (record w { tail = answer p fresh (without before rest w.tail) })
answer-IsCurrent w before p rest fresh e from h =
    let t = without before rest w.tail in
    let kept = IsCurrent-without w before p rest e h in
    elim (answer-cases p fresh t) [
      | inl same ↦ subst (λ v. IsCurrent (record w { tail = v })) (sym same) kept
      | inr (mine, taken) ↦
          let (since, idle) =
            asked_only w.tail.effect w.tail.last_seq before p rest mine (rw e at h.single) in
          subst (λ v. IsCurrent (record w { tail = v })) (sym taken)
            (take-IsCurrent (record w { tail = t }) fresh kept idle (rw since at from))
    ]

fail-answer : (p : Pull) (t : Tail) → fail p t ≡ answer p [] t
unfolding fail answer take
fail-answer p t = refl

capped_none : (log : List ℕ) → Ascends 0 log → [] ≡ capped (upto 0 log)
unfolding capped drop
capped_none log h = sym (ap capped (all_above 0 0 log (omega arith) h).0)

asked_pull :
    (n c : ℕ) (ps : List Pull)
    → asked n ps ≡ []
    → asked n ((record { effect = n; since = c }) ∷ ps) ≡ c ∷ []
asked_pull n c ps h = let same : (n == n) ≡ true = ground arith in rw (same, h) refl

enable-IsCurrent :
    (b : Bool) (w : World) → IsCurrent w → IsCurrent (record w { tail = enable b w.tail })
unfolding enable pull
enable-IsCurrent false w h = record {
  log = h.log;
  events = capped_none w.log h.log;
  known = omega arith;
  old = All-map (λ p l. omega arith) w.tail.pulls h.old;
  single = inl (asked_new w.tail.effect w.tail.pulls h.old);
}
enable-IsCurrent true w h = record {
  log = h.log;
  events = h.events;
  known = h.known;
  old = (omega arith, All-map (λ p l. omega arith) w.tail.pulls h.old);
  single = inr (
      asked_pull (suc w.tail.effect) w.tail.last_seq w.tail.pulls
        (asked_new w.tail.effect w.tail.pulls h.old));
}

fire-cases : (t : Tail) → (fire t ≡ t) ⊎ (fire t ≡ pull t)
unfolding fire
fire-cases t = elim (Bool-cases t.alive) [
  | inr dead ↦ inl (rw dead refl)
  | inl live ↦ inr (rw live refl)
]

pull-IsCurrent :
    (w : World)
    → asked w.tail.effect w.tail.pulls ≡ []
    → IsCurrent w
    → IsCurrent (record w { tail = pull w.tail })
unfolding pull
pull-IsCurrent w idle h = record {
  log = h.log;
  events = h.events;
  known = h.known;
  old = (omega arith, h.old);
  single = inr (asked_pull w.tail.effect w.tail.last_seq w.tail.pulls idle);
}

fire-IsCurrent :
    (w : World)
    → asked w.tail.effect w.tail.pulls ≡ []
    → IsCurrent w
    → IsCurrent (record w { tail = fire w.tail })
fire-IsCurrent w idle h = elim (fire-cases w.tail) [
  | inl same ↦ subst (λ v. IsCurrent (record w { tail = v })) (sym same) h
  | inr pulled ↦
      subst (λ v. IsCurrent (record w { tail = v })) (sym pulled) (pull-IsCurrent w idle h)
]

log-IsCurrent :
    (w : World) (s : ℕ)
    → last_or 0 w.log < s
    → IsCurrent w
    → IsCurrent (record w { log = w.log ++ s ∷ [] })
log-IsCurrent w s l h = record {
  log = Ascends-append 0 w.log s h.log l;
  events =
      h.events ∙ ap capped (sym (upto-append w.tail.last_seq w.log s (omega (arith, h.known))));
  known = omega (arith, h.known, last_or-append 0 w.log s []);
  old = h.old;
  single = h.single;
}

pub Step-IsCurrent : {w v : World} → Step w v → IsCurrent w → IsCurrent v
Step-IsCurrent {w} (logged s l) h = log-IsCurrent w s l h
Step-IsCurrent {w} (enabled b changed) h = enable-IsCurrent b w h
Step-IsCurrent {w} (fired idle) h = fire-IsCurrent w idle h
Step-IsCurrent {w} (answered before p rest e) h =
    answer-IsCurrent w before p rest (after p.since w.log) e (inr refl) h
Step-IsCurrent {w} (answered_nothing before p rest e) h =
    answer-IsCurrent w before p rest [] e (inl refl) h
Step-IsCurrent {w} (failed before p rest e) h =
    subst (λ v. IsCurrent (record w { tail = v }))
      (sym (fail-answer p (without before rest w.tail)))
      (answer-IsCurrent w before p rest [] e (inl refl) h)

-- The screen before its effect has run.
abbrev pub unmounted : List ℕ → World
unmounted log = record {
  tail = record { events = none; last_seq = 0; effect = 0; alive = false; pulls = [] };
  log = log;
}

pub unmounted-IsCurrent : (log : List ℕ) → Ascends 0 log → IsCurrent (unmounted log)
unmounted-IsCurrent log h = record {
  log = h;
  events = capped_none log h;
  known = omega arith;
  old = tt;
  single = inl refl;
}

-- Along any run whose pulls do not overlap, with a log whose numbers ascend from above 0, what the
-- screen has is the last 200 events of the log up to the last one that it knows: none is there
-- twice and none is left out. What it knows is in the log, and no more than one pull of the live
-- effect is in flight, which asks for what comes after that.
pub Reach-IsCurrent :
    {log : List ℕ} {w : World} → Ascends 0 log → Reach (unmounted log) w → IsCurrent w
Reach-IsCurrent {log} h here = unmounted-IsCurrent log h
Reach-IsCurrent h (next r s) = Step-IsCurrent s (Reach-IsCurrent h r)
