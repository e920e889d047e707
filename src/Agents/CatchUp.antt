-- ===== src/Agents/CatchUp.antt =====
-- How the tail of frontend/src/screens/Agents.tsx catches up with the log, and what two pulls that
-- overlap do to it.
use mathlib.Core.List.{append-nil}
use proxyforward.Common.{ℕ, ◌≡◌, refl, sym, ap, ◌∙◌, true, List, [], ◌∷◌, ◌++◌, arith}
use proxyforward.Common.Tests.{◌==◌}
use proxyforward.Agents.Events.{capped, Pull, Tail, pull, fire, or_none, take, answer}
use proxyforward.Agents.Log.{Ascends, after, upto, upto-after, capped-append}
use proxyforward.Agents.Synced.{World, without, Reach, IsCurrent, asked_only}
use proxyforward.Agents.Refines.{unmounted, Reach-IsCurrent}

-- The pull that the live effect would make.
abbrev pub next_pull : Tail → Pull
next_pull t = record { effect = t.effect; since = t.last_seq }

-- A live tail takes what its own effect asked for.
take_own :
    (p : Pull) (fresh : List ℕ) (t : Tail)
    → t.alive ≡ true
    → p.effect ≡ t.effect
    → answer p fresh t ≡ take fresh t
unfolding answer
take_own p fresh t live own =
    let mine : (p.effect == t.effect) ≡ true = ground (arith, own) in rw (live, mine) refl

events-take :
    (fresh : List ℕ) (t : Tail)
    → or_none t.events ≡ capped (or_none t.events)
    → or_none (take fresh t).events ≡ capped (or_none t.events ++ fresh)
unfolding take
events-take [] t h = rw append-nil h
events-take (x ∷ xs) t h = refl

capped_twice : (xs : List ℕ) → capped (capped xs) ≡ capped xs
capped_twice xs =
    ap capped (sym (append-nil (capped xs))) ∙ capped-append xs [] ∙ ap capped (append-nil xs)

taken-events :
    (w : World) (before rest : List Pull)
    → IsCurrent w
    → or_none (take (after w.tail.last_seq w.log) (without before rest w.tail)).events
      ≡ capped w.log
taken-events w before rest h =
    let n = w.tail.last_seq in
    let full : or_none w.tail.events ≡ capped (or_none w.tail.events) =
      h.events ∙ sym (capped_twice (upto n w.log)) ∙ ap capped (sym h.events) in
    events-take (after n w.log) (without before rest w.tail) full
    ∙ ap (λ v. capped (v ++ after n w.log)) h.events
    ∙ capped-append (upto n w.log) (after n w.log)
    ∙ ap capped (upto-after n 0 w.log h.log)

-- Along any run in which no pull of an effect begins while another one of it is in flight, with a
-- log whose numbers ascend from above 0: whenever a pull of the live effect is answered by what the
-- log then has after the number it asked for, the tail is the last 200 events of the whole log,
-- with whatever the log took while the pull was in flight.
pub Reach-answer :
    {log : List ℕ} {w : World}
    → Ascends 0 log
    → Reach (unmounted log) w
    → (before : List Pull) (p : Pull) (rest : List Pull) → w.tail.pulls ≡ before ++ p ∷ rest
    → w.tail.alive ≡ true
    → p.effect ≡ w.tail.effect
    → or_none (answer p (after p.since w.log) (without before rest w.tail)).events ≡ capped w.log
Reach-answer {w = w} a r before p rest e live own =
    let h = Reach-IsCurrent a r in
    let n = w.tail.last_seq in
    let mine : (p.effect == w.tail.effect) ≡ true = ground (arith, own) in
    let since = (asked_only w.tail.effect n before p rest mine (rw e at h.single)).0 in
    ap (λ v. or_none v.events)
      (take_own p (after p.since w.log) (without before rest w.tail) live own)
    ∙ ap (λ m. or_none (take (after m w.log) (without before rest w.tail)).events) since
    ∙ taken-events w before rest h

answered_twice :
    (t : Tail) (x : ℕ) (xs : List ℕ)
    → t.alive ≡ true
    → or_none (answer (next_pull t) (x ∷ xs) (answer (next_pull t) (x ∷ xs) t)).events
      ≡ capped (or_none t.events ++ (x ∷ xs) ++ (x ∷ xs))
unfolding take
answered_twice t x xs live =
    ap (λ v. or_none (answer (next_pull t) (x ∷ xs) v).events)
      (take_own (next_pull t) (x ∷ xs) t live refl)
    ∙ ap (λ v. or_none v.events) (take_own (next_pull t) (x ∷ xs) (take (x ∷ xs) t) live refl)
    ∙ capped-append (or_none t.events ++ x ∷ xs) (x ∷ xs)

-- Two intervals with no answer between them ask for the same events, and when both pulls are
-- answered with these, they are in the tail twice.
pub overlap-twice :
    (t : Tail) (x : ℕ) (xs : List ℕ)
    → t.alive ≡ true
    → ((fire (fire t)).pulls ≡ next_pull t ∷ next_pull t ∷ t.pulls)
      × (or_none (answer (next_pull t) (x ∷ xs) (answer (next_pull t) (x ∷ xs) t)).events
          ≡ capped (or_none t.events ++ (x ∷ xs) ++ (x ∷ xs)))
unfolding fire pull
overlap-twice t x xs live = (rw live refl, answered_twice t x xs live)
