-- ===== src/Agents/Synced.antt =====
-- `useGatewayEvents` of frontend/src/screens/Agents.tsx against the gateway's own log of events. The
-- log only grows, its numbers ascend from 1, and a pull is answered by what the log has after the
-- number that it asked for, or by nothing where app/agents.go meets an error.
use proxyforward.Common.{
  ℕ, suc, ◌≤◌, ◌<◌, ◌≡◌, refl, ap, ◌⊎◌, Bool, true, false, not, List, [], ◌∷◌, ◌++◌, arith, inl,
  inr,
}
use proxyforward.Common.Tests.{◌==◌, if◌then◌else◌, Bool-cases}
use proxyforward.Common.Lists.{All}
use proxyforward.Agents.Events.{capped, last_or, Pull, Tail, enable, fire, or_none, answer, fail}
use proxyforward.Agents.Log.{Ascends, after, upto}

pub record World : Type 0 where
  pub tail : Tail
  pub log : List ℕ

-- What the pulls of an effect have asked for.
abbrev pub asked : ℕ → List Pull → List ℕ
asked n [] = []
asked n (p ∷ ps) = if p.effect == n then p.since ∷ asked n ps else asked n ps

-- The pulls without the one that has ended.
abbrev pub without : List Pull → List Pull → Tail → Tail
without before rest t = record t { pulls = before ++ rest }

-- A run in which a pull of the live effect ends before the next one begins. The effect runs when the
-- screen is mounted, and then at each change of `enabled`.
pub data Step (w : World) : World → Type 0 where
  logged : (s : ℕ) → last_or 0 w.log < s → Step w (record w { log = w.log ++ s ∷ [] })
  enabled :
      (b : Bool)
      → (w.tail.effect ≡ 0) ⊎ (w.tail.alive ≡ not b)
      → Step w (record w { tail = enable b w.tail })
  fired : asked w.tail.effect w.tail.pulls ≡ [] → Step w (record w { tail = fire w.tail })
  answered :
      (before : List Pull) (p : Pull) (rest : List Pull)
      → w.tail.pulls ≡ before ++ p ∷ rest
      → Step w (record w { tail = answer p (after p.since w.log) (without before rest w.tail) })
  answered_nothing :
      (before : List Pull) (p : Pull) (rest : List Pull)
      → w.tail.pulls ≡ before ++ p ∷ rest
      → Step w (record w { tail = answer p [] (without before rest w.tail) })
  failed :
      (before : List Pull) (p : Pull) (rest : List Pull)
      → w.tail.pulls ≡ before ++ p ∷ rest
      → Step w (record w { tail = fail p (without before rest w.tail) })

pub data Reach (w : World) : World → Type 0 where
  here : Reach w w
  next : {u v : World} → Reach w u → Step u v → Reach w v

-- What the screen has is the end of the log up to the last event that it knows: none twice, and
-- none left out. A pull in flight asks for what comes after that event.
pub record IsCurrent (w : World) : Type 0 where
  pub log : Ascends 0 w.log
  pub events : or_none w.tail.events ≡ capped (upto w.tail.last_seq w.log)
  pub known : w.tail.last_seq ≤ last_or 0 w.log
  pub old : All (λ p. p.effect ≤ w.tail.effect) w.tail.pulls
  pub single :
      (asked w.tail.effect w.tail.pulls ≡ [])
      ⊎ (asked w.tail.effect w.tail.pulls ≡ w.tail.last_seq ∷ [])

pub asked_new : (n : ℕ) (ps : List Pull) → All (λ p. p.effect ≤ n) ps → asked (suc n) ps ≡ []
asked_new n [] h = refl
asked_new n (p ∷ ps) (g, h) =
    let differs : (p.effect == suc n) ≡ false = ground arith in rw differs (asked_new n ps h)

pub All-take_out {ℓ κ} :
    {A : Type ℓ} (P : A → Type κ) (xs : List A) (y : A) (ys : List A)
    → All P (xs ++ y ∷ ys)
    → All P (xs ++ ys) × P y
All-take_out P [] y ys (p, h) = (h, p)
All-take_out P (x ∷ xs) y ys (q, h) = let (rest, p) = All-take_out P xs y ys h in ((q, rest), p)

asked-append : (n : ℕ) (ps qs : List Pull) → asked n (ps ++ qs) ≡ asked n ps ++ asked n qs
asked-append n [] qs = refl
asked-append n (p ∷ ps) qs = elim (Bool-cases (p.effect == n)) [
  | inl e ↦ rw e (ap (p.since ∷◌) (asked-append n ps qs))
  | inr e ↦ rw e (asked-append n ps qs)
]

single_out :
    (xs : List ℕ) (y : ℕ) (ys : List ℕ) (c : ℕ)
    → (xs ++ y ∷ ys ≡ []) ⊎ (xs ++ y ∷ ys ≡ c ∷ [])
    → (y ≡ c) × (xs ++ ys ≡ [])
single_out [] y ys c (inl e) = cc
single_out [] y ys c (inr e) = (cc, cc)
single_out (x ∷ xs) y ys c (inl e) = cc
single_out (x ∷ []) y ys c (inr e) = cc
single_out (x ∷ z ∷ xs) y ys c (inr e) = cc

-- The pull of the effect that ends is the only one, and has asked for what was known.
pub asked_only :
    (n c : ℕ) (before : List Pull) (p : Pull) (rest : List Pull)
    → (p.effect == n) ≡ true
    → (asked n (before ++ p ∷ rest) ≡ []) ⊎ (asked n (before ++ p ∷ rest) ≡ c ∷ [])
    → (p.since ≡ c) × (asked n (before ++ rest) ≡ [])
asked_only n c before p rest e h = rw (asked-append n before rest) (
    single_out (asked n before) p.since (asked n rest) c
      (rw (asked-append n before (p ∷ rest), e) at h))

asked_other :
    (n : ℕ) (before : List Pull) (p : Pull) (rest : List Pull)
    → (p.effect == n) ≡ false
    → asked n (before ++ p ∷ rest) ≡ asked n (before ++ rest)
asked_other n before p rest e =
    rw (asked-append n before (p ∷ rest), asked-append n before rest, e) refl

-- A pull that ends without an effect on the state.
pub IsCurrent-without :
    (w : World) (before : List Pull) (p : Pull) (rest : List Pull)
    → w.tail.pulls ≡ before ++ p ∷ rest
    → IsCurrent w
    → IsCurrent (record w { tail = without before rest w.tail })
IsCurrent-without w before p rest e h =
    let n = w.tail.effect in
    let olds = All-take_out _ before p rest (rw e at h.old) in
    let singles = rw e at h.single in
    elim (Bool-cases (p.effect == n)) [
      | inl mine ↦ record {
        log = h.log;
        events = h.events;
        known = h.known;
        old = olds.0;
        single = inl (asked_only n w.tail.last_seq before p rest mine singles).1;
      }
      | inr other ↦ record {
        log = h.log;
        events = h.events;
        known = h.known;
        old = olds.0;
        single = rw (asked_other n before p rest other) at singles;
      }
    ]
