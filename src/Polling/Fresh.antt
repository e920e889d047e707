-- ===== src/Polling/Fresh.antt =====
-- What a polling hook shows is an answer for its present key, whatever the order of the answers.
use mathlib.Core.List.{Memᴰ}
use proxyforward.Common.{
  ℕ, suc, ◌≤◌, ◌≡◌, ◌≢◌, refl, ◌↔◌, ◌⊎◌, Bool, true, false, Option, none, some, List, [], ◌∷◌,
  arith, inl, inr,
}
use proxyforward.Common.Tests.{◌==◌, Bool-cases, ==_iff}
use proxyforward.Common.Lists.{All}
use proxyforward.Polling.{Cache, put, Fetch, Poll, rekey, fire_at, fire, answer, unmount, foreign}

-- `Answers k v`: the backend sent v for the key k.
module _ (K V : Type 0) (same : K → K → Bool) (same_iff : (j k : K) → (same j k ≡ true) ↔ (j ≡ k))
    (Answers : K → V → Type 0) where
  -- What may happen to a mounted hook. An answer is for a fetch that is under way.
  pub data Step (p : Poll K V same) : Poll K V same → Type 0 where
    rekeyed : (k : Option K) → Step p (rekey K V same k p)
    fired : Step p (fire K V same p)
    answered :
        (f : Fetch K V same) (v : V)
        → Memᴰ f p.flights
        → Answers f.key v
        → Step p (answer K V same f v p)
    failed : Step p p
    unmounted : Step p (unmount K V same p)
    cached : (k : K) (v : V) → Answers k v → Step p (foreign K V same k v p)

  pub data Reach (p : Poll K V same) : Poll K V same → Type 0 where
    here : Reach p p
    next : {q r : Poll K V same} → Reach p q → Step q r → Reach p r

  -- A cached or shown value answers its key.
  abbrev IsAnswer : Option K → Option V → Type 0
  IsAnswer none none = Unit
  IsAnswer none (some v) = ⊥
  IsAnswer (some k) none = Unit
  IsAnswer (some k) (some v) = Answers k v

  -- A fetch of the last effect is for its key.
  abbrev IsCurrent : ℕ → Option K → Fetch K V same → Type 0
  IsCurrent n key f = (f.effect ≤ n) × (f.effect ≡ n → key ≡ some f.key)

  pub record IsFresh (p : Poll K V same) : Type 0 where
    pub caches : (k : K) → IsAnswer (some k) (p.cache k)
    pub shows : IsAnswer p.key p.shown
    pub currents : All (IsCurrent p.effect p.key) p.flights

  put-caches :
      (k : K) (v : V) (m : Cache K V same)
      → Answers k v
      → ((j : K) → IsAnswer (some j) (m j))
      → (j : K) → IsAnswer (some j) (put K V same k v m j)
  put-caches k v m a h j = elim (Bool-cases (same k j)) [
    | inl e ↦ rw e (rw ((same_iff k j).0 e) at a)
    | inr e ↦ rw e (h j)
  ]

  All-Memᴰ :
      (P : Fetch K V same → Type 0) {f : Fetch K V same} {fs : List (Fetch K V same)}
      → Memᴰ f fs
      → All P fs
      → P f
  All-Memᴰ P (Memᴰ.head e) (h, hs) = rw e h
  All-Memᴰ P (Memᴰ.tail m) (h, hs) = All-Memᴰ P m hs

  -- The fetches of earlier effects do not count any more.
  All-rekey :
      (n : ℕ) (k k' : Option K) (fs : List (Fetch K V same))
      → All (IsCurrent n k) fs
      → All (IsCurrent (suc n) k') fs
  All-rekey n k k' [] h = tt
  All-rekey n k k' (f ∷ fs) ((l, e), h) =
      ((omega arith, λ q. absurd (omega arith)), All-rekey n k k' fs h)

  fire-IsFresh :
      (o : Option K) (p : Poll K V same) → p.key ≡ o → IsFresh p → IsFresh (fire_at K V same o p)
  unfolding fire_at
  fire-IsFresh none p e h = h
  fire-IsFresh (some k) p e h = elim (Bool-cases p.alive) [
    | inl on ↦ simp on (record {
      caches = h.caches;
      shows = h.shows;
      currents = ((omega arith, λ _. e), h.currents);
    })
    | inr off ↦ simp off h
  ]

  answer-IsFresh :
      (p : Poll K V same) (f : Fetch K V same) (v : V)
      → Memᴰ f p.flights
      → Answers f.key v
      → IsFresh p
      → IsFresh (answer K V same f v p)
  unfolding answer
  answer-IsFresh p f v m a h = elim (Bool-cases p.alive) [
    | inl on ↦ elim (Bool-cases (f.effect == p.effect)) [
      | inl e ↦
          let current = (All-Memᴰ (IsCurrent p.effect p.key) m h.currents).1 ((==_iff _ _).0 e) in
          simp (on, e)
            (record {
              caches = put-caches f.key v p.cache a h.caches;
              shows = rw current a;
              currents = h.currents;
            })
      | inr e ↦ simp (on, e) h
    ]
    | inr off ↦ simp off h
  ]

  Step-IsFresh : {p q : Poll K V same} → Step p q → IsFresh p → IsFresh q
  Step-IsFresh {p} (rekeyed none) h =
      unfold rekey in
      record {
        caches = h.caches;
        shows = tt;
        currents = All-rekey p.effect p.key none p.flights h.currents;
      }
  Step-IsFresh {p} (rekeyed (some k)) h =
      unfold rekey in
      record {
        caches = h.caches;
        shows = h.caches k;
        currents =
            ((omega arith, λ _. refl), All-rekey p.effect p.key (some k) p.flights h.currents);
      }
  Step-IsFresh {p} fired h = unfold fire in fire-IsFresh p.key p refl h
  Step-IsFresh {p} (answered f v m a) h = answer-IsFresh p f v m a h
  Step-IsFresh failed h = h
  Step-IsFresh unmounted h =
      unfold unmount in record { caches = h.caches; shows = h.shows; currents = h.currents }
  Step-IsFresh {p} (cached k v a) h =
      unfold foreign in
      record { caches = put-caches k v p.cache a h.caches; shows = h.shows; currents = h.currents }

  -- From the first mount on, through any steps, what the hook shows is an answer of the backend for
  -- its present key, and every cached value is one for the key that it is stored at.
  pub Reach-IsFresh : {p q : Poll K V same} → IsFresh p → Reach p q → IsFresh q
  Reach-IsFresh h here = h
  Reach-IsFresh h (next r s) = Step-IsFresh s (Reach-IsFresh h r)

  -- An answer that comes after the key has changed or the hook is gone changes nothing, not even
  -- the cache.
  pub answer-late :
      (p : Poll K V same) (f : Fetch K V same) (v : V)
      → (p.alive ≡ false) ⊎ (f.effect ≢ p.effect)
      → answer K V same f v p ≡ p
  unfolding answer
  answer-late p f v h = ground arith
