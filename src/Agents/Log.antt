-- ===== src/Agents/Log.antt =====
-- Logs of ascending numbers, and the cap of frontend/src/screens/Agents.tsx on their tail.
use proxyforward.Common.{
  ℕ, zero, suc, ◌+◌, ◌-◌, ◌≤◌, ◌<◌, ◌≡◌, refl, sym, ap, ◌∙◌, true, false, List, [], ◌∷◌, ◌++◌,
  arith, inl, inr,
}
use proxyforward.Common.Tests.{ltb, leb, Bool-cases}
use proxyforward.Common.Lists.{length, filter, length-append}
use proxyforward.Agents.Events.{drop, capped, last_or}

abbrev pub Ascends : ℕ → List ℕ → Type 0
Ascends m [] = Unit
Ascends m (x ∷ xs) = (m < x) × Ascends x xs

-- The events of a log from a number on, and those up to it.
abbrev pub after : ℕ → List ℕ → List ℕ
after n = filter (λ s. ltb n s)

abbrev pub upto : ℕ → List ℕ → List ℕ
upto n = filter (λ s. leb s n)

pub all_above :
    (n m : ℕ) (xs : List ℕ) → n ≤ m → Ascends m xs → (upto n xs ≡ []) × (after n xs ≡ xs)
all_above n m [] l h = (refl, refl)
all_above n m (x ∷ xs) l (g, h) =
    let (none_up, all_after) = all_above n x xs (omega arith) h in
    let out : leb x n ≡ false = ground arith in
    let in_after : ltb n x ≡ true = ground arith in
    (rw out none_up, rw in_after (ap (x ∷◌) all_after))

pub upto-after : (n m : ℕ) (xs : List ℕ) → Ascends m xs → upto n xs ++ after n xs ≡ xs
upto-after n m [] h = refl
upto-after n m (x ∷ xs) (g, h) = elim (Bool-cases (leb x n)) [
  | inl e ↦
      let out : ltb n x ≡ false = ground arith in rw (e, out) (ap (x ∷◌) (upto-after n x xs h))
  | inr e ↦
      let in_after : ltb n x ≡ true = ground arith in
      let (none_up, all_after) = all_above n x xs (ground arith) h in
      rw (e, in_after) (rw none_up (ap (x ∷◌) all_after))
]

pub last_or-le : (m : ℕ) (xs : List ℕ) → Ascends m xs → m ≤ last_or m xs
last_or-le m [] h = omega arith
last_or-le m (x ∷ xs) (g, h) = omega (arith, last_or-le x xs h)

pub upto_last : (m n : ℕ) (xs : List ℕ) → Ascends m xs → last_or m xs ≤ n → upto n xs ≡ xs
upto_last m n [] h l = refl
upto_last m n (x ∷ xs) (g, h) l =
    let in_upto : leb x n ≡ true = ground (arith, last_or-le x xs h) in
    rw in_upto (ap (x ∷◌) (upto_last x n xs h l))

pub last_or-append :
    (m : ℕ) (ys : List ℕ) (x : ℕ) (xs : List ℕ) → last_or m (ys ++ x ∷ xs) ≡ last_or x xs
last_or-append m [] x xs = refl
last_or-append m (y ∷ ys) x xs = last_or-append y ys x xs

pub Ascends-append :
    (m : ℕ) (xs : List ℕ) (s : ℕ) → Ascends m xs → last_or m xs < s → Ascends m (xs ++ s ∷ [])
Ascends-append m [] s h l = (l, tt)
Ascends-append m (x ∷ xs) s (g, h) l = (g, Ascends-append x xs s h l)

pub upto-append : (n : ℕ) (xs : List ℕ) (s : ℕ) → n < s → upto n (xs ++ s ∷ []) ≡ upto n xs
upto-append n [] s l = let out : leb s n ≡ false = ground arith in rw out refl
upto-append n (x ∷ xs) s l = elim (Bool-cases (leb x n)) [
  | inl e ↦ rw e (ap (x ∷◌) (upto-append n xs s l))
  | inr e ↦ rw e (upto-append n xs s l)
]

drop-drop : (j k : ℕ) (xs : List ℕ) → drop j (drop k xs) ≡ drop (k + j) xs
unfolding drop
drop-drop j k [] = refl
drop-drop j zero (x ∷ xs) = let e : 0 + j ≡ j = omega arith in rw e refl
drop-drop j (suc k) (x ∷ xs) =
    let e : suc k + j ≡ suc (k + j) = omega arith in rw e (drop-drop j k xs)

drop-append : (k : ℕ) (xs ys : List ℕ) → k ≤ length xs → drop k (xs ++ ys) ≡ drop k xs ++ ys
unfolding drop
drop-append zero [] [] h = refl
drop-append zero [] (y ∷ ys) h = refl
drop-append (suc k) [] ys h = absurd (omega arith)
drop-append zero (x ∷ xs) ys h = refl
drop-append (suc k) (x ∷ xs) ys h = drop-append k xs ys (omega arith)

length-drop : (k : ℕ) (xs : List ℕ) → length (drop k xs) ≡ length xs - k
unfolding drop
length-drop k [] = omega arith
length-drop zero (x ∷ xs) = omega arith
length-drop (suc k) (x ∷ xs) = omega (arith, length-drop k xs)

-- To cap a list early loses nothing that the later cap would keep.
pub capped-append : (xs ys : List ℕ) → capped (capped xs ++ ys) ≡ capped (xs ++ ys)
unfolding capped
capped-append xs ys =
    let k = length xs - 200 in
    let early : drop k xs ++ ys ≡ drop k (xs ++ ys) = sym (drop-append k xs ys (omega arith)) in
    let cut : k + (length (drop k xs ++ ys) - 200) ≡ length (xs ++ ys) - 200 =
      omega (arith, length-append (drop k xs) ys, length-append xs ys, length-drop k xs) in
    ap (drop (length (drop k xs ++ ys) - 200)) early
    ∙ drop-drop (length (drop k xs ++ ys) - 200) k (xs ++ ys)
    ∙ ap (λ n. drop n (xs ++ ys)) cut
