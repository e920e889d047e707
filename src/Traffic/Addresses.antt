-- ===== src/Traffic/Addresses.antt =====
-- The addresses of the traffic screen: what stripPort and splitAddr of
-- frontend/src/screens/Traffic.tsx take off.
use proxyforward.Common.{ℕ, ◌≡◌, ◌<◌, refl, ap, true, false, none, some, suc, [], ◌∷◌, ◌++◌, arith}
use proxyforward.Common.Tests.{◌==◌}
use proxyforward.Common.Lists.{All, length}
use proxyforward.Common.Decimal.{Text}
use proxyforward.Traffic.{index_of, last_index_of, take, drop, strip_port, split_addr, is_only}

abbrev colon : ℕ
colon = b':'

abbrev NoColon : Text → Type 0
NoColon t = All (λ c. (c == colon) ≡ false) t

index_of-none : (t : Text) → NoColon t → index_of colon t ≡ none
unfolding index_of
index_of-none [] h = refl
index_of-none (c ∷ cs) (p, h) = rw p (rw (index_of-none cs h) refl)

last_index_of-none : (t : Text) → NoColon t → last_index_of colon t ≡ none
unfolding last_index_of
last_index_of-none [] h = refl
last_index_of-none (c ∷ cs) (p, h) = rw (last_index_of-none cs h) (rw p refl)

index_of-host :
    (host rest : Text) → NoColon host → index_of colon (host ++ colon ∷ rest) ≡ some (length host)
unfolding index_of
index_of-host [] rest h = refl
index_of-host (c ∷ cs) rest (p, h) = rw p (rw (index_of-host cs rest h) refl)

last_index_of-host :
    (host port : Text)
    → NoColon port
    → last_index_of colon (host ++ colon ∷ port) ≡ some (length host)
unfolding last_index_of
last_index_of-host [] port h = rw (last_index_of-none port h) refl
last_index_of-host (c ∷ cs) port h = rw (last_index_of-host cs port h) refl

take-host : (host rest : Text) → take (length host) (host ++ rest) ≡ host
take-host [] rest = refl
take-host (c ∷ cs) rest = ap (c ∷◌) (take-host cs rest)

drop-host : (host port : Text) → drop (suc (length host)) (host ++ colon ∷ port) ≡ port
drop-host [] port = refl
drop-host (c ∷ cs) port = drop-host cs port

-- An address with one colon, behind a host that is not empty, is taken apart at it, by both.
pub split_addr-host :
    (c : ℕ) (cs port : Text)
    → NoColon (c ∷ cs)
    → NoColon port
    → (split_addr ((c ∷ cs) ++ colon ∷ port) ≡ record { ip = c ∷ cs; port = port })
      × (strip_port ((c ∷ cs) ++ colon ∷ port) ≡ c ∷ cs)
unfolding split_addr strip_port
split_addr-host c cs port h g =
    let only : is_only (length (c ∷ cs)) (some (length (c ∷ cs))) ≡ true = ground arith in
    rw (last_index_of-host (c ∷ cs) port g) (
      rw (index_of-host (c ∷ cs) (port) h)
        (rw only (rw (take-host (c ∷ cs) (colon ∷ port), drop-host (c ∷ cs) port) (refl, refl))))

length-append_lt : (a b : Text) → length a < length (a ++ colon ∷ b)
length-append_lt [] b = omega arith
length-append_lt (c ∷ cs) b = omega (arith, length-append_lt cs b)

length-host : (a b : Text) → is_only (length (a ++ colon ∷ b)) (some (length a)) ≡ false
length-host a b =
    let longer : length a < length (a ++ colon ∷ b) = length-append_lt a b in ground arith

index_of-ipv6 :
    (a b rest : Text) → NoColon a → index_of colon ((a ++ colon ∷ b) ++ rest) ≡ some (length a)
unfolding index_of
index_of-ipv6 [] b rest h = refl
index_of-ipv6 (c ∷ cs) b rest (p, h) = rw p (rw (index_of-ipv6 cs b rest h) refl)

-- An address whose host has a colon, as one of IPv6 has, keeps its port, which has none.
pub strip_port-ipv6 :
    (a b port : Text)
    → NoColon a
    → NoColon port
    → strip_port ((a ++ colon ∷ b) ++ colon ∷ port) ≡ (a ++ colon ∷ b) ++ colon ∷ port
unfolding strip_port
strip_port-ipv6 a b port h g =
    rw (last_index_of-host (a ++ colon ∷ b) port g)
      (rw (index_of-ipv6 a b (colon ∷ port) h) (rw (length-host a b) refl))
