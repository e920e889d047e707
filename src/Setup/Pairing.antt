-- ===== src/Setup/Pairing.antt =====
-- `parsePairing` of frontend/src/screens/Wizard.tsx reads what the gateway prints.
use proxyforward.Common.{
  ℕ, ◌≤◌, ◌≡◌, refl, ap, Bool, true, false, ◌&&◌, ◌||◌, not, some, [], ◌∷◌, ◌++◌, arith,
}
use proxyforward.Common.Tests.{◌==◌, ltb, leb}
use proxyforward.Common.Lists.{All, All-map, length}
use proxyforward.Common.Decimal.{
  Text, codes, IsDigit, decimal, decimal-IsDigit, decimal-cons, read_digits-decimal,
}
use proxyforward.Common.Texts.{trim, is_digit}
use mathlib.Core.List.{append_assoc}
use proxyforward.Setup.Trimmed.{IsPin, IsBlank, Ends-append, Ends-pin, trim_start-blank}
use proxyforward.Setup.{
  after, start_of, rest_of, is_pin, is_hex, in_token, is_token, port_digits, in_name, in_brackets,
  pairing_groups, bare_host, parse_pairing, pairing_code, host_and_port, without_last,
}

-- A run of characters that pass ends at the first one that does not.
start_of-run :
    (p : ℕ → Bool) (xs : Text) (c : ℕ) (ys : Text)
    → All (λ x. p x ≡ true) xs
    → p c ≡ false
    → (start_of p (xs ++ c ∷ ys) ≡ xs) × (rest_of p (xs ++ c ∷ ys) ≡ c ∷ ys)
start_of-run p [] c ys h g = (rw g refl, rw g refl)
start_of-run p (x ∷ xs) c ys (q, h) g =
    let (s, r) = start_of-run p xs c ys h g in (rw q (ap (x ∷◌) s), rw q r)

after-append : (p t : Text) → after p (p ++ t) ≡ some t
after-append [] t = refl
after-append (c ∷ cs) t = let same : (c == c) ≡ true = ground arith in rw same (after-append cs t)

-- A fingerprint, a token, a port and the kinds of a host
abbrev pub IsFull : (ℕ → Bool) → Text → Type 0
IsFull p t = (1 ≤ length t) × All (λ c. p c ≡ true) t

pin-lem : (pin : Text) → IsPin pin → is_pin (some pin) ≡ true
pin-lem pin (l, h) = rw (l, h) refl

token-lem :
    (token pin : Text)
    → IsFull in_token token
    → IsPin pin
    → is_token (some (token ++ (codes "#sha256:" ++ pin))) ≡ true
token-lem token pin (l, h) g =
    let (s, r) = start_of-run in_token token b'#' (codes "sha256:" ++ pin) h refl in
    let some_token : leb 1 (length token) ≡ true = ground arith in
    rw (s, r) (rw some_token (pin-lem pin g))

digits_pass : (t : Text) → All IsDigit t → All (λ c. is_digit c ≡ true) t
digits_pass [] h = tt
digits_pass (c ∷ cs) ((l, u), h) = (ground arith, digits_pass cs h)

decimal_full : (n : ℕ) → leb 1 (length (decimal n)) ≡ true
decimal_full n = let (c, cs, e) = decimal-cons n in rw e (ground arith)

-- What follows the colon of a host
abbrev tail_of : ℕ → Text → Text → Text
tail_of port token pin = decimal port ++ (codes "/v1/pair/" ++ (token ++ (codes "#sha256:" ++ pin)))

port-lem :
    (port : ℕ) (token pin : Text)
    → IsFull in_token token
    → IsPin pin
    → port_digits (some (tail_of port token pin)) ≡ some (decimal port)
port-lem port token pin h g =
    let path = token ++ (codes "#sha256:" ++ pin) in
    let (s, r) =
      start_of-run is_digit (decimal port) b'/' (codes "v1/pair/" ++ path)
        (digits_pass (decimal port) (decimal-IsDigit port)) refl in
    rw (s, r) (rw (decimal_full port, token-lem token pin h g) refl)

-- A host as `JoinHostPort` writes it: a name, or an address in brackets
pub data Host : Type 0 where
  name : Text → Host
  ipv6 : Text → Host

abbrev pub written : Host → Text
written (name t) = t
written (ipv6 t) = b'[' ∷ (t ++ (b']' ∷ []))

abbrev pub text_of : Host → Text
text_of (name t) = t
text_of (ipv6 t) = t

abbrev in_host : ℕ → Bool
in_host c = in_name c && (not (c == b'[') && not (c == b']'))

abbrev IsRead : Host → Type 0
IsRead (name t) = IsFull in_host t
IsRead (ipv6 t) = IsFull in_brackets t

-- What no part of a URL escapes: letters, digits, `-`, `_`, `.` and `~`
abbrev pub is_plain : ℕ → Bool
is_plain c =
    ((leb 97 c && leb c 122) || (leb 65 c && leb c 90))
    || ((is_digit c || (c == b'-' || c == b'_')) || (c == b'.' || c == b'~'))

-- What an IPv6 address without a zone is written in
abbrev pub in_address : ℕ → Bool
in_address c = is_hex c || (c == b':' || c == b'.')

-- A host that a URL does not escape
abbrev pub IsHost : Host → Type 0
IsHost (name t) = IsFull is_plain t
IsHost (ipv6 t) = IsFull in_address t

host_plain : (c : ℕ) → is_plain c ≡ true → in_host c ≡ true
host_plain c h = ground (arith, h)

token_plain : (c : ℕ) → is_plain c ≡ true → in_token c ≡ true
token_plain c h = ground (arith, h)

brackets_address : (c : ℕ) → in_address c ≡ true → in_brackets c ≡ true
brackets_address c h = ground (arith, h)

IsFull-map :
    {p q : ℕ → Bool} (f : (c : ℕ) → p c ≡ true → q c ≡ true) (t : Text) → IsFull p t → IsFull q t
IsFull-map {p} {q} f t (l, h) = (l, All-map {P = λ c. p c ≡ true} {Q = λ c. q c ≡ true} f t h)

IsHost-IsRead : (host : Host) → IsHost host → IsRead host
IsHost-IsRead (name t) h = IsFull-map {p = is_plain} {q = in_host} host_plain t h
IsHost-IsRead (ipv6 t) h = IsFull-map {p = in_address} {q = in_brackets} brackets_address t h

names_pass : (t : Text) → All (λ c. in_host c ≡ true) t → All (λ c. in_name c ≡ true) t
names_pass [] h = tt
names_pass (c ∷ cs) (p, h) = (ground (arith, p), names_pass cs h)

named-lem :
    (t : Text) (port : ℕ) (token pin : Text)
    → IsFull in_host t
    → IsFull in_token token
    → IsPin pin
    → host_and_port (some (t ++ (b':' ∷ tail_of port token pin)))
      ≡ some (record { host = t; digits = decimal port })
named-lem [] port token pin (l, h) g k = absurd (omega arith)
named-lem (c ∷ cs) port token pin (l, (p, h)) g k =
    let (s, r) =
      start_of-run in_name (c ∷ cs) b':' (tail_of port token pin) (names_pass (c ∷ cs) (p, h))
        refl in
    let no_bracket : (c == b'[') ≡ false = ground (arith, p) in
    let full : leb 1 (length (c ∷ cs)) ≡ true = ground arith in
    rw no_bracket (rw (s, r) (rw (full, port-lem port token pin g k) refl))

ipv6-lem :
    (t : Text) (port : ℕ) (token pin : Text)
    → IsFull in_brackets t
    → IsFull in_token token
    → IsPin pin
    → host_and_port (some (b'[' ∷ (t ++ (b']' ∷ (b':' ∷ tail_of port token pin)))))
      ≡ some (record { host = b'[' ∷ (t ++ (b']' ∷ [])); digits = decimal port })
ipv6-lem t port token pin (l, h) g k =
    let (s, r) = start_of-run in_brackets t b']' (b':' ∷ tail_of port token pin) h refl in
    let full : leb 1 (length t) ≡ true = ground arith in
    rw (s, r) (rw (full, port-lem port token pin g k) refl)

without_last-append : (t : Text) → without_last (t ++ (b']' ∷ [])) ≡ t
without_last-append [] = refl
without_last-append (c ∷ []) = refl
without_last-append (c ∷ d ∷ ds) = ap (c ∷◌) (without_last-append (d ∷ ds))

without_last-name : (t : Text) → All (λ c. in_host c ≡ true) t → without_last t ≡ t
without_last-name [] h = refl
without_last-name (c ∷ []) (p, h) =
    let solid : (c == b']') ≡ false = ground (arith, p) in rw solid refl
without_last-name (c ∷ d ∷ ds) (p, h) = ap (c ∷◌) (without_last-name (d ∷ ds) h)

bare_host-written : (host : Host) → IsRead host → bare_host (written host) ≡ text_of host
unfolding bare_host
bare_host-written (name []) h = refl
bare_host-written (name (c ∷ cs)) (l, (p, h)) =
    let solid : (c == b'[') ≡ false = ground (arith, p) in
    rw solid (without_last-name (c ∷ cs) (p, h))
bare_host-written (ipv6 t) h = without_last-append t

trim-code :
    (before behind : Text) (host : Text) (port : ℕ) (token pin : Text)
    → IsBlank before
    → IsBlank behind
    → IsPin pin
    → trim (before ++ (pairing_code host port token pin ++ behind))
      ≡ pairing_code host port token pin
unfolding trim pairing_code
trim-code before behind host port token pin b d g =
    let path = Ends-append behind (codes "/v1/pair/") _ (
      Ends-append behind token _
        (Ends-append behind (codes "#sha256:") pin (Ends-pin behind pin d g))) in
    let whole = Ends-append behind (codes "pxf://") _ (
      Ends-append behind host _
        (Ends-append behind (b':' ∷ []) _ (Ends-append behind (decimal port) _ path))) in
    rw (trim_start-blank before _ _ b refl) whole.0

host-lem :
    (host : Host) (port : ℕ) (token pin : Text)
    → IsRead host
    → IsFull in_token token
    → IsPin pin
    → host_and_port (some (written host ++ (b':' ∷ tail_of port token pin)))
      ≡ some (record { host = written host; digits = decimal port })
host-lem (name t) port token pin h g k = named-lem t port token pin h g k
host-lem (ipv6 t) port token pin h g k =
    rw (append_assoc t (b']' ∷ []) (b':' ∷ tail_of port token pin))
      (ipv6-lem t port token pin h g k)

-- The code that the gateway prints for a name or an IPv6 address, a port from 1 to 65535, a token and
-- 64 hexadecimal digits of a fingerprint is read, with any white space around it, as that host,
-- without the brackets of an IPv6 address, and that port; where the name and the token are of
-- letters, digits, -, _, . and ~, and the address of hexadecimal digits, : and ., which the gateway
-- prints without escapes.
pub parse_pairing-code :
    (before behind : Text) (host : Host) (port : ℕ) (token pin : Text)
    → IsBlank before
    → IsBlank behind
    → IsHost host
    → 1 ≤ port
    → port ≤ 65535
    → IsFull is_plain token
    → IsPin pin
    → parse_pairing (before ++ (pairing_code (written host) port token pin ++ behind))
      ≡ some (record { host = text_of host; port = port })
unfolding parse_pairing pairing_groups
parse_pairing-code before behind host port token pin b d h l u g k =
    let read = IsHost-IsRead host h in
    let full = IsFull-map {p = is_plain} {q = in_token} token_plain token g in
    let inside : ltb port 1 || ltb 65535 port ≡ false = ground arith in
    rw (trim-code before behind (written host) port token pin b d k) (
      unfold pairing_code in
      rw (host-lem host port token pin read full k)
        (rw (read_digits-decimal port, bare_host-written host read) (rw inside refl)))
