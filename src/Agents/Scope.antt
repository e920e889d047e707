-- ===== src/Agents/Scope.antt =====
-- The scope of an agent in frontend/src/screens/Agents.tsx: the ports and tunnels that it may bind,
-- as they are typed, sent and shown. Empty lists mean that it may bind anything.
use proxyforward.Common.{
  ℕ, ◌≤◌, ◌<◌, ◌≡◌, refl, ap, ◌∙◌, true, false, not, ◌&&◌, Option, none, some, List, [], ◌∷◌, ◌++◌,
  map, arith,
}
use proxyforward.Common.Tests.{◌==◌, ltb, if◌then◌else◌}
use proxyforward.Common.Lists.{length, filter, All}
use proxyforward.Common.Decimal.{Text, codes, decimal, IsDigit, decimal-IsDigit}
use proxyforward.Common.Texts.{
  is_empty, trim, trim_start, trim_end, split, join, parse_int, trim-digits, trim-space,
  parse_int-decimal,
}
use proxyforward.Common.Int.{ℤ, pos, negsuc}

-- The filter of `parsePorts`: NaN compares as false.
unfoldable pub valid_ports : List (Option ℤ) → List ℕ
valid_ports [] = []
valid_ports (some (pos n) ∷ ns) =
    let rest = valid_ports ns in if ltb 0 n && ltb n 65536 then n ∷ rest else rest
valid_ports (some (negsuc n) ∷ ns) = valid_ports ns
valid_ports (none ∷ ns) = valid_ports ns

-- `parsePorts`
unfoldable pub parse_ports : Text → List ℕ
unfolding valid_ports
parse_ports s = valid_ports (map (λ x. parse_int (trim x)) (split b',' s))

-- `parseTuns`
unfoldable pub parse_tuns : Text → List Text
parse_tuns s = filter (λ x. not (is_empty x)) (map trim (split b',' s))

-- The text that `setPorts` is given for the ports of an agent.
unfoldable pub show_ports : List ℕ → Text
show_ports ports = join (codes ", ") (map decimal ports)

abbrev pub plural : ℕ → Text → Text → Text
plural n one many = if n == 1 then one else many

-- `scopeText`
unfoldable pub scope_text : List ℕ → List Text → Text
unfolding show_ports
scope_text [] [] = codes "Unrestricted"
scope_text (p ∷ ps) [] =
    plural (length (p ∷ ps)) (codes "port") (codes "ports") ++ 32 ∷ show_ports (p ∷ ps)
scope_text [] (t ∷ ts) =
    decimal (length (t ∷ ts)) ++ (codes " tunnel" ++ plural (length (t ∷ ts)) [] (codes "s"))
scope_text (p ∷ ps) (t ∷ ts) =
    plural (length (p ∷ ps)) (codes "port") (codes "ports")
    ++ (32
        ∷ (show_ports (p ∷ ps)
            ++ (codes " · "
                ++ (decimal (length (t ∷ ts))
                    ++ (codes " tunnel" ++ plural (length (t ∷ ts)) [] (codes "s"))))))

-- What `saveScope` sends for the two typed texts.
unfoldable pub sent_scope : Text → Text → List ℕ × List Text
unfolding parse_ports parse_tuns
sent_scope ports tuns = (parse_ports ports, parse_tuns tuns)

abbrev NoComma : Text → Type 0
NoComma w = All (λ c. (c == b',') ≡ false) w

split-word : (w rest : Text) → NoComma w → split b',' (w ++ b',' ∷ rest) ≡ w ∷ split b',' rest
unfolding split
split-word [] rest h = refl
split-word (c ∷ cs) rest (p, h) = rw p (rw (split-word cs rest h) refl)

split-whole : (w : Text) → NoComma w → split b',' w ≡ w ∷ []
unfolding split
split-whole [] h = refl
split-whole (c ∷ cs) (p, h) = rw p (rw (split-whole cs h) refl)

NoComma-digits : (w : Text) → All IsDigit w → NoComma w
NoComma-digits [] h = tt
NoComma-digits (c ∷ cs) (p, h) = (ground arith, NoComma-digits cs h)

NoComma-decimal : (n : ℕ) → NoComma (decimal n)
NoComma-decimal n = NoComma-digits (decimal n) (decimal-IsDigit n)

-- A port as it stands behind a comma.
abbrev spaced : ℕ → Text
spaced n = 32 ∷ decimal n

split-spaced : (p : ℕ) (ps : List ℕ) → split b',' (32 ∷ show_ports (p ∷ ps)) ≡ map spaced (p ∷ ps)
unfolding show_ports join
split-spaced p [] = split-whole (spaced p) (refl, NoComma-decimal p)
split-spaced p (q ∷ ps) =
    split-word (spaced p) (32 ∷ show_ports (q ∷ ps)) (refl, NoComma-decimal p)
    ∙ ap (spaced p ∷◌) (split-spaced q ps)

split-show_ports :
    (p : ℕ) (ps : List ℕ) → split b',' (show_ports (p ∷ ps)) ≡ decimal p ∷ map spaced ps
unfolding show_ports join
split-show_ports p [] = split-whole (decimal p) (NoComma-decimal p)
split-show_ports p (q ∷ ps) =
    split-word (decimal p) (32 ∷ show_ports (q ∷ ps)) (NoComma-decimal p)
    ∙ ap (decimal p ∷◌) (split-spaced q ps)

-- A port that can be bound
abbrev pub IsPort : ℕ → Type 0
IsPort n = (1 ≤ n) × (n < 65536)

valid_ports-port :
    (n : ℕ) (ns : List (Option ℤ)) → IsPort n → valid_ports (some (pos n) ∷ ns) ≡ n ∷ valid_ports ns
unfolding valid_ports
valid_ports-port n ns (l, h) =
    let inside : ltb 0 n && ltb n 65536 ≡ true = ground arith in rw inside refl

parse-spaced :
    (ps : List ℕ) → All IsPort ps → valid_ports (map (λ x. parse_int (trim x)) (map spaced ps)) ≡ ps
parse-spaced [] h = unfold valid_ports in refl
parse-spaced (p ∷ ps) (v, h) =
    rw (trim-space (decimal p) (decimal-IsDigit p), parse_int-decimal p, valid_ports-port p _ v)
      (ap (p ∷◌) (parse-spaced ps h))

-- The ports of an agent are read back from the text that its field starts with.
pub parse_ports-show_ports :
    (ports : List ℕ) → All IsPort ports → parse_ports (show_ports ports) ≡ ports
unfolding parse_ports
parse_ports-show_ports [] h =
    unfold show_ports join split trim trim_start trim_end parse_int valid_ports in refl
parse_ports-show_ports (p ∷ ps) (v, h) = rw (split-show_ports p ps) (
    rw (trim-digits (decimal p) (decimal-IsDigit p), parse_int-decimal p, valid_ports-port p _ v)
      (ap (p ∷◌) (parse-spaced ps h)))

parse_ports-large : (n : ℕ) → 65536 ≤ n → parse_ports (decimal n) ≡ []
unfolding parse_ports valid_ports
parse_ports-large n h =
    let outside : ltb 0 n && ltb n 65536 ≡ false = ground arith in
    rw (split-whole (decimal n) (NoComma-decimal n)) (
      rw (trim-digits (decimal n) (decimal-IsDigit n), parse_int-decimal n)
        (rw (valid_ports, outside) refl))

-- A port number that is too large is dropped without an error: typed alone, with no tunnels, it
-- sends empty lists, with which the agent may bind anything.
pub sent_scope-invalid :
    (n : ℕ)
    → 65536 ≤ n
    → (sent_scope (decimal n) [] ≡ ([], [])) × (scope_text [] [] ≡ codes "Unrestricted")
unfolding sent_scope parse_tuns split trim trim_start trim_end scope_text
sent_scope-invalid n h = (rw (parse_ports-large n h) refl, refl)
