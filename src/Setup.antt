-- ===== src/Setup.antt =====
-- The first-run wizard, frontend/src/screens/Wizard.tsx: `parsePairing`, which reads a pairing code
-- as it is typed. The acts of the wizard and the issue of a code are in the child modules.
pub mod Trimmed
pub mod Pairing
pub mod Acts
pub mod Ticket
use proxyforward.Common.{
  ℕ, Bool, true, false, not, ◌&&◌, ◌||◌, Option, none, some, List, [], ◌∷◌, ◌++◌,
}
use proxyforward.Common.Tests.{◌==◌, ltb, leb, if◌then◌else◌}
use proxyforward.Common.Lists.{length}
use proxyforward.Common.Decimal.{Text, codes, read_digits, decimal}
use proxyforward.Common.Texts.{trim, is_digit}

-- What follows a prefix
abbrev pub after : Text → Text → Option Text
after [] t = some t
after (c ∷ cs) [] = none
after (c ∷ cs) (d ∷ ds) = if c == d then after cs ds else none

-- The longest start whose characters pass, and the rest
abbrev pub start_of : (ℕ → Bool) → Text → Text
start_of p [] = []
start_of p (c ∷ cs) = if p c then c ∷ start_of p cs else []

abbrev pub rest_of : (ℕ → Bool) → Text → Text
rest_of p [] = []
rest_of p (c ∷ cs) = if p c then rest_of p cs else c ∷ cs

-- `[0-9a-fA-F]`
abbrev pub is_hex : ℕ → Bool
is_hex c = is_digit c || ((leb 97 c && leb c 102) || (leb 65 c && leb c 70))

abbrev pub all_hex : Text → Bool
all_hex [] = true
all_hex (c ∷ cs) = is_hex c && all_hex cs

-- `#sha256:[0-9a-fA-F]{64}$`
abbrev pub is_pin : Option Text → Bool
is_pin none = false
is_pin (some t) = (length t == 64) && all_hex t

-- `[^/#]`
abbrev pub in_token : ℕ → Bool
in_token c = not (c == b'/') && not (c == b'#')

-- `([^/#]+)` and the rest of the code
abbrev pub is_token : Option Text → Bool
is_token none = false
is_token (some t) =
    leb 1 (length (start_of in_token t)) && is_pin (after (codes "#sha256:") (rest_of in_token t))

-- `(\d+)` behind the colon of a host, if the rest of the code follows it
abbrev pub port_digits : Option Text → Option Text
port_digits none = none
port_digits (some t) =
    if leb 1 (length (start_of is_digit t))
      && is_token (after (codes "/v1/pair/") (rest_of is_digit t))
    then some (start_of is_digit t)
    else none

-- The two groups of a match
pub record Groups : Type 0 where
  pub host : Text
  pub digits : Text

abbrev pub groups : Text → Option Text → Option Groups
groups host none = none
groups host (some digits) = some (record { host = host; digits = digits })

-- `[^\]]`
abbrev pub in_brackets : ℕ → Bool
in_brackets c = not (c == b']')

-- `[^/:]`
abbrev pub in_name : ℕ → Bool
in_name c = not (c == b'/') && not (c == b':')

-- The first alternative of the host, `\[[^\]]+\]`
abbrev pub bracketed : Text → Option Groups
bracketed [] = none
bracketed (c ∷ cs) =
    if (c == b'[') && leb 1 (length (start_of in_brackets cs))
    then groups (b'[' ∷ (start_of in_brackets cs ++ (b']' ∷ [])))
        (port_digits (after (codes "]:") (rest_of in_brackets cs)))
    else none

-- The second one, `[^/:]+`
abbrev pub named : Text → Option Groups
named t =
    if leb 1 (length (start_of in_name t))
    then groups (start_of in_name t) (port_digits (after (codes ":") (rest_of in_name t)))
    else none

abbrev pub or_groups : Option Groups → Option Groups → Option Groups
or_groups none b = b
or_groups (some a) b = some a

abbrev pub host_and_port : Option Text → Option Groups
host_and_port none = none
host_and_port (some t) = or_groups (bracketed t) (named t)

-- `exec` of the expression. Every run of it ends at the first character that it may not take, so
-- no shorter one matches.
unfoldable pub pairing_groups : Text → Option Groups
pairing_groups t = host_and_port (after (codes "pxf://") t)

abbrev pub without_last : Text → Text
without_last [] = []
without_last (c ∷ []) = if c == b']' then [] else c ∷ []
without_last (c ∷ d ∷ ds) = c ∷ without_last (d ∷ ds)

abbrev pub without_first : Text → Text
without_first [] = []
without_first (c ∷ cs) = if c == b'[' then cs else c ∷ cs

-- `replace(/^\[|\]$/g, '')`
unfoldable pub bare_host : Text → Text
bare_host t = without_last (without_first t)

pub record Gateway : Type 0 where
  pub host : Text
  pub port : ℕ

abbrev pub gateway : Option Groups → Option Gateway
gateway none = none
gateway (some g) =
    let port = read_digits 0 g.digits in
    if ltb port 1 || ltb 65535 port
    then none
    else some (record { host = bare_host g.host; port = port })

-- `parsePairing`
unfoldable pub parse_pairing : Text → Option Gateway
unfolding pairing_groups bare_host
parse_pairing s = gateway (pairing_groups (trim s))

-- `PairingCode.String` of internal/link/pairing.go, of a host and a token that need no escapes
unfoldable pub pairing_code : Text → ℕ → Text → Text → Text
pairing_code host port token pin =
    codes "pxf://"
    ++ (host
        ++ (b':' ∷ (decimal port ++ (codes "/v1/pair/" ++ (token ++ (codes "#sha256:" ++ pin))))))
