-- ===== src/Traffic.antt =====
-- The traffic screen, frontend/src/screens/Traffic.tsx: the addresses, and the records of
-- frontend/wailsjs/go/models.ts that it reads. Its rates, clients and texts are in the child
-- modules.
pub mod Addresses
pub mod Rates
pub mod Clients
pub mod Elapsed
use proxyforward.Common.{
  ℕ, Bool, true, false, Option, none, some, List, [], ◌∷◌, ◌&&◌, ◌||◌, not, zero, suc,
}
use proxyforward.Common.Tests.{◌==◌, ltb, leb, if◌then◌else◌}
use proxyforward.Common.Lists.{length}
use proxyforward.Common.Decimal.{Text, codes, text_eq, read_digits}
use proxyforward.Common.Texts.{is_empty, starts_with, leading}
use proxyforward.Common.Maps.{is_some}
use proxyforward.Common.Sort.{sort_by}

-- `ConnUI`: the fields that the screen computes with. Its numbers of bytes and its times are not
-- negative.
pub record Conn : Type 0 where
  pub client_addr : Text
  pub started_at : ℕ
  pub bytes_in : ℕ
  pub bytes_out : ℕ

-- `PeerStat`
pub record Peer : Type 0 where
  pub ip : Text
  pub first_seen : ℕ
  pub last_seen : ℕ
  pub total_bytes_in : ℕ
  pub total_bytes_out : ℕ
  pub total_conns : ℕ

-- The order of the sessions: the oldest first
abbrev pub older : Conn → Conn → Bool
older a b = ltb a.started_at b.started_at

unfoldable pub sessions : List Conn → List Conn
sessions conns = sort_by older conns

abbrev pub after_some : Option ℕ → Option ℕ
after_some none = none
after_some (some n) = some (suc n)

abbrev pub or_else : Option ℕ → Option ℕ → Option ℕ
or_else none b = b
or_else (some a) b = some a

-- `indexOf`, for one character
unfoldable pub index_of : ℕ → Text → Option ℕ
index_of c [] = none
index_of c (x ∷ xs) = if x == c then some 0 else after_some (index_of c xs)

-- `lastIndexOf`, for one character
unfoldable pub last_index_of : ℕ → Text → Option ℕ
last_index_of c [] = none
last_index_of c (x ∷ xs) =
    or_else (after_some (last_index_of c xs)) (if x == c then some 0 else none)

-- `slice(0, n)` and `slice(n)`
abbrev pub take : ℕ → Text → Text
take zero xs = []
take (suc n) [] = []
take (suc n) (x ∷ xs) = x ∷ take n xs

abbrev pub drop : ℕ → Text → Text
drop zero xs = xs
drop (suc n) [] = []
drop (suc n) (x ∷ xs) = drop n xs

-- `i > 0 && addr.indexOf(':') === i`, at an index that is not -1
abbrev pub is_only : ℕ → Option ℕ → Bool
is_only i none = false
is_only i (some j) = ltb 0 i && j == i

abbrev pub strip_at : Text → Option ℕ → Text
strip_at addr none = addr
strip_at addr (some i) = if is_only i (index_of b':' addr) then take i addr else addr

-- `stripPort`
unfoldable pub strip_port : Text → Text
unfolding index_of last_index_of
strip_port addr = strip_at addr (last_index_of b':' addr)

-- The two parts of an address
pub record Split : Type 0 where
  pub ip : Text
  pub port : Text

abbrev pub split_at : Text → Option ℕ → Split
split_at addr none = record { ip = addr; port = [] }
split_at addr (some i) =
    if is_only i (index_of b':' addr)
    then record { ip = take i addr; port = drop (suc i) addr }
    else record { ip = addr; port = [] }

-- `splitAddr`
unfoldable pub split_addr : Text → Split
unfolding index_of last_index_of
split_addr addr = split_at addr (last_index_of b':' addr)

abbrev pub has_dot : Text → Bool
has_dot [] = false
has_dot (c ∷ cs) = c == b'.'

abbrev pub in_block : Text → Bool
in_block [] = false
in_block (c ∷ cs) = leb 16 (read_digits 0 (c ∷ cs)) && leb (read_digits 0 (c ∷ cs)) 31

-- `/^172\.(\d+)\./`, and the test of its group
unfoldable pub in_172 : Text → Bool
unfolding leading
in_172 ip =
    let rest = drop 4 ip in
    starts_with (codes "172.") ip
    && (has_dot (drop (length (leading rest)) rest) && in_block (leading rest))

-- `isPrivateIP`
unfoldable pub is_private_ip : Text → Bool
unfolding in_172
is_private_ip ip =
    if text_eq ip (codes "::1")
      || (starts_with (codes "127.") ip || starts_with (codes "localhost") ip)
    then true
    else if starts_with (codes "10.") ip
        || (starts_with (codes "192.168.") ip || starts_with (codes "169.254.") ip)
    then true
    else if in_172 ip
    then true
    else starts_with (codes "fe80:") ip
      || (starts_with (codes "fc") ip || starts_with (codes "fd") ip)

-- Whether `LanTag` shows anything
unfoldable pub lan_tag : Text → Text → Bool
unfolding is_private_ip
lan_tag ip self_ip = is_private_ip ip || (not (is_empty self_ip) && text_eq ip self_ip)
