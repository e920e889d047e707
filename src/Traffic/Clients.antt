-- ===== src/Traffic/Clients.antt =====
-- The clients of the traffic screen, `mergeClients` of frontend/src/screens/Traffic.tsx. The clock
-- stands still while it runs: every live client is seen at the same time.
pub mod Rows
pub mod Merged
use proxyforward.Common.{
  ℕ, ◌+◌, Bool, true, false, Option, none, some, List, [], ◌∷◌, map, ◌&&◌, not,
}
use proxyforward.Common.Tests.{ltb, leb, if◌then◌else◌}
use proxyforward.Common.Sort.{sort_by}
use proxyforward.Common.Maps.{Entry, entry, get, put}
use proxyforward.Common.Decimal.{Text}
use proxyforward.Traffic.{Conn, Peer, strip_port}

-- `ClientRow`
pub record ClientRow : Type 0 where
  pub ip : Text
  pub live : Bool
  pub session_start : Option ℕ
  pub total_in : ℕ
  pub total_out : ℕ
  pub conns : ℕ
  pub first_seen : ℕ
  pub last_seen : ℕ

abbrev pub peer_row : Peer → ClientRow
peer_row p = record {
  ip = p.ip;
  live = false;
  session_start = none;
  total_in = p.total_bytes_in;
  total_out = p.total_bytes_out;
  conns = p.total_conns;
  first_seen = p.first_seen;
  last_seen = p.last_seen;
}

-- The row of an address that no peer has
abbrev pub new_row : Text → Conn → ClientRow
new_row ip c = record {
  ip = ip;
  live = false;
  session_start = none;
  total_in = 0;
  total_out = 0;
  conns = 1;
  first_seen = c.started_at;
  last_seen = c.started_at;
}

abbrev pub row_or_new : Text → Conn → Option ClientRow → ClientRow
row_or_new ip c none = new_row ip c
row_or_new ip c (some row) = row

abbrev pub min_start : Option ℕ → ℕ → ℕ
min_start none s = s
min_start (some a) s = if leb a s then a else s

abbrev pub with_conn : ℕ → Conn → ClientRow → ClientRow
with_conn now c row = record row {
  live = true;
  session_start = some (min_start row.session_start c.started_at);
  total_in = row.total_in + c.bytes_in;
  total_out = row.total_out + c.bytes_out;
  last_seen = now;
}

unfoldable pub add_peers : List (Entry ClientRow) → List Peer → List (Entry ClientRow)
add_peers rows [] = rows
add_peers rows (p ∷ ps) = add_peers (put p.ip (peer_row p) rows) ps

unfoldable pub add_conns : ℕ → List (Entry ClientRow) → List Conn → List (Entry ClientRow)
add_conns now rows [] = rows
add_conns now rows (c ∷ cs) =
    let ip = strip_port c.client_addr in
    add_conns now (put ip (with_conn now c (row_or_new ip c (get ip rows))) rows) cs

-- The rows of the map, before they are sorted
unfoldable pub client_rows : ℕ → List Peer → List Conn → List (Entry ClientRow)
unfolding add_peers add_conns
client_rows now peers conns = add_conns now (add_peers [] peers) conns

-- The comparison of `sort`: the live ones first, then the last one seen
abbrev pub is_before : ClientRow → ClientRow → Bool
is_before a b = elim a.live [
  | true ↦ if b.live then ltb b.last_seen a.last_seen else true
  | false ↦ if b.live then false else ltb b.last_seen a.last_seen
]

-- `mergeClients`
unfoldable pub merge_clients : ℕ → List Peer → List Conn → List ClientRow
unfolding client_rows
merge_clients now peers conns = sort_by is_before (map (λ e. e.value) (client_rows now peers conns))
