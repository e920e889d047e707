-- ===== src/Traffic/Clients/Rows.antt =====
-- The row that an address has in `mergeClients` (frontend/src/screens/Traffic.tsx), from its peer
-- and its live connections alone.
use native.Mathlib.Nat.{add-zero, zero-add, add_assoc}
use proxyforward.Common.{
  ℕ, ◌+◌, ◌≡◌, refl, ap, sym, ◌∙◌, Bool, true, Option, none, some, List, [], ◌∷◌, inl, inr,
}
use proxyforward.Common.Tests.{leb, if◌then◌else◌, Bool-cases}
use proxyforward.Common.Lists.{filter}
use proxyforward.Common.Maps.{Entry, get, put, get-put}
use proxyforward.Common.Decimal.{Text, text_eq, eq_of_text_eq}
use proxyforward.Traffic.{Conn, Peer, strip_port}
use proxyforward.Traffic.Clients.{
  ClientRow, peer_row, new_row, row_or_new, min_start, with_conn, add_peers, add_conns, client_rows,
}

-- The last peer of an address
abbrev pub or_peer : Option Peer → Option Peer → Option Peer
or_peer none b = b
or_peer (some a) b = some a

abbrev pub peer_of : Text → List Peer → Option Peer
peer_of ip [] = none
peer_of ip (p ∷ ps) = or_peer (peer_of ip ps) (if text_eq ip p.ip then some p else none)

abbrev pub is_from : Text → Conn → Bool
is_from ip c = text_eq ip (strip_port c.client_addr)

abbrev pub sum_in : List Conn → ℕ
sum_in [] = 0
sum_in (c ∷ cs) = c.bytes_in + sum_in cs

abbrev pub sum_out : List Conn → ℕ
sum_out [] = 0
sum_out (c ∷ cs) = c.bytes_out + sum_out cs

-- The earliest of a start and those of connections
abbrev pub earliest : ℕ → List Conn → ℕ
earliest s [] = s
earliest s (c ∷ cs) = earliest (if leb s c.started_at then s else c.started_at) cs

-- The row of an address, from its peer and its connections
abbrev pub row_for : ℕ → Text → Option Peer → List Conn → Option ClientRow
row_for now ip none [] = none
row_for now ip (some p) [] = some (peer_row p)
row_for now ip none (c ∷ cs) = some (record {
  ip = ip;
  live = true;
  session_start = some (earliest c.started_at cs);
  total_in = c.bytes_in + sum_in cs;
  total_out = c.bytes_out + sum_out cs;
  conns = 1;
  first_seen = c.started_at;
  last_seen = now;
})
row_for now ip (some p) (c ∷ cs) = some (record {
  ip = p.ip;
  live = true;
  session_start = some (earliest c.started_at cs);
  total_in = p.total_bytes_in + (c.bytes_in + sum_in cs);
  total_out = p.total_bytes_out + (c.bytes_out + sum_out cs);
  conns = p.total_conns;
  first_seen = p.first_seen;
  last_seen = now;
})

abbrev row_of : Option Peer → Option ClientRow → Option ClientRow
row_of none old = old
row_of (some p) old = some (peer_row p)

get-add_peers :
    (ip : Text) (rows : List (Entry ClientRow)) (ps : List Peer)
    → get ip (add_peers rows ps) ≡ row_of (peer_of ip ps) (get ip rows)
unfolding add_peers
get-add_peers ip rows [] = refl
get-add_peers ip rows (p ∷ ps) =
    get-add_peers ip (put p.ip (peer_row p) rows) ps
    ∙ (rw (get-put p.ip ip (peer_row p) rows)
        (elim (peer_of ip ps)
          as (λ o.
            row_of o (if text_eq ip p.ip then some (peer_row p) else get ip rows)
            ≡ row_of (or_peer o (if text_eq ip p.ip then some p else none)) (get ip rows)) [
              | some q ↦ refl
              | none ↦ elim (Bool-cases (text_eq ip p.ip)) [ inl e ↦ rw e refl | inr e ↦ rw e refl ]
            ]))

-- The connections of one address, taken into its row
abbrev take_in : ℕ → Text → Option ClientRow → List Conn → Option ClientRow
take_in now ip o [] = o
take_in now ip o (c ∷ cs) = take_in now ip (some (with_conn now c (row_or_new ip c o))) cs

get-add_conns :
    (now : ℕ) (ip : Text) (rows : List (Entry ClientRow)) (cs : List Conn)
    → get ip (add_conns now rows cs) ≡ take_in now ip (get ip rows) (filter (is_from ip) cs)
unfolding add_conns
get-add_conns now ip rows [] = refl
get-add_conns now ip rows (c ∷ cs) =
    let at = strip_port c.client_addr in
    let row = with_conn now c (row_or_new at c (get at rows)) in
    elim (Bool-cases (text_eq ip at)) [
      | inl h ↦
          let same : some row ≡ some (with_conn now c (row_or_new ip c (get ip rows))) =
            ap (λ k. some (with_conn now c (row_or_new k c (get k rows))))
              (sym (eq_of_text_eq ip at h)) in
          get-add_conns now ip (put at row rows) cs
          ∙ (rw (get-put at ip row rows)
              (rw h (ap (λ o. take_in now ip o (filter (is_from ip) cs)) same)))
      | inr h ↦ get-add_conns now ip (put at row rows) cs ∙ rw (get-put at ip row rows) (rw h refl)
    ]

-- What connections make of a row that is live
abbrev grown : ℕ → ClientRow → ℕ → List Conn → ClientRow
grown now row s cs = record row {
  live = true;
  session_start = some (earliest s cs);
  total_in = row.total_in + sum_in cs;
  total_out = row.total_out + sum_out cs;
  last_seen = now;
}

take_in-live :
    (now : ℕ) (ip : Text) (row : ClientRow) (s : ℕ) (cs : List Conn)
    → take_in now ip (some (record row { live = true; session_start = some s; last_seen = now })) cs
      ≡ some (grown now row s cs)
take_in-live now ip row s [] = rw (add-zero row.total_in, add-zero row.total_out) refl
take_in-live now ip row s (c ∷ cs) =
    take_in-live now ip
      (record row { total_in = row.total_in + c.bytes_in; total_out = row.total_out + c.bytes_out })
      (min_start (some s) c.started_at) cs
    ∙ rw
        (
          add_assoc row.total_in c.bytes_in (sum_in cs),
          add_assoc row.total_out c.bytes_out (sum_out cs),
        )
        refl

take_in-row_for :
    (now : ℕ) (ip : Text) (o : Option Peer) (cs : List Conn)
    → take_in now ip (row_of o none) cs ≡ row_for now ip o cs
take_in-row_for now ip none [] = refl
take_in-row_for now ip (some p) [] = refl
take_in-row_for now ip none (c ∷ cs) =
    take_in-live now ip (with_conn now c (new_row ip c)) c.started_at cs
    ∙ rw (zero-add c.bytes_in, zero-add c.bytes_out) refl
take_in-row_for now ip (some p) (c ∷ cs) =
    take_in-live now ip (with_conn now c (peer_row p)) c.started_at cs
    ∙ rw
        (
          add_assoc p.total_bytes_in c.bytes_in (sum_in cs),
          add_assoc p.total_bytes_out c.bytes_out (sum_out cs),
        )
        refl

-- The map has the row of each address.
pub get-client_rows :
    (now : ℕ) (ip : Text) (peers : List Peer) (conns : List Conn)
    → get ip (client_rows now peers conns)
      ≡ row_for now ip (peer_of ip peers) (filter (is_from ip) conns)
unfolding client_rows
get-client_rows now ip peers conns =
    get-add_conns now ip (add_peers [] peers) conns
    ∙ (rw (get-add_peers ip [] peers)
        (take_in-row_for now ip (peer_of ip peers) (filter (is_from ip) conns)))
