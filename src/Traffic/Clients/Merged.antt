-- ===== src/Traffic/Clients/Merged.antt =====
-- The list of `mergeClients` (frontend/src/screens/Traffic.tsx): one row for each address, the live
-- ones first.
use proxyforward.Common.{
  ℕ, ◌≡◌, ◌≤◌, ◌⊎◌, refl, ap, sym, ◌∙◌, true, false, none, List, [], ◌∷◌, map, inl, inr, arith,
}
use proxyforward.Common.Tests.{Bool-cases, ltb}
use proxyforward.Common.Lists.{filter, All}
use proxyforward.Common.Sort.{IsOrder, IsArranged, IsArranged-sort_by}
use proxyforward.Common.Sort.Kept.{to_list, filter-sort_by}
use proxyforward.Common.Maps.{Entry, get, put, Distinct, put-Distinct}
use proxyforward.Common.Decimal.{Text, text_eq, eq_of_text_eq}
use proxyforward.Traffic.{Conn, Peer, strip_port}
use proxyforward.Traffic.Clients.{
  ClientRow, peer_row, row_or_new, with_conn, add_peers, add_conns, client_rows, is_before,
  merge_clients,
}
use proxyforward.Traffic.Clients.Rows.{row_for, peer_of, is_from, get-client_rows}

-- Every row stands under its own address.
abbrev IsKeyed : Entry ClientRow → Type 0
IsKeyed e = e.value.ip ≡ e.key

put-IsKeyed :
    (k : Text) (row : ClientRow) (es : List (Entry ClientRow))
    → row.ip ≡ k
    → All IsKeyed es
    → All IsKeyed (put k row es)
put-IsKeyed k row [] h g = (h, tt)
put-IsKeyed k row (e ∷ es) h (g, gs) = elim (Bool-cases (text_eq k e.key)) [
  | inl q ↦ rw q (h, gs)
  | inr q ↦ rw q (g, put-IsKeyed k row es h gs)
]

row_or_new-ip :
    (k : Text) (c : Conn) (es : List (Entry ClientRow))
    → All IsKeyed es
    → (row_or_new k c (get k es)).ip ≡ k
row_or_new-ip k c [] h = refl
row_or_new-ip k c (e ∷ es) (h, hs) = elim (Bool-cases (text_eq k e.key)) [
  | inl q ↦ rw q (h ∙ sym (eq_of_text_eq k e.key q))
  | inr q ↦ rw q (row_or_new-ip k c es hs)
]

abbrev IsMap : List (Entry ClientRow) → Type 0
IsMap es = All IsKeyed es × Distinct es

add_peers-IsMap :
    (es : List (Entry ClientRow)) (ps : List Peer) → IsMap es → IsMap (add_peers es ps)
unfolding add_peers
add_peers-IsMap es [] h = h
add_peers-IsMap es (p ∷ ps) (h, g) =
    add_peers-IsMap (put p.ip (peer_row p) es) ps
      (put-IsKeyed p.ip (peer_row p) es refl h, put-Distinct p.ip (peer_row p) es g)

add_conns-IsMap :
    (now : ℕ) (es : List (Entry ClientRow)) (cs : List Conn)
    → IsMap es
    → IsMap (add_conns now es cs)
unfolding add_conns
add_conns-IsMap now es [] h = h
add_conns-IsMap now es (c ∷ cs) (h, g) =
    let k = strip_port c.client_addr in
    let row = with_conn now c (row_or_new k c (get k es)) in
    add_conns-IsMap now (put k row es) cs
      (put-IsKeyed k row es (row_or_new-ip k c es h) h, put-Distinct k row es g)

abbrev pub rows_of : Text → List ClientRow → List ClientRow
rows_of ip rows = filter (λ row. text_eq ip row.ip) rows

rows_of-values :
    (ip : Text) (es : List (Entry ClientRow))
    → IsMap es
    → rows_of ip (map (λ e. e.value) es) ≡ to_list (get ip es)
rows_of-values ip [] h = refl
rows_of-values ip (e ∷ es) ((q, qs), (d, ds)) =
    let rest = rows_of-values ip es (qs, ds) in
    let same : text_eq ip e.value.ip ≡ text_eq ip e.key = ap (λ k. text_eq ip k) q in
    elim (Bool-cases (text_eq ip e.key)) [
      | inl h ↦
          let gone : get ip es ≡ none = ap (λ k. get k es) (eq_of_text_eq ip e.key h) ∙ d in
          rw (same, h) (ap (e.value ∷◌) (rest ∙ ap (λ o. to_list o) gone))
      | inr h ↦ rw (same, h) rest
    ]

is_before-IsOrder : IsOrder is_before
is_before-IsOrder = record { asymm = λ a b h. ground arith; not_trans = λ a b c h g. ground arith }

-- Of two rows in their places: the first is live and the second is not, or they are alike and the
-- first has been seen no earlier.
abbrev pub IsAhead : ClientRow → ClientRow → Type 0
IsAhead a b =
    ((a.live ≡ true) × (b.live ≡ false)) ⊎ ((a.live ≡ b.live) × (b.last_seen ≤ a.last_seen))

is_before-IsAhead : (a b : ClientRow) → is_before b a ≡ false → IsAhead a b
is_before-IsAhead a b h = elim (Bool-cases a.live) [
  | inl live ↦ elim (Bool-cases b.live) [
    | inl too ↦
        let seen : ltb a.last_seen b.last_seen ≡ false = rw (live, too) at h in
        inr (rw (live, too) refl, ground (arith, seen))
    | inr other ↦ inl (live, other)
  ]
  | inr dead ↦ elim (Bool-cases b.live) [
    | inl other ↦ let clash : true ≡ false = rw (dead, other) at h in cc
    | inr too ↦
        let seen : ltb a.last_seen b.last_seen ≡ false = rw (dead, too) at h in
        inr (rw (dead, too) refl, ground (arith, seen))
  ]
]

-- The list has one row for each address that a peer or a live connection has, and none for another:
-- that of the peer with the bytes of all its live connections added. The live clients stand first,
-- and among them and among the others the last one seen.
pub merge_clients-rows :
    (now : ℕ) (peers : List Peer) (conns : List Conn) (ip : Text)
    → (rows_of ip (merge_clients now peers conns)
        ≡ to_list (row_for now ip (peer_of ip peers) (filter (is_from ip) conns)))
      × IsArranged IsAhead (merge_clients now peers conns)
unfolding merge_clients
merge_clients-rows now peers conns ip =
    let es = client_rows now peers conns in
    let keyed : IsMap es =
      unfold client_rows in
      add_conns-IsMap now (add_peers [] peers) conns (add_peers-IsMap [] peers (tt, tt)) in
    (
      filter-sort_by is_before (λ row. text_eq ip row.ip) (map (λ e. e.value) es) _
          (rows_of-values ip es keyed ∙ ap (λ o. to_list o) (get-client_rows now ip peers conns)),
      IsArranged-sort_by is_before IsAhead is_before-IsAhead is_before-IsOrder
          (map (λ e. e.value) es),
    )
