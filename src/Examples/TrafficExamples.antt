-- ===== src/Examples/TrafficExamples.antt =====
-- Tests and examples for the traffic screen.
use proxyforward.Common.{ℕ, ◌≡◌, refl, true, false, some, List, [], ◌∷◌}
use proxyforward.Common.Lists.{filter}
use proxyforward.Common.Int.{pos, negsuc}
use proxyforward.Common.Decimal.{Text, codes, decimal}
use proxyforward.Common.Maps.{Entry, entry, get}
use proxyforward.Common.Sort.{IsArranged}
use proxyforward.Common.Sort.Kept.{to_list}
use proxyforward.Traffic.{Conn, Peer, strip_port, is_private_ip, in_172, index_of, last_index_of}
use proxyforward.Traffic.Addresses.{strip_port-ipv6}
use proxyforward.Traffic.Rates.{Baseline, current_rates, add_all, look_all, look, forget}
use proxyforward.Traffic.Rates.Live.{total, live, rate_of, current_rates-live}
use proxyforward.Traffic.Clients.{merge_clients}
use proxyforward.Traffic.Clients.Rows.{row_for, peer_of, is_from}
use proxyforward.Traffic.Clients.Merged.{rows_of, IsAhead, merge_clients-rows}
use proxyforward.Traffic.Elapsed.{fmt_elapsed, fmt_relative}

abbrev conn : Text → ℕ → ℕ → ℕ → Conn
conn addr t i o = record { client_addr = addr; started_at = t; bytes_in = i; bytes_out = o }

abbrev two_conns : List Conn
two_conns = conn (codes "10.0.0.7:50000") 1000 10 20 ∷ conn (codes "10.0.0.7:50001") 900 5 5 ∷ []

abbrev old_state : List (Entry Baseline)
old_state =
    entry (codes "10.0.0.7") (record { t = 5000; bytes = 20; rate = record { bytes = 0; ms = 1 } })
    ∷ entry (codes "10.0.0.8") (record { t = 5000; bytes = 9; rate = record { bytes = 0; ms = 1 } })
    ∷ []

abbrev old_peer : Peer
old_peer = record {
  ip = codes "10.0.0.7";
  first_seen = 1;
  last_seen = 2;
  total_bytes_in = 100;
  total_bytes_out = 200;
  total_conns = 4;
}

elapsed_long : fmt_elapsed (pos 3725999) ≡ codes "1:02:05"
unfolding fmt_elapsed decimal
elapsed_long = refl

elapsed_back : fmt_elapsed (negsuc 4000) ≡ codes "0:00"
unfolding fmt_elapsed decimal
elapsed_back = refl

relative_minutes : fmt_relative 150000 60000 ≡ codes "2m ago"
unfolding fmt_relative decimal
relative_minutes = refl

private_172 : is_private_ip (codes "172.31.0.1") ≡ true
unfolding is_private_ip in_172
private_172 = refl

public_172 : is_private_ip (codes "172.32.0.1") ≡ false
unfolding is_private_ip in_172
public_172 = refl

strip_plain : strip_port (codes "10.0.0.7:50000") ≡ codes "10.0.0.7"
unfolding strip_port index_of last_index_of
strip_plain = refl

strip_port-ipv6_example : strip_port (codes "[2001:db8::1]:50000") ≡ codes "[2001:db8::1]:50000"
strip_port-ipv6_example =
    strip_port-ipv6 (codes "[2001") (codes "db8::1]") (codes "50000")
      (refl, (refl, (refl, (refl, (refl, tt))))) (refl, (refl, (refl, (refl, (refl, tt)))))

current_rates-live_example :
    (get (codes "10.0.0.7") (current_rates 6000 two_conns old_state).state
      ≡ live 6000 (total (codes "10.0.0.7") two_conns) (get (codes "10.0.0.7") old_state))
    × (get (codes "10.0.0.7") (current_rates 6000 two_conns old_state).rates
        ≡ rate_of
            (live 6000 (total (codes "10.0.0.7") two_conns) (get (codes "10.0.0.7") old_state)))
current_rates-live_example = current_rates-live 6000 two_conns old_state (codes "10.0.0.7")

merge_clients-rows_example :
    (rows_of (codes "10.0.0.7") (merge_clients 6000 (old_peer ∷ []) two_conns)
      ≡ to_list (
          row_for 6000
            (codes "10.0.0.7")
            (peer_of (codes "10.0.0.7") (old_peer ∷ []))
            (filter (is_from (codes "10.0.0.7")) two_conns)))
    × IsArranged IsAhead (merge_clients 6000 (old_peer ∷ []) two_conns)
merge_clients-rows_example = merge_clients-rows 6000 (old_peer ∷ []) two_conns (codes "10.0.0.7")

rate_of_second :
    get (codes "10.0.0.7") (current_rates 6000 two_conns old_state).rates
    ≡ some (record { bytes = 20; ms = 1000 })
unfolding current_rates add_all look_all look forget strip_port index_of last_index_of
rate_of_second = refl
