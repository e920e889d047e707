-- ===== src/Agents/Conflicts.antt =====
-- The conflicts of frontend/src/screens/Agents.tsx: the newest event of each identity, without
-- those that the user has dismissed. `Newest` has what is shown of an identity.
pub mod Newest
use proxyforward.Common.{
  ℕ, ◌≤◌, ◌≡◌, refl, map, sym, ap, ◌∙◌, Bool, true, false, not, ◌||◌, Option, none, some, List, [],
  ◌∷◌, ◌++◌, arith, inl, inr,
}
use proxyforward.Common.Tests.{◌==◌, ltb, if◌then◌else◌, Bool-cases}
use proxyforward.Common.Lists.{filter, All, All-map}
use proxyforward.Common.Sort.{IsOrder, IsArranged, sort_by, IsArranged-sort_by}
use proxyforward.Common.Sort.Kept.{to_list, filter-sort_by}
use proxyforward.Common.Decimal.{Text, text_eq, text_eq_refl, eq_of_text_eq, decimal}

-- `gateway.GatewayEvent`
pub record GwEvent : Type 0 where
  pub seq : ℕ
  pub time_ms : ℕ
  pub kind : Text
  pub agent_id : Option Text
  pub tunnel_id : Option Text
  pub message : Text
  pub requested_port : Option ℕ
  pub actual_port : Option ℕ

-- `x ?? ''`
abbrev pub or_blank : Option Text → Text
or_blank none = []
or_blank (some t) = t

abbrev pub port_text : Option ℕ → Text
port_text none = []
port_text (some n) = decimal n

-- The identity of a conflict.
unfoldable pub key_of : GwEvent → Text
key_of e =
    e.kind
    ++ (58
        ∷ (or_blank e.agent_id
            ++ (58 ∷ (or_blank e.tunnel_id ++ (58 ∷ port_text e.requested_port)))))

-- One round of the loop over the events: `byKey`, a `Map`, keeps the place of a key that it has.
unfoldable pub put_newer : GwEvent → List GwEvent → List GwEvent
unfolding key_of
put_newer e [] = e ∷ []
put_newer e (p ∷ ps) =
    if text_eq (key_of p) (key_of e)
    then (if ltb p.seq e.seq then e ∷ ps else p ∷ ps)
    else p ∷ put_newer e ps

unfoldable pub newest : List GwEvent → List GwEvent → List GwEvent
unfolding put_newer
newest by_key [] = by_key
newest by_key (e ∷ es) = newest (put_newer e by_key) es

-- `dismissed.has(seq)`
abbrev pub has : ℕ → List ℕ → Bool
has n [] = false
has n (m ∷ ms) = m == n || has n ms

-- `(a, b) => b.seq - a.seq`
abbrev pub later : GwEvent → GwEvent → Bool
later a b = ltb b.seq a.seq

-- `conflicts`, once the events are there
unfoldable pub conflicts : List GwEvent → List ℕ → List GwEvent
unfolding newest
conflicts events dismissed =
    sort_by later (filter (λ e. not (has e.seq dismissed)) (newest [] events))

-- The greatest number of the events of an identity, from one that is known.
abbrev pub better : Option ℕ → ℕ → Option ℕ
better none n = some n
better (some m) n = if ltb m n then some n else some m

abbrev pub best : Option ℕ → Text → List GwEvent → Option ℕ
best acc k [] = acc
best acc k (e ∷ es) = best (if text_eq (key_of e) k then better acc e.seq else acc) k es
