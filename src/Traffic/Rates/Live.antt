-- ===== src/Traffic/Rates/Live.antt =====
-- What `currentRates` of frontend/src/screens/Traffic.tsx shows and keeps for each address.
use proxyforward.Common.{
  ℕ, ◌+◌, ◌≡◌, refl, ap, sym, ◌∙◌, Option, none, some, List, [], ◌∷◌, inl, inr, arith,
}
use proxyforward.Common.Tests.{if◌then◌else◌, Bool-cases}
use proxyforward.Common.Maps.{Entry, is_some, get, put, get-put, get-filter, Distinct, put-Distinct}
use proxyforward.Common.Decimal.{Text, text_eq, eq_of_text_eq}
use proxyforward.Traffic.{Conn, strip_port}
use proxyforward.Traffic.Rates.{
  Rate, Baseline, Rates, or_zero, add_all, look, look_all, forget, current_rates,
}

-- All the bytes of the connections from an address, if there is one
abbrev pub total : Text → List Conn → Option ℕ
total ip [] = none
total ip (c ∷ cs) =
    if text_eq ip (strip_port c.client_addr)
    then some ((c.bytes_in + c.bytes_out) + or_zero (total ip cs))
    else total ip cs

abbrev plus : Option ℕ → Option ℕ → Option ℕ
plus none b = b
plus (some a) none = some a
plus (some a) (some b) = some (a + b)

plus-some :
    (o b : Option ℕ) (x y : ℕ)
    → plus (some ((or_zero o + x) + y)) b ≡ plus o (some ((x + y) + or_zero b))
plus-some none none x y = ap some (omega arith)
plus-some none (some b) x y = ap some (omega arith)
plus-some (some a) none x y = ap some (omega arith)
plus-some (some a) (some b) x y = ap some (omega arith)

get-add_all :
    (ip : Text) (m : List (Entry ℕ)) (cs : List Conn)
    → get ip (add_all m cs) ≡ plus (get ip m) (total ip cs)
unfolding add_all
get-add_all ip m [] = elim (get ip m) as (λ o. o ≡ plus o none) [ none ↦ refl | some a ↦ refl ]
get-add_all ip m (c ∷ cs) =
    let at = strip_port c.client_addr in
    let v = (or_zero (get at m) + c.bytes_in) + c.bytes_out in
    elim (Bool-cases (text_eq ip at)) [
      | inl h ↦
          let same : get at m ≡ get ip m = ap (λ k. get k m) (sym (eq_of_text_eq ip at h)) in
          get-add_all ip (put at v m) cs
          ∙ (rw (get-put at ip v m)
              (rw (h, same) (plus-some (get ip m) (total ip cs) c.bytes_in c.bytes_out)))
      | inr h ↦ get-add_all ip (put at v m) cs ∙ rw (get-put at ip v m) (rw h refl)
    ]

add_all-Distinct : (m : List (Entry ℕ)) (cs : List Conn) → Distinct m → Distinct (add_all m cs)
unfolding add_all
add_all-Distinct m [] h = h
add_all-Distinct m (c ∷ cs) h =
    add_all-Distinct (put (strip_port c.client_addr) _ m) cs
      (put-Distinct (strip_port c.client_addr) _ m h)

-- The baseline of an address after the loop, and its rate
abbrev seen : ℕ → Option ℕ → Option Baseline → Option Baseline
seen now none prev = prev
seen now (some bytes) prev = some (look now bytes prev)

abbrev shown_or : Option Rate → ℕ → Option ℕ → Option Baseline → Option Rate
shown_or old now none prev = old
shown_or old now (some bytes) prev = some (look now bytes prev).rate

get-look_all :
    (now : ℕ) (ip : Text) (es : List (Entry ℕ)) (r : Rates)
    → Distinct es
    → (get ip (look_all now es r).state ≡ seen now (get ip es) (get ip r.state))
      × (get ip (look_all now es r).rates
          ≡ shown_or (get ip r.rates) now (get ip es) (get ip r.state))
unfolding look_all
get-look_all now ip [] r h = (refl, refl)
get-look_all now ip (e ∷ es) r (h, hs) =
    let b = look now e.value (get e.key r.state) in
    let next : Rates = record { state = put e.key b r.state; rates = put e.key b.rate r.rates } in
    let (left, right) = get-look_all now ip es next hs in
    elim (Bool-cases (text_eq ip e.key)) [
      | inl g ↦
          let gone : get ip es ≡ none = ap (λ k. get k es) (eq_of_text_eq ip e.key g) ∙ h in
          let same : get e.key r.state ≡ get ip r.state =
            ap (λ k. get k r.state) (sym (eq_of_text_eq ip e.key g)) in
          let kept : get ip next.state ≡ some b = get-put e.key ip b r.state ∙ rw g refl in
          let rated : get ip next.rates ≡ some b.rate =
            get-put e.key ip b.rate r.rates ∙ rw g refl in
          (left ∙ rw (gone, g, kept, same) refl, right ∙ rw (gone, g, rated, same) refl)
      | inr g ↦
          let kept : get ip next.state ≡ get ip r.state = get-put e.key ip b r.state ∙ rw g refl in
          let rated : get ip next.rates ≡ get ip r.rates =
            get-put e.key ip b.rate r.rates ∙ rw g refl in
          (left ∙ rw (g, kept) refl, right ∙ rw (g, kept, rated) refl)
    ]

-- The baseline that an address should have: none where it has no live connection.
abbrev pub live : ℕ → Option ℕ → Option Baseline → Option Baseline
live now none prev = none
live now (some bytes) prev = some (look now bytes prev)

abbrev pub rate_of : Option Baseline → Option Rate
rate_of none = none
rate_of (some b) = some b.rate

-- The screen has a rate, and the module a baseline, for exactly the addresses that have a live
-- connection: those that one look at all the bytes of the address makes of its old baseline.
pub current_rates-live :
    (now : ℕ) (conns : List Conn) (state : List (Entry Baseline)) (ip : Text)
    → (get ip (current_rates now conns state).state ≡ live now (total ip conns) (get ip state))
      × (get ip (current_rates now conns state).rates
          ≡ rate_of (live now (total ip conns) (get ip state)))
unfolding current_rates forget
current_rates-live now conns state ip =
    let by_ip = add_all [] conns in
    let r : Rates = record { state = state; rates = [] } in
    let (kept, rated) = get-look_all now ip by_ip r (add_all-Distinct [] conns tt) in
    let sum : get ip by_ip ≡ total ip conns = get-add_all ip [] conns in
    (
      get-filter (λ k. is_some (get k by_ip)) ip (look_all now by_ip r).state
          ∙ (rw (kept, sum)
              (elim (total ip conns)
                as (λ o.
                  (if is_some o then seen now o (get ip state) else none)
                  ≡ live now o (get ip state)) [ none ↦ refl | some b ↦ refl ])),
      rated
          ∙ rw sum
              (elim (total ip conns)
                as (λ o. shown_or none now o (get ip state) ≡ rate_of (live now o (get ip state))) [
                  | none ↦ refl
                  | some b ↦ refl
                ]),
    )
