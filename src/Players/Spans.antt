-- ===== src/Players/Spans.antt =====
-- What the texts of frontend/src/players.ts say of the time.
use proxyforward.Common.{
  ℕ, ◌+◌, ◌-◌, ◌*◌, ◌/◌, ◌%◌, ◌≤◌, ◌<◌, ◌≡◌, refl, ◌∙◌, false, arith, inl, inr,
}
use proxyforward.Common.Tests.{◌==◌, ltb, if◌then◌else◌, Bool-cases}
use proxyforward.Common.Decimal.{Text, codes}
use proxyforward.State.Duration.{read_seconds, read_one, read_two}
use proxyforward.Players.{ago, print_last_seen, fmt_last_seen, fmt_playtime}

-- The text counts n of a unit of so many seconds, at least one, and is off by at most half a unit.
pub record Counts (s unit letter : ℕ) (text : Text) : Type 0 where
  pub count : ℕ
  pub shown : text ≡ ago count letter
  pub some_unit : 1 ≤ count
  pub least : 2 * (count * unit) ≤ 2 * s + unit
  pub most : 2 * s < 2 * (count * unit) + unit

-- How a span reads, by its length.
pub data Tells (s : ℕ) (text : Text) : Type 0 where
  now : s < 90 → text ≡ codes "just now" → Tells s text
  minutes : 90 ≤ s → s < 3600 → Counts s 60 b'm' text → Tells s text
  hours : 3600 ≤ s → s < 86400 → Counts s 3600 b'h' text → Tells s text
  days : 86400 ≤ s → s < 604800 → Counts s 86400 b'd' text → Tells s text
  weeks : 604800 ≤ s → Counts s 604800 b'w' text → Tells s text

print_last_seen-Tells : (s : ℕ) → Tells s (print_last_seen s)
unfolding print_last_seen
print_last_seen-Tells s = elim (Bool-cases (ltb s 90)) [
  | inl a ↦ rw a (now (ground arith) refl)
  | inr a ↦ elim (Bool-cases (ltb s 3600)) [
    | inl b ↦
        rw (a, b)
          (minutes (ground arith) (ground arith) (record {
            count = (2 * s + 60) / 120;
            shown = refl;
            some_unit = ground arith;
            least = omega arith;
            most = omega arith;
          }))
    | inr b ↦ elim (Bool-cases (ltb s 86400)) [
      | inl c ↦
          rw (a, b, c)
            (hours (ground arith) (ground arith) (record {
              count = (2 * s + 3600) / 7200;
              shown = refl;
              some_unit = ground arith;
              least = omega arith;
              most = omega arith;
            }))
      | inr c ↦ elim (Bool-cases (ltb s 604800)) [
        | inl d ↦
            rw (a, b, c, d)
              (days (ground arith) (ground arith) (record {
                count = (2 * s + 86400) / 172800;
                shown = refl;
                some_unit = ground arith;
                least = omega arith;
                most = omega arith;
              }))
        | inr d ↦
            rw (a, b, c, d)
              (weeks (ground arith) (record {
                count = (2 * s + 604800) / 1209600;
                shown = refl;
                some_unit = ground arith;
                least = omega arith;
                most = omega arith;
              }))
      ]
    ]
  ]
]

-- The last visit of a player who is not online, of a known time t: below 90 s the text is
-- "just now", and then it counts minutes, hours, days or weeks by the length of the span, off by
-- at most half a unit and never 0.
pub fmt_last_seen-Tells : (at t : ℕ) → 1 ≤ t → Tells ((at - t) / 1000) (fmt_last_seen at t false)
unfolding fmt_last_seen
fmt_last_seen-Tells at t h =
    let known : (t == 0) ≡ false = ground arith in
    rw known (print_last_seen-Tells ((at - t) / 1000))

-- The time played, read back from its text, is its whole minutes up to two days, and from then on
-- its whole hours.
pub read-fmt_playtime :
    (ms : ℕ)
    → read_seconds (fmt_playtime ms)
      ≡ (if ltb (ms / 60000) 2880 then 60 * (ms / 60000) else 3600 * (ms / 3600000))
unfolding fmt_playtime
read-fmt_playtime ms =
    let m = ms / 60000 in
    let h = m / 60 in
    elim (Bool-cases (ltb m 60)) [
      | inl p ↦ rw p (read_one m b'm' refl ∙ ground arith)
      | inr p ↦ elim (Bool-cases (ltb h 48)) [
        | inl q ↦ rw (p, q) (read_two h b'h' (m % 60) b'm' refl refl ∙ ground arith)
        | inr q ↦ rw (p, q) (read_two (h / 24) b'd' (h % 24) b'h' refl refl ∙ ground arith)
      ]
    ]
