-- ===== src/Chart/Gauges.antt =====
-- The gauges of frontend/src/components/BandwidthChart.tsx, of which some values are unknown.
use proxyforward.Common.{◌≡◌, refl, ap, ◌∙◌, Option, none, some, List, [], ◌∷◌, ◌++◌}
use proxyforward.Common.Lists.{All}
use proxyforward.Chart.{Piece, move, line, draw, flush, segments, gapped_segments}

module _ {ℓ} {A : Type ℓ} where
  -- The values that are known.
  abbrev pub known : List (Option A) → List A
  known [] = []
  known (none ∷ ps) = known ps
  known (some p ∷ ps) = p ∷ known ps

  abbrev pub point : Piece A → A
  point (move p) = p
  point (line p) = p

  abbrev pub points : List (Piece A) → List A
  points [] = []
  points (c ∷ cs) = point c ∷ points cs

  abbrev pub all_points : List (List (Piece A)) → List A
  all_points [] = []
  all_points (s ∷ ss) = points s ++ all_points ss

  -- Lines only.
  abbrev pub AreLines : List (Piece A) → Type 0
  AreLines [] = Unit
  AreLines (move p ∷ cs) = ⊥
  AreLines (line p ∷ cs) = AreLines cs

  -- A path moves to its first point and draws lines from there on.
  abbrev pub IsPath : List (Piece A) → Type 0
  IsPath [] = ⊥
  IsPath (move p ∷ cs) = AreLines cs
  IsPath (line p ∷ cs) = ⊥

  points-append :
      (cs : List (Piece A)) (c : Piece A) (xs : List A)
      → points (cs ++ c ∷ []) ++ xs ≡ points cs ++ point c ∷ xs
  points-append [] c xs = refl
  points-append (d ∷ cs) c xs = ap (point d ∷◌) (points-append cs c xs)

  AreLines-append : (cs : List (Piece A)) (p : A) → AreLines cs → AreLines (cs ++ line p ∷ [])
  AreLines-append [] p h = tt
  AreLines-append (move q ∷ cs) p h = absurd h
  AreLines-append (line q ∷ cs) p h = AreLines-append cs p h

  -- The path that is being drawn: none yet, or one that has begun.
  abbrev MayBePath : List (Piece A) → Type 0
  MayBePath [] = Unit
  MayBePath (c ∷ cs) = IsPath (c ∷ cs)

  draw-MayBePath : (cur : List (Piece A)) (p : A) → MayBePath cur → MayBePath (draw cur p)
  draw-MayBePath [] p h = tt
  draw-MayBePath (move q ∷ cs) p h = AreLines-append cs p h
  draw-MayBePath (line q ∷ cs) p h = absurd h

  all_points-draw :
      (cur : List (Piece A)) (p : A) (xs : List A)
      → points (draw cur p) ++ xs ≡ points cur ++ p ∷ xs
  all_points-draw [] p xs = refl
  all_points-draw (c ∷ cs) p xs = points-append (c ∷ cs) (line p) xs

  all_points-flush :
      (cur : List (Piece A)) (rest : List (List (Piece A)))
      → all_points (flush cur rest) ≡ points cur ++ all_points rest
  all_points-flush [] rest = refl
  all_points-flush (c ∷ cs) rest = refl

  flush-IsPath :
      (cur : List (Piece A)) (rest : List (List (Piece A)))
      → MayBePath cur
      → All IsPath rest
      → All IsPath (flush cur rest)
  flush-IsPath [] rest h r = r
  flush-IsPath (c ∷ cs) rest h r = (h, r)

  segments-IsPath :
      (cur : List (Piece A)) (ps : List (Option A)) → MayBePath cur → All IsPath (segments cur ps)
  unfolding segments
  segments-IsPath cur [] h = flush-IsPath cur [] h tt
  segments-IsPath cur (none ∷ ps) h = flush-IsPath cur (segments [] ps) h (segments-IsPath [] ps tt)
  segments-IsPath cur (some p ∷ ps) h = segments-IsPath (draw cur p) ps (draw-MayBePath cur p h)

  all_points-segments :
      (cur : List (Piece A)) (ps : List (Option A))
      → all_points (segments cur ps) ≡ points cur ++ known ps
  unfolding segments
  all_points-segments cur [] = all_points-flush cur []
  all_points-segments cur (none ∷ ps) =
      all_points-flush cur (segments [] ps) ∙ ap (points cur ++◌) (all_points-segments [] ps)
  all_points-segments cur (some p ∷ ps) =
      all_points-segments (draw cur p) ps ∙ all_points-draw cur p (known ps)

  flush-append :
      (cur : List (Piece A)) (ss ts : List (List (Piece A)))
      → flush cur (ss ++ ts) ≡ flush cur ss ++ ts
  flush-append [] ss ts = refl
  flush-append (c ∷ cs) ss ts = refl

  segments-append :
      (cur : List (Piece A)) (ps qs : List (Option A))
      → segments cur (ps ++ none ∷ qs) ≡ segments cur ps ++ segments [] qs
  unfolding segments
  segments-append [] [] qs = refl
  segments-append (c ∷ cs) [] qs = refl
  segments-append cur (none ∷ ps) qs =
      rw (segments-append [] ps qs) (flush-append cur (segments [] ps) (segments [] qs))
  segments-append cur (some p ∷ ps) qs = segments-append (draw cur p) ps qs

  -- The overlay of a gauge: every path starts with a move and goes on with lines, together they
  -- draw all known points in order, and no path goes across an unknown one: what lies on its two
  -- sides is drawn apart.
  pub gapped_segments-IsPath :
      (ps qs : List (Option A))
      → All IsPath (gapped_segments ps)
        × (all_points (gapped_segments ps) ≡ known ps)
        × (gapped_segments (ps ++ none ∷ qs) ≡ gapped_segments ps ++ gapped_segments qs)
  unfolding gapped_segments
  gapped_segments-IsPath ps qs =
      (segments-IsPath [] ps tt, all_points-segments [] ps, segments-append [] ps qs)
