-- ===== src/Prefs/Laws.antt =====
-- The preferences are read back as they were set, and the root element shows what is stored.
use Prim.Native.String.{String}
use text.Mathlib.Text.{◌==◌ as str_eq}
use text.Mathlib.TextEquality.{eq_iff}
use proxyforward.Common.{◌≡◌, refl, none, List, [], ◌∷◌, arith, inl, inr}
use proxyforward.Common.Tests.{Bool-cases}
use proxyforward.Prefs.{
  MotionPref, on, off, system, motion_pref, stamp, Prefs, set_motion_pref, init_motion, fx_pref,
  non_empty, set_fx_pref, init_fx,
}

motion_pref-set_motion_pref :
    (v : MotionPref) (p : Prefs) → motion_pref (set_motion_pref v p).storage ≡ v
unfolding motion_pref set_motion_pref
motion_pref-set_motion_pref on p = refl
motion_pref-set_motion_pref off p = refl
motion_pref-set_motion_pref system p = refl

fx_pref-set_fx_pref : (v : String) (p : Prefs) → fx_pref (set_fx_pref v p).storage ≡ v
unfolding fx_pref set_fx_pref
fx_pref-set_fx_pref v p = ground (arith, eq_iff v "")

-- The operations of the two modules.
pub data Op : Type 0 where
  set_motion : MotionPref → Op
  set_fx : String → Op

abbrev pub apply : Prefs → Op → Prefs
apply p (set_motion v) = set_motion_pref v p
apply p (set_fx v) = set_fx_pref v p

abbrev pub applies : Prefs → List Op → Prefs
applies p [] = p
applies p (o ∷ os) = applies (apply p o) os

-- The attributes say what is stored: `data-motion` is absent only for `system`, and `data-fx` is
-- absent only for the full level.
pub record IsStamped (p : Prefs) : Type 0 where
  pub motion : p.motion ≡ stamp (motion_pref p.storage)
  pub fx : p.fx ≡ non_empty (fx_pref p.storage)

-- What the preferences should be after an operation.
abbrev pub motion_after : Prefs → Op → MotionPref
motion_after p (set_motion v) = v
motion_after p (set_fx v) = motion_pref p.storage

abbrev pub fx_after : Prefs → Op → String
fx_after p (set_motion v) = fx_pref p.storage
fx_after p (set_fx v) = v

-- Every operation is read back, and leaves the other preference as it was.
pub apply_reads :
    (p : Prefs) (o : Op)
    → (motion_pref (apply p o).storage ≡ motion_after p o)
      × (fx_pref (apply p o).storage ≡ fx_after p o)
apply_reads p (set_motion v) =
    (motion_pref-set_motion_pref v p, unfold fx_pref set_motion_pref in refl)
apply_reads p (set_fx v) = (unfold motion_pref set_fx_pref in refl, fx_pref-set_fx_pref v p)

init-IsStamped : (p : Prefs) → p.fx ≡ none → IsStamped (init_fx (init_motion p))
unfolding init_fx init_motion
init-IsStamped p e = elim (Bool-cases (str_eq (fx_pref p.storage) "")) [
  | inl h ↦ rw h (record { motion = refl; fx = rw h e })
  | inr h ↦ rw h (record { motion = refl; fx = rw h refl })
]

apply-IsStamped : (p : Prefs) (o : Op) → IsStamped p → IsStamped (apply p o)
apply-IsStamped p (set_motion v) h =
    let (m, f) = apply_reads p (set_motion v) in
    record {
      motion = rw m (unfold set_motion_pref in refl);
      fx = rw f (unfold set_motion_pref in h.fx);
    }
apply-IsStamped p (set_fx v) h =
    let (m, f) = apply_reads p (set_fx v) in
    record {
      motion = rw m (unfold set_fx_pref in h.motion);
      fx = rw f (unfold set_fx_pref in refl);
    }

applies-keep : (p : Prefs) (os : List Op) → IsStamped p → IsStamped (applies p os)
applies-keep p [] h = h
applies-keep p (o ∷ os) h = applies-keep (apply p o) os (apply-IsStamped p o h)

-- From the start of the page on, whatever is set in whatever order, the root element shows the
-- stored preferences.
pub applies-IsStamped :
    (p : Prefs) (os : List Op) → p.fx ≡ none → IsStamped (applies (init_fx (init_motion p)) os)
applies-IsStamped p os e = applies-keep _ os (init-IsStamped p e)
