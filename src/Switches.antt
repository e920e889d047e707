-- ===== src/Switches.antt =====
-- `Switch` of frontend/src/components/ui.tsx: a switch that is tapped, clicked by a key, or dragged.
-- Its owner renders the value that `onChange` is given. Lengths are whole multiples of a fraction of a
-- pixel, px of them to the pixel, and the place of the knob is a fraction of its travel.
use proxyforward.Common.{
  ℕ, suc, ◌+◌, ◌-◌, ◌*◌, ◌≡◌, refl, ap, ◌∙◌, Bool, true, false, not, ◌&&◌, ◌||◌, Option, none, some,
  List, [], ◌∷◌, ◌++◌, inl, inr,
}
use proxyforward.Common.Tests.{if◌then◌else◌, leb, ltb, ◌==◌, Bool-cases}
use proxyforward.Common.Lists.{All}

-- `drag`, the press
pub record Press : Type 0 where
  pub start_x : ℕ
  pub travel : ℕ
  pub moved : Bool
  pub suppress_click : Bool

-- The state of a `Switch`, and how often `onChange` ran
pub record Switch : Type 0 where
  pub checked : Bool
  pub disabled : Bool
  pub captured : Bool
  pub drag_t : Option (ℕ × ℕ)
  pub drag : Press
  pub changes : ℕ

abbrev pub on_change : Bool → Switch → Switch
on_change v s = record s { checked = v; changes = suc s.changes }

-- `onPointerDown`
unfoldable pub pointer_down : Bool → ℕ → ℕ → Switch → Switch
pointer_down primary travel x s = if s.disabled || not primary then s else record s {
  captured = true;
  drag = record { start_x = x; travel = travel; moved = false; suppress_click = false };
}

-- `checked ? 1 : 0`
abbrev pub seat : Bool → ℕ
seat checked = if checked then 1 else 0

abbrev pub at_most : ℕ → ℕ → ℕ
at_most n m = if leb n m then n else m

-- `Math.min(1, Math.max(0, from + dx / travel))`; a travel of 0 leaves the knob in its seat.
unfoldable pub knob : Bool → ℕ → ℕ → ℕ → ℕ × ℕ
knob checked travel start x =
    if travel == 0
    then (seat checked, 1)
    else (at_most (seat checked * travel + x - start) travel, travel)

-- `Math.abs(dx) < 4`
abbrev pub is_near : ℕ → ℕ → ℕ → Bool
is_near px x start = ltb x (start + 4 * px) && ltb start (x + 4 * px)

-- `onPointerMove`
unfoldable pub pointer_move : ℕ → ℕ → Switch → Switch
unfolding knob
pointer_move px x s =
    if s.disabled || not s.captured
    then s
    else if not s.drag.moved && is_near px x s.drag.start_x
    then s
    else record s {
      drag_t = some (knob s.checked s.drag.travel s.drag.start_x x);
      drag = record (s.drag) { moved = true };
    }

-- `t > 0.5`
abbrev pub is_over : ℕ × ℕ → Bool
is_over (n, d) = ltb d (2 * n)

abbrev pub or_seat : Option (ℕ × ℕ) → Bool → ℕ × ℕ
or_seat none checked = (seat checked, 1)
or_seat (some t) checked = t

abbrev pub same : Bool → Bool → Bool
same true b = b
same false b = not b

abbrev pub commit : Bool → Switch → Switch
commit v s = if same v s.checked then s else on_change v s

-- `onPointerUp`
unfoldable pub pointer_up : Switch → Switch
pointer_up s =
    if not s.captured
    then s
    else if not s.drag.moved
    then record s { captured = false }
    else commit (is_over (or_seat s.drag_t s.checked)) (record s {
      captured = false;
      drag_t = none;
      drag = record (s.drag) { suppress_click = true };
    })

-- `onPointerCancel`
unfoldable pub pointer_cancel : Switch → Switch
pointer_cancel s = record s { drag_t = none; drag = record (s.drag) { moved = false } }

-- `onClick`
unfoldable pub click : Switch → Switch
click s =
    if s.drag.suppress_click
    then record s { drag = record (s.drag) { suppress_click = false } }
    else if s.disabled
    then s
    else on_change (not s.checked) s

abbrev pub moves : ℕ → List ℕ → Switch → Switch
moves px [] s = s
moves px (x ∷ xs) s = moves px xs (pointer_move px x s)

-- A press with the moves of the pointer, its release, and the click that follows.
abbrev pub gesture : ℕ → ℕ → ℕ → List ℕ → Switch → Switch
gesture px travel x xs s = click (pointer_up (moves px xs (pointer_down true travel x s)))

-- A switch under the pointer
abbrev holding : Bool → ℕ → ℕ → Bool → Option (ℕ × ℕ) → ℕ → Switch
holding checked travel start moved t n = record {
  checked = checked;
  disabled = false;
  captured = true;
  drag_t = t;
  drag = record { start_x = start; travel = travel; moved = moved; suppress_click = false };
  changes = n;
}

move-near :
    (px x : ℕ) (c : Bool) (tr st : ℕ) (t : Option (ℕ × ℕ)) (n : ℕ)
    → is_near px x st ≡ true
    → pointer_move px x (holding c tr st false t n) ≡ holding c tr st false t n
unfolding pointer_move
move-near px x c tr st t n h = rw h refl

move-far :
    (px x : ℕ) (c : Bool) (tr st : ℕ) (m : Bool) (t : Option (ℕ × ℕ)) (n : ℕ)
    → is_near px x st ≡ false
    → pointer_move px x (holding c tr st m t n) ≡ holding c tr st true (some (knob c tr st x)) n
unfolding pointer_move
move-far px x c tr st true t n h = refl
move-far px x c tr st false t n h = rw h refl

move-moved :
    (px x : ℕ) (c : Bool) (tr st : ℕ) (t : Option (ℕ × ℕ)) (n : ℕ)
    → pointer_move px x (holding c tr st true t n) ≡ holding c tr st true (some (knob c tr st x)) n
unfolding pointer_move
move-moved px x c tr st t n = refl

moves-near :
    (px : ℕ) (xs : List ℕ) (c : Bool) (tr st : ℕ) (t : Option (ℕ × ℕ)) (n : ℕ)
    → All (λ x. is_near px x st ≡ true) xs
    → moves px xs (holding c tr st false t n) ≡ holding c tr st false t n
moves-near px [] c tr st t n h = refl
moves-near px (x ∷ xs) c tr st t n (g, h) =
    ap (moves px xs) (move-near px x c tr st t n g) ∙ moves-near px xs c tr st t n h

moves-far :
    (px : ℕ) (xs : List ℕ) (y : ℕ) (c : Bool) (tr st : ℕ) (m : Bool) (t : Option (ℕ × ℕ)) (n : ℕ)
    → is_near px y st ≡ false
    → moves px (xs ++ y ∷ []) (holding c tr st m t n)
      ≡ holding c tr st true (some (knob c tr st y)) n
moves-far px [] y c tr st m t n h = move-far px y c tr st m t n h
moves-far px (x ∷ xs) y c tr st true t n h =
    ap (moves px (xs ++ y ∷ [])) (move-moved px x c tr st t n)
    ∙ moves-far px xs y c tr st true (some (knob c tr st x)) n h
moves-far px (x ∷ xs) y c tr st false t n h = elim (Bool-cases (is_near px x st)) [
  | inl near ↦
      ap (moves px (xs ++ y ∷ [])) (move-near px x c tr st t n near)
      ∙ moves-far px xs y c tr st false t n h
  | inr far ↦
      ap (moves px (xs ++ y ∷ [])) (move-far px x c tr st false t n far)
      ∙ moves-far px xs y c tr st true (some (knob c tr st x)) n h
]

-- A switch that is enabled and that no pointer holds, after any press
abbrev pub idle : Bool → Press → ℕ → Switch
idle checked press n = record {
  checked = checked;
  disabled = false;
  captured = false;
  drag_t = none;
  drag = press;
  changes = n;
}

abbrev pub pressed : ℕ → ℕ → Bool → Press
pressed travel x moved = record {
  start_x = x;
  travel = travel;
  moved = moved;
  suppress_click = false;
}

-- A press whose moves all stay less than 4 px from its start is a tap: with its click it turns the
-- switch over, once.
pub gesture-tap :
    (px travel x : ℕ) (xs : List ℕ) (c : Bool) (p : Press) (n : ℕ)
    → All (λ y. is_near px y x ≡ true) xs
    → gesture px travel x xs (idle c p n) ≡ idle (not c) (pressed travel x false) (suc n)
unfolding pointer_down pointer_up click
gesture-tap px travel x xs c p n h =
    ap (λ s. click (pointer_up s)) (moves-near px xs c travel x none n h)

up-drag :
    (c v : Bool) (tr st n : ℕ) (k : ℕ × ℕ)
    → is_over k ≡ v
    → click (pointer_up (holding c tr st true (some k) n))
      ≡ idle v (pressed tr st true) (if same v c then n else suc n)
unfolding pointer_up click
up-drag true true tr st n k e = rw e refl
up-drag true false tr st n k e = rw e refl
up-drag false true tr st n k e = rw e refl
up-drag false false tr st n k e = rw e refl

-- A press that ends 4 px or more from its start is a drag, whatever its way: the switch goes to the
-- side that its knob is nearer to, its owner is told of a change alone, and the click that follows
-- does not turn it over again.
pub gesture-drag :
    (px travel x : ℕ) (xs : List ℕ) (y : ℕ) (c : Bool) (p : Press) (n : ℕ)
    → is_near px y x ≡ false
    → let v = is_over (knob c travel x y) in
      gesture px travel x (xs ++ y ∷ []) (idle c p n)
      ≡ idle v (pressed travel x true) (if same v c then n else suc n)
unfolding pointer_down
gesture-drag px travel x xs y c p n h =
    ap (λ s. click (pointer_up s)) (moves-far px xs y c travel x false none n h)
    ∙ up-drag c (is_over (knob c travel x y)) travel x n (knob c travel x y) refl
