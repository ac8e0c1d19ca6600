-- ===== src/Chr/Console/Scroll.antt =====
-- The operations of kernel/chr_drv/console.c on the cursor and the lines keep the screen in order.
use linux_0_11_notes.Prelude.{
  Bool, Bool-cases, ap, arith, false, if-false, if-true, if◌then◌else◌, inl, inr, leb, ltb, refl,
  subst, sym, true, ℕ, ◌*◌, ◌+◌, ◌-◌, ◌/◌, ◌<◌, ◌||◌, ◌∙◌, ◌≡◌, ◌≤◌,
}
use linux_0_11_notes.Chr.Console.{
  Console, advance, clear_last, cr, gotoxy, lf, region_longs, rewind, ri, scrdown, scroll_region,
  scroll_window, scrup,
}
use linux_0_11_notes.Chr.Console.Window.{
  IsKept, IsKept-refl, IsOutside, IsScreen, fill_down-out, fill_words-out, move_down-out,
  move_longs-out, mul_le, mul_lt,
}
use linux_0_11_notes.Chr.Queue.{last}

-- An operation that changes words in the window only.
pub cell-IsKept :
    (s : Console) (cell : ℕ → ℕ)
    → IsScreen s
    → ((a : ℕ) → IsOutside s a → cell a ≡ s.cell a)
    → IsKept s (record s { cell = cell })
cell-IsKept s cell v h = record {
  screen = ground (arith, v);
  same_start = refl;
  same_end = refl;
  outside = h;
}

-- The lines of the region, and of those above it.
region_room :
    (s : Console)
    → IsScreen s
    → (s.size_row * s.bottom ≤ s.num_lines * s.size_row)
      × (s.size_row * s.top + s.size_row ≤ s.size_row * s.bottom)
      × (s.size_row * s.top + s.size_row + 4 * region_longs s ≤ s.size_row * s.bottom)
region_room s v =
    let a : s.size_row * s.bottom ≤ s.num_lines * s.size_row =
      grind (arith, mul_le s.bottom s.num_lines s.size_row) in
    let b : s.size_row * s.top + s.size_row ≤ s.size_row * s.bottom =
      grind (arith, mul_lt s.top s.bottom s.size_row) in
    let e : (s.bottom - s.top - 1) + s.top + 1 ≡ s.bottom = omega arith in
    let f : ((s.bottom - s.top - 1) + s.top + 1) * s.size_row ≡ s.bottom * s.size_row =
      ap (λ (n : ℕ). n * s.size_row) e in
    let g : (s.bottom - s.top - 1) * s.size_row ≡ (s.bottom - s.top - 1) * s.num_columns * 2 =
      ap (λ (n : ℕ). (s.bottom - s.top - 1) * n) v.row ∙ grind arith in
    (a, b, grind arith)

-- The line of the cursor lies on the screen.
pub line_room :
    (s : Console) → IsScreen s → s.y * s.size_row + s.size_row ≤ s.num_lines * s.size_row
line_room s v = mul_lt s.y s.num_lines s.size_row v.y_in

scroll_region-IsKept : (s : Console) → IsScreen s → IsKept s (scroll_region s)
unfolding scroll_region
scroll_region-IsKept s v =
    let (a, b, c) = region_room s v in
    cell-IsKept s _ v λ j o.
      fill_words-out s.num_columns _ s.erase_char _ j (omega arith)
      ∙ move_longs-out (region_longs s) _ _ s.cell j (omega arith)

pub scrdown-IsKept : (s : Console) → IsScreen s → IsKept s (scrdown s)
unfolding scrdown
scrdown-IsKept s v =
    let (a, b, c) = region_room s v in
    cell-IsKept s _ v λ j o.
      fill_down-out s.num_columns _ s.erase_char _ j (omega arith)
      ∙ move_down-out (region_longs s) _ _ s.cell j (omega arith)

-- The lines of the screen but one fit in the window.
window_room :
    (s : Console)
    → IsScreen s
    → 4 * ((s.num_lines - 1) * s.num_columns / 2) + s.size_row ≤ s.num_lines * s.size_row
window_room s v =
    let e : (s.num_lines - 1) * s.size_row + s.size_row ≤ s.num_lines * s.size_row =
      mul_lt (s.num_lines - 1) s.num_lines s.size_row (omega arith) in
    let g : (s.num_lines - 1) * s.size_row ≡ (s.num_lines - 1) * s.num_columns * 2 =
      ap (λ (n : ℕ). (s.num_lines - 1) * n) v.row ∙ grind arith in
    omega arith

rewind-IsKept : (s : Console) → IsScreen s → IsKept s (rewind (advance s))
unfolding rewind
rewind-IsKept s v =
    let r = window_room s v in
    let n : ℕ = (s.num_lines - 1) * s.num_columns / 2 in
    record {
      screen = record {
        wide = v.wide;
        row = v.row;
        x_in = v.x_in;
        y_in = v.y_in;
        top_in = v.top_in;
        bottom_in = v.bottom_in;
        at = omega arith;
        end_at = omega arith;
        starts = omega arith;
        ends = omega arith;
        npar_in = v.npar_in;
      };
      same_start = refl;
      same_end = refl;
      outside = λ j o.
          fill_words-out s.num_columns (s.mem_start + 4 * n) s.erase_char _ j (omega arith)
          ∙ move_longs-out n s.mem_start (s.origin + s.size_row) s.cell j (omega arith);
    }

clear_last-IsKept :
    (s : Console)
    → IsScreen s
    → s.scr_end + s.size_row ≤ s.mem_end
    → IsKept s (clear_last (advance s))
clear_last-IsKept s v le = record {
  screen = record {
    wide = v.wide;
    row = v.row;
    x_in = v.x_in;
    y_in = v.y_in;
    top_in = v.top_in;
    bottom_in = v.bottom_in;
    at = omega arith;
    end_at = omega arith;
    starts = omega arith;
    ends = le;
    npar_in = v.npar_in;
  };
  same_start = refl;
  same_end = refl;
  outside = λ j o. fill_words-out s.num_columns _ s.erase_char s.cell j (omega arith);
}

-- The window moves by a row, or to the start of video memory.
scroll_window-IsKept : (s : Console) → IsScreen s → IsKept s (scroll_window (advance s))
unfolding scroll_window
scroll_window-IsKept s v = elim (Bool-cases (ltb s.mem_end (s.scr_end + s.size_row))) [
  | inl over ↦
      subst (IsKept s) (sym (if-true _ (rewind (advance s)) (clear_last (advance s)) over))
        (rewind-IsKept s v)
  | inr fits ↦
      subst (IsKept s) (sym (if-false _ (rewind (advance s)) (clear_last (advance s)) fits))
        (clear_last-IsKept s v (ground arith))
]

-- A conditional keeps the screen in order if its branches do.
pub if-IsKept :
    (b : Bool) (s t u : Console) → IsKept s t → IsKept s u → IsKept s (if b then t else u)
if-IsKept true s t u p q = p
if-IsKept false s t u p q = q

pub scrup-IsKept : (s : Console) → IsScreen s → IsKept s (scrup s)
unfolding scrup
scrup-IsKept s v =
    if-IsKept s.ega s _ _ (if-IsKept _ s _ _ (scroll_window-IsKept s v) (scroll_region-IsKept s v))
      (scroll_region-IsKept s v)

-- The cursor moves, by a change that leaves it on the screen.
pub move-IsKept :
    (s : Console) (x y pos : ℕ)
    → IsScreen s
    → x ≤ s.num_columns
    → y < s.num_lines
    → pos ≡ s.origin + y * s.size_row + x * 2
    → IsKept s (record s { x = x; y = y; pos = pos })
move-IsKept s x y pos v xi yi at = record {
  screen = ground arith;
  same_start = refl;
  same_end = refl;
  outside = λ a o. refl;
}

pub gotoxy-IsKept : (x y : ℕ) (s : Console) → IsScreen s → IsKept s (gotoxy x y s)
unfolding gotoxy
gotoxy-IsKept x y s v = elim (Bool-cases (ltb s.num_columns x || leb s.num_lines y)) [
  | inl off ↦ subst (IsKept s) (sym (if-true _ _ _ off)) (IsKept-refl s v)
  | inr on ↦
      subst (IsKept s) (sym (if-false _ _ _ on))
        (move-IsKept s x y _ v (ground arith) (ground arith) refl)
]

pub lf-IsKept : (s : Console) → IsScreen s → IsKept s (lf s)
unfolding lf
lf-IsKept s v = elim (Bool-cases (ltb (s.y + 1) s.bottom)) [
  | inl inside ↦
      subst (IsKept s) (sym (if-true _ _ _ inside))
        (move-IsKept s s.x (s.y + 1) (s.pos + s.size_row) v v.x_in (ground arith) (grind arith))
  | inr last ↦ subst (IsKept s) (sym (if-false _ _ _ last)) (scrup-IsKept s v)
]

pub ri-IsKept : (s : Console) → IsScreen s → IsKept s (ri s)
unfolding ri
ri-IsKept s v = elim (Bool-cases (ltb s.top s.y)) [
  | inl inside ↦
      let e : (s.y - 1 + 1) * s.size_row ≡ s.y * s.size_row =
        ap (λ (n : ℕ). n * s.size_row) (ground arith) in
      subst (IsKept s) (sym (if-true _ _ _ inside))
        (move-IsKept s s.x (s.y - 1) (s.pos - s.size_row) v v.x_in (omega arith) (grind arith))
  | inr first ↦ subst (IsKept s) (sym (if-false _ _ _ first)) (scrdown-IsKept s v)
]

pub cr-IsKept : (s : Console) → IsScreen s → IsKept s (cr s)
unfolding cr
cr-IsKept s v = move-IsKept s 0 s.y (s.pos - s.x * 2) v (omega arith) v.y_in (omega arith)
