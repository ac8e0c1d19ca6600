-- ===== src/Chr/Console/Edit.antt =====
-- The operations of kernel/chr_drv/console.c that erase, insert and delete keep the screen in order.
use linux_0_11_notes.Prelude.{
  Bool, Bool-cases, ap, arith, if-false, if-true, if◌then◌else◌, inl, inr, leb, ltb, refl, subst,
  suc, sym, update, update_ne, zero, ℕ, ◌*◌, ◌+◌, ◌-◌, ◌/◌, ◌<◌, ◌==◌, ◌≡◌, ◌≤◌,
}
use linux_0_11_notes.Chr.Console.{
  Console, advance, csi_J, csi_K, csi_m, del, delete_char, delete_line, erase, from_line,
  insert_char, insert_line, rewind, scrdown, scroll_region, scroll_window, scrup, times,
  with_region,
}
use linux_0_11_notes.Chr.Console.Scroll.{
  cell-IsKept, if-IsKept, line_room, move-IsKept, scrdown-IsKept, scrup-IsKept,
}
use linux_0_11_notes.Chr.Console.Window.{
  IsKept, IsKept-refl, IsKept-trans, IsScreen, fill_words-out, shift_in-out, shift_out-out,
}

erase-IsKept :
    (s : Console) (count start : ℕ)
    → IsScreen s
    → s.origin ≤ start
    → start + 2 * count ≤ s.scr_end
    → IsKept s (erase count start s)
erase-IsKept s count start v lo hi =
    cell-IsKept s _ v λ j o. fill_words-out count start s.erase_char s.cell j (omega arith)

pub csi_J-IsKept : (par : ℕ) (s : Console) → IsScreen s → IsKept s (csi_J par s)
unfolding csi_J
csi_J-IsKept par s v =
    let r = line_room s v in
    let e : s.num_columns * s.num_lines * 2 ≡ s.num_lines * s.size_row =
      grind (arith, ap (λ (n : ℕ). s.num_lines * n) v.row) in
    if-IsKept (par == 0) s _ _
      (erase-IsKept s ((s.scr_end - s.pos) / 2) s.pos v (omega arith) (omega arith))
      (if-IsKept (par == 1) s _ _
        (erase-IsKept s ((s.pos - s.origin) / 2) s.origin v (omega arith) (omega arith))
        (if-IsKept (par == 2) s _ _
          (erase-IsKept s (s.num_columns * s.num_lines) s.origin v (omega arith) (omega arith))
          (IsKept-refl s v)))

-- The line of the cursor, from its start and from the cursor.
rest_of_line-IsKept :
    (s : Console) (b : Bool)
    → IsScreen s
    → b ≡ leb s.num_columns s.x
    → IsKept s (if b then s else erase (s.num_columns - s.x) s.pos s)
rest_of_line-IsKept s b v e =
    let r = line_room s v in
    if-IsKept b s _ _ (IsKept-refl s v)
      (erase-IsKept s (s.num_columns - s.x) s.pos v (omega arith) (omega arith))

start_of_line-IsKept :
    (s : Console) (n : ℕ) → IsScreen s → n ≤ s.num_columns → IsKept s (erase n (s.pos - s.x * 2) s)
start_of_line-IsKept s n v le =
    let r = line_room s v in erase-IsKept s n (s.pos - s.x * 2) v (omega arith) (omega arith)

pub csi_K-IsKept : (par : ℕ) (s : Console) → IsScreen s → IsKept s (csi_K par s)
unfolding csi_K
csi_K-IsKept par s v = if-IsKept (par == 0) s _ _ (rest_of_line-IsKept s _ v refl) (
    if-IsKept (par == 1) s _ _
      (start_of_line-IsKept s (if ltb s.x s.num_columns then s.x else s.num_columns) v
        (ground arith))
      (if-IsKept (par == 2) s _ _ (start_of_line-IsKept s s.num_columns v (omega arith))
        (IsKept-refl s v)))

pub csi_m-IsKept : (s : Console) → IsScreen s → IsKept s (csi_m s)
unfolding csi_m
csi_m-IsKept s v = record {
  screen = ground arith;
  same_start = refl;
  same_end = refl;
  outside = λ a o. refl;
}

pub del-IsKept : (s : Console) → IsScreen s → IsKept s (del s)
unfolding del
del-IsKept s v = elim (Bool-cases (s.x == 0)) [
  | inl at_start ↦ subst (IsKept s) (sym (if-true _ _ _ at_start)) (IsKept-refl s v)
  | inr later ↦
      let r = line_room s v in
      let x : ¬ (s.x ≡ 0) = ground arith in
      let m : Console = record s { pos = s.pos - 2; x = s.x - 1 } in
      let t : Console = record m { cell = update s.cell (s.pos - 2) s.erase_char } in
      let k : IsKept s m =
        move-IsKept s (s.x - 1) s.y (s.pos - 2) v (omega arith) v.y_in (omega arith) in
      subst (IsKept s) (sym (if-false _ s t later)) (
        IsKept-trans s m t k (
          cell-IsKept m t.cell k.screen
            λ j o. update_ne s.cell (s.pos - 2) j s.erase_char (λ e. omega arith)))
]

pub insert_char-IsKept : (s : Console) → IsScreen s → IsKept s (insert_char s)
unfolding insert_char
insert_char-IsKept s v =
    let r = line_room s v in
    cell-IsKept s _ v
      λ j o. shift_in-out (s.num_columns - s.x) s.pos s.erase_char s.cell j (omega arith)

pub delete_char-IsKept : (s : Console) → IsScreen s → IsKept s (delete_char s)
unfolding delete_char
delete_char-IsKept s v = elim (Bool-cases (leb s.num_columns s.x)) [
  | inl after ↦ subst (IsKept s) (sym (if-true _ _ _ after)) (IsKept-refl s v)
  | inr inside ↦
      let r = line_room s v in
      let x : s.x < s.num_columns = ground arith in
      subst (IsKept s) (sym (if-false _ _ _ inside)) (
        cell-IsKept s _ v
          λ j o. shift_out-out (s.num_columns - s.x - 1) s.pos s.erase_char s.cell j (omega arith))
]

-- A scroll of the lines from the cursor on.
from_line-IsScreen : (s : Console) → IsScreen s → IsScreen (from_line s)
from_line-IsScreen s v = ground (arith, v.y_in)

-- The region that it was comes back afterwards.
with_region-IsKept :
    (s t : Console)
    → IsScreen s
    → IsKept (from_line s) t
    → t.num_lines ≡ s.num_lines
    → IsKept s (with_region s.top s.bottom t)
with_region-IsKept s t v k e =
    let w = k.screen in
    record {
      screen = record {
        wide = w.wide;
        row = w.row;
        x_in = w.x_in;
        y_in = w.y_in;
        top_in = v.top_in;
        bottom_in = omega arith;
        at = w.at;
        end_at = w.end_at;
        starts = w.starts;
        ends = w.ends;
        npar_in = w.npar_in;
      };
      same_start = k.same_start;
      same_end = k.same_end;
      outside = k.outside;
    }

scroll_window-lines : (s : Console) → (scroll_window s).num_lines ≡ s.num_lines
unfolding scroll_window rewind
scroll_window-lines s = ground arith

scrup-lines : (s : Console) → (scrup s).num_lines ≡ s.num_lines
unfolding scrup scroll_region
scrup-lines s = ground (arith, scroll_window-lines (advance s))

pub insert_line-IsKept : (s : Console) → IsScreen s → IsKept s (insert_line s)
unfolding insert_line
insert_line-IsKept s v =
    let u = from_line-IsScreen s v in
    with_region-IsKept s (scrdown (from_line s)) v (scrdown-IsKept (from_line s) u) refl

pub delete_line-IsKept : (s : Console) → IsScreen s → IsKept s (delete_line s)
unfolding delete_line
delete_line-IsKept s v =
    let u = from_line-IsScreen s v in
    with_region-IsKept s (scrup (from_line s)) v (scrup-IsKept (from_line s) u)
      (scrup-lines (from_line s))

pub times-IsKept :
    (n : ℕ) (f : Console → Console) (s : Console)
    → ((t : Console) → IsScreen t → IsKept t (f t))
    → IsScreen s
    → IsKept s (times n f s)
unfolding times
times-IsKept zero f s h v = IsKept-refl s v
times-IsKept (suc n) f s h v =
    IsKept-trans s (f s) (times n f (f s)) (h s v) (times-IsKept n f (f s) h (h s v).screen)
