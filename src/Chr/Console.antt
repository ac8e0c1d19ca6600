-- ===== src/Chr/Console.antt =====
-- kernel/chr_drv/console.c: the screen. What the code computes on addresses stays above 0, since they
-- lie in video memory. `cell` is indexed by the address of the word. The registers of the video card
-- (`set_origin`, `set_cursor`) show what `origin` and `pos` say and are left out.
pub mod Window
pub mod Sequences
pub mod Machine
pub mod Edit
pub mod Scroll
pub mod Write
pub mod Tests
use linux_0_11_notes.Prelude.{
  Bool, if◌then◌else◌, leb, ltb, pos, suc, update, zero, ℕ, ◌%◌, ◌&&◌, ◌*◌, ◌+◌, ◌-◌, ◌/◌, ◌==◌,
  ◌||◌,
}
use linux_0_11_notes.Chr.Tty.{erase_char}

-- The variables of the file. `ega` says that `video_type` is one of the EGA types.
pub record Console : Type 0 where
  pub ega : Bool
  pub num_columns : ℕ
  pub size_row : ℕ
  pub num_lines : ℕ
  pub mem_start : ℕ
  pub mem_end : ℕ
  pub erase_char : ℕ
  pub origin : ℕ
  pub scr_end : ℕ
  pub pos : ℕ
  pub x : ℕ
  pub y : ℕ
  pub top : ℕ
  pub bottom : ℕ
  pub state : ℕ
  pub npar : ℕ
  pub par : ℕ → ℕ
  pub ques : Bool
  pub attr : ℕ
  pub saved_x : ℕ
  pub saved_y : ℕ
  pub beepcount : ℕ
  pub cell : ℕ → ℕ

-- NPAR
abbrev pub max_par : ℕ
max_par = 16

abbrev pub word_mod : ℕ
word_mod = 0x1_0000_0000

-- The difference of two unsigned words.
abbrev pub sub_word : ℕ → ℕ → ℕ
sub_word a b = (a + word_mod - b) % word_mod

abbrev pub add_word : ℕ → ℕ → ℕ
add_word a b = (a + b) % word_mod

-- It thinks that the column after the last is all right.
unfoldable pub gotoxy : ℕ → ℕ → Console → Console
gotoxy new_x new_y s =
    if ltb s.num_columns new_x || leb s.num_lines new_y
    then s
    else record s { x = new_x; y = new_y; pos = s.origin + new_y * s.size_row + new_x * 2 }

-- `rep stosw`: n words from address a on.
unfoldable pub fill_words : ℕ → ℕ → ℕ → (ℕ → ℕ) → ℕ → ℕ
fill_words zero a w cell = cell
fill_words (suc n) a w cell = fill_words n (a + 2) w (update cell a w)

-- The same downwards, with the direction flag set.
unfoldable pub fill_down : ℕ → ℕ → ℕ → (ℕ → ℕ) → ℕ → ℕ
fill_down zero a w cell = cell
fill_down (suc n) a w cell = fill_down n (a - 2) w (update cell a w)

-- One `movsl`: two words.
abbrev pub move_long : ℕ → ℕ → (ℕ → ℕ) → ℕ → ℕ
move_long d s cell = update (update cell d (cell s)) (d + 2) (cell (s + 2))

-- `rep movsl`: n longs from address s to address d.
unfoldable pub move_longs : ℕ → ℕ → ℕ → (ℕ → ℕ) → ℕ → ℕ
move_longs zero d s cell = cell
move_longs (suc n) d s cell = move_longs n (d + 4) (s + 4) (move_long d s cell)

unfoldable pub move_down : ℕ → ℕ → ℕ → (ℕ → ℕ) → ℕ → ℕ
move_down zero d s cell = cell
move_down (suc n) d s cell = move_down n (d - 4) (s - 4) (move_long d s cell)

-- How many longs the lines of the region make, but one.
abbrev pub region_longs : Console → ℕ
region_longs s = (s.bottom - s.top - 1) * s.num_columns / 2

-- The part of `scrup` that moves the lines of the region. The filling goes on where the moving ended.
unfoldable pub scroll_region : Console → Console
scroll_region s =
    let d : ℕ = s.origin + s.size_row * s.top in
    record s {
      cell =
          fill_words s.num_columns (d + 4 * region_longs s) s.erase_char
            (move_longs (region_longs s) d (s.origin + s.size_row * (s.top + 1)) s.cell);
    }

-- The window on video memory goes one row on.
abbrev pub advance : Console → Console
advance s = record s {
  origin = s.origin + s.size_row;
  pos = s.pos + s.size_row;
  scr_end = s.scr_end + s.size_row;
}

-- The window has passed the end of video memory: what it shows moves to the start.
unfoldable pub rewind : Console → Console
rewind s =
    let n : ℕ = (s.num_lines - 1) * s.num_columns / 2 in
    record s {
      cell =
          fill_words s.num_columns (s.mem_start + 4 * n) s.erase_char
            (move_longs n s.mem_start s.origin s.cell);
      scr_end = s.scr_end - (s.origin - s.mem_start);
      pos = s.pos - (s.origin - s.mem_start);
      origin = s.mem_start;
    }

abbrev pub clear_last : Console → Console
clear_last s = record s {
  cell = fill_words s.num_columns (s.scr_end - s.size_row) s.erase_char s.cell;
}

unfoldable pub scroll_window : Console → Console
unfolding rewind
scroll_window s = if ltb s.mem_end s.scr_end then rewind s else clear_last s

unfoldable pub scrup : Console → Console
unfolding scroll_region scroll_window
scrup s =
    if s.ega
    then if s.top == 0 && s.bottom == s.num_lines
      then scroll_window (advance s)
      else scroll_region s
    else scroll_region s

-- The direction flag stays set for the filling.
unfoldable pub scrdown : Console → Console
scrdown s =
    let d : ℕ = s.origin + s.size_row * s.bottom - 4 in
    record s {
      cell =
          fill_down s.num_columns (d - 4 * region_longs s + 2) s.erase_char
            (move_down (region_longs s) d (s.origin + s.size_row * (s.bottom - 1) - 4) s.cell);
    }

unfoldable pub lf : Console → Console
unfolding scrup
lf s =
    if ltb (s.y + 1) s.bottom then record s { y = s.y + 1; pos = s.pos + s.size_row } else scrup s

unfoldable pub ri : Console → Console
unfolding scrdown
ri s = if ltb s.top s.y then record s { y = s.y - 1; pos = s.pos - s.size_row } else scrdown s

unfoldable pub cr : Console → Console
cr s = record s { pos = s.pos - s.x * 2; x = 0 }

unfoldable pub del : Console → Console
del s =
    if s.x == 0
    then s
    else record s { pos = s.pos - 2; x = s.x - 1; cell = update s.cell (s.pos - 2) s.erase_char }

abbrev pub erase : ℕ → ℕ → Console → Console
erase count start s = record s { cell = fill_words count start s.erase_char s.cell }

unfoldable pub csi_J : ℕ → Console → Console
csi_J par s =
    if par == 0
    then erase ((s.scr_end - s.pos) / 2) s.pos s
    else if par == 1
    then erase ((s.pos - s.origin) / 2) s.origin s
    else if par == 2
    then erase (s.num_columns * s.num_lines) s.origin s
    else s

unfoldable pub csi_K : ℕ → Console → Console
csi_K par s =
    if par == 0
    then if leb s.num_columns s.x then s else erase (s.num_columns - s.x) s.pos s
    else if par == 1
    then erase (if ltb s.x s.num_columns then s.x else s.num_columns) (s.pos - s.x * 2) s
    else if par == 2
    then erase s.num_columns (s.pos - s.x * 2) s
    else s

abbrev pub attr_of : ℕ → ℕ → ℕ
attr_of par attr =
    if par == 0
    then 0x07
    else if par == 1
    then 0x0f
    else if par == 4
    then 0x0f
    else if par == 7
    then 0x70
    else if par == 27
    then 0x07
    else attr

-- The loop of `csi_m`: n parameters from number i on.
unfoldable pub attrs : ℕ → ℕ → (ℕ → ℕ) → ℕ → ℕ
attrs zero i par attr = attr
attrs (suc n) i par attr = attrs n (i + 1) par (attr_of (par i) attr)

unfoldable pub csi_m : Console → Console
csi_m s = record s { attr = attrs (s.npar + 1) 0 s.par s.attr }

-- n words from address p on move one place up, and `old` comes first.
unfoldable pub shift_in : ℕ → ℕ → ℕ → (ℕ → ℕ) → ℕ → ℕ
shift_in zero p old cell = cell
shift_in (suc n) p old cell = shift_in n (p + 2) (cell p) (update cell p old)

unfoldable pub insert_char : Console → Console
insert_char s = record s { cell = shift_in (s.num_columns - s.x) s.pos s.erase_char s.cell }

-- n words move one place down, and w comes last.
unfoldable pub shift_out : ℕ → ℕ → ℕ → (ℕ → ℕ) → ℕ → ℕ
shift_out zero p w cell = update cell p w
shift_out (suc n) p w cell = shift_out n (p + 2) w (update cell p (cell (p + 2)))

unfoldable pub delete_char : Console → Console
delete_char s =
    if leb s.num_columns s.x
    then s
    else record s { cell = shift_out (s.num_columns - s.x - 1) s.pos s.erase_char s.cell }

-- The region from the line of the cursor on, and what it was.
abbrev pub from_line : Console → Console
from_line s = record s { top = s.y; bottom = s.num_lines }

abbrev pub with_region : ℕ → ℕ → Console → Console
with_region top bottom s = record s { top = top; bottom = bottom }

unfoldable pub insert_line : Console → Console
unfolding scrdown
insert_line s = with_region s.top s.bottom (scrdown (from_line s))

unfoldable pub delete_line : Console → Console
unfolding scrup
delete_line s = with_region s.top s.bottom (scrup (from_line s))

unfoldable pub times : ℕ → (Console → Console) → Console → Console
times zero f s = s
times (suc n) f s = times n f (f s)

-- At least once, and no more than `most` times.
abbrev pub limit : ℕ → ℕ → ℕ
limit most nr = if ltb most nr then most else if nr == 0 then 1 else nr

unfoldable pub csi_at : ℕ → Console → Console
csi_at nr s = times (limit s.num_columns nr) insert_char s

unfoldable pub csi_L : ℕ → Console → Console
csi_L nr s = times (limit s.num_lines nr) insert_line s

unfoldable pub csi_P : ℕ → Console → Console
csi_P nr s = times (limit s.num_columns nr) delete_char s

unfoldable pub csi_M : ℕ → Console → Console
csi_M nr s = times (limit s.num_lines nr) delete_line s

unfoldable pub save_cur : Console → Console
save_cur s = record s { saved_x = s.x; saved_y = s.y }

unfoldable pub restore_cur : Console → Console
unfolding gotoxy
restore_cur s = gotoxy s.saved_x s.saved_y s
