-- ===== src/Chr/Console/Write.antt =====
-- `con_write` and `con_init` of kernel/chr_drv/console.c: the machine that reads escape sequences. A
-- character is its byte.
use linux_0_11_notes.Prelude.{
  Bool, List, Option, [], false, if◌then◌else◌, leb, ltb, none, not, some, suc, true, update, zero,
  ℕ, ◌%◌, ◌&&◌, ◌*◌, ◌+◌, ◌-◌, ◌/◌, ◌==◌, ◌||◌, ◌∷◌,
}
use linux_0_11_notes.Chr.Console.{
  Console, add_word, cr, csi_J, csi_K, csi_L, csi_M, csi_P, csi_at, csi_m, del, erase, gotoxy, lf,
  max_par, restore_cur, ri, save_cur, sub_word, word_mod,
}
use linux_0_11_notes.Chr.Queue.{Queue, chars, getch, next_char, putch}
use linux_0_11_notes.Chr.Tty.{Tty, verase}

abbrev pub set_par : ℕ → ℕ → Console → Console
set_par i v s = record s { par = update s.par i v }

-- `if (par[i]) par[i]--;`
abbrev pub lower_par : ℕ → Console → Console
lower_par i s = if s.par i == 0 then s else set_par i (s.par i - 1) s

-- `if (!par[0]) par[0]++;`
abbrev pub raise_par : Console → Console
raise_par s = if s.par 0 == 0 then set_par 0 1 s else s

-- The tab: to the next column that 8 divides.
abbrev pub tab_to : ℕ → Console → Console
tab_to n s = record s { x = s.x + n; pos = s.pos + n * 2 }

-- Back one row, for the wrap at the end of a line.
abbrev pub wrap : Console → Console
wrap s = record s { x = s.x - s.num_columns; pos = s.pos - s.size_row }

unfoldable pub put_char : ℕ → Console → Console
put_char c s = record s {
  cell = update s.cell s.pos (s.attr * 256 + c);
  pos = s.pos + 2;
  x = s.x + 1;
}

unfoldable pub show_char : ℕ → Console → Console
unfolding put_char lf
show_char c s = put_char c (if leb s.num_columns s.x then lf (wrap s) else s)

unfoldable pub tab : Console → Console
unfolding lf
tab s = let t : Console = tab_to (8 - s.x % 8) s in if ltb t.num_columns t.x then lf (wrap t) else t

-- State 0. ERASE_CHAR is an unsigned byte, which a negative character never equals.
unfoldable pub plain_char : ℕ → ℕ → Console → Console
unfolding show_char tab
plain_char erase c s =
    if ltb 31 c && ltb c 127
    then show_char c s
    else if c == 27
    then record s { state = 1 }
    else if c == 10 || c == 11 || c == 12
    then lf s
    else if c == 13
    then cr s
    else if c == erase && ltb c 128
    then del s
    else if c == 8
    then if s.x == 0 then s else record s { x = s.x - 1; pos = s.pos - 2 }
    else if c == 9
    then tab s
    else if c == 7
    then record s { beepcount = 100 / 8 }
    else s

-- State 1, after ESC. The code compares x with '7' and '8', where the character is meant. ESC Z is
-- in `con_step`.
unfoldable pub escape_char : ℕ → Console → Console
unfolding gotoxy ri lf save_cur restore_cur
escape_char c s0 =
    let s : Console = record s0 { state = 0 } in
    if c == b'['
    then record s { state = 2 }
    else if c == b'E'
    then gotoxy 0 (add_word s.y 1) s
    else if c == b'M'
    then ri s
    else if c == b'D'
    then lf s
    else if s.x == b'7'
    then save_cur s
    else if s.x == b'8'
    then restore_cur s
    else s

-- `case 'r'`: the scroll region.
unfoldable pub set_region : Console → Console
set_region s0 =
    let s1 : Console = lower_par 0 s0 in
    let s : Console = if s1.par 1 == 0 then set_par 1 s1.num_lines s1 else s1 in
    if ltb (s.par 0) (s.par 1) && leb (s.par 1) s.num_lines
    then record s { top = s.par 0; bottom = s.par 1 }
    else s

-- The moves of the cursor among the sequences; `none` is any other character.
unfoldable pub cursor_char : ℕ → Console → Option Console
cursor_char c s =
    let up : Console = raise_par s in
    if c == b'G' || c == b'`'
    then (let t : Console = lower_par 0 s in some (gotoxy (t.par 0) t.y t))
    else if c == b'A'
    then some (gotoxy up.x (sub_word up.y (up.par 0)) up)
    else if c == b'B' || c == b'e'
    then some (gotoxy up.x (add_word up.y (up.par 0)) up)
    else if c == b'C' || c == b'a'
    then some (gotoxy (add_word up.x (up.par 0)) up.y up)
    else if c == b'D'
    then some (gotoxy (sub_word up.x (up.par 0)) up.y up)
    else if c == b'E'
    then some (gotoxy 0 (add_word up.y (up.par 0)) up)
    else if c == b'F'
    then some (gotoxy 0 (sub_word up.y (up.par 0)) up)
    else if c == b'd'
    then (let t : Console = lower_par 0 s in some (gotoxy t.x (t.par 0) t))
    else if c == b'H' || c == b'f'
    then (let t : Console = lower_par 1 (lower_par 0 s) in some (gotoxy (t.par 1) (t.par 0) t))
    else none

-- The others.
unfoldable pub edit_char : ℕ → Console → Console
unfolding set_region save_cur restore_cur csi_J csi_K csi_L csi_M csi_P csi_at csi_m
edit_char c s =
    if c == b'J'
    then csi_J (s.par 0) s
    else if c == b'K'
    then csi_K (s.par 0) s
    else if c == b'L'
    then csi_L (s.par 0) s
    else if c == b'M'
    then csi_M (s.par 0) s
    else if c == b'P'
    then csi_P (s.par 0) s
    else if c == b'@'
    then csi_at (s.par 0) s
    else if c == b'm'
    then csi_m s
    else if c == b'r'
    then set_region s
    else if c == b's'
    then save_cur s
    else if c == b'u'
    then restore_cur s
    else s

abbrev pub or_edit : Option Console → Console → Console
or_edit none s = s
or_edit (some t) s = t

-- State 4.
unfoldable pub final_char : ℕ → Console → Console
unfolding cursor_char edit_char
final_char c s0 =
    let s : Console = record s0 { state = 0 } in or_edit (cursor_char c s) (edit_char c s)

-- State 3, which goes on with state 4 for a character that is no part of a parameter.
unfoldable pub param_char : ℕ → Console → Console
unfolding final_char
param_char c s =
    if c == b';' && ltb s.npar (max_par - 1)
    then record s { npar = s.npar + 1 }
    else if leb b'0' c && leb c b'9'
    then set_par s.npar ((10 * s.par s.npar + c - b'0') % word_mod) s
    else final_char c s

-- State 2, which goes on with state 3.
unfoldable pub start_char : ℕ → Console → Console
unfolding param_char
start_char c s0 =
    let s : Console = record s0 {
      par = λ i. if ltb i max_par then 0 else s0.par i;
      npar = 0;
      state = 3;
    } in
    if c == b'?' then record s { ques = true } else param_char c (record s { ques = false })

unfoldable pub con_char : ℕ → ℕ → Console → Console
unfolding plain_char escape_char start_char param_char final_char
con_char erase c s =
    if s.state == 0
    then plain_char erase c s
    else if s.state == 1
    then escape_char c s
    else if s.state == 2
    then start_char c s
    else if s.state == 3
    then param_char c s
    else if s.state == 4
    then final_char c s
    else s

-- `respond` puts "\033[?1;2c" into the read queue.
abbrev pub response : List ℕ
response = 27 ∷ b'[' ∷ b'?' ∷ b'1' ∷ b';' ∷ b'2' ∷ b'c' ∷ []

unfoldable pub put_all : List ℕ → Queue → Queue
put_all [] q = q
put_all (c ∷ cs) q = put_all cs (putch c q)

-- One turn of the loop. `copy` is `copy_to_cooked`, whose echo may write to the console too.
unfoldable pub con_step : (Console × Tty → Console × Tty) → Console → Tty → Console × Tty
unfolding con_char put_all
con_step copy s t =
    let c : ℕ = next_char t.write_q in
    let t' : Tty = record t { write_q = getch t.write_q } in
    if s.state == 1 && c == b'Z'
    then copy (record s { state = 0 }, record t' { read_q = put_all response t'.read_q })
    else (con_char (t.termios.cc verase) c s, t')

unfoldable pub con_loop : ℕ → (Console × Tty → Console × Tty) → Console × Tty → Console × Tty
unfolding con_step
con_loop zero copy st = st
con_loop (suc n) copy (s, t) = con_loop n copy (con_step copy s t)

unfoldable pub con_write : (Console × Tty → Console × Tty) → Console × Tty → Console × Tty
unfolding con_loop
con_write copy (s, t) = con_loop (chars t.write_q) copy (s, t)

-- What setup.s has left: mode, columns, lines, the low byte of BX, and the cursor.
pub record Screen : Type 0 where
  pub mode : ℕ
  pub columns : ℕ
  pub lines : ℕ
  pub ega_bx : ℕ
  pub orig_x : ℕ
  pub orig_y : ℕ

abbrev end_of_memory : Bool → Bool → ℕ
end_of_memory true true = 0xb8000
end_of_memory true false = 0xb2000
end_of_memory false true = 0xbc000
end_of_memory false false = 0xba000

-- `display_desc` as bytes.
abbrev description : Bool → Bool → List ℕ
description true true = b'E' ∷ b'G' ∷ b'A' ∷ b'm' ∷ []
description true false = b'*' ∷ b'M' ∷ b'D' ∷ b'A' ∷ []
description false true = b'E' ∷ b'G' ∷ b'A' ∷ b'c' ∷ []
description false false = b'*' ∷ b'C' ∷ b'G' ∷ b'A' ∷ []

-- The low byte of each word from address a on; the high byte, the attribute, stays.
unfoldable pub describe : List ℕ → ℕ → (ℕ → ℕ) → ℕ → ℕ
describe [] a cell = cell
describe (c ∷ cs) a cell = describe cs (a + 2) (update cell a (cell a / 256 * 256 + c))

-- The traps and the keyboard's ports are left out; the other variables start as they are declared.
unfoldable pub con_init : Screen → Console → Console
unfolding gotoxy describe
con_init v s =
    let mono : Bool = v.mode == 7 in
    let ega : Bool = not (v.ega_bx == 0x10) in
    let start : ℕ = if mono then 0xb0000 else 0xb8000 in
    let row : ℕ = v.columns * 2 in
    gotoxy v.orig_x v.orig_y (record s {
      ega = ega;
      num_columns = v.columns;
      size_row = row;
      num_lines = v.lines;
      mem_start = start;
      mem_end = end_of_memory mono ega;
      erase_char = 0x0720;
      origin = start;
      scr_end = start + v.lines * row;
      top = 0;
      bottom = v.lines;
      cell = describe (description mono ega) (start + row - 8) s.cell;
    })
