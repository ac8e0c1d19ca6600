-- ===== src/Chr/Console/Tests.antt =====
-- The console on concrete inputs.
use linux_0_11_notes.Prelude.{List, [], arith, false, pos, refl, ℕ, ◌+◌, ◌∷◌, ◌≡◌}
use linux_0_11_notes.Chr.Console.{Console, gotoxy}
use linux_0_11_notes.Chr.Console.Sequences.{con_write-IsKept}
use linux_0_11_notes.Chr.Console.Window.{IsKept, IsKept-refl, IsScreen}
use linux_0_11_notes.Chr.Console.Write.{Screen, con_init, con_write, describe, put_all}
use linux_0_11_notes.Chr.Tty.{Tty}
use linux_0_11_notes.Chr.Tty.Tests.{console_modes, empty_queue}

-- An EGA text mode with the cursor in the last line, which comes from `con_init`.
abbrev nothing : Console
nothing = record {
  ega = false;
  num_columns = 0;
  size_row = 0;
  num_lines = 0;
  mem_start = 0;
  mem_end = 0;
  erase_char = 0;
  origin = 0;
  scr_end = 0;
  pos = 0;
  x = 0;
  y = 0;
  top = 0;
  bottom = 0;
  state = 0;
  npar = 0;
  par = λ _. 0;
  ques = false;
  attr = 0x07;
  saved_x = 0;
  saved_y = 0;
  beepcount = 0;
  cell = λ _. 0;
}

abbrev color_text : Screen
color_text = record { mode = 3; columns = 80; lines = 25; ega_bx = 0; orig_x = 78; orig_y = 24 }

abbrev console : Console
console = con_init color_text nothing

console-IsScreen : IsScreen console
unfolding con_init gotoxy describe
console-IsScreen = omega arith

abbrev keep_all : Console × Tty → Console × Tty
keep_all st = st

abbrev terminal : List ℕ → Tty
terminal cs = record {
  termios = console_modes;
  pgrp = pos 0;
  stopped = false;
  read_q = empty_queue;
  write_q = put_all cs empty_queue;
  secondary = empty_queue;
}

con_write-IsKept_example :
    IsKept console (con_write keep_all (console, terminal (b'a' ∷ b'b' ∷ b'c' ∷ []))).0
con_write-IsKept_example =
    con_write-IsKept keep_all console (terminal (b'a' ∷ b'b' ∷ b'c' ∷ []))
      (λ s t v. IsKept-refl s v) console-IsScreen

-- The third character wraps, and the window scrolls.
wraps : (con_write keep_all (console, terminal (b'a' ∷ b'b' ∷ b'c' ∷ []))).0.origin ≡ 0xb8000 + 160
unfolding con_write con_init gotoxy describe put_all
wraps = refl

-- ESC [ 2 ; 5 H.
goes : (con_write keep_all (console, terminal (27 ∷ b'[' ∷ b'2' ∷ b';' ∷ b'5' ∷ b'H' ∷ []))).0.x ≡ 4
unfolding con_write con_init gotoxy describe put_all
goes = refl
