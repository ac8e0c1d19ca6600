-- ===== src/Chr/Tty.antt =====
-- kernel/chr_drv/tty_io.c: terminals. A character is its byte; those from 128 on are negative in
-- the code's `signed char`.
pub mod Editing
pub mod Cooked
pub mod Lines
pub mod Io
pub mod Tests
use linux_0_11_notes.Prelude.{
  Bool, Option, eq_ℤ, false, if◌then◌else◌, leb, ltb, none, pos_part, some, suc, true, update,
  with_bit, zero, ℕ, ℤ, ◌%◌, ◌&&◌, ◌+◌, ◌==◌, ◌^◌, ◌||◌,
}
use linux_0_11_notes.Block.Queue.{write}
use linux_0_11_notes.Chr.Queue.{
  Queue, chars, getch, is_empty, is_full, last, next_char, putch, unput,
}
use linux_0_11_notes.Kernel.Task.{Table, Task, holds, map_option, nr_tasks, stopped}

-- Flags of `c_iflag`, `c_oflag` and `c_lflag`, and the special characters.
pub record Termios : Type 0 where
  pub icrnl : Bool
  pub igncr : Bool
  pub inlcr : Bool
  pub iuclc : Bool
  pub opost : Bool
  pub olcuc : Bool
  pub onlcr : Bool
  pub ocrnl : Bool
  pub onlret : Bool
  pub isig : Bool
  pub icanon : Bool
  pub echo : Bool
  pub echoctl : Bool
  pub cc : ℕ → ℕ

abbrev pub vintr : ℕ
vintr = 0

abbrev pub vquit : ℕ
vquit = 1

abbrev pub verase : ℕ
verase = 2

abbrev pub vkill : ℕ
vkill = 3

abbrev pub veof : ℕ
veof = 4

abbrev pub vtime : ℕ
vtime = 5

abbrev pub vmin : ℕ
vmin = 6

abbrev pub vstart : ℕ
vstart = 8

abbrev pub vstop : ℕ
vstop = 9

pub record Tty : Type 0 where
  pub termios : Termios
  pub pgrp : ℤ
  pub stopped : Bool
  pub read_q : Queue
  pub write_q : Queue
  pub secondary : Queue

-- A terminal, and the tasks that it may signal.
pub record Line : Type 0 where
  pub tty : Tty
  pub task : Table

-- What is not in this file: what `tty->write` leaves of the terminal and the tasks, and whether the bytes
-- that `isupper` and `islower` read in front of `_ctype` for a negative character have the bit. The
-- console's `con_write` may answer: it puts bytes into `read_q` and calls `copy_to_cooked` again.
pub record Driver : Type 0 where
  pub write : Line → Line
  pub upper_below : ℕ → Bool
  pub lower_below : ℕ → Bool

abbrev pub is_upper : Driver → ℕ → Bool
is_upper drv c = if leb 128 c then drv.upper_below c else leb 65 c && leb c 90

abbrev pub is_lower : Driver → ℕ → Bool
is_lower drv c = if leb 128 c then drv.lower_below c else leb 97 c && leb c 122

abbrev pub to_lower : Driver → ℕ → ℕ
to_lower drv c = if is_upper drv c then (c + 32) % 256 else c

abbrev pub to_upper : Driver → ℕ → ℕ
to_upper drv c = if is_lower drv c then (c + 224) % 256 else c

-- A character is compared with an unsigned one: a negative one is equal to none.
abbrev pub is_cc : Termios → ℕ → ℕ → Bool
is_cc t k c = c == t.cc k && ltb c 128

-- The end of a line: a newline or EOF_CHAR.
abbrev pub ends_line : Termios → ℕ → Bool
ends_line t c = c == 10 || is_cc t veof c

-- `c < 32`.
abbrev pub is_control : ℕ → Bool
is_control c = ltb c 32 || leb 128 c

-- `task[i]->signal |= mask` for a mask of one bit, n tasks from slot i on.
unfoldable pub signal_group : ℕ → ℕ → ℤ → ℕ → Table → Table
signal_group zero i pgrp bit t = t
signal_group (suc n) i pgrp bit t = signal_group n (i + 1) pgrp bit (
    if holds (λ a. eq_ℤ a.pgrp pgrp) (t i)
    then update t i (map_option (λ (a : Task). record a { signal = with_bit a.signal bit }) (t i))
    else t)

unfoldable pub tty_intr : ℤ → ℕ → Table → Table
unfolding signal_group
tty_intr pgrp bit t = if pos_part pgrp == 0 then t else signal_group nr_tasks 0 pgrp bit t

-- What becomes of a character first; `none` is the `continue` of IGNCR.
unfoldable pub map_input : Driver → Termios → ℕ → Option ℕ
map_input drv t c =
    let fold = λ (c : ℕ). if t.iuclc then to_lower drv c else c in
    if c == 13
    then if t.icrnl then some (fold 10) else if t.igncr then none else some (fold 13)
    else if c == 10 && t.inlcr
    then some (fold 13)
    else some (fold c)

-- The echo, and one character less on the line.
unfoldable pub rub_out : Driver → Line → Line
rub_out drv l =
    let t : Tty = l.tty in
    let w : Queue = if is_control (last t.secondary) then putch 127 t.write_q else t.write_q in
    let l' : Line =
      if t.termios.echo
      then drv.write (record l { tty = record t { write_q = putch 127 w } })
      else l in
    record l' { tty = record l'.tty { secondary = unput l'.tty.secondary } }

-- Nothing is left on the line.
abbrev pub line_empty : Tty → Bool
line_empty t = is_empty t.secondary || ends_line t.termios (last t.secondary)

-- The loop for KILL_CHAR. Each turn takes a byte from the queue, so that as many turns as bytes are
-- enough where the driver puts none into it.
unfoldable pub kill_line : ℕ → Driver → Line → Line
unfolding rub_out
kill_line zero drv l = l
kill_line (suc n) drv l =
    let rest = kill_line n drv (rub_out drv l) in if line_empty l.tty then l else rest

unfoldable pub erase_char : Driver → Line → Line
unfolding rub_out
erase_char drv l = if line_empty l.tty then l else rub_out drv l

abbrev pub echo_char : Termios → ℕ → Queue → Queue
echo_char t c q =
    if c == 10
    then putch 13 (putch 10 q)
    else if is_control c
    then if t.echoctl then putch ((c + 64) % 256) (putch 94 q) else q
    else putch c q

-- `secondary.data++` at the end of a line, the echo, and PUTCH.
unfoldable pub enter : Driver → ℕ → Line → Line
enter drv c l =
    let t : Tty = l.tty in
    let s : Queue = t.secondary in
    let counted : Tty = record t {
      secondary = record s {
        data_count = if ends_line t.termios c then (s.data_count + 1) % 2 ^ 32 else s.data_count;
      };
    } in
    let echoed : Tty = record counted { write_q = echo_char t.termios c t.write_q } in
    let l' : Line =
      if t.termios.echo
      then drv.write (record l { tty = echoed })
      else record l { tty = counted } in
    record l' { tty = record l'.tty { secondary = putch c l'.tty.secondary } }

-- What becomes of a character that is left: bits 1 and 2 are those of SIGINT and SIGQUIT.
unfoldable pub handle_char : Driver → ℕ → Line → Line
handle_char drv c l =
    let t : Tty = l.tty in
    let o : Termios = t.termios in
    if o.icanon && is_cc o vkill c
    then kill_line (chars t.secondary) drv l
    else if o.icanon && is_cc o verase c
    then erase_char drv l
    else if o.icanon && is_cc o vstop c
    then record l { tty = record t { stopped = true } }
    else if o.icanon && is_cc o vstart c
    then record l { tty = record t { stopped = false } }
    else if o.isig && is_cc o vintr c
    then record l { task = tty_intr t.pgrp 1 l.task }
    else if o.isig && is_cc o vquit c
    then record l { task = tty_intr t.pgrp 2 l.task }
    else enter drv c l

-- One turn of `copy_to_cooked`.
unfoldable pub cook : Driver → Line → Line
cook drv l =
    let t : Tty = l.tty in
    let l' : Line = record l { tty = record t { read_q = getch t.read_q } } in
    elim (map_input drv t.termios (next_char t.read_q)) [
      | none ↦ l'
      | some c ↦ handle_char drv c l'
    ]

unfoldable pub cook_all : ℕ → Driver → Line → Line
cook_all zero drv l = l
cook_all (suc n) drv l =
    let rest = cook_all n drv (cook drv l) in
    if is_empty l.tty.read_q || is_full l.tty.secondary then l else rest

-- Each turn takes a byte from `read_q`, so that as many turns as bytes are enough where the driver puts
-- none into it.
unfoldable pub copy_to_cooked : Driver → Line → Line
copy_to_cooked drv l = cook_all (chars l.tty.read_q) drv l
