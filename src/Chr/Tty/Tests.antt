-- ===== src/Chr/Tty/Tests.antt =====
-- Inputs for the theorems on terminals.
use linux_0_11_notes.Prelude.{[], arith, false, none, pos, refl, true, update, ◌∷◌, ◌≡◌}
use linux_0_11_notes.Chr.Queue.{Queue}
use linux_0_11_notes.Chr.Queue.Ring.{IsQueue, bytes}
use linux_0_11_notes.Chr.Tty.{
  Driver, Line, Termios, cook, cook_all, copy_to_cooked, enter, erase_char, handle_char, map_input,
  rub_out,
}
use linux_0_11_notes.Chr.Tty.Cooked.{IsCooked, copy_to_cooked-IsCooked}
use linux_0_11_notes.Chr.Tty.Editing.{IsQuiet}
use linux_0_11_notes.Chr.Tty.Io.{take_bytes}
use linux_0_11_notes.Chr.Tty.Io.Input.{IsTaken, take_bytes-IsTaken}
use linux_0_11_notes.Chr.Tty.Lines.{number, IsLined, cook-IsLined}

-- The console's flags and characters, as far as they are given here.
abbrev pub console_modes : Termios
console_modes = record {
  icrnl = true;
  igncr = false;
  inlcr = false;
  iuclc = false;
  opost = true;
  olcuc = false;
  onlcr = true;
  ocrnl = false;
  onlret = false;
  isig = true;
  icanon = true;
  echo = true;
  echoctl = true;
  cc = update (update (update (λ _. 0) 2 127) 3 21) 4 4;
}

abbrev pub empty_queue : Queue
empty_queue = record { data_count = 0; head = 0; tail = 0; buf = λ _. 0 }

-- 'a', DEL, 'b' and a return, of which the first three stand at the end of the ring.
abbrev typed : Queue
typed = record {
  data_count = 0;
  head = 1;
  tail = 1021;
  buf = update (update (update (λ _. 13) 1021 97) 1022 127) 1023 98;
}

abbrev screen : Driver
screen = record {
  write = λ l. record l { tty = record l.tty { write_q = empty_queue } };
  upper_below = λ _. false;
  lower_below = λ _. false;
}

screen-IsQuiet : IsQuiet screen
screen-IsQuiet = record { secondary = λ l. refl; read_q = λ l. refl; termios = λ l. refl }

abbrev line : Line
line = record {
  tty = record {
    termios = console_modes;
    pgrp = pos 1;
    stopped = false;
    read_q = typed;
    write_q = empty_queue;
    secondary = empty_queue;
  };
  task = λ _. none;
}

typed-IsQueue : IsQueue typed
typed-IsQueue = record { head_in = omega arith; tail_in = omega arith }

empty-IsQueue : IsQueue empty_queue
empty-IsQueue = record { head_in = omega arith; tail_in = omega arith }

empty_bytes : bytes empty_queue ≡ []
unfolding bytes
empty_bytes = refl

-- The rubout takes the 'a' back.
cooked_bytes : bytes (copy_to_cooked screen line).tty.secondary ≡ 98 ∷ 10 ∷ []
unfolding copy_to_cooked cook_all cook map_input handle_char enter erase_char rub_out bytes
cooked_bytes = refl

copy_to_cooked-IsCooked_example : IsCooked screen line (copy_to_cooked screen line)
copy_to_cooked-IsCooked_example =
    copy_to_cooked-IsCooked screen line screen-IsQuiet typed-IsQueue empty-IsQueue

cook-IsLined_example : IsLined (cook screen line).tty
unfolding bytes number
cook-IsLined_example = cook-IsLined screen line screen-IsQuiet empty-IsQueue refl refl

-- Two bytes and the end of a line.
abbrev finished : Queue
finished = record { data_count = 1; head = 3; tail = 0; buf = update (λ _. 97) 2 10 }

finished-IsQueue : IsQueue finished
finished-IsQueue = record { head_in = omega arith; tail_in = omega arith }

take_bytes-IsTaken_example :
    IsTaken 10 console_modes [] finished (take_bytes 10 console_modes [] finished)
unfolding bytes number
take_bytes-IsTaken_example =
    take_bytes-IsTaken 10 console_modes [] finished finished-IsQueue refl refl
