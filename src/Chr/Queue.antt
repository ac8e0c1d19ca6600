-- ===== src/Chr/Queue.antt =====
-- include/linux/tty.h: the queues of a terminal.
pub mod Ring
use linux_0_11_notes.Prelude.{Bool, update, ℕ, ◌%◌, ◌+◌, ◌-◌, ◌==◌}

-- `head` and `tail` are indices into the 1024 bytes of `buf`; `data` counts the lines of a queue of
-- finished input.
pub record Queue : Type 0 where
  pub data_count : ℕ
  pub head : ℕ
  pub tail : ℕ
  pub buf : ℕ → ℕ

abbrev pub buf_size : ℕ
buf_size = 1024

-- EMPTY
abbrev pub is_empty : Queue → Bool
is_empty q = q.head == q.tail

-- LEFT: `(tail - head - 1) & (TTY_BUF_SIZE - 1)`.
abbrev pub left : Queue → ℕ
left q = (q.tail + buf_size + (buf_size - 1) - q.head) % buf_size

-- FULL
abbrev pub is_full : Queue → Bool
is_full q = left q == 0

-- CHARS
abbrev pub chars : Queue → ℕ
chars q = (q.head + buf_size - q.tail) % buf_size

-- LAST
abbrev pub last : Queue → ℕ
last q = q.buf ((q.head + (buf_size - 1)) % buf_size)

-- GETCH: the byte, and the queue without it.
abbrev pub next_char : Queue → ℕ
next_char q = q.buf q.tail

abbrev pub getch : Queue → Queue
getch q = record q { tail = (q.tail + 1) % buf_size }

-- PUTCH
abbrev pub putch : ℕ → Queue → Queue
putch c q = record q { buf = update q.buf q.head c; head = (q.head + 1) % buf_size }

-- `DEC(queue.head)`
abbrev pub unput : Queue → Queue
unput q = record q { head = (q.head + (buf_size - 1)) % buf_size }
