-- ===== src/Fs/Pipe.antt =====
-- fs/pipe.c: reading and writing a pipe.
pub mod Window
pub mod Fifo
pub mod Tests
use linux_0_11_notes.Prelude.{
  List, [], done, drop, err, if◌then◌else◌, length, min, not, pos, suc, take, update, zero, ℕ, ℤ,
  ◌%◌, ◌++◌, ◌+◌, ◌-◌, ◌==◌, ◌||◌, ◌∷◌,
}

-- The inode of a pipe: the bytes of its page, PIPE_HEAD, PIPE_TAIL, and `i_count`.
pub record Pipe : Type 0 where
  pub page : ℕ → ℕ
  pub head : ℕ
  pub tail : ℕ
  pub users : ℕ

abbrev pub page_bytes : ℕ
page_bytes = 4096

-- PIPE_SIZE: `(head - tail) & (PAGE_SIZE - 1)`.
abbrev pub pipe_size : Pipe → ℕ
pipe_size p = (p.head + page_bytes - p.tail) % page_bytes

-- The n bytes from index i on.
unfoldable pub read_bytes : ℕ → ℕ → (ℕ → ℕ) → List ℕ
read_bytes zero i page = []
read_bytes (suc n) i page = page i ∷ read_bytes n (i + 1) page

-- `chars` of `read_pipe`: up to the end of the page, no more than asked for, no more than there is.
abbrev pub read_chars : ℕ → Pipe → ℕ
read_chars count p = min (min (page_bytes - p.tail) count) (pipe_size p)

abbrev pub advance_tail : ℕ → Pipe → Pipe
advance_tail n p = record p { tail = (p.tail + n) % page_bytes }

-- The loop of `read_pipe` while there is something to read: what is left to read, and the bytes so
-- far. Each turn reads at least one byte, so `count` turns are enough.
unfoldable pub read_ready : ℕ → ℕ → Pipe → List ℕ → ℕ × Pipe × List ℕ
unfolding read_bytes
read_ready zero count p out = (count, p, out)
read_ready (suc fuel) count p out =
    let n : ℕ = read_chars count p in
    let more = read_ready fuel (count - n) (advance_tail n p) (out ++ read_bytes n p.tail p.page) in
    if count == 0 || pipe_size p == 0 then (count, p, out) else more

-- A call returns what it read, or sleeps with no one left to wake it in the list.
pub data Read : Type 0 where
  got : List ℕ → Pipe → Read
  read_sleeps : ℕ → List ℕ → Pipe → Read

-- Each function of the list is what others do to the pipe while the reader sleeps. A reader that
-- has no writer beside it returns with what it has.
unfoldable pub read_pipe : List (Pipe → Pipe) → ℕ → Pipe → List ℕ → Read
unfolding read_ready
read_pipe [] count p out =
    let (c, q, o) = read_ready count count p out in
    if c == 0 then got o q else if not (q.users == 2) then got o q else read_sleeps c o q
read_pipe (others ∷ rest) count p out =
    let (c, q, o) = read_ready count count p out in
    let later = read_pipe rest c (others q) o in
    if c == 0 then got o q else if not (q.users == 2) then got o q else later

-- The bytes of the list go to the indices from i on.
unfoldable pub write_bytes : List ℕ → ℕ → (ℕ → ℕ) → ℕ → ℕ
write_bytes [] i page = page
write_bytes (x ∷ xs) i page = write_bytes xs (i + 1) (update page i x)

-- `(PAGE_SIZE - 1) - PIPE_SIZE`: one byte of the page stays empty.
abbrev pub room : Pipe → ℕ
room p = page_bytes - 1 - pipe_size p

abbrev pub write_chars : ℕ → Pipe → ℕ
write_chars count p = min (min (page_bytes - p.head) count) (room p)

abbrev pub put_chunk : List ℕ → Pipe → Pipe
put_chunk xs p = record p {
  page = write_bytes xs p.head p.page;
  head = (p.head + length xs) % page_bytes;
}

-- The loop of `write_pipe` while there is room: the bytes that are left.
unfoldable pub write_ready : ℕ → List ℕ → Pipe → List ℕ × Pipe
unfolding write_bytes
write_ready zero src p = (src, p)
write_ready (suc fuel) src p =
    let n : ℕ = write_chars (length src) p in
    let more = write_ready fuel (drop n src) (put_chunk (take n src) p) in
    if length src == 0 || room p == 0 then (src, p) else more

-- A writer without a reader gets SIGPIPE, and the number of bytes written, or -1 for none.
pub data Wrote : Type 0 where
  wrote : ℕ → Pipe → Wrote
  broken : ℤ → Pipe → Wrote
  write_sleeps : ℕ → List ℕ → Pipe → Wrote

abbrev pub broken_value : ℕ → ℤ
broken_value written = if written == 0 then err 1 else pos written

unfoldable pub write_pipe : List (Pipe → Pipe) → ℕ → List ℕ → Pipe → Wrote
unfolding write_ready
write_pipe [] written src p =
    let (left, q) = write_ready (length src) src p in
    let done : ℕ = written + (length src - length left) in
    if length left == 0
    then wrote done q
    else if not (q.users == 2)
    then broken (broken_value done) q
    else write_sleeps done left q
write_pipe (others ∷ rest) written src p =
    let (left, q) = write_ready (length src) src p in
    let done : ℕ = written + (length src - length left) in
    let later = write_pipe rest done left (others q) in
    if length left == 0
    then wrote done q
    else if not (q.users == 2)
    then broken (broken_value done) q
    else later
