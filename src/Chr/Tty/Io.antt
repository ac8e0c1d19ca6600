-- ===== src/Chr/Tty/Io.antt =====
-- kernel/chr_drv/tty_io.c: reading from a terminal and writing to it.
pub mod Output
pub mod Input
use linux_0_11_notes.Prelude.{
  Bits, Bool, List, [], any_below, err, false, if◌then◌else◌, leb, length, ltb, min, not, pos, suc,
  true, without_bit, zero, ℕ, ℤ, ◌%◌, ◌&&◌, ◌*◌, ◌++◌, ◌+◌, ◌-◌, ◌==◌, ◌^◌, ◌||◌, ◌∷◌,
}
use linux_0_11_notes.Block.Queue.{write}
use linux_0_11_notes.Chr.Console.{cr}
use linux_0_11_notes.Chr.Queue.{Queue, getch, is_empty, is_full, left, next_char, putch}
use linux_0_11_notes.Chr.Tty.{
  Driver, Line, Termios, Tty, ends_line, is_cc, to_upper, veof, vmin, vtime,
}
use linux_0_11_notes.Fs.Descriptors.Tests.{others}
use linux_0_11_notes.Kernel.Task.{Table, sigalrm_bit}

-- OPOST: what becomes of a character, but for its case.
abbrev pub post : Termios → ℕ → ℕ
post o c =
    if not o.opost
    then c
    else if c == 13 && o.ocrnl
    then 10
    else if c == 10 && o.onlret
    then 13
    else c

-- A carriage return goes before this one.
abbrev pub needs_return : Termios → ℕ → Bool
needs_return o c = o.opost && post o c == 10 && o.onlcr

abbrev pub post_case : Driver → Termios → ℕ → ℕ
post_case drv o c = if o.opost && o.olcuc then to_upper drv (post o c) else post o c

-- The inner loop of `tty_write`: the bytes that are left, `cr_flag`, and the write queue. Each turn
-- fills a place of the queue.
unfoldable pub fill : ℕ → Driver → Termios → List ℕ → Bool → Queue → List ℕ × Bool × Queue
fill zero drv o src cr q = (src, cr, q)
fill (suc n) drv o [] cr q = ([], cr, q)
fill (suc n) drv o (c ∷ cs) cr q =
    let first = fill n drv o (c ∷ cs) true (putch 13 q) in
    let next = fill n drv o cs false (putch (post_case drv o c) q) in
    if is_full q then (c ∷ cs, cr, q) else if needs_return o c && not cr then first else next

-- `cr_flag` is static, and one for all terminals. `signal` is the current task's, as it is when the
-- loop looks at it: what the driver sends to it is seen there with what others do.
pub record Writer : Type 0 where
  pub tty : Tty
  pub task : Table
  pub cr_flag : Bool
  pub signal : Bits

pub data Wrote : Type 0 where
  tty_wrote : ℤ → Writer → Wrote
  write_waits : List ℕ → Writer → Wrote

-- `sleep_if_full` once it has found the queue full: asleep until a signal or room for 128.
abbrev pub waits_for_room : Bool → Writer → Bool
waits_for_room waiting w = waiting && not (any_below 32 w.signal) && ltb (left w.tty.write_q) 128

-- The inner loop and `tty->write`.
unfoldable pub write_turn : Driver → List ℕ → Writer → List ℕ × Writer
unfolding fill
write_turn drv src w =
    let (rest, cr, q) = fill (left w.tty.write_q) drv w.tty.termios src w.cr_flag w.tty.write_q in
    let l : Line = drv.write (record { tty = record w.tty { write_q = q }; task = w.task }) in
    (rest, record w { tty = l.tty; task = l.task; cr_flag = cr })

-- Each function of the list is what others do while the writer sleeps or gives way. `waiting` says
-- that the queue was full at the last look.
unfoldable pub write_loop : List (Writer → Writer) → Driver → Bool → ℕ → List ℕ → Writer → Wrote
write_loop [] drv waiting nr src w =
    let (rest, w') = write_turn drv src w in
    if waits_for_room waiting w
    then write_waits src w
    else if any_below 32 w.signal
    then tty_wrote (pos (nr - length src)) w
    else if length rest == 0
    then tty_wrote (pos nr) w'
    else write_waits rest w'
write_loop (others ∷ more) drv waiting nr src w =
    let (rest, w') = write_turn drv src w in
    let again = write_loop more drv true nr src (others w) in
    let later = write_loop more drv (is_full (others w').tty.write_q) nr rest (others w') in
    if waits_for_room waiting w
    then again
    else if any_below 32 w.signal
    then tty_wrote (pos (nr - length src)) w
    else if length rest == 0
    then tty_wrote (pos nr) w'
    else later

unfoldable pub tty_write : List (Writer → Writer) → Driver → ℕ → List ℕ → Writer → Wrote
tty_write turns drv channel src w =
    if ltb 2 channel
    then tty_wrote (err 1) w
    else if length src == 0
    then tty_wrote (pos 0) w
    else write_loop turns drv (is_full w.tty.write_q) (length src) src w

-- GETCH from the finished input, which counts the end of a line.
abbrev pub get_line_char : Termios → Queue → Queue
get_line_char o q = record (getch q) {
  data_count =
      if ends_line o (next_char q) then (q.data_count + (2 ^ 32 - 1)) % 2 ^ 32 else q.data_count;
}

-- The `do` loop of `tty_read` for at most n bytes: whether EOF_CHAR ended it, what was read, and the
-- queue.
unfoldable pub take_bytes : ℕ → Termios → List ℕ → Queue → Bool × List ℕ × Queue
take_bytes zero o out q = (false, out, q)
take_bytes (suc n) o out q =
    let c : ℕ = next_char q in
    let q' : Queue = get_line_char o q in
    let more = take_bytes n o (out ++ (c ∷ [])) q' in
    if is_cc o veof c && o.icanon
    then (true, out, q')
    else if is_empty q'
    then (false, out ++ (c ∷ []), q')
    else more

-- The terminal, and what `tty_read` reads and sets of the current task.
pub record Reader : Type 0 where
  pub tty : Tty
  pub signal : Bits
  pub alarm : ℕ
  pub jiffies : ℕ

pub data ReadTty : Type 0 where
  tty_got : ℤ → List ℕ → Reader → ReadTty
  read_waits : List ℕ → Reader → ReadTty

-- What `tty_read` works out before its loop.
pub record Request : Type 0 where
  pub old_alarm : ℕ
  pub time : ℕ
  pub minimum : ℕ

-- `!oldalarm || time + jiffies < oldalarm`.
abbrev pub is_sooner : Request → Reader → Bool
is_sooner k r = k.old_alarm == 0 || ltb (k.time + r.jiffies) k.old_alarm

-- Nothing to read: the queue is empty, or it has no finished line and room for more than 20.
abbrev pub not_ready : Tty → Bool
not_ready t =
    is_empty t.secondary
    || t.termios.icanon && t.secondary.data_count == 0 && ltb 20 (left t.secondary)

-- The end of `tty_read`: the old alarm, and -EINTR for a signal before any byte.
abbrev pub end_read : Request → List ℕ → Reader → ReadTty
end_read k out r =
    let r' : Reader = record r { alarm = k.old_alarm } in
    if any_below 32 r.signal && length out == 0
    then tty_got (err 4) out r'
    else tty_got (pos (length out)) out r'

-- What one pass of the loop comes to.
pub data ReadPass : Type 0 where
  read_ends : ReadTty → ReadPass
  read_sleeps : Bool → List ℕ → Reader → ReadPass

-- After the `do` loop: a new alarm for the next byte unless lines are read, and the end if there is
-- enough.
abbrev pub after_take : Request → Bool → ℕ → List ℕ → Queue → Reader → ReadPass
after_take k flag nr out q r =
    let o : Termios = r.tty.termios in
    let timed : Bool = not (k.time == 0) && not o.icanon in
    let r' : Reader = record r {
      tty = record r.tty { secondary = q };
      alarm = if timed then if is_sooner k r then k.time + r.jiffies else k.old_alarm else r.alarm;
    } in
    if o.icanon || leb k.minimum (length out) || leb nr (length out)
    then read_ends (end_read k out r')
    else read_sleeps (if timed then is_sooner k r else flag) out r'

-- At EOF_CHAR the call returns at once, without the old alarm.
unfoldable pub read_pass : Request → Bool → ℕ → List ℕ → Reader → ReadPass
unfolding take_bytes
read_pass k flag nr out r =
    let (eof, out', q) = take_bytes (nr - length out) r.tty.termios out r.tty.secondary in
    if flag && r.signal sigalrm_bit
    then read_ends (end_read k out (record r { signal = without_bit r.signal sigalrm_bit }))
    else if any_below 32 r.signal
    then read_ends (end_read k out r)
    else if not_ready r.tty
    then read_sleeps flag out r
    else if eof
    then read_ends
        (tty_got (pos (length out')) out' (record r { tty = record r.tty { secondary = q } }))
    else after_take k flag nr out' q r

-- Each function of the list is what others do until the next pass.
unfoldable pub read_loop : List (Reader → Reader) → Request → Bool → ℕ → List ℕ → Reader → ReadTty
read_loop [] k flag nr out r = elim (read_pass k flag nr out r) [
  | read_ends e ↦ e
  | read_sleeps flag' out' r' ↦ read_waits out' r'
]
read_loop (others ∷ more) k flag nr out r = elim (read_pass k flag nr out r) [
  | read_ends e ↦ e
  | read_sleeps flag' out' r' ↦ read_loop more k flag' nr out' (others r')
]

unfoldable pub tty_read : List (Reader → Reader) → ℕ → ℕ → Reader → ReadTty
tty_read turns channel nr r =
    let time : ℕ = 10 * r.tty.termios.cc vtime in
    let least : ℕ = r.tty.termios.cc vmin in
    let timed : Bool = not (time == 0) && least == 0 in
    let k : Request = record {
      old_alarm = r.alarm;
      time = time;
      minimum = min (if timed then 1 else least) nr;
    } in
    let flag : Bool = timed && is_sooner k r in
    let r' : Reader = if flag then record r { alarm = time + r.jiffies } else r in
    if ltb 2 channel
    then tty_got (err 1) [] r
    else if nr == 0
    then end_read k [] r'
    else read_loop turns k flag nr [] r'
