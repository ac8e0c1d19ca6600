-- ===== src/Fs/Contents.antt =====
-- fs/file_dev.c, fs/block_dev.c and `sys_lseek` of fs/read_write.c: the bytes of files and devices. What
-- the caller's memory gets is the list of the bytes in their order.
pub mod Reading
pub mod Tests
use linux_0_11_notes.Prelude.{
  Bool, List, Option, [], drop, err, false, get_or, if◌then◌else◌, leb, length, ltb, min, negsuc,
  none, not, pos, some, suc, take, true, zero, ℕ, ℤ, ◌%◌, ◌&&◌, ◌++◌, ◌+ℤ◌, ◌+◌, ◌-◌, ◌/◌, ◌==◌,
  ◌∷◌,
}
use linux_0_11_notes.Block.Queue.{read}
use linux_0_11_notes.Block.Requests.{major}
use linux_0_11_notes.Chr.Queue.{left}
use linux_0_11_notes.Chr.Queue.Ring.{bytes}
use linux_0_11_notes.Fs.Descriptors.{ebadf}
use linux_0_11_notes.Fs.Inode.Bmap.{bmap, create_block}
use linux_0_11_notes.Fs.Store.{
  Call, MInode, block_size, bread, brelse, edit, give, look, nothing_to_do, returns, runs_on,
  update_at, write_block, ◌>>=◌, ◌>>◌,
}
use linux_0_11_notes.Kernel.Kill.{einval}

-- n bytes of a block from byte o on.
unfoldable pub bytes_of : ℕ → ℕ → (ℕ → ℕ) → List ℕ
bytes_of zero o f = []
bytes_of (suc n) o f = f o ∷ bytes_of n (o + 1) f

-- What a loop over blocks has done: the bytes, the position, and how many are left.
pub record Progress : Type 0 where
  pub out : List ℕ
  pub place : ℕ
  pub left : ℕ

-- How many bytes the next turn takes.
abbrev pub chunk : ℕ → ℕ → ℕ
chunk place left = min (block_size - place % block_size) left

abbrev pub further : List ℕ → Progress → Progress
further bytes p = record {
  out = p.out ++ bytes;
  place = p.place + chunk p.place p.left;
  left = p.left - chunk p.place p.left;
}

-- The loop of `file_read`; a hole in the file reads as zeros.
unfoldable pub read_from : ℕ → ℕ → Progress → Call Progress
unfolding bytes_of
read_from zero i p = λ s. runs_on
read_from (suc fuel) i p =
    let n : ℕ = chunk p.place p.left in
    let o : ℕ = p.place % block_size in
    if p.left == 0 then give p else (do
      b ← bmap i (p.place / block_size)
      if b == 0 then read_from fuel i (further (bytes_of n o (λ _. 0)) p) else (do
        s ← look
        there ← bread (s.inode i).dev b
        if not there then give p else (do
          brelse (s.inode i).dev b
          read_from fuel i (further (bytes_of n o (s.content (s.inode i).dev b)) p))))

-- ERROR is 99.
abbrev pub no_bytes : ℕ
no_bytes = 99

abbrev pub read_result : ℕ → ℤ
read_result n = if n == 0 then err no_bytes else pos n

-- The value, the bytes and the new position of the file. Each turn takes a byte at least.
unfoldable pub file_read : ℕ → ℕ → ℤ → Call (ℤ × List ℕ × ℕ)
unfolding read_from
file_read i place (negsuc _) = give (pos 0, [], place)
file_read i place (pos count) = if count == 0 then give (pos 0, [], place) else (do
  p ← read_from (count + 1) i (record { out = []; place = place; left = count })
  s ← look
  edit i (λ n. record n { atime = s.now })
  give (read_result (count - p.left), p.out, p.place))

-- A block with bytes put into it from byte o on.
unfoldable pub put_bytes : List ℕ → ℕ → (ℕ → ℕ) → ℕ → ℕ
put_bytes bytes o f k = if leb o k && ltb k (o + length bytes) then get_or bytes (k - o) 0 else f k

-- `if (pos > inode->i_size)`.
abbrev pub grown : ℕ → MInode → MInode
grown size n = if ltb n.size size then record n { size = size; dirt = true } else n

-- The loop of `file_write` over the bytes that are left, and its position.
unfoldable pub write_from : ℕ → ℕ → List ℕ → ℕ → Call (List ℕ × ℕ)
unfolding put_bytes
write_from zero i bytes place = λ s. runs_on
write_from (suc fuel) i bytes place =
    let n : ℕ = chunk place (length bytes) in
    if length bytes == 0 then give (bytes, place) else (do
      b ← create_block i (place / block_size)
      if b == 0 then give (bytes, place) else (do
        s ← look
        let dev = (s.inode i).dev
        there ← bread dev b
        if not there then give (bytes, place) else (do
          write_block dev b (put_bytes (take n bytes) (place % block_size) (s.content dev b))
          edit i (grown (place + n))
          brelse dev b
          write_from fuel i (drop n bytes) (place + n))))

-- With O_APPEND the bytes go to the end, and the position of the file stays.
unfoldable pub file_write : ℕ → Bool → ℕ → List ℕ → Call (ℤ × ℕ)
unfolding write_from
file_write i append place bytes = do
  s ← look
  (rest, after) ← write_from (length bytes + 1) i bytes (if append then (s.inode i).size else place)
  t ← look
  edit i (λ n. record n { mtime = t.now })
  (if append then nothing_to_do else edit i (λ n. record n { ctime = t.now }))
  let written = length bytes - length rest
  give (if written == 0 then negsuc 0 else pos written, if append then place else after)

abbrev eio : ℕ
eio = 5

abbrev device_result : ℕ → ℤ
device_result n = if n == 0 then err eio else pos n

-- The loop of `block_read`: `breada` gives the first of the blocks that it reads.
unfoldable pub read_device : ℕ → ℕ → Progress → Call (Bool × Progress)
unfolding bytes_of
read_device zero dev p = λ s. runs_on
read_device (suc fuel) dev p =
    let b : ℕ = p.place / block_size in
    if p.left == 0 then give (true, p) else (do
      s ← look
      there ← bread dev b
      if not there then give (false, p) else (do
        brelse dev b
        read_device fuel dev
            (further (bytes_of (chunk p.place p.left) (p.place % block_size) (s.content dev b)) p)))

unfoldable pub block_read : ℕ → ℕ → ℕ → Call (ℤ × List ℕ × ℕ)
unfolding read_device
block_read dev place count = do
  (all, p) ← read_device (count + 1) dev (record { out = []; place = place; left = count })
  let read = count - p.left
  give (if all then pos read else device_result read, p.out, p.place)

-- A block that is written whole need not be read.
abbrev hold_block : Bool → ℕ → ℕ → Call Bool
hold_block whole dev b s =
    if whole
    then returns true (record s { users = update_at s.users dev b (s.users dev b + 1) })
    else bread dev b s

unfoldable pub write_device : ℕ → ℕ → List ℕ → ℕ → Call (Bool × List ℕ × ℕ)
unfolding put_bytes
write_device zero dev bytes place = λ s. runs_on
write_device (suc fuel) dev bytes place =
    let n : ℕ = chunk place (length bytes) in
    let b : ℕ = place / block_size in
    if length bytes == 0 then give (true, bytes, place) else (do
      there ← hold_block (n == block_size) dev b
      if not there then give (false, bytes, place) else (do
        s ← look
        write_block dev b (put_bytes (take n bytes) (place % block_size) (s.content dev b))
        brelse dev b
        write_device fuel dev (drop n bytes) (place + n)))

unfoldable pub block_write : ℕ → ℕ → List ℕ → Call (ℤ × ℕ)
unfolding write_device
block_write dev place bytes = do
  (all, rest, after) ← write_device (length bytes + 1) dev bytes place
  let written = length bytes - length rest
  give (if all then pos written else device_result written, after)

-- Devices 1 to 3, which have blocks.
abbrev is_seekable : ℕ → Bool
is_seekable major = leb 1 major && leb major 3

abbrev espipe : ℕ
espipe = 29

abbrev seek_to : ℤ → ℕ → ℤ × ℕ
seek_to (negsuc _) place = (err einval, place)
seek_to (pos p) place = (pos p, p)

-- `sys_lseek` on a file that is open on the inode, by its position; `none` is a descriptor that is not
-- open.
unfoldable pub sys_lseek : Option MInode → ℕ → ℤ → ℕ → ℤ × ℕ
sys_lseek none place offset origin = (err ebadf, place)
sys_lseek (some n) place offset origin =
    if not (is_seekable (n.dev / 256))
    then (err ebadf, place)
    else if n.pipe
    then (err espipe, place)
    else if origin == 0
    then seek_to offset place
    else if origin == 1
    then seek_to (pos place +ℤ offset) place
    else if origin == 2
    then seek_to (pos n.size +ℤ offset) place
    else (err einval, place)
