-- ===== src/Fs/Names/Remove.antt =====
-- `empty_dir`, `sys_rmdir` and `sys_unlink` of fs/namei.c.
use Prim.Native.Nat.{bit_and}
use linux_0_11_notes.Prelude.{
  Bool, List, [], err, false, if◌then◌else◌, leb, length, ltb, none, not, pos, some, suc, true,
  zero, ℕ, ℤ, ◌%◌, ◌&&◌, ◌*◌, ◌+◌, ◌-◌, ◌/◌, ◌==◌, ◌||◌, ◌∷◌,
}
use linux_0_11_notes.Fs.Inode.{iget, iput}
use linux_0_11_notes.Fs.Inode.Bmap.{bmap}
use linux_0_11_notes.Fs.Names.{
  Caller, Entry, entries_per_block, entry_inode, entry_name, entry_size, find_entry, is_super_user,
  may_write, permission, same_bytes,
}
use linux_0_11_notes.Fs.Names.Make.{fail}
use linux_0_11_notes.Fs.Names.Open.{enoent}
use linux_0_11_notes.Fs.Names.Walk.{dir_namei}
use linux_0_11_notes.Fs.Store.{
  Call, MInode, Store, bread, brelse, edit, give, look, runs_on, write_block, ◌>>=◌, ◌>>◌,
}
use linux_0_11_notes.Fs.Store.Words.{set_word}
use linux_0_11_notes.Fs.Truncate.{is_dir}
use linux_0_11_notes.Kernel.Sys.{eperm}

abbrev pub enotdir : ℕ
enotdir = 20

abbrev pub enotempty : ℕ
enotempty = 39

-- `strcmp` with the name of an entry, which has its zero here.
abbrev has_name : List ℕ → ℕ → (ℕ → ℕ) → Bool
has_name name j f = same_bytes name 0 (entry_name j f) && entry_name j f (length name) == 0

-- The loop of `empty_dir` from entry nr on, at place j of block b. A block that is missing is passed
-- over with the last one given back already, and given back once more at the next turn.
unfoldable pub empty_from : ℕ → ℕ → ℕ → ℕ → ℕ → ℕ → Call Bool
unfolding bread brelse
empty_from zero i len nr b j = λ s. runs_on
empty_from (suc fuel) i len nr b j = do
  s ← look
  let dev = (s.inode i).dev
  let test = λ (b : ℕ) (j : ℕ) (t : Store).
      (if entry_inode j (t.content dev b) == 0
          then empty_from fuel i len (nr + 1) b (j + 1)
          else (do brelse dev b; give false))
        t
  if leb len nr
      then (do brelse dev b; give true)
      else if ltb j entries_per_block
      then test b j
      else (do
        brelse dev b
        next ← bmap i (nr / entries_per_block)
        if next == 0
            then empty_from fuel i len (nr + entries_per_block) b j
            else (do there ← bread dev next; if there then test next 0 else give false))

-- A directory that is damaged is not empty, and its first block stays in use.
unfoldable pub empty_dir : ℕ → Call Bool
unfolding empty_from
empty_dir i = do
  s ← look
  let n = s.inode i
  let len = n.size / entry_size
  if ltb len 2 || n.zone 0 == 0 then give false else (do
    there ← bread n.dev (n.zone 0)
    if not there then give false else (do
      let f = s.content n.dev (n.zone 0)
      if not (entry_inode 0 f == n.num)
            || entry_inode 1 f == 0
            || not (has_name (b'.' ∷ []) 0 f)
            || not (has_name (b'.' ∷ b'.' ∷ []) 1 f)
          then give false
          else empty_from (len + 1) i len 2 (n.zone 0) 2))

-- The directory and the entry of a name that is to go.
unfoldable pub old_place : Caller → List ℕ → (ℕ → Entry → Call ℤ) → Call ℤ
unfolding dir_namei permission find_entry iput
old_place me path remove = do
  place ← dir_namei me path
  elim place [
    | none ↦ give (err enoent)
    | some (dir0, base) ↦ if length base == 0 then fail dir0 enoent else (do
      s ← look
      if not (permission me (s.inode dir0) may_write) then fail dir0 eperm else (do
        (dir, entry) ← find_entry me dir0 base
        elim entry [ none ↦ fail dir enoent | some e ↦ remove dir e ]))
  ]

-- S_ISVTX
abbrev is_sticky : ℕ → Bool
is_sticky mode = not (bit_and mode 512 == 0)

-- Two inodes and a block go back, and the call fails.
abbrev fail_all : ℕ → ℕ → ℕ → ℕ → ℕ → Call ℤ
fail_all i j dev b e = do iput i; iput j; brelse dev b; give (err e)

-- The entry is free, and its block given back.
abbrev clear_entry : ℕ → Entry → Call (Unit {0})
clear_entry dev e = do
  s ← look
  write_block dev e.block (set_word (8 * e.place) 0 (s.content dev e.block))
  brelse dev e.block

abbrev gone_dir : MInode → MInode
gone_dir n = record n { nlinks = 0; dirt = true }

abbrev less_dir : ℕ → MInode → MInode
less_dir now n = record n { nlinks = (n.nlinks + 255) % 256; ctime = now; mtime = now; dirt = true }

unfoldable pub remove_dir : Caller → ℕ → Entry → Call ℤ
unfolding iget empty_dir iput
remove_dir me dir e = do
  s ← look
  let dev = (s.inode dir).dev
  i ← iget dev (entry_inode e.place (s.content dev e.block))
  t ← look
  let d = t.inode dir
  let n = t.inode i
  if is_sticky d.mode && not (me.task.euid == 0) && not (n.uid == me.task.euid)
      then fail_all dir i dev e.block eperm
      else if not (n.dev == d.dev) || ltb 1 n.count
      then fail_all dir i dev e.block eperm
      else if i == dir
      then fail_all i dir dev e.block eperm
      else if not (is_dir n.mode)
      then fail_all i dir dev e.block enotdir
      else (do
        empty ← empty_dir i
        if not empty then fail_all i dir dev e.block enotempty else (do
          clear_entry dev e
          edit i gone_dir
          edit dir (less_dir t.now)
          iput dir
          iput i
          give (pos 0)))

unfoldable pub sys_rmdir : Caller → List ℕ → Call ℤ
unfolding old_place remove_dir
sys_rmdir me path = if is_super_user me then old_place me path (remove_dir me) else give (err eperm)

-- A file without links is said to have one before it loses it.
abbrev unlinked : ℕ → MInode → MInode
unlinked now n = record n {
  nlinks = (if n.nlinks == 0 then 0 else n.nlinks - 1);
  dirt = true;
  ctime = now;
}

unfoldable pub remove_file : Caller → ℕ → Entry → Call ℤ
unfolding iget iput
remove_file me dir e = do
  s ← look
  let dev = (s.inode dir).dev
  i ← iget dev (entry_inode e.place (s.content dev e.block))
  t ← look
  let d = t.inode dir
  let n = t.inode i
  if is_sticky d.mode
        && not (is_super_user me)
        && not (me.task.euid == n.uid)
        && not (me.task.euid == d.uid)
      then fail_all dir i dev e.block eperm
      else if is_dir n.mode
      then fail_all i dir dev e.block eperm
      else (do clear_entry dev e; edit i (unlinked t.now); iput i; iput dir; give (pos 0))

unfoldable pub sys_unlink : Caller → List ℕ → Call ℤ
unfolding old_place remove_file
sys_unlink me path = old_place me path (remove_file me)
