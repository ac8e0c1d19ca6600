-- ===== src/Fs/Names.antt =====
-- fs/namei.c: directories. A name is the list of its bytes, and a directory its slot in the table of
-- inodes. An entry of a directory is its place in its block.
pub mod Walk
pub mod Lookup
pub mod Paths
pub mod Holes
pub mod Tests
pub mod Open
pub mod Make
pub mod Remove
use Prim.Native.Nat.{bit_and}
use linux_0_11_notes.Prelude.{
  Bool, List, Option, [], false, get_or, if◌then◌else◌, leb, length, ltb, none, not, some, suc,
  take, true, zero, ℕ, ◌%◌, ◌&&◌, ◌*◌, ◌+◌, ◌-◌, ◌/◌, ◌==◌, ◌||◌, ◌∷◌,
}
use linux_0_11_notes.Fs.Inode.{iput, is_slot}
use linux_0_11_notes.Fs.Inode.Bmap.{block_map}
use linux_0_11_notes.Fs.Store.{
  Call, MInode, bread, brelse, change, crash, edit, get_super, give, look, nothing_to_do, runs_on,
  update_at, write_block, ◌>>=◌, ◌>>◌,
}
use linux_0_11_notes.Fs.Store.Words.{get_word, set_word}
use linux_0_11_notes.Kernel.Task.{Task}

-- What the calls read of `current`: the task, and the slots of its root and its directory.
pub record Caller : Type 0 where
  pub task : Task
  pub root : Option ℕ
  pub pwd : Option ℕ

abbrev pub is_super_user : Caller → Bool
is_super_user me = me.task.euid == 0

-- MAY_EXEC, MAY_WRITE and MAY_READ.
abbrev pub may_exec : ℕ
may_exec = 1

abbrev pub may_write : ℕ
may_write = 2

abbrev pub may_read : ℕ
may_read = 4

-- The three bits of the mode that count for the caller, and what stands above them.
abbrev pub mode_for : Caller → MInode → ℕ
mode_for me n =
    if me.task.euid == n.uid
    then n.mode / 64
    else if me.task.egid == n.gid
    then n.mode / 8
    else n.mode

unfoldable pub permission : Caller → MInode → ℕ → Bool
permission me n mask =
    if not (n.dev == 0) && n.nlinks == 0
    then false
    else bit_and (bit_and (mode_for me n) mask) 7 == mask || is_super_user me

abbrev pub name_len : ℕ
name_len = 14

abbrev pub entry_size : ℕ
entry_size = 16

abbrev pub entries_per_block : ℕ
entries_per_block = 64

-- The inode of entry j of a block, and byte k of its name.
abbrev pub entry_inode : ℕ → (ℕ → ℕ) → ℕ
entry_inode j f = get_word (8 * j) f

abbrev pub entry_name : ℕ → (ℕ → ℕ) → ℕ → ℕ
entry_name j f k = f (16 * j + 2 + k)

-- `repe cmpsb`: the bytes of a name against those of an entry from byte k on.
unfoldable pub same_bytes : List ℕ → ℕ → (ℕ → ℕ) → Bool
same_bytes [] k f = true
same_bytes (c ∷ cs) k f = c == f k && same_bytes cs (k + 1) f

-- `match`.
unfoldable pub matches : List ℕ → ℕ → (ℕ → ℕ) → Bool
unfolding same_bytes
matches name j f =
    if entry_inode j f == 0 || ltb name_len (length name)
    then false
    else if ltb (length name) name_len && not (entry_name j f (length name) == 0)
    then false
    else same_bytes name 0 (entry_name j f)

-- An entry: its block, and its place there. The block is in use while the entry is.
pub record Entry : Type 0 where
  pub block : ℕ
  pub place : ℕ

-- `brelse` of the last block, if there is one.
abbrev pub release_block : ℕ → Option ℕ → Call (Unit {0})
release_block dev none = nothing_to_do
release_block dev (some b) = brelse dev b

-- Where entry i of a directory is: at a place of a block, or its block is missing or unreadable.
pub data Loaded : Type 0 where
  at : ℕ → ℕ → Loaded
  missing : Loaded
  unreadable : Loaded

-- The block of entry i, with one user more.
unfoldable pub load_block : Bool → ℕ → ℕ → Call Loaded
unfolding block_map
load_block create dir i = do
  b ← block_map create dir (i / entries_per_block)
  s ← look
  if b == 0
      then give missing
      else (do there ← bread (s.inode dir).dev b; give (if there then at b 0 else unreadable))

-- With no block, or past its end, the next one is taken; the last one is given back.
unfoldable pub current_block : Bool → ℕ → ℕ → Option ℕ → ℕ → Call Loaded
unfolding load_block
current_block create dir i none j = load_block create dir i
current_block create dir i (some b) j =
    if ltb j entries_per_block
    then give (at b j)
    else (do s ← look; brelse (s.inode dir).dev b; load_block create dir i)

-- The loop of `find_entry` from entry i on. A block that is not there is passed over.
unfoldable pub search_from : ℕ → ℕ → List ℕ → ℕ → ℕ → Option ℕ → ℕ → Call (Option Entry)
unfolding current_block matches
search_from zero dir name entries i cur j = λ s. runs_on
search_from (suc fuel) dir name entries i cur j = do
  s ← look
  if leb entries i then (do release_block (s.inode dir).dev cur; give none) else (do
    l ← current_block false dir i cur j
    t ← look
    elim l [
      | at b k ↦
          if matches name k (t.content (t.inode dir).dev b)
          then give (some (record { block = b; place = k }))
          else search_from fuel dir name entries (i + 1) (some b) (k + 1)
      | missing ↦ search_from fuel dir name entries (i + entries_per_block) none j
      | unreadable ↦ search_from fuel dir name entries (i + entries_per_block) none j
    ])

abbrev pub dot_dot : List ℕ → Bool
dot_dot (a ∷ b ∷ []) = a == b'.' && b == b'.'
dot_dot _ = false

-- Which name is looked up where: ".." is "." in the root, and over a mount point it leads to the
-- directory that is covered. No super block there is a null pointer.
unfoldable pub cross_mount : Caller → ℕ → List ℕ → Call (ℕ × List ℕ)
unfolding iput get_super
cross_mount me dir name = do
  s ← look
  if not (dot_dot name)
      then give (dir, name)
      else if is_slot dir me.root
      then give (dir, b'.' ∷ [])
      else if not ((s.inode dir).num == 1)
      then give (dir, name)
      else (do
        sb ← get_super (s.inode dir).dev
        elim sb [
          | none ↦ crash
          | some k ↦ elim (s.super k).imount [
            | none ↦ give (dir, name)
            | some m ↦ (do
              iput dir
              edit m (λ n. record n { count = (n.count + 1) % 65536 })
              give (m, name))
          ]
        ])

-- The entry, if there is one, and the directory, which a mount point may have changed. How many entries
-- are looked at is read before that. Block 0 of the directory is its first zone.
unfoldable pub find_entry : Caller → ℕ → List ℕ → Call (ℕ × Option Entry)
unfolding cross_mount search_from
find_entry me dir0 name0 = do
  s ← look
  let entries = (s.inode dir0).size / entry_size
  let name = take name_len name0
  if length name == 0 then give (dir0, none) else (do
    (dir, wanted) ← cross_mount me dir0 name
    t ← look
    let dev = (t.inode dir).dev
    let block = (t.inode dir).zone 0
    if block == 0 then give (dir, none) else (do
      there ← bread dev block
      if not there then give (dir, none) else (do
        found ← search_from (entries + 1) dir wanted entries 0 (some block) 0
        give (dir, found))))

-- The bytes of an entry's name: 14, with zeros after the name.
unfoldable pub put_name : List ℕ → ℕ → (ℕ → ℕ) → ℕ → ℕ
put_name name j f k =
    if leb (16 * j + 2) k && ltb k (16 * j + 16) then get_or name (k - (16 * j + 2)) 0 else f k

-- The directory grows by entry i, which is free.
unfoldable pub extend : ℕ → ℕ → ℕ → ℕ → Call (Unit {0})
extend dir i b k = do
  s ← look
  let dev = (s.inode dir).dev
  if leb (s.inode dir).size (i * entry_size)
      then (do
        change (λ t. record t {
          content = update_at t.content dev b (set_word (8 * k) 0 (t.content dev b));
        })
        edit dir (λ n. record n { size = (i + 1) * entry_size; dirt = true; ctime = s.now }))
      else nothing_to_do

-- The loop of `add_entry` from entry i on: the first free entry, or one after the last.
unfoldable pub add_from : ℕ → ℕ → List ℕ → ℕ → Option ℕ → ℕ → Call (Option Entry)
unfolding current_block extend put_name
add_from zero dir name i cur j = λ s. runs_on
add_from (suc fuel) dir name i cur j = do
  l ← current_block true dir i cur j
  elim l [
    | at b k ↦ (do
      extend dir i b k
      s ← look
      let dev = (s.inode dir).dev
      if entry_inode k (s.content dev b) == 0
          then (do
            edit dir (λ n. record n { mtime = s.now })
            write_block dev b (put_name name k (s.content dev b))
            give (some (record { block = b; place = k })))
          else add_from fuel dir name (i + 1) (some b) (k + 1))
    | missing ↦ give none
    | unreadable ↦ add_from fuel dir name (i + entries_per_block) none j
  ]

-- The fuel is one turn for each entry, and two.
unfoldable pub add_entry : ℕ → List ℕ → Call (Option Entry)
unfolding add_from
add_entry dir name0 = do
  s ← look
  let dev = (s.inode dir).dev
  let block = (s.inode dir).zone 0
  let name = take name_len name0
  if length name == 0 || block == 0 then give none else (do
    there ← bread dev block
    if not there
        then give none
        else add_from ((s.inode dir).size / entry_size + 2) dir name 0 (some block) 0)
