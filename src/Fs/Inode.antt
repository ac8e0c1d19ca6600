-- ===== src/Fs/Inode.antt =====
-- fs/inode.c: the table of inodes. An inode is its slot.
pub mod Bmap
pub mod Disk
pub mod Blocks
pub mod Tests
use linux_0_11_notes.Prelude.{
  Bool, Option, done, exited, false, if◌then◌else◌, leb, ltb, none, not, panicked, some, suc, true,
  update, zero, ℕ, ◌%◌, ◌&&◌, ◌*◌, ◌+◌, ◌-◌, ◌/◌, ◌==◌, ◌||◌,
}
use linux_0_11_notes.Chr.Console.{times}
use linux_0_11_notes.Chr.Queue.{last}
use linux_0_11_notes.Fs.Bitmap.{Super}
use linux_0_11_notes.Fs.Bitmap.Inodes.{Inode, free_inode}
use linux_0_11_notes.Fs.Store.{
  Call, MInode, Store, SuperBlock, bread, brelse, change, crash, edit, get_super, give, look,
  nothing_to_do, nr_inode, nr_super, returns, runs_on, set_inode, set_maps, sleeps, write_block,
  ◌>>=◌, ◌>>◌,
}
use linux_0_11_notes.Fs.Store.Words.{from_disk, to_disk}
use linux_0_11_notes.Fs.Truncate.{is_blk, truncate}

-- `wait_on_inode`; a locked inode is another task's, and the run ends with the wait.
unfoldable pub wait_on_inode : ℕ → Call (Unit {0})
wait_on_inode i s = if (s.inode i).lock then sleeps else returns tt s

unfoldable pub lock_inode : ℕ → Call (Unit {0})
unfolding wait_on_inode
lock_inode i = do wait_on_inode i; edit i (λ n. record n { lock = true })

abbrev pub unlock_inode : ℕ → Call (Unit {0})
unlock_inode i = edit i (λ n. record n { lock = false })

-- The block of an inode, and its first byte there.
abbrev pub inode_block : SuperBlock → ℕ → ℕ
inode_block sb nr = 2 + sb.imap_blocks + sb.zmap_blocks + (nr - 1) / 32

abbrev pub inode_place : ℕ → ℕ
inode_place nr = (nr - 1) % 32 * 32

unfoldable pub read_inode : ℕ → Call (Unit {0})
unfolding lock_inode get_super
read_inode i = do
  lock_inode i
  s ← look
  let dev = (s.inode i).dev
  let nr = (s.inode i).num
  sb ← get_super dev
  elim sb [
    | none ↦ crash
    | some k ↦ (do
      let b = inode_block (s.super k) nr
      there ← bread dev b
      if there
          then (do
            edit i (from_disk (inode_place nr) (s.content dev b))
            brelse dev b
            unlock_inode i)
          else crash)
  ]

unfoldable pub write_inode : ℕ → Call (Unit {0})
unfolding lock_inode get_super
write_inode i = do
  lock_inode i
  s ← look
  let n = s.inode i
  if not n.dirt || n.dev == 0 then unlock_inode i else (do
    sb ← get_super n.dev
    elim sb [
      | none ↦ crash
      | some k ↦ (do
        let b = inode_block (s.super k) n.num
        there ← bread n.dev b
        if there
            then (do
              write_block n.dev b (to_disk (inode_place n.num) n (s.content n.dev b))
              edit i (λ m. record m { dirt = false })
              brelse n.dev b
              unlock_inode i)
            else crash)
    ])

-- The loops over n inodes from slot i on.
unfoldable pub sync_from : ℕ → ℕ → Call (Unit {0})
unfolding wait_on_inode write_inode
sync_from zero i = nothing_to_do
sync_from (suc n) i = do
  wait_on_inode i
  s ← look
  (if (s.inode i).dirt && not (s.inode i).pipe then write_inode i else nothing_to_do)
  sync_from n (i + 1)

abbrev pub sync_inodes : Call (Unit {0})
sync_inodes = sync_from nr_inode 0

unfoldable pub invalidate_from : ℕ → ℕ → ℕ → Call (Unit {0})
unfolding wait_on_inode
invalidate_from zero i dev = nothing_to_do
invalidate_from (suc n) i dev = do
  wait_on_inode i
  s ← look
  (if (s.inode i).dev == dev
      then edit i (λ m. record m { dev = 0; dirt = false })
      else nothing_to_do)
  invalidate_from n (i + 1) dev

abbrev pub invalidate_inodes : ℕ → Call (Unit {0})
invalidate_inodes dev = invalidate_from nr_inode 0 dev

-- `sync_dev` of fs/buffer.c: what is dirty of the device goes to the disk, before and after the inodes
-- are written to their blocks.
abbrev clean_blocks : ℕ → Call (Unit {0})
clean_blocks dev = change (λ s. record s { dirty = update s.dirty dev (λ _. false) })

unfoldable pub sync_dev : ℕ → Call (Unit {0})
unfolding sync_from
sync_dev dev = do clean_blocks dev; sync_inodes; clean_blocks dev

abbrev pub no_minode : MInode
no_minode = record {
  mode = 0;
  uid = 0;
  size = 0;
  mtime = 0;
  gid = 0;
  nlinks = 0;
  zone = λ _. 0;
  atime = 0;
  ctime = 0;
  dev = 0;
  num = 0;
  count = 0;
  lock = false;
  dirt = false;
  pipe = false;
  mount = false;
}

-- `free_inode` of fs/bitmap.c by what it reads of the inode.
abbrev pub map_view : MInode → Inode
map_view n = record {
  dev = n.dev;
  num = n.num;
  count = n.count;
  nlinks = n.nlinks;
  uid = n.uid;
  gid = n.gid;
  dirt = n.dirt;
  times = (n.mtime, n.atime, n.ctime);
}

abbrev pub some_maps : Option ℕ → Store → Option Super
some_maps none s = none
some_maps (some k) s = some (s.super k).maps

abbrev pub put_maps : Option ℕ → Option Super → Store → Store
put_maps (some k) (some m) s = set_maps k m s
put_maps _ _ s = s

unfoldable pub drop_inode : ℕ → Call (Unit {0})
unfolding get_super
drop_inode i = do
  s ← look
  k ← get_super (s.inode i).dev
  elim (free_inode (some (map_view (s.inode i))) (some_maps k s)) [
    | done (_, m) ↦ change (λ t. set_inode i no_minode (put_maps k m t))
    | panicked ↦ crash
    | exited ↦ crash
  ]

abbrev pub one_less : MInode → MInode
one_less n = record n { count = n.count - 1 }

-- From `repeat` on; it comes back once at most, since the inode is clean then.
unfoldable pub iput_last : ℕ → ℕ → Call (Unit {0})
unfolding truncate write_inode wait_on_inode drop_inode
iput_last zero i = λ s. runs_on
iput_last (suc fuel) i = do
  s ← look
  if ltb 1 (s.inode i).count
      then edit i one_less
      else if (s.inode i).nlinks == 0
      then (do truncate i; drop_inode i)
      else if (s.inode i).dirt
      then (do write_inode i; wait_on_inode i; iput_last fuel i)
      else edit i one_less

-- `free_page` of a pipe's page is in Mm.
unfoldable pub iput : ℕ → Call (Unit {0})
unfolding wait_on_inode sync_dev iput_last
iput i = do
  wait_on_inode i
  s ← look
  let n = s.inode i
  if n.count == 0
      then crash
      else if n.pipe
      then (if ltb 1 n.count
          then edit i one_less
          else edit i (λ m. record m { count = 0; dirt = false; pipe = false }))
      else if n.dev == 0
      then edit i one_less
      else (do
        (if is_blk n.mode then (do sync_dev (n.zone 0); wait_on_inode i) else nothing_to_do)
        iput_last 2 i)

-- The scan of `get_empty_inode`: n slots after `last`, and the last slot without users so far.
unfoldable pub scan_inodes : ℕ → ℕ → Option ℕ → (ℕ → MInode) → ℕ × Option ℕ
scan_inodes zero last best t = (last, best)
scan_inodes (suc n) last best t =
    let i : ℕ = if leb nr_inode (last + 1) then 0 else last + 1 in
    let skip = scan_inodes n i best t in
    let keep = scan_inodes n i (some i) t in
    if not ((t i).count == 0)
    then skip
    else if not (t i).dirt && not (t i).lock
    then (i, some i)
    else keep

-- `while (inode->i_dirt)`: a written inode is clean, but one without a device is never written.
unfoldable pub clean_inode : ℕ → ℕ → Call (Unit {0})
unfolding write_inode wait_on_inode
clean_inode zero i = λ s. runs_on
clean_inode (suc fuel) i = do
  s ← look
  if (s.inode i).dirt
      then (do write_inode i; wait_on_inode i; clean_inode fuel i)
      else nothing_to_do

-- Nobody takes the inode meanwhile: the outer loop has one turn.
unfoldable pub get_empty_inode : Call ℕ
unfolding scan_inodes wait_on_inode clean_inode
get_empty_inode = do
  s ← look
  let found = scan_inodes nr_inode s.last_inode none s.inode
  change (λ t. record t { last_inode = found.0 })
  elim found.1 [
    | none ↦ crash
    | some i ↦ (do
      wait_on_inode i
      clean_inode 2 i
      edit i (λ _. record no_minode { count = 1 })
      give i)
  ]

-- `page` is what `get_free_page` gives; its address is the size.
unfoldable pub get_pipe_inode : ℕ → Call (Option ℕ)
unfolding get_empty_inode
get_pipe_inode page = do
  i ← get_empty_inode
  if page == 0
      then (do edit i (λ n. record n { count = 0; size = 0 }); give none)
      else (do edit i (λ n. record n { size = page; count = 2; pipe = true }); give (some i))

-- The slot of an inode, from slot i on.
unfoldable pub find_inode : ℕ → ℕ → ℕ → ℕ → (ℕ → MInode) → Option ℕ
find_inode zero i dev nr t = none
find_inode (suc n) i dev nr t =
    let rest = find_inode n (i + 1) dev nr t in
    if (t i).dev == dev && (t i).num == nr then some i else rest

abbrev pub is_slot : ℕ → Option ℕ → Bool
is_slot i none = false
is_slot i (some j) = j == i

-- The super block that is mounted on an inode, from slot k on.
unfoldable pub find_mounted : ℕ → ℕ → ℕ → (ℕ → SuperBlock) → Option ℕ
find_mounted zero k i t = none
find_mounted (suc n) k i t =
    let rest = find_mounted n (k + 1) i t in if is_slot i (t k).imount then some k else rest

-- The loop of `iget`. Each turn but the last crosses a mount point.
unfoldable pub iget_loop : ℕ → ℕ → ℕ → ℕ → Call ℕ
unfolding find_inode find_mounted wait_on_inode iput read_inode
iget_loop zero empty dev nr = λ s. runs_on
iget_loop (suc fuel) empty dev nr = do
  s ← look
  elim (find_inode nr_inode 0 dev nr s.inode) [
    | none ↦ (do edit empty (λ n. record n { dev = dev; num = nr }); read_inode empty; give empty)
    | some i ↦ (do
      wait_on_inode i
      edit i (λ n. record n { count = (n.count + 1) % 65536 })
      if not (s.inode i).mount
          then (do iput empty; give i)
          else elim (find_mounted nr_super 0 i s.super) [
            | none ↦ (do iput empty; give i)
            | some k ↦ (do iput i; iget_loop fuel empty (s.super k).dev 1)
          ])
  ]

unfoldable pub iget : ℕ → ℕ → Call ℕ
unfolding get_empty_inode iget_loop
iget dev nr =
    if dev == 0 then crash else (do empty ← get_empty_inode; iget_loop (nr_super + 1) empty dev nr)
