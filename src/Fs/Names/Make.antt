-- ===== src/Fs/Names/Make.antt =====
-- `sys_mknod`, `sys_mkdir` and `sys_link` of fs/namei.c.
use Prim.Native.Nat.{bit_or}
use linux_0_11_notes.Prelude.{
  List, err, if◌then◌else◌, length, none, not, pos, some, true, update, ℕ, ℤ, ◌%◌, ◌+◌, ◌==◌, ◌||◌,
}
use linux_0_11_notes.Fs.Inode.{iput}
use linux_0_11_notes.Fs.Names.{Caller, add_entry, find_entry, is_super_user, may_write, permission}
use linux_0_11_notes.Fs.Names.Open.{
  eacces, eexist, enoent, enospc, fill_entry, less_link, make_inode, without_umask,
}
use linux_0_11_notes.Fs.Names.Walk.{dir_namei, namei}
use linux_0_11_notes.Fs.Store.{
  Call, MInode, alloc_block, bread, brelse, drop_block, edit, give, look, write_block, ◌>>=◌, ◌>>◌,
}
use linux_0_11_notes.Fs.Store.Words.{set_word}
use linux_0_11_notes.Fs.Truncate.{is_blk, is_chr, is_dir, set_zone}
use linux_0_11_notes.Kernel.Sys.{eperm}

abbrev pub exdev : ℕ
exdev = 18

-- To give an inode back and return an error.
abbrev pub fail : ℕ → ℕ → Call ℤ
fail i e = do iput i; give (err e)

abbrev pub fail_both : ℕ → ℕ → ℕ → Call ℤ
fail_both i j e = do iput i; iput j; give (err e)

-- The directory and the name for a new entry: it may be written, and has no such name yet. Otherwise
-- what becomes of the call.
unfoldable pub new_place : Caller → List ℕ → (ℕ → List ℕ → Call ℤ) → Call ℤ
unfolding dir_namei permission find_entry iput
new_place me path make = do
  place ← dir_namei me path
  elim place [
    | none ↦ give (err enoent)
    | some (dir0, base) ↦ if length base == 0 then fail dir0 enoent else (do
      s ← look
      if not (permission me (s.inode dir0) may_write) then fail dir0 eperm else (do
        (dir, entry) ← find_entry me dir0 base
        elim entry [
          | some e ↦ (do t ← look; brelse (t.inode dir).dev e.block; fail dir eexist)
          | none ↦ make dir base
        ]))
  ]

-- A mode of a device has its number as first zone.
abbrev with_device : ℕ → ℕ → ℕ → MInode → MInode
with_device mode dev now n = record n {
  mode = mode;
  zone = if is_blk mode || is_chr mode then update n.zone 0 dev else n.zone;
  mtime = now;
  atime = now;
  dirt = true;
}

unfoldable pub make_node : Caller → ℕ → ℕ → ℕ → List ℕ → Call ℤ
unfolding make_inode add_entry fill_entry iput
make_node me mode dev dir base = do
  s ← look
  new ← make_inode (s.inode dir).dev me
  elim new [
    | none ↦ fail dir enospc
    | some i ↦ (do
      edit i (with_device mode dev s.now)
      entry ← add_entry dir base
      t ← look
      elim entry [
        | none ↦ (do iput dir; edit i (λ n. record n { nlinks = 0 }); fail i enospc)
        | some e ↦ (do
          fill_entry (t.inode dir).dev e (t.inode i).num
          iput dir
          iput i
          brelse (t.inode dir).dev e.block
          give (pos 0))
      ])
  ]

unfoldable pub sys_mknod : Caller → List ℕ → ℕ → ℕ → Call ℤ
unfolding new_place make_node
sys_mknod me path mode dev =
    if is_super_user me then new_place me path (make_node me mode dev) else give (err eperm)

-- "." and ".." in a fresh block: `strcpy` writes the zeros, and the rest of the block is clear.
unfoldable pub dot_entries : ℕ → ℕ → (ℕ → ℕ) → ℕ → ℕ
dot_entries self parent f =
    let f1 : ℕ → ℕ = set_word 0 self f in
    let f2 : ℕ → ℕ = update (update f1 2 b'.') 3 0 in
    let f3 : ℕ → ℕ = set_word 8 parent f2 in update (update (update f3 18 b'.') 19 b'.') 20 0

-- The entry of the new directory in its parent, which has a link more.
unfoldable pub enter_dir : ℕ → ℕ → List ℕ → Call ℤ
unfolding add_entry fill_entry drop_block iput
enter_dir dir i base = do
  entry ← add_entry dir base
  s ← look
  elim entry [
    | none ↦ (do
      iput dir
      t ← look
      drop_block (t.inode i).dev ((t.inode i).zone 0)
      edit i (λ n. record n { nlinks = 0 })
      fail i enospc)
    | some e ↦ (do
      fill_entry (s.inode dir).dev e (s.inode i).num
      edit dir (λ n. record n { nlinks = (n.nlinks + 1) % 256; dirt = true })
      iput dir
      iput i
      brelse (s.inode dir).dev e.block
      give (pos 0))
  ]

abbrev block_error : ℕ
block_error = 99

unfoldable pub make_dir : Caller → ℕ → ℕ → List ℕ → Call ℤ
unfolding make_inode alloc_block drop_block bread dot_entries enter_dir iput
make_dir me mode dir base = do
  s ← look
  new ← make_inode (s.inode dir).dev me
  elim new [
    | none ↦ fail dir enospc
    | some i ↦ (do
      edit i (λ n. record n { size = 32; dirt = true; mtime = s.now; atime = s.now })
      t ← look
      let dev = (t.inode i).dev
      b ← alloc_block dev
      edit i (set_zone 0 b)
      if b == 0 then (do iput dir; edit i less_link; fail i enospc) else (do
        there ← bread dev b
        if not there
            then (do iput dir; drop_block dev b; edit i less_link; fail i block_error)
            else (do
              u ← look
              write_block dev b (dot_entries (u.inode i).num (u.inode dir).num (u.content dev b))
              edit i (λ n. record n { nlinks = 2 })
              brelse dev b
              edit i (λ n. record n { mode = bit_or 0x4000 (without_umask mode me); dirt = true })
              enter_dir dir i base)))
  ]

unfoldable pub sys_mkdir : Caller → List ℕ → ℕ → Call ℤ
unfolding new_place make_dir
sys_mkdir me path mode =
    if is_super_user me then new_place me path (make_dir me mode) else give (err eperm)

abbrev pub linked : ℕ → MInode → MInode
linked now n = record n { nlinks = (n.nlinks + 1) % 256; ctime = now; dirt = true }

unfoldable pub enter_link : ℕ → ℕ → List ℕ → Call ℤ
unfolding add_entry fill_entry iput
enter_link old dir base = do
  entry ← add_entry dir base
  s ← look
  elim entry [
    | none ↦ fail_both dir old enospc
    | some e ↦ (do
      fill_entry (s.inode dir).dev e (s.inode old).num
      brelse (s.inode dir).dev e.block
      iput dir
      edit old (linked s.now)
      iput old
      give (pos 0))
  ]

unfoldable pub link_in : Caller → ℕ → ℕ → List ℕ → Call ℤ
unfolding permission find_entry enter_link iput
link_in me old dir0 base = do
  s ← look
  if length base == 0
      then fail_both old dir0 eperm
      else if not ((s.inode dir0).dev == (s.inode old).dev)
      then fail_both dir0 old exdev
      else if not (permission me (s.inode dir0) may_write)
      then fail_both dir0 old eacces
      else (do
        (dir, entry) ← find_entry me dir0 base
        elim entry [
          | some e ↦ (do t ← look; brelse (t.inode dir).dev e.block; fail_both dir old eexist)
          | none ↦ enter_link old dir base
        ])

unfoldable pub sys_link : Caller → List ℕ → List ℕ → Call ℤ
unfolding namei dir_namei link_in iput
sys_link me oldname newname = do
  found ← namei me oldname
  elim found [
    | none ↦ give (err enoent)
    | some old ↦ (do
      s ← look
      if is_dir (s.inode old).mode then fail old eperm else (do
        place ← dir_namei me newname
        elim place [ none ↦ fail old eacces | some (dir, base) ↦ link_in me old dir base ]))
  ]
