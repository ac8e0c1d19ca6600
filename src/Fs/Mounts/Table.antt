-- ===== src/Fs/Mounts/Table.antt =====
-- `sys_mount`, `sys_umount` and `mount_root` of fs/super.c.
use linux_0_11_notes.Prelude.{
  Bool, List, Option, any_below, err, false, if◌then◌else◌, ltb, none, not, pos, some, suc, true,
  zero, ℕ, ℤ, ◌%◌, ◌&&◌, ◌+◌, ◌/◌, ◌==◌, ◌||◌,
}
use linux_0_11_notes.Fs.Bitmap.{MapBlock, Super, map_bits}
use linux_0_11_notes.Fs.Inode.{iget, iput, sync_dev}
use linux_0_11_notes.Fs.Mounts.{edit_super, put_super, read_super}
use linux_0_11_notes.Fs.Names.{Caller}
use linux_0_11_notes.Fs.Names.Open.{enoent}
use linux_0_11_notes.Fs.Names.Walk.{namei}
use linux_0_11_notes.Fs.Store.{
  Call, Store, change, crash, edit, get_super, give, look, nothing_to_do, nr_inode, nr_super, ◌>>=◌,
  ◌>>◌,
}
use linux_0_11_notes.Fs.Truncate.{is_blk, is_dir}
use linux_0_11_notes.Kernel.Sys.{eperm}
use linux_0_11_notes.Kernel.Task.{map_option}

abbrev pub ebusy : ℕ
ebusy = 16

abbrev enotblk : ℕ
enotblk = 15

abbrev pub root_number : ℕ
root_number = 1

-- `inode->i_dev == dev && inode->i_count` for some inode.
unfoldable pub is_busy : ℕ → Store → Bool
is_busy dev s = any_below nr_inode (λ i. (s.inode i).dev == dev && not ((s.inode i).count == 0))

abbrev pub iput_if : Option ℕ → Call (Unit {0})
iput_if none = nothing_to_do
iput_if (some i) = iput i

-- `sys_umount` from the test of the device on.
unfoldable pub umount_dev : ℕ → ℕ → Call ℤ
unfolding get_super is_busy iput put_super sync_dev
umount_dev root dev = if dev == root then give (err ebusy) else (do
  found ← get_super dev
  s ← look
  elim found [
    | none ↦ give (err enoent)
    | some k ↦ elim (s.super k).imount [
      | none ↦ give (err enoent)
      | some i ↦ if is_busy dev s then give (err ebusy) else (do
        edit i (λ n. record n { mount = false })
        iput i
        edit_super k (λ sb. record sb { imount = none })
        iput_if (s.super k).isup
        edit_super k (λ sb. record sb { isup = none })
        put_super root dev
        sync_dev dev
        give (pos 0))
    ]
  ])

unfoldable pub sys_umount : ℕ → Caller → List ℕ → Call ℤ
unfolding namei iput umount_dev
sys_umount root me dev_name = do
  found ← namei me dev_name
  elim found [
    | none ↦ give (err enoent)
    | some i ↦ (do
      s ← look
      iput i
      if not (is_blk (s.inode i).mode)
          then give (err enotblk)
          else umount_dev root ((s.inode i).zone 0))
  ]

-- `sys_mount` from the directory's tests on.
unfoldable pub mount_on : (ℕ → Call (Unit {0})) → ℕ → ℕ → Call ℤ
unfolding iput read_super
mount_on check dev dir = do
  s ← look
  let n = s.inode dir
  if not (n.count == 1) || n.num == root_number
      then (do iput dir; give (err ebusy))
      else if not (is_dir n.mode)
      then (do iput dir; give (err eperm))
      else (do
        sb ← read_super check dev
        t ← look
        elim sb [
          | none ↦ (do iput dir; give (err ebusy))
          | some k ↦ elim (t.super k).imount [
            | some _ ↦ (do iput dir; give (err ebusy))
            | none ↦ if (t.inode dir).mount then (do iput dir; give (err eperm)) else (do
              edit_super k (λ b. record b { imount = some dir })
              edit dir (λ m. record m { mount = true; dirt = true })
              give (pos 0))
          ]
        ])

unfoldable pub sys_mount : (ℕ → Call (Unit {0})) → Caller → List ℕ → List ℕ → Call ℤ
unfolding namei iput mount_on
sys_mount check me dev_name dir_name = do
  found ← namei me dev_name
  elim found [
    | none ↦ give (err enoent)
    | some i ↦ (do
      s ← look
      iput i
      if not (is_blk (s.inode i).mode) then give (err eperm) else (do
        there ← namei me dir_name
        elim there [
          | none ↦ give (err enoent)
          | some dir ↦ mount_on check ((s.inode i).zone 0) dir
        ]))
  ]

-- The bits below n of a map that are 0; `none` is a map block that is not there.
unfoldable pub free_bits : ℕ → (ℕ → Option MapBlock) → Option ℕ
free_bits zero m = some 0
free_bits (suc n) m =
    let rest = free_bits n m in
    elim (m (n / map_bits)) [
      | none ↦ none
      | some w ↦ map_option (λ f. if w.bit (n % map_bits) then f else f + 1) rest
    ]

-- What `mount_root` prints: the free blocks and the free inodes.
abbrev pub counts : Super → Option (ℕ × ℕ)
counts m = elim (free_bits m.nzones m.zmap) [
  | none ↦ none
  | some zones ↦ map_option (λ inodes. (zones, inodes)) (free_bits (m.ninodes + 1) m.imap)
]

-- The table of super blocks is emptied.
abbrev pub empty_supers : Call (Unit {0})
empty_supers = change (λ s. record s {
  super = λ k. if ltb k nr_super then record (s.super k) { dev = 0; lock = false } else s.super k;
})

-- The value is the inode of the root, which becomes root and directory of the current task, and what is
-- printed. The table of files, which is emptied too, is in Fs.Descriptors.
unfoldable pub mount_root : (ℕ → Call (Unit {0})) → ℕ → Call (ℕ × ℕ × ℕ)
unfolding read_super iget free_bits
mount_root check root = do
  empty_supers
  sb ← read_super check root
  elim sb [
    | none ↦ crash
    | some k ↦ (do
      i ← iget root root_number
      edit i (λ n. record n { count = (n.count + 3) % 65536 })
      edit_super k (λ b. record b { isup = some i; imount = some i })
      s ← look
      elim (counts (s.super k).maps) [
        | none ↦ crash
        | some (zones, inodes) ↦ give (i, zones, inodes)
      ])
  ]
