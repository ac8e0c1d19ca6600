-- ===== src/Fs/Names/Open.antt =====
-- `open_namei` of fs/namei.c, and `new_inode` as fs/namei.c uses it.
use Prim.Native.Nat.{bit_and, bit_or, bit_xor}
use linux_0_11_notes.Prelude.{
  Bool, List, Option, done, exited, if◌then◌else◌, length, none, not, panicked, some, true, ℕ, ◌%◌,
  ◌&&◌, ◌*◌, ◌+◌, ◌==◌, ◌||◌,
}
use linux_0_11_notes.Fs.Bitmap.Inodes.{Inode, new_inode}
use linux_0_11_notes.Fs.Inode.{get_empty_inode, iget, iput, map_view, put_maps, some_maps}
use linux_0_11_notes.Fs.Names.{Caller, Entry, add_entry, find_entry, may_write, permission}
use linux_0_11_notes.Fs.Names.Walk.{dir_namei, entry_number}
use linux_0_11_notes.Fs.Store.{
  Call, MInode, brelse, change, crash, edit, get_super, give, look, nothing_to_do, set_inode,
  write_block, ◌>>=◌, ◌>>◌,
}
use linux_0_11_notes.Fs.Store.Words.{set_word}
use linux_0_11_notes.Fs.Truncate.{is_dir, truncate}
use linux_0_11_notes.Kernel.Sys.{eperm}

abbrev pub enoent : ℕ
enoent = 2

abbrev pub eacces : ℕ
eacces = 13

abbrev pub eexist : ℕ
eexist = 17

abbrev pub eisdir : ℕ
eisdir = 21

abbrev pub enospc : ℕ
enospc = 28

abbrev has_flag : ℕ → ℕ → Bool
has_flag flags f = not (bit_and flags f == 0)

abbrev o_creat : ℕ
o_creat = 64

abbrev o_excl : ℕ
o_excl = 128

abbrev o_trunc : ℕ
o_trunc = 512

-- `O_ACCMODE`, of which 1 is O_WRONLY.
abbrev o_accmode : ℕ
o_accmode = 3

-- ACC_MODE: the bytes "\004\002\006\377", the last of which is -1.
abbrev pub acc_mode : ℕ → ℕ
acc_mode flags =
    let a : ℕ = bit_and flags o_accmode in
    if a == 0 then 4 else if a == 1 then 2 else if a == 2 then 6 else 0xffff_ffff

-- The bits of a mode below 01000 that `umask` leaves.
abbrev pub without_umask : ℕ → Caller → ℕ
without_umask mode me = bit_and (bit_and mode 511) (bit_xor 511 (bit_and 511 me.task.umask))

-- The fields that `new_inode` of fs/bitmap.c sets.
abbrev taken_inode : Inode → MInode → MInode
taken_inode v n = record n {
  dev = v.dev;
  num = v.num;
  count = v.count;
  nlinks = v.nlinks;
  uid = v.uid;
  gid = v.gid;
  dirt = v.dirt;
  mtime = v.times.0;
  atime = v.times.1;
  ctime = v.times.2;
}

unfoldable pub make_inode : ℕ → Caller → Call (Option ℕ)
unfolding get_empty_inode iput get_super
make_inode dev me = do
  i ← get_empty_inode
  k ← get_super dev
  s ← look
  elim (new_inode (some (map_view (s.inode i))) dev s.now (some_maps k s) me.task) [
    | done (none, back, m) ↦ (do (if back then iput i else nothing_to_do); give none)
    | done (some v, _, m) ↦ (do
      change (λ t. set_inode i (taken_inode v (t.inode i)) (put_maps k m t))
      give (some i))
    | panicked ↦ crash
    | exited ↦ crash
  ]

-- The number of the inode in the entry, whose block is given back.
unfoldable pub fill_entry : ℕ → Entry → ℕ → Call (Unit {0})
fill_entry dev e nr = do
  s ← look
  write_block dev e.block (set_word (8 * e.place) nr (s.content dev e.block))

abbrev pub less_link : MInode → MInode
less_link n = record n { nlinks = (n.nlinks + 255) % 256 }

-- An open gives the inode's slot, or the error.
pub data Opened : Type 0 where
  opened : ℕ → Opened
  refused : ℕ → Opened

-- To give a directory back and fail.
abbrev pub refuse : ℕ → ℕ → Call Opened
refuse dir e = do iput dir; give (refused e)

-- The file is created: no entry was found in the directory.
unfoldable pub open_new : Caller → ℕ → List ℕ → ℕ → Call Opened
unfolding make_inode add_entry fill_entry
open_new me dir base mode = do
  s ← look
  if not (permission me (s.inode dir) may_write) then refuse dir eacces else (do
    new ← make_inode (s.inode dir).dev me
    elim new [
      | none ↦ refuse dir enospc
      | some i ↦ (do
        edit i (λ n. record n { uid = me.task.euid; mode = mode; dirt = true })
        entry ← add_entry dir base
        elim entry [
          | none ↦ (do edit i less_link; iput i; refuse dir enospc)
          | some e ↦ (do
            t ← look
            fill_entry (t.inode dir).dev e (t.inode i).num
            brelse (t.inode dir).dev e.block
            iput dir
            give (opened i))
        ])
    ])

-- The file is there.
unfoldable pub open_old : Caller → ℕ → Entry → ℕ → Call Opened
unfolding entry_number iput iget truncate
open_old me dir e flag = do
  (nr, dev) ← entry_number dir e
  iput dir
  if has_flag flag o_excl then give (refused eexist) else (do
    i ← iget dev nr
    s ← look
    if (is_dir (s.inode i).mode && has_flag flag o_accmode)
          || not (permission me (s.inode i) (acc_mode flag))
        then refuse i eperm
        else (do
          edit i (λ n. record n { atime = s.now })
          (if has_flag flag o_trunc then truncate i else nothing_to_do)
          give (opened i)))

unfoldable pub open_namei : Caller → List ℕ → ℕ → ℕ → Call Opened
unfolding dir_namei find_entry open_new open_old
open_namei me path flag0 mode0 =
    let flag : ℕ =
      if has_flag flag0 o_trunc && not (has_flag flag0 o_accmode) then bit_or flag0 1 else flag0 in
    let mode : ℕ = bit_or (without_umask mode0 me) 0x8000 in
    do
      place ← dir_namei me path
      elim place [
        | none ↦ give (refused enoent)
        | some (dir0, base) ↦
            if length base == 0
            then if not (has_flag flag (3 + 64 + 512))
              then give (opened dir0)
              else refuse dir0 eisdir
            else (do
              (dir, entry) ← find_entry me dir0 base
              elim entry [
                | none ↦
                    if not (has_flag flag o_creat)
                    then refuse dir enoent
                    else open_new me dir base mode
                | some e ↦ open_old me dir e flag
              ])
      ]
