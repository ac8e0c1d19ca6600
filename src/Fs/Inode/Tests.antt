-- ===== src/Fs/Inode/Tests.antt =====
-- A small file system on device 1, and the theorems on inodes there.
use linux_0_11_notes.Prelude.{
  [], arith, false, get_or, if◌then◌else◌, none, refl, some, true, update, ℕ, ◌==◌, ◌∷◌, ◌≡◌,
}
use linux_0_11_notes.Fs.Inode.{no_minode, read_inode, write_inode}
use linux_0_11_notes.Fs.Inode.Blocks.{bmap-file_block, file_block}
use linux_0_11_notes.Fs.Inode.Bmap.{bmap}
use linux_0_11_notes.Fs.Inode.Disk.{write-read}
use linux_0_11_notes.Fs.Store.{MInode, Store, SuperBlock, find_super, returns}
use linux_0_11_notes.Fs.Store.Layout.{IsStored, SameStored}

-- Block 5 is the directory: "." and ".." and "a", all of inode 1.
abbrev pub directory : ℕ → ℕ
directory k =
    get_or
      (1 ∷ 0 ∷ b'.' ∷ 0 ∷ 0 ∷ 0 ∷ 0 ∷ 0 ∷ 0 ∷ 0 ∷ 0 ∷ 0 ∷ 0 ∷ 0 ∷ 0 ∷ 0 ∷ 1 ∷ 0 ∷ b'.' ∷ b'.' ∷ 0
        ∷ 0 ∷ 0 ∷ 0 ∷ 0 ∷ 0 ∷ 0 ∷ 0 ∷ 0 ∷ 0 ∷ 0 ∷ 0 ∷ 1 ∷ 0 ∷ b'a' ∷ [])
      k 0

abbrev pub root_inode : MInode
root_inode = record no_minode {
  mode = 0x41ed;
  size = 48;
  nlinks = 2;
  zone = update (λ _. 0) 0 5;
  dev = 1;
  num = 1;
  count = 1;
  dirt = true;
}

abbrev pub small_super : SuperBlock
small_super = record {
  dev = 1;
  maps = record {
    ninodes = 32;
    nzones = 100;
    firstdatazone = 5;
    imap = λ _. none;
    zmap = λ _. none;
  };
  imap_blocks = 1;
  zmap_blocks = 1;
  lock = false;
  isup = some 0;
  imount = none;
}

-- Slot 1 has the device and the number of the root too, and waits to be read.
abbrev pub small_store : Store
small_store = record {
  inode =
      update (update (λ _. no_minode) 0 root_inode) 1
        (record no_minode { dev = 1; num = 1; count = 1 });
  last_inode = 0;
  super = λ _. small_super;
  content = λ d b. if b == 5 then directory else λ _. 0;
  users = λ _ _. 0;
  dirty = λ _ _. false;
  broken = λ _ _. false;
  now = 7;
}

bmap-file_block_example : bmap 0 0 small_store ≡ returns (file_block small_store 0 0) small_store
bmap-file_block_example = bmap-file_block small_store 0 0 (omega arith)

first_block : file_block small_store 0 0 ≡ 5
unfolding file_block
first_block = refl

root-IsStored : IsStored root_inode
root-IsStored = record {
  mode = omega arith;
  uid = omega arith;
  size = omega arith;
  mtime = omega arith;
  zone = λ z h. ground arith;
}

write-read_example :
    (w : Store) × (t : Store) × (write_inode 0 small_store ≡ returns tt w)
    × (read_inode 1 w ≡ returns tt t)
    × SameStored (small_store.inode 0) (t.inode 1)
unfolding find_super
write-read_example =
    write-read small_store 0 1 0 (omega arith) refl refl (omega arith) root-IsStored refl refl refl
      refl refl refl
