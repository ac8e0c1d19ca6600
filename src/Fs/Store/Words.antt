-- ===== src/Fs/Store/Words.antt =====
-- Words and bytes of a block, and struct d_inode of include/linux/fs.h as the 32 bytes that it has on
-- the disk.
use linux_0_11_notes.Prelude.{
  arith, if◌then◌else◌, leb, ltb, update, ℕ, ◌%◌, ◌&&◌, ◌*◌, ◌+◌, ◌-◌, ◌/◌, ◌<◌, ◌==◌, ◌^◌, ◌≡◌,
}
use linux_0_11_notes.Fs.Store.{MInode}

abbrev pub byte : ℕ → ℕ → ℕ
byte n k = n / 256 ^ k % 256

-- `((unsigned short *) b_data)[i]`.
unfoldable pub get_word : ℕ → (ℕ → ℕ) → ℕ
get_word i f = f (2 * i) + 256 * f (2 * i + 1)

unfoldable pub set_word : ℕ → ℕ → (ℕ → ℕ) → ℕ → ℕ
set_word i v f = update (update f (2 * i) (v % 256)) (2 * i + 1) (v / 256 % 256)

get_word-set_self : (i v : ℕ) (f : ℕ → ℕ) → v < 65536 → get_word i (set_word i v f) ≡ v
unfolding get_word set_word
get_word-set_self i v f h = ground arith

get_word-set_ne : (i j v : ℕ) (f : ℕ → ℕ) → ¬ (j ≡ i) → get_word j (set_word i v f) ≡ get_word j f
unfolding get_word set_word
get_word-set_ne i j v f h = ground arith

-- Four bytes from place k on.
abbrev pub long_at : ℕ → (ℕ → ℕ) → ℕ
long_at k f = f k + 256 * f (k + 1) + 65536 * f (k + 2) + 16777216 * f (k + 3)

-- Byte k of struct d_inode.
unfoldable pub disk_byte : MInode → ℕ → ℕ
disk_byte i k =
    if ltb k 2
    then byte i.mode k
    else if ltb k 4
    then byte i.uid (k - 2)
    else if ltb k 8
    then byte i.size (k - 4)
    else if ltb k 12
    then byte i.mtime (k - 8)
    else if k == 12
    then i.gid
    else if k == 13
    then i.nlinks
    else byte (i.zone ((k - 14) / 2)) ((k - 14) % 2)

-- The inode with what stands in a block from byte k on.
unfoldable pub from_disk : ℕ → (ℕ → ℕ) → MInode → MInode
from_disk k f i = record i {
  mode = f k + 256 * f (k + 1);
  uid = f (k + 2) + 256 * f (k + 3);
  size = long_at (k + 4) f;
  mtime = long_at (k + 8) f;
  gid = f (k + 12);
  nlinks = f (k + 13);
  zone = λ z. if ltb z 9 then f (k + 14 + 2 * z) + 256 * f (k + 15 + 2 * z) else i.zone z;
}

-- The block with the inode's 32 bytes from byte k on.
unfoldable pub to_disk : ℕ → MInode → (ℕ → ℕ) → ℕ → ℕ
unfolding disk_byte
to_disk k i f j = if leb k j && ltb j (k + 32) then disk_byte i (j - k) else f j
