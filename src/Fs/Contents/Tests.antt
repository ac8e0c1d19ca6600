-- ===== src/Fs/Contents/Tests.antt =====
-- Files on concrete inputs, in the file system of Fs.Inode.Tests.
use linux_0_11_notes.Prelude.{
  [], arith, err, false, if◌then◌else◌, negsuc, pos, refl, ℕ, ℤ, ◌+◌, ◌==◌, ◌∷◌, ◌≡◌, ◌≤◌, ◌⊎◌,
}
use linux_0_11_notes.Fs.Contents.{file_read, file_write, put_bytes}
use linux_0_11_notes.Fs.Contents.Reading.{Unreadable, file_byte, file_bytes, file_read-file_bytes}
use linux_0_11_notes.Fs.Inode.Blocks.{file_block}
use linux_0_11_notes.Fs.Inode.Bmap.{block_map, zone_of}
use linux_0_11_notes.Fs.Inode.Tests.{small_store}
use linux_0_11_notes.Fs.Store.{Run, bread, brelse, panics, returns, runs_on, set_inode, sleeps}

file_read-file_bytes_example :
    (n : ℕ) × (file_read 0 40 (pos 6) small_store
      ≡ returns
          (if n == 0 then negsuc 98 else pos n, file_bytes n small_store 0 40, 40 + n)
          (set_inode 0 (record (small_store.inode 0) { atime = small_store.now }) small_store))
    × (n ≤ 6)
    × ((n ≡ 6) ⊎ Unreadable small_store 0 (40 + n))
file_read-file_bytes_example = file_read-file_bytes small_store 0 40 6 (omega arith) (omega arith)

-- From the name of the second entry into the third one.
middle : file_bytes 6 small_store 0 30 ≡ 0 ∷ 0 ∷ 1 ∷ 0 ∷ b'a' ∷ 0 ∷ []
unfolding file_bytes file_byte file_block
middle = refl

-- A write over the end of the directory grows it.
value_of : Run (ℤ × ℕ) → ℤ
value_of (returns (v, _) _) = v
value_of panics = err 0
value_of sleeps = err 0
value_of runs_on = err 0

written : value_of (file_write 0 false 46 (1 ∷ 2 ∷ 3 ∷ []) small_store) ≡ pos 3
unfolding value_of file_write block_map zone_of bread brelse put_bytes
written = refl
