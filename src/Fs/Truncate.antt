-- ===== src/Fs/Truncate.antt =====
-- fs/truncate.c, and the tests of include/sys/stat.h.
use linux_0_11_notes.Prelude.{
  Bool, if◌then◌else◌, not, suc, true, update, zero, ℕ, ◌%◌, ◌+◌, ◌/◌, ◌==◌, ◌||◌,
}
use linux_0_11_notes.Fs.Store.{
  Call, MInode, bread, brelse, drop_block, edit, look, nothing_to_do, ◌>>=◌, ◌>>◌,
}
use linux_0_11_notes.Fs.Store.Words.{get_word}

abbrev pub kind : ℕ → ℕ
kind mode = mode / 4096 % 16

abbrev pub is_reg : ℕ → Bool
is_reg mode = kind mode == 8

abbrev pub is_blk : ℕ → Bool
is_blk mode = kind mode == 6

abbrev pub is_dir : ℕ → Bool
is_dir mode = kind mode == 4

abbrev pub is_chr : ℕ → Bool
is_chr mode = kind mode == 2

-- The loop over n words of a block from word i on.
unfoldable pub free_words : ℕ → ℕ → ℕ → ℕ → (ℕ → ℕ → Call (Unit {0})) → Call (Unit {0})
free_words zero i dev block free = nothing_to_do
free_words (suc n) i dev block free = do
  s ← look
  (if get_word i (s.content dev block) == 0
      then nothing_to_do
      else free dev (get_word i (s.content dev block)))
  free_words n (i + 1) dev block free

-- `free_ind` and `free_dind` differ in what frees a word of the block.
unfoldable pub free_list_of : (ℕ → ℕ → Call (Unit {0})) → ℕ → ℕ → Call (Unit {0})
unfolding free_words
free_list_of free dev block = if block == 0 then nothing_to_do else (do
  there ← bread dev block
  (if there then (do free_words 512 0 dev block free; brelse dev block) else nothing_to_do)
  drop_block dev block)

unfoldable pub free_ind : ℕ → ℕ → Call (Unit {0})
unfolding free_list_of
free_ind = free_list_of drop_block

unfoldable pub free_dind : ℕ → ℕ → Call (Unit {0})
unfolding free_list_of
free_dind = free_list_of free_ind

abbrev pub set_zone : ℕ → ℕ → MInode → MInode
set_zone z v i = record i { zone = update i.zone z v }

-- The loop over n direct zones from zone z on.
unfoldable pub free_direct : ℕ → ℕ → ℕ → Call (Unit {0})
free_direct zero z i = nothing_to_do
free_direct (suc n) z i = do
  s ← look
  (if (s.inode i).zone z == 0
      then nothing_to_do
      else (do drop_block (s.inode i).dev ((s.inode i).zone z); edit i (set_zone z 0)))
  free_direct n (z + 1) i

abbrev pub emptied : ℕ → MInode → MInode
emptied now i = record i {
  zone = update (update i.zone 7 0) 8 0;
  size = 0;
  dirt = true;
  mtime = now;
  ctime = now;
}

unfoldable pub truncate : ℕ → Call (Unit {0})
unfolding free_direct free_ind free_dind
truncate i = do
  s ← look
  if not (is_reg (s.inode i).mode || is_dir (s.inode i).mode) then nothing_to_do else (do
    free_direct 7 0 i
    t ← look
    free_ind (t.inode i).dev ((t.inode i).zone 7)
    free_dind (t.inode i).dev ((t.inode i).zone 8)
    edit i (emptied t.now))
