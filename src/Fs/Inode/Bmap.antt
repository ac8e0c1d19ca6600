-- ===== src/Fs/Inode/Bmap.antt =====
-- `_bmap`, `bmap` and `create_block` of fs/inode.c: which block of the device is a block of a file. A
-- negative block, which is a panic, is no number here.
use linux_0_11_notes.Prelude.{
  Bool, false, if◌then◌else◌, leb, ltb, not, true, ℕ, ◌%◌, ◌&&◌, ◌-◌, ◌/◌, ◌==◌,
}
use linux_0_11_notes.Fs.Store.{
  Call, alloc_block, bread, brelse, edit, give, look, nothing_to_do, panics, write_block, ◌>>=◌,
  ◌>>◌,
}
use linux_0_11_notes.Fs.Store.Words.{get_word, set_word}
use linux_0_11_notes.Fs.Truncate.{set_zone}

-- A zone of the inode; if it has none and `create` is set, a new block, if there is one.
unfoldable pub zone_of : Bool → ℕ → ℕ → Call ℕ
zone_of create z i = do
  s ← look
  if create && (s.inode i).zone z == 0
      then (do
        nr ← alloc_block (s.inode i).dev
        t ← look
        (if nr == 0
            then nothing_to_do
            else edit i (λ n. record (set_zone z nr n) { dirt = true; ctime = t.now }))
        give nr)
      else give ((s.inode i).zone z)

-- Word k of a block of words, or a new block in its place; 0 if the block cannot be read.
unfoldable pub word_of : Bool → ℕ → ℕ → ℕ → Call ℕ
word_of create dev b k = do
  there ← bread dev b
  if not there then give 0 else (do
    s ← look
    nr ←
        (if create && get_word k (s.content dev b) == 0
          then alloc_block dev
          else give (get_word k (s.content dev b)))
    (if create && get_word k (s.content dev b) == 0 && not (nr == 0)
        then (λ t. write_block dev b (set_word k nr (t.content dev b)) t)
        else nothing_to_do)
    brelse dev b
    give nr)

abbrev pub through : ℕ → (ℕ → Call ℕ) → Call ℕ
through z f = if z == 0 then give 0 else f z

-- 7 + 512 + 512 * 512
abbrev pub max_block : ℕ
max_block = 262663

unfoldable pub block_map : Bool → ℕ → ℕ → Call ℕ
block_map create i block s =
    let dev : ℕ = (s.inode i).dev in
    if leb max_block block
    then panics
    else if ltb block 7
    then zone_of create block i s
    else if ltb (block - 7) 512
    then (do z ← zone_of create 7 i; through z (λ z. word_of create dev z (block - 7))) s
    else (do
      z ← zone_of create 8 i
      w ← through z (λ z. word_of create dev z ((block - 519) / 512))
      through w (λ w. word_of create dev w ((block - 519) % 512)))
        s

abbrev pub bmap : ℕ → ℕ → Call ℕ
bmap = block_map false

abbrev pub create_block : ℕ → ℕ → Call ℕ
create_block = block_map true
