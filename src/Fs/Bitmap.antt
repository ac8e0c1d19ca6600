-- ===== src/Fs/Bitmap.antt =====
-- fs/bitmap.c: the maps of used blocks and inodes of a device.
pub mod Lowest
pub mod Blocks
pub mod Inodes
pub mod Tests
use linux_0_11_notes.Prelude.{
  Bits, Bool, List, Option, Outcome, done, false, if◌then◌else◌, leb, ltb, map, none, not, panicked,
  some, suc, true, update, zero, ℕ, ◌%◌, ◌*◌, ◌+◌, ◌-◌, ◌/◌, ◌==◌, ◌>>=◌, ◌>>◌, ◌||◌,
}
use linux_0_11_notes.Fs.Buffers.{
  Cache, Wait, find_buffer, getblk, has_block, set_head, use_buffer, waits,
}
use linux_0_11_notes.Kernel.Task.{map_option}

-- One block of a map: its 8192 bits, and `b_dirt` of its buffer.
pub record MapBlock : Type 0 where
  pub bit : Bits
  pub dirt : Bool

-- The super block as far as the maps go; a map block that is not there is `none`. The first data
-- zone is never 0, since the maps lie before it.
pub record Super : Type 0 where
  pub ninodes : ℕ
  pub nzones : ℕ
  pub firstdatazone : ℕ
  pub imap : ℕ → Option MapBlock
  pub zmap : ℕ → Option MapBlock

abbrev pub map_bits : ℕ
map_bits = 8192

-- find_first_zero on n bits from bit k on; 8192 if there is none, as k + n is always 8192.
unfoldable pub zero_from : ℕ → ℕ → Bits → ℕ
zero_from zero k w = k
zero_from (suc n) k w = let later = zero_from n (k + 1) w in if w k then later else k

abbrev pub find_first_zero : Bits → ℕ
find_first_zero w = zero_from map_bits 0 w

-- The loop over the 8 map blocks, from block i on: the block and the bit.
unfoldable pub find_bit : ℕ → ℕ → (ℕ → Option MapBlock) → Option (ℕ × ℕ)
find_bit zero i map = none
find_bit (suc n) i map =
    let later = find_bit n (i + 1) map in
    elim (map i) [
      | none ↦ later
      | some b ↦
          if ltb (find_first_zero b.bit) map_bits then some (i, find_first_zero b.bit) else later
    ]

-- `set_bit` or `clear_bit` in map block i, whose buffer is dirty then.
abbrev pub set_in : Bool → ℕ → MapBlock → MapBlock
set_in v j b = record { bit = update b.bit j v; dirt = true }

unfoldable pub put_bit : Bool → ℕ → ℕ → (ℕ → Option MapBlock) → ℕ → Option MapBlock
put_bit v i j map = update map i (map_option (set_in v j) (map i))

abbrev pub bit_at : ℕ → Option MapBlock → Bool
bit_at j none = false
bit_at j (some b) = b.bit j

abbrev pub get_bit : ℕ → ℕ → (ℕ → Option MapBlock) → Bool
get_bit i j map = bit_at j (map i)

-- The super block with the bit of the new block set, and the block's number; 0 is none. `none` is a
-- device without a super block. A number beyond the end of the device is refused after its bit is
-- set.
unfoldable pub take_block : Option Super → Outcome (ℕ × Super)
unfolding find_bit put_bit
take_block none = panicked
take_block (some sb) = elim (find_bit 8 0 sb.zmap) [
  | none ↦ done (0, sb)
  | some (i, j) ↦
      let nr : ℕ = j + i * map_bits + sb.firstdatazone - 1 in
      let sb' : Super = record sb { zmap = put_bit true i j sb.zmap } in
      if leb sb.nzones nr then done (0, sb') else done (nr, sb')
]

-- What `new_block` comes to: no block; the block, its buffer, which is cleared, up to date, dirty and
-- given back; or a wait in `getblk`.
pub data NewBlock : Type 0 where
  no_block : Super → NewBlock
  fresh_block : ℕ → ℕ → Super → Cache → NewBlock
  awaits : ℕ → Super → Wait → Cache → NewBlock

-- The part after `getblk`. The buffer is locked by nobody, so that `brelse` does not wait.
unfoldable pub clear_buffer : ℕ → Super → ℕ → Cache → Outcome NewBlock
clear_buffer nr sb k c =
    if not ((c.head k).count == 1)
    then panicked
    else done (
        fresh_block nr k sb
          (set_head k (record (c.head k) { uptodate = true; dirt = true; count = 0 }) c))

unfoldable pub new_block : List (Cache → Cache) → ℕ → Option Super → Cache → Outcome NewBlock
unfolding take_block clear_buffer
new_block turns dev osb c = do
  (nr, sb) ← take_block osb
  if nr == 0 then done (no_block sb) else elim (getblk turns dev nr c) [
    | has_block k c' ↦ clear_buffer nr sb k c'
    | waits w c' ↦ done (awaits nr sb w c')
  ]

-- The number of the bit of a block.
abbrev pub bit_nr : ℕ → Super → ℕ
bit_nr block sb = block - (sb.firstdatazone - 1)

-- `clear_bit` of `free_block`; a bit that is clear already is a panic. A map block that is not there
-- would be a null pointer, and stops the model too.
unfoldable pub clear_zone : ℕ → Super → Outcome Super
unfolding put_bit
clear_zone block sb =
    let nr : ℕ = bit_nr block sb in
    if get_bit (nr / map_bits) (nr % map_bits) sb.zmap
    then done (record sb { zmap = put_bit false (nr / map_bits) (nr % map_bits) sb.zmap })
    else panicked

-- `get_hash_table` finds the buffer, used once more, or none; `none` is its wait for the lock. A
-- buffer that is used elsewhere keeps the block from being freed, and stays used once more.
unfoldable pub free_block : ℕ → ℕ → Option Super → Cache → Outcome (Option (Super × Cache))
unfolding clear_zone
free_block dev block none c = panicked
free_block dev block (some sb) c =
    if ltb block sb.firstdatazone || leb sb.nzones block
    then panicked
    else elim (find_buffer dev block c) [
      | none ↦ (do sb' ← clear_zone block sb; done (some (sb', c)))
      | some k ↦
          if (c.head k).lock
          then done none
          else if not ((c.head k).count == 0)
          then done (some (sb, use_buffer k c))
          else (do
            sb' ← clear_zone block sb
            done (some (sb', set_head k (record (c.head k) { dirt = false; uptodate = false }) c)))
    ]
