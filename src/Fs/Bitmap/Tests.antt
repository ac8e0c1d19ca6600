-- ===== src/Fs/Bitmap/Tests.antt =====
-- Inputs for the theorems on maps.
use linux_0_11_notes.Prelude.{arith, false, ltb, none, refl, some, true, update, ℕ, ◌<◌, ◌≡◌, ◌≤◌}
use linux_0_11_notes.Fs.Bitmap.{Super, get_bit, put_bit, take_block, zero_from}
use linux_0_11_notes.Fs.Bitmap.Blocks.{take_block_lem}
use linux_0_11_notes.Fs.Bitmap.Lowest.{IsLowest}

-- Bits 0 to 2 of the first block are set.
abbrev zones : Super
zones = record {
  ninodes = 100;
  nzones = 1000;
  firstdatazone = 20;
  imap = λ _. none;
  zmap = update (λ _. none) 0 (some (record { bit = λ k. ltb k 3; dirt = false }));
}

abbrev zones_after : Super
zones_after = record zones { zmap = put_bit true 0 3 zones.zmap }

take_block_lem_example :
    (20 ≤ 22)
    × (22 < 1000)
    × IsLowest 0 0 3 zones.zmap
    × (get_bit 0 3 zones_after.zmap ≡ true)
    × ((h k : ℕ) → ¬ ((h ≡ 0) × (k ≡ 3)) → get_bit h k zones_after.zmap ≡ get_bit h k zones.zmap)
unfolding take_block zero_from
take_block_lem_example =
    take_block_lem 22 zones zones_after (omega arith) refl refl (λ e. absurd (omega arith))
