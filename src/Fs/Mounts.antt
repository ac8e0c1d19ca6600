-- ===== src/Fs/Mounts.antt =====
-- fs/super.c: the super blocks of devices, and mounting. Of struct super_block only what some code reads
-- is kept.
pub mod Table
pub mod Load
pub mod Fresh
pub mod Fill
pub mod Device
pub mod Read
pub mod Tests
use linux_0_11_notes.Prelude.{
  Bool, Option, false, if◌then◌else◌, leb, none, not, some, suc, true, update, zero, ℕ, ◌%◌, ◌*◌,
  ◌+◌, ◌/◌, ◌==◌,
}
use linux_0_11_notes.Fs.Bitmap.{MapBlock}
use linux_0_11_notes.Fs.Descriptors.{bit_of, bits_value}
use linux_0_11_notes.Fs.Store.{
  Call, SuperBlock, bread, brelse, change, crash, find_super, get_super, give, look, nothing_to_do,
  nr_super, returns, sleeps, update_at, ◌>>=◌, ◌>>◌,
}
use linux_0_11_notes.Fs.Store.Words.{get_word}

abbrev pub super_magic : ℕ
super_magic = 0x137f

-- I_MAP_SLOTS and Z_MAP_SLOTS.
abbrev pub map_places : ℕ
map_places = 8

abbrev pub edit_super : ℕ → (SuperBlock → SuperBlock) → Call (Unit {0})
edit_super k f = change (λ s. record s { super = update s.super k (f (s.super k)) })

-- A lock that is held is another task's, and the run ends with the wait.
unfoldable pub lock_super : ℕ → Call (Unit {0})
lock_super k s =
    if (s.super k).lock then sleeps else edit_super k (λ sb. record sb { lock = true }) s

abbrev pub free_super : ℕ → Call (Unit {0})
free_super k = edit_super k (λ sb. record sb { lock = false })

-- The slot is free again.
abbrev pub leave_super : ℕ → Call (Unit {0})
leave_super k = edit_super k (λ sb. record sb { dev = 0; lock = false })

-- The bits of a block, and a byte of them.
abbrev pub map_block : (ℕ → ℕ) → Bool → MapBlock
map_block f dirt = record { bit = λ k. bit_of (f (k / 8)) (k % 8); dirt = dirt }

abbrev pub map_byte : MapBlock → ℕ → ℕ
map_byte b k = bits_value 8 (λ j. b.bit (8 * k + j))

-- struct d_super_block, from the first byte of a block.
unfoldable pub read_numbers : (ℕ → ℕ) → SuperBlock → SuperBlock
read_numbers f sb = record sb {
  maps = record sb.maps {
    ninodes = get_word 0 f;
    nzones = get_word 1 f;
    firstdatazone = get_word 4 f;
  };
  imap_blocks = get_word 2 f;
  zmap_blocks = get_word 3 f;
}

abbrev pub magic_of : (ℕ → ℕ) → ℕ
magic_of f = get_word 8 f

-- The loops over the blocks of a map: n of them from slot i on, up to the first that cannot be read. The
-- value is the block that follows, and the map. A slot from 8 on is outside of the array, and stops the
-- run.
unfoldable pub load_map : ℕ → ℕ → ℕ → ℕ → (ℕ → Option MapBlock) → Call (ℕ × (ℕ → Option MapBlock))
unfolding bread
load_map zero i dev b m = give (b, m)
load_map (suc n) i dev b m = do
  there ← bread dev b
  if not there then give (b, m) else if leb map_places i then crash else (do
    s ← look
    load_map n (i + 1) dev (b + 1)
        (update m i (some (map_block (s.content dev b) (s.dirty dev b)))))

-- `brelse` of n slots of a map from slot i on, whose slot 0 is block b.
unfoldable pub give_map : ℕ → ℕ → ℕ → ℕ → (ℕ → Option MapBlock) → Call (Unit {0})
unfolding brelse
give_map zero i dev b m = nothing_to_do
give_map (suc n) i dev b m = elim (m i) [
  | none ↦ give_map n (i + 1) dev b m
  | some _ ↦ (do brelse dev (b + i); give_map n (i + 1) dev b m)
]

-- The same where the blocks are out of use: what was changed stands in their buffers.
unfoldable pub put_map : ℕ → ℕ → ℕ → ℕ → (ℕ → Option MapBlock) → Call (Unit {0})
unfolding brelse
put_map zero i dev b m = nothing_to_do
put_map (suc n) i dev b m = elim (m i) [
  | none ↦ put_map n (i + 1) dev b m
  | some w ↦ (do
    change (λ s. record s {
      content = update_at s.content dev (b + i) (map_byte w);
      dirty = update_at s.dirty dev (b + i) w.dirt;
    })
    brelse dev (b + i)
    put_map n (i + 1) dev b m)
]

-- Bit 0 of the first block is set; a block that is not there would be a null pointer.
abbrev pub with_first : (ℕ → Option MapBlock) → Option (ℕ → Option MapBlock)
with_first m = elim (m 0) [
  | none ↦ none
  | some w ↦ some (update m 0 (some (record w { bit = update w.bit 0 true })))
]

abbrev pub no_map : ℕ → Option MapBlock
no_map _ = none

-- The part of `read_super` from the numbers on.
unfoldable pub read_maps : ℕ → ℕ → Call (Option ℕ)
unfolding load_map give_map
read_maps dev k = do
  s ← look
  let sb = s.super k
  (b1, imap) ← load_map sb.imap_blocks 0 dev 2 no_map
  (b2, zmap) ← load_map sb.zmap_blocks 0 dev b1 no_map
  if not (b2 == 2 + sb.imap_blocks + sb.zmap_blocks)
      then (do
        give_map map_places 0 dev 2 imap
        give_map map_places 0 dev b1 zmap
        leave_super k
        give none)
      else elim (with_first imap) [
        | none ↦ crash
        | some im ↦ elim (with_first zmap) [
          | none ↦ crash
          | some zm ↦ (do
            edit_super k (λ t. record t { maps = record t.maps { imap = im; zmap = zm } })
            free_super k
            give (some k))
        ]
      ]

-- `read_super` on the free slot k.
unfoldable pub fill_super : ℕ → ℕ → Call (Option ℕ)
unfolding lock_super bread brelse read_numbers read_maps
fill_super dev k = do
  edit_super k (λ sb. record sb { dev = dev; isup = none; imount = none })
  lock_super k
  s ← look
  there ← bread dev 1
  if not there then (do leave_super k; give none) else (do
    edit_super k (read_numbers (s.content dev 1))
    brelse dev 1
    if not (magic_of (s.content dev 1) == super_magic)
        then (do leave_super k; give none)
        else read_maps dev k)

-- `check` is `check_disk_change`, which looks at the floppy drive.
unfoldable pub read_super : (ℕ → Call (Unit {0})) → ℕ → Call (Option ℕ)
unfolding get_super find_super fill_super
read_super check dev = if dev == 0 then give none else (do
  check dev
  found ← get_super dev
  elim found [
    | some k ↦ give (some k)
    | none ↦ λ s. elim (find_super nr_super 0 0 s.super) [
      | none ↦ returns none s
      | some k ↦ fill_super dev k s
    ]
  ])

-- The root device, and one that is mounted, stay.
unfoldable pub put_super : ℕ → ℕ → Call (Unit {0})
unfolding get_super lock_super put_map
put_super root dev = if dev == root then nothing_to_do else (do
  found ← get_super dev
  s ← look
  elim found [
    | none ↦ nothing_to_do
    | some k ↦ elim (s.super k).imount [
      | some _ ↦ nothing_to_do
      | none ↦ (do
        lock_super k
        edit_super k (λ sb. record sb { dev = 0 })
        put_map map_places 0 dev 2 (s.super k).maps.imap
        put_map map_places 0 dev (2 + (s.super k).imap_blocks) (s.super k).maps.zmap
        free_super k)
    ]
  ])
