-- ===== src/Fs/Mounts/Device.antt =====
-- Devices that `read_super` of fs/super.c takes, and those that it refuses.
use linux_0_11_notes.Prelude.{ap, false, none, true, ℕ, ◌+◌, ◌<◌, ◌∙◌, ◌≡◌, ◌≢◌, ◌≤◌, ◌⊎◌}
use linux_0_11_notes.Fs.Mounts.{magic_of, map_places, super_magic}
use linux_0_11_notes.Fs.Mounts.Fresh.{edited_ne, edited_self, fresh_map, left_alone}
use linux_0_11_notes.Fs.Mounts.Load.{held_one}
use linux_0_11_notes.Fs.Store.{Store, SuperBlock}
use linux_0_11_notes.Fs.Store.Words.{get_word}

-- The first block of the device.
abbrev pub block_one : Store → ℕ → ℕ → ℕ
block_one s dev = s.content dev 1

-- Its maps have 1 to 8 blocks each.
abbrev pub HasMaps : (ℕ → ℕ) → Type 0
HasMaps f =
    (0 < get_word 2 f)
    × (get_word 2 f ≤ map_places)
    × (0 < get_word 3 f)
    × (get_word 3 f ≤ map_places)

-- The slot of the device has its numbers and both maps, whose blocks have one user more each; the other
-- slots, the blocks and the inodes are as before.
pub record IsMounted (device k : ℕ) (s q : Store) : Type 0 where
  pub dev : (q.super k).dev ≡ device
  pub lock : (q.super k).lock ≡ false
  pub magic : magic_of (block_one s device) ≡ super_magic
  pub isup : (q.super k).isup ≡ none
  pub imount : (q.super k).imount ≡ none
  pub ninodes : (q.super k).maps.ninodes ≡ get_word 0 (block_one s device)
  pub nzones : (q.super k).maps.nzones ≡ get_word 1 (block_one s device)
  pub firstdatazone : (q.super k).maps.firstdatazone ≡ get_word 4 (block_one s device)
  pub imap_blocks : (q.super k).imap_blocks ≡ get_word 2 (block_one s device)
  pub zmap_blocks : (q.super k).zmap_blocks ≡ get_word 3 (block_one s device)
  pub imap :
      (j : ℕ) → (q.super k).maps.imap j ≡ fresh_map s device 2 (get_word 2 (block_one s device)) j
  pub zmap :
      (j : ℕ)
      → (q.super k).maps.zmap j
        ≡ fresh_map s device
            (2 + get_word 2 (block_one s device))
            (get_word 3 (block_one s device))
            j
  pub others : (j : ℕ) → ¬ (j ≡ k) → q.super j ≡ s.super j
  pub users :
      (d c : ℕ)
      → q.users d c
        ≡ s.users d c
          + held_one device 2
              (get_word 2 (block_one s device) + get_word 3 (block_one s device))
              d
              c
  pub content : q.content ≡ s.content
  pub inode : q.inode ≡ s.inode

-- Why a device is refused: a block that cannot be read, or another magic number.
abbrev pub BadDevice : ℕ → Store → Type 0
BadDevice dev s =
    ((c : ℕ) × (0 < c)
      × (c < 2 + get_word 2 (block_one s dev) + get_word 3 (block_one s dev))
      × (s.broken dev c ≡ true))
    ⊎ (magic_of (block_one s dev) ≢ super_magic)

-- The slot is free, and nothing else has changed.
pub record IsRefused (k : ℕ) (s q : Store) : Type 0 where
  pub dev : (q.super k).dev ≡ 0
  pub lock : (q.super k).lock ≡ false
  pub others : (j : ℕ) → ¬ (j ≡ k) → q.super j ≡ s.super j
  pub users : q.users ≡ s.users
  pub content : q.content ≡ s.content
  pub inode : q.inode ≡ s.inode

pub left_alone-IsRefused :
    (k : ℕ) (s t : Store)
    → ((j : ℕ) → ¬ (j ≡ k) → t.super j ≡ s.super j)
    → t.users ≡ s.users
    → t.content ≡ s.content
    → t.inode ≡ s.inode
    → IsRefused k s (left_alone k t)
left_alone-IsRefused k s t h u c i =
    let slot = edited_self k (λ b. record b { dev = 0; lock = false }) t in
    record {
      dev = ap (λ (b : SuperBlock). b.dev) slot;
      lock = ap (λ (b : SuperBlock). b.lock) slot;
      others = λ j ne. edited_ne k j (λ b. record b { dev = 0; lock = false }) t ne ∙ h j ne;
      users = u;
      content = c;
      inode = i;
    }
