-- ===== src/Fs/Mounts/Tests.antt =====
-- Mounting on concrete inputs.
use linux_0_11_notes.Prelude.{
  Option, [], arith, get_or, if◌then◌else◌, none, refl, some, update, ℕ, ◌&&◌, ◌==◌, ◌∷◌, ◌≡◌, ◌⊎◌,
}
use linux_0_11_notes.Fs.Inode.Tests.{small_store, small_super}
use linux_0_11_notes.Fs.Mounts.{fill_super, read_super}
use linux_0_11_notes.Fs.Mounts.Device.{BadDevice, HasMaps, IsMounted, IsRefused, block_one}
use linux_0_11_notes.Fs.Mounts.Read.{fill_super-IsMounted}
use linux_0_11_notes.Fs.Store.{
  Run, Store, bread, brelse, nothing_to_do, panics, returns, runs_on, sleeps,
}
use linux_0_11_notes.Fs.Store.Words.{get_word}

-- Device 2 has one block for each map, 32 inodes and 100 zones from block 5 on.
abbrev disk_super : ℕ → ℕ
disk_super k =
    get_or (32 ∷ 0 ∷ 100 ∷ 0 ∷ 1 ∷ 0 ∷ 1 ∷ 0 ∷ 5 ∷ 0 ∷ 0 ∷ 0 ∷ 0 ∷ 0 ∷ 0 ∷ 0 ∷ 0x7f ∷ 0x13 ∷ []) k 0

abbrev two_devices : Store
two_devices = record small_store {
  super = update (λ _. record small_super { dev = 0 }) 0 small_super;
  content = λ d b. if d == 2 && b == 1 then disk_super else small_store.content d b;
}

two_devices-HasMaps : HasMaps (block_one two_devices 2)
unfolding get_word
two_devices-HasMaps = (omega arith, omega arith, omega arith, omega arith)

fill_super-IsMounted_example :
    ((q : Store) × (fill_super 2 1 two_devices ≡ returns (some 1) q) × IsMounted 2 1 two_devices q)
    ⊎ ((q : Store) × (fill_super 2 1 two_devices ≡ returns none q)
        × IsRefused 1 two_devices q
        × BadDevice 2 two_devices)
fill_super-IsMounted_example = fill_super-IsMounted 2 1 two_devices refl two_devices-HasMaps

slot_of : Run (Option ℕ) → Option ℕ
slot_of (returns k _) = k
slot_of panics = none
slot_of sleeps = none
slot_of runs_on = none

-- Device 2 gets slot 1.
second_slot : slot_of (read_super (λ _. nothing_to_do) 2 two_devices) ≡ some 1
unfolding slot_of read_super bread brelse get_word
second_slot = refl
