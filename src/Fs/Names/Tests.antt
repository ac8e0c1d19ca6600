-- ===== src/Fs/Names/Tests.antt =====
-- The theorems on names, in the file system of Fs.Inode.Tests.
use linux_0_11_notes.Prelude.{List, [], arith, refl, some, suc, ℕ, ◌∷◌, ◌≡◌}
use linux_0_11_notes.Fs.Inode.Blocks.{file_block, held}
use linux_0_11_notes.Fs.Inode.Tests.{root_inode, small_store}
use linux_0_11_notes.Fs.Names.{Caller, matches, permission}
use linux_0_11_notes.Fs.Names.Holes.{empty_from_hole}
use linux_0_11_notes.Fs.Names.Lookup.{first_entry, located}
use linux_0_11_notes.Fs.Names.Paths.{IsBase, dir_namei-IsBase}
use linux_0_11_notes.Fs.Names.Remove.{empty_from}
use linux_0_11_notes.Fs.Names.Walk.{dir_namei, get_dir, split_name}
use linux_0_11_notes.Fs.Store.{Store, panics, returns, set_inode}
use linux_0_11_notes.Fs.Store.Words.{get_word}
use linux_0_11_notes.Kernel.Sched.Tests.{idle_task}

-- The super user in the root.
abbrev root_caller : Caller
root_caller = record { task = idle_task; root = some 0; pwd = some 0 }

-- It is the third entry.
third_entry : first_entry 3 small_store 0 (b'a' ∷ []) 0 ≡ some (record { block = 5; place = 2 })
unfolding first_entry located file_block matches get_word
third_entry = refl

abbrev held_root : Store
held_root = set_inode 0 (record root_inode { count = 2 }) small_store

dir_namei-IsBase_example :
    (base : List ℕ) × (dir_namei root_caller (b'/' ∷ b'a' ∷ []) small_store
      ≡ returns (some (0, base)) held_root)
    × IsBase (b'/' ∷ b'a' ∷ []) base
unfolding get_dir permission split_name
dir_namei-IsBase_example =
    dir_namei-IsBase root_caller (b'/' ∷ b'a' ∷ []) small_store held_root 0 refl

empty_from_hole_example : empty_from (suc (suc 0)) 0 70 64 5 64 (held 1 5 small_store) ≡ panics
unfolding file_block
empty_from_hole_example =
    empty_from_hole small_store 0 0 70 64 5 (omega arith) (omega arith) refl refl
