-- ===== src/Mm/Tests.antt =====
-- Inputs for the theorems on memory.
use linux_0_11_notes.Prelude.{
  arith, done, exited, false, if◌then◌else◌, inl, inr, refl, some, update, ℕ, ◌<◌, ◌==◌, ◌≡◌, ◌≢◌,
  ◌⊎◌,
}
use linux_0_11_notes.Mm.{Memory, frame_of, free_page, get_free_page, is_present, paging_pages}
use linux_0_11_notes.Mm.Alloc.{free-get}
use linux_0_11_notes.Mm.Copy.{copy_entries_lem, sharers}
use linux_0_11_notes.Mm.Faults.{un_wp_page}
use linux_0_11_notes.Mm.Tables.{copy_entries, dir_of, put_page}
use linux_0_11_notes.Mm.Translate.{put_page-translate, translate}
use linux_0_11_notes.Mm.Unshare.{HasToBeCopied, IsPrivate, un_wp_page-IsPrivate}

-- 16 MB with one page table at 0x1000 that maps the page at 1 MB, which two entries share.
abbrev words : ℕ → ℕ
words = update (update (update (λ _. 0) 0 0x1007) 0x1000 0x100005) 0x1004 0x100005

abbrev pub memory : Memory
memory = record { word = words; mem_map = λ i. if i == 0 then 2 else 0; high = 0x100_0000 }

un_wp_page-IsPrivate_example :
    ((m' : Memory) × (un_wp_page 0x1000 memory ≡ done m') × IsPrivate memory m' 0x1000)
    ⊎ ((un_wp_page 0x1000 memory ≡ exited)
        × HasToBeCopied memory (frame_of (memory.word 0x1000))
        × ((j : ℕ) → j < paging_pages → memory.mem_map j ≢ 0))
un_wp_page-IsPrivate_example =
    un_wp_page-IsPrivate 0x1000 memory refl (inl (omega arith)) (inr (ground arith))
      (inl (omega arith))

copy_entries_lem_example :
    let m' = copy_entries 2 0x1000 0x2000 memory in
    (m'.word 0x2004 ≡ 0x100005) × (m'.word 0x1004 ≡ 0x100005) × (m'.mem_map 0 ≡ 4)
unfolding sharers
copy_entries_lem_example =
    copy_entries_lem 2 1 0x1000 0x2000 0 memory (inl (omega arith)) (omega arith) (omega arith)

free-get_example :
    (m' : Memory) × (free_page (get_free_page memory).0 (get_free_page memory).1 ≡ done m')
    × (m'.mem_map ≡ memory.mem_map)
unfolding get_free_page
free-get_example = free-get memory (omega arith) (omega arith)

put_page-translate_example :
    ((m' : Memory) × (put_page 0x200000 0x5000 memory ≡ (0x200000, m'))
      × (translate m'.word 0x5000 ≡ some 0x200000))
    ⊎ ((put_page 0x200000 0x5000 memory ≡ (0, memory))
        × (is_present (memory.word (dir_of 0x5000)) ≡ false)
        × ((j : ℕ) → j < paging_pages → memory.mem_map j ≢ 0))
put_page-translate_example = put_page-translate 0x200000 0x5000 memory refl (λ e. omega arith)
