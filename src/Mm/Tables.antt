-- ===== src/Mm/Tables.antt =====
-- mm/memory.c: page tables, freed, copied and filled in.
use linux_0_11_notes.Prelude.{
  Bool, Outcome, done, false, if◌then◌else◌, ltb, not, panicked, suc, true, update, zero, ℕ, ◌%◌,
  ◌*◌, ◌+◌, ◌/◌, ◌==◌, ◌>>=◌, ◌^◌, ◌||◌,
}
use linux_0_11_notes.Mm.{
  Memory, and_ffc, frame_of, free_page, get_free_page, is_present, low_mem, map_nr, or_7, read_only,
}

-- The inner loop of `free_page_tables`: n entries from address `entry` on.
unfoldable pub free_entries : ℕ → ℕ → Memory → Outcome Memory
unfolding free_page
free_entries zero entry m = done m
free_entries (suc n) entry m = do
  m ← if is_present (m.word entry) then free_page (frame_of (m.word entry)) m else done m
  free_entries n (entry + 4) (record m { word = update m.word entry 0 })

-- The outer loop: n directory entries from address `dir` on.
unfoldable pub free_dirs : ℕ → ℕ → Memory → Outcome Memory
unfolding free_entries
free_dirs zero dir m = done m
free_dirs (suc n) dir m =
    if is_present (m.word dir)
    then (do
      m' ← free_entries 1024 (frame_of (m.word dir)) m
      m'' ← free_page (frame_of (m'.word dir)) m'
      free_dirs n (dir + 4) (record m'' { word = update m''.word dir 0 }))
    else free_dirs n (dir + 4) m

-- The blocks of 4 MB that cover `size` bytes; the sum is of unsigned longs.
abbrev pub blocks : ℕ → ℕ
blocks size = (size + 0x3f_ffff) % 2 ^ 32 / 2 ^ 22

abbrev pub dir_of : ℕ → ℕ
dir_of address = and_ffc (address / 2 ^ 20)

unfoldable pub free_page_tables : ℕ → ℕ → Memory → Outcome Memory
unfolding free_dirs
free_page_tables from size m =
    if not (from % 2 ^ 22 == 0)
    then panicked
    else if from == 0
    then panicked
    else free_dirs (blocks size) (dir_of from) m

-- One turn of the inner loop of `copy_page_tables`. A page above LOW_MEM is shared: read-only in
-- both tables, with one user more, in a byte.
unfoldable pub copy_entry : ℕ → ℕ → Memory → Memory
copy_entry from to m =
    let this_page : ℕ = read_only (m.word from) in
    let w : ℕ → ℕ = update m.word to this_page in
    let nr : ℕ = map_nr this_page in
    if is_present (m.word from)
    then if ltb low_mem this_page
      then record m {
        word = update w from this_page;
        mem_map = update m.mem_map nr ((m.mem_map nr + 1) % 256);
      }
      else record m { word = w }
    else m

unfoldable pub copy_entries : ℕ → ℕ → ℕ → Memory → Memory
unfolding copy_entry
copy_entries zero from to m = m
copy_entries (suc n) from to m = copy_entries n (from + 4) (to + 4) (copy_entry from to m)

-- The outer loop; `true` means that memory ran out. `nr` is the number of entries to copy of each
-- table.
unfoldable pub copy_dirs : ℕ → ℕ → ℕ → ℕ → Memory → Outcome (Bool × Memory)
unfolding copy_entries get_free_page
copy_dirs zero nr from_dir to_dir m = done (false, m)
copy_dirs (suc n) nr from_dir to_dir m =
    if is_present (m.word to_dir)
    then panicked
    else if not (is_present (m.word from_dir))
    then copy_dirs n nr (from_dir + 4) (to_dir + 4) m
    else let (page, m') = get_free_page m in
      if page == 0
      then done (true, m')
      else copy_dirs n nr (from_dir + 4) (to_dir + 4) (
          copy_entries nr (frame_of (m.word from_dir)) page
            (record m' { word = update m'.word to_dir (or_7 page) }))

-- Kernel space, at `from` 0, is copied only up to 640 KB.
unfoldable pub copy_page_tables : ℕ → ℕ → ℕ → Memory → Outcome (Bool × Memory)
unfolding copy_dirs
copy_page_tables from to size m =
    if not (from % 2 ^ 22 == 0) || not (to % 2 ^ 22 == 0)
    then panicked
    else copy_dirs (blocks size) (if from == 0 then 160 else 1024) (dir_of from) (dir_of to) m

abbrev pub slot_of : ℕ → ℕ
slot_of address = address / 4096 % 1024 * 4

-- The messages about a page that looks wrong are left out: `put_page` goes on after them.
unfoldable pub put_page : ℕ → ℕ → Memory → ℕ × Memory
unfolding get_free_page
put_page page address m =
    let dir : ℕ = dir_of address in
    let (tmp, m') = get_free_page m in
    if is_present (m.word dir)
    then (
      page,
      record m { word = update m.word (frame_of (m.word dir) + slot_of address) (or_7 page) },
    )
    else if tmp == 0
    then (0, m')
    else (
      page,
      record m' {
        word = update (update m'.word dir (or_7 tmp)) (tmp + slot_of address) (or_7 page);
      },
    )
