-- ===== src/Mm.antt =====
-- mm/memory.c: physical memory, its page counts, and the allocation of pages.
pub mod Tables
pub mod Faults
pub mod Alloc
pub mod Unshare
pub mod Copy
pub mod Translate
pub mod Tests
use linux_0_11_notes.Prelude.{
  Bool, Option, Outcome, done, if◌then◌else◌, leb, ltb, map, none, panicked, some, suc, update,
  zero, ℕ, ◌%◌, ◌*◌, ◌+◌, ◌-◌, ◌/◌, ◌==◌, ◌^◌,
}

-- `word` gives the 32-bit word at each address that is a multiple of 4; page directory and page
-- tables are in it, the directory at address 0. `mem_map` counts the users of each page from
-- LOW_MEM on, in bytes.
pub record Memory : Type 0 where
  pub word : ℕ → ℕ
  pub mem_map : ℕ → ℕ
  pub high : ℕ

abbrev pub low_mem : ℕ
low_mem = 1048576

-- 15 MB of pages.
abbrev pub paging_pages : ℕ
paging_pages = 3840

abbrev pub page_size : ℕ
page_size = 4096

abbrev pub used : ℕ
used = 100

-- MAP_NR
abbrev pub map_nr : ℕ → ℕ
map_nr addr = (addr - low_mem) / page_size

-- `entry & 1`, `entry & 0xfffff000`, `entry | 7`, `entry & ~2`, `entry | 2`.
abbrev pub is_present : ℕ → Bool
is_present e = e % 2 == 1

abbrev pub frame_of : ℕ → ℕ
frame_of e = e / 4096 * 4096

abbrev pub or_7 : ℕ → ℕ
or_7 e = e / 8 * 8 + 7

abbrev pub read_only : ℕ → ℕ
read_only e = e - 2 * (e / 2 % 2)

abbrev pub writable : ℕ → ℕ
writable e = e + 2 * (1 - e / 2 % 2)

-- `x & 0xffc`.
abbrev pub and_ffc : ℕ → ℕ
and_ffc x = x % 4096 / 4 * 4

-- The bytes from `start` to `stop` become 0.
unfoldable pub clear_bytes : ℕ → ℕ → (ℕ → ℕ) → ℕ → ℕ
clear_bytes start stop w a =
    if leb stop a
    then w a
    else if leb start a
    then 0
    else if leb (a + 4) start
    then w a
    else w a % 256 ^ (start - a)

-- `repne scasb` downwards: the highest page below n that nobody uses.
unfoldable pub find_free : ℕ → (ℕ → ℕ) → Option ℕ
find_free zero map = none
find_free (suc n) map = if map n == 0 then some n else find_free n map

-- The address of the page, or 0.
unfoldable pub get_free_page : Memory → ℕ × Memory
unfolding find_free clear_bytes
get_free_page m = elim (find_free paging_pages m.mem_map) [
  | none ↦ (0, m)
  | some n ↦
      let page : ℕ = n * page_size + low_mem in
      (
        page,
        record m {
          word = clear_bytes page (page + page_size) m.word;
          mem_map = update m.mem_map n 1;
        },
      )
]

-- A page that nobody uses keeps its count at 0, and that is a panic.
unfoldable pub free_page : ℕ → Memory → Outcome Memory
free_page addr m =
    if ltb addr low_mem
    then done m
    else if leb m.high addr
    then panicked
    else if m.mem_map (map_nr addr) == 0
    then panicked
    else done (record m { mem_map = update m.mem_map (map_nr addr) (m.mem_map (map_nr addr) - 1) })

-- `while (end_mem-- > 0) mem_map[i++] = 0`, for n pages from page i on.
unfoldable pub mark_free : ℕ → ℕ → (ℕ → ℕ) → ℕ → ℕ
mark_free zero i map = map
mark_free (suc n) i map = mark_free n (i + 1) (update map i 0)

unfoldable pub mem_init : ℕ → ℕ → Memory → Memory
unfolding mark_free
mem_init start_mem end_mem m = record m {
  high = end_mem;
  mem_map =
      mark_free ((end_mem - start_mem) / page_size) (map_nr start_mem)
        (λ i. if ltb i paging_pages then used else m.mem_map i);
}

-- The first loop of `calc_mem`.
unfoldable pub count_free : ℕ → (ℕ → ℕ) → ℕ
count_free zero map = 0
count_free (suc n) map = count_free n map + (if map n == 0 then 1 else 0)
