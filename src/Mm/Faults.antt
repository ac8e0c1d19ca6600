-- ===== src/Mm/Faults.antt =====
-- mm/memory.c: page faults. A process is what the fault handler reads of a task.
use linux_0_11_notes.Prelude.{
  Bool, Option, Outcome, done, exited, false, if◌then◌else◌, leb, ltb, map, none, not, panicked,
  some, suc, true, update, zero, ℕ, ◌%◌, ◌&&◌, ◌+◌, ◌-◌, ◌/◌, ◌==◌, ◌>>=◌, ◌^◌, ◌||◌,
}
use linux_0_11_notes.Kernel.Sched.Tests.{table}
use linux_0_11_notes.Kernel.Task.{last_slot}
use linux_0_11_notes.Mm.{
  Memory, and_ffc, clear_bytes, frame_of, get_free_page, is_present, low_mem, map_nr, or_7,
  page_size, read_only, writable,
}
use linux_0_11_notes.Mm.Tables.{dir_of, put_page}

-- `copy_page`: 1024 words.
unfoldable pub copy_page : ℕ → ℕ → (ℕ → ℕ) → ℕ → ℕ
copy_page from to w a = if leb to a && ltb a (to + page_size) then w (from + (a - to)) else w a

-- `mem_map[nr]--` on a byte.
abbrev pub drop_user : (ℕ → ℕ) → ℕ → ℕ → ℕ
drop_user map nr = update map nr ((map nr + 255) % 256)

-- The page of a write-protected entry is shared with nobody: give it back its write bit. Else copy
-- it. `oom` ends the task.
unfoldable pub un_wp_page : ℕ → Memory → Outcome Memory
unfolding get_free_page copy_page
un_wp_page entry m =
    let old : ℕ = frame_of (m.word entry) in
    let new : ℕ = (get_free_page m).0 in
    let m' : Memory = (get_free_page m).1 in
    if leb low_mem old && m.mem_map (map_nr old) == 1
    then done (record m { word = update m.word entry (writable (m.word entry)) })
    else if new == 0
    then exited
    else done (record m' {
      mem_map = if leb low_mem old then drop_user m'.mem_map (map_nr old) else m'.mem_map;
      word = copy_page old new (update m'.word entry (or_7 new));
    })

-- The entry of an address, by the directory: `(address >> 10) & 0xffc` into the table.
abbrev pub entry_in : ℕ → ℕ → ℕ
entry_in table address = frame_of table + and_ffc (address / 2 ^ 10)

unfoldable pub do_wp_page : ℕ → Memory → Outcome Memory
unfolding un_wp_page
do_wp_page address m =
    un_wp_page (and_ffc (address / 2 ^ 10) + frame_of (m.word (dir_of address))) m

-- `(3 & entry) == 1`: present and not writable.
unfoldable pub write_verify : ℕ → Memory → Outcome Memory
unfolding un_wp_page
write_verify address m =
    let page : ℕ = m.word (dir_of address) in
    if not (is_present page)
    then done m
    else if m.word (entry_in page address) % 4 == 1
    then un_wp_page (entry_in page address) m
    else done m

-- `free_page(tmp)` comes before the end of the task; the memory that it leaves is not read here.
unfoldable pub get_empty_page : ℕ → Memory → Outcome Memory
unfolding get_free_page put_page
get_empty_page address m =
    let (tmp, m') = get_free_page m in
    let (put, m'') = put_page tmp address m' in
    if tmp == 0 then exited else if put == 0 then exited else done m''

pub record Proc : Type 0 where
  pub start_code : ℕ
  pub end_data : ℕ
  pub executable : Option ℕ

-- The directory entry of an offset in a process: `((address >> 20) & 0xffc) + ((start >> 20) & 0xffc)`.
abbrev pub dir_in : ℕ → Proc → ℕ
dir_in address p = dir_of address + dir_of p.start_code

-- The last part of `try_to_share`: `to_dir` is the directory entry of the current task, `from_entry`
-- the table entry of the other.
unfoldable pub share_at : ℕ → ℕ → ℕ → Memory → Outcome (Bool × Memory)
share_at address from_entry to_dir m =
    let to_entry : ℕ = entry_in (m.word to_dir) address in
    let e : ℕ = read_only (m.word from_entry) in
    let nr : ℕ = map_nr (frame_of (m.word from_entry)) in
    if is_present (m.word to_entry)
    then panicked
    else done (
      true,
      record m {
        word = update (update m.word from_entry e) to_entry e;
        mem_map = update m.mem_map nr ((m.mem_map nr + 1) % 256);
      },
    )

-- `phys_addr & 0x41`: present, and bit 6, the dirty bit, clear.
abbrev pub is_clean : ℕ → Bool
is_clean e = e % 2 == 1 && e / 64 % 2 == 0

unfoldable pub try_to_share : ℕ → Proc → Proc → Memory → Outcome (Bool × Memory)
unfolding share_at get_free_page
try_to_share address p current m =
    let from : ℕ = m.word (dir_in address p) in
    let from_entry : ℕ = entry_in from address in
    let phys : ℕ = frame_of (m.word from_entry) in
    let to_dir : ℕ = dir_in address current in
    let (page, m') = get_free_page m in
    if not (is_present from)
    then done (false, m)
    else if not (is_clean (m.word from_entry))
    then done (false, m)
    else if leb m.high phys || ltb phys low_mem
    then done (false, m)
    else if is_present (m.word to_dir)
    then share_at address from_entry to_dir m
    else if page == 0
    then exited
    else share_at address from_entry to_dir (record m' { word = update m'.word to_dir (or_7 page) })

-- The task table as the fault handler sees it; `users` is `i_count` of an inode.
pub record Procs : Type 0 where
  pub proc : ℕ → Option Proc
  pub current : ℕ
  pub users : ℕ → ℕ

abbrev pub same_executable : Option ℕ → Option ℕ → Bool
same_executable none none = true
same_executable none (some j) = false
same_executable (some i) none = false
same_executable (some i) (some j) = i == j

-- `for (p = &LAST_TASK; p > &FIRST_TASK; --p)`, from slot n down.
unfoldable pub share_slots : ℕ → ℕ → Procs → Proc → Memory → Outcome (Bool × Memory)
unfolding try_to_share
share_slots zero address ps current m = done (false, m)
share_slots (suc n) address ps current m =
    let next = λ (m : Memory). share_slots n address ps current m in
    elim (ps.proc (suc n)) [
      | none ↦ next m
      | some p ↦
          if suc n == ps.current
          then next m
          else if not (same_executable p.executable current.executable)
          then next m
          else (do
            (shared, m') ← try_to_share address p current m
            if shared then done (true, m') else next m')
    ]

unfoldable pub share_page : ℕ → Procs → Proc → Memory → Outcome (Bool × Memory)
unfolding share_slots
share_page address ps current m = elim current.executable [
  | none ↦ done (false, m)
  | some i ↦
      if ltb (ps.users i) 2 then done (false, m) else share_slots last_slot address ps current m
]

-- `load page block m` stands for the four calls of `bmap` from the block on and for `bread_page`,
-- which fills the page; they belong to the file system.
unfoldable pub do_no_page : (ℕ → ℕ → Memory → Memory) → ℕ → Procs → Proc → Memory → Outcome Memory
unfolding get_empty_page share_page get_free_page clear_bytes put_page
do_no_page load address ps current m =
    let a : ℕ = frame_of address in
    let tmp : ℕ = (a + 2 ^ 32 - current.start_code) % 2 ^ 32 in
    let blank : Bool = elim current.executable [
      | none ↦ true
      | some _ ↦ leb current.end_data tmp
    ] in
    if blank then get_empty_page a m else (do
      (shared, m1) ← share_page tmp ps current m
      let (page, m2) = get_free_page m1
      let m3 = load page (1 + tmp / 1024) m2
      let m4 = record m3 {
        word =
            clear_bytes (page + page_size - (tmp + page_size - current.end_data)) (page + page_size)
              m3.word;
      }
      let (put, m5) = put_page page a m4
      if shared
          then done m1
          else if page == 0
          then exited
          else if put == 0
          then exited
          else done m5)
