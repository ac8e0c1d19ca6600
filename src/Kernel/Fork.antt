-- ===== src/Kernel/Fork.antt =====
-- kernel/fork.c: a free slot and a new process id, and the memory of a new process.
pub mod Fresh
pub mod Copy
pub mod Inherit
pub mod Tests
use linux_0_11_notes.Prelude.{
  Bool, Option, Outcome, done, eq_ℤ, err, false, if◌then◌else◌, leb, ltb, none, not, panicked, pos,
  some, suc, zero, ℕ, ℤ, ◌%◌, ◌*◌, ◌+◌, ◌/◌, ◌==◌, ◌>>=◌, ◌>>◌, ◌^◌, ◌||◌,
}
use linux_0_11_notes.Chr.Queue.{last}
use linux_0_11_notes.Kernel.Sys.{short}
use linux_0_11_notes.Kernel.Task.{Table, holds, last_slot, nr_tasks}
use linux_0_11_notes.Mm.{Memory, frame_of}
use linux_0_11_notes.Mm.Faults.{write_verify}
use linux_0_11_notes.Mm.Tables.{copy_page_tables, free_page_tables}

abbrev pub eagain : ℕ
eagain = 11

abbrev pub enomem : ℕ
enomem = 12

-- `task[i] && task[i]->pid == last_pid` for some slot below n.
unfoldable pub is_used : ℕ → ℤ → Table → Bool
is_used zero pid t = false
is_used (suc n) pid t = holds (λ a. eq_ℤ a.pid pid) (t n) || is_used n pid t

-- `++last_pid`, back to 1 where the long becomes negative.
abbrev pub next_pid : ℕ → ℕ
next_pid last = if leb (2 ^ 31) (last + 1) then 1 else last + 1

-- The loop of `repeat:`: the process id that is free.
unfoldable pub free_pid : ℕ → ℕ → Table → Option ℕ
free_pid zero last t = none
free_pid (suc fuel) last t =
    let later = free_pid fuel (next_pid last) t in
    if is_used nr_tasks (pos (next_pid last)) t then later else some (next_pid last)

-- The first empty slot of n from slot i on.
unfoldable pub empty_slot : ℕ → ℕ → Table → Option ℕ
empty_slot zero i t = none
empty_slot (suc n) i t = elim (t i) [ none ↦ some i | some _ ↦ empty_slot n (i + 1) t ]

-- With fuel for the loop: the result, and `last_pid`.
unfoldable pub find_empty_process : ℕ → ℕ → Table → Option (ℤ × ℕ)
find_empty_process fuel last t = elim (free_pid fuel last t) [
  | none ↦ none
  | some pid ↦ elim (empty_slot last_slot 1 t) [
    | none ↦ some (err eagain, pid)
    | some i ↦ some (pos i, pid)
  ]
]

-- The loop of `verify_area`, once for each page that the area touches.
unfoldable pub verify_pages : ℕ → ℕ → Memory → Outcome Memory
unfolding write_verify
verify_pages zero start m = done m
verify_pages (suc n) start m = do
  m' ← write_verify start m
  verify_pages n ((start + 4096) % 2 ^ 32) m'

-- `base` is that of the data segment.
unfoldable pub verify_area : ℕ → ℕ → ℕ → Memory → Outcome Memory
unfolding verify_pages
verify_area base addr size m =
    verify_pages ((size + addr % 4096 + 4095) / 4096) ((frame_of addr + base) % 2 ^ 32) m

-- Bases and limits of the code and data segments of the current task.
pub record Segments : Type 0 where
  pub code_base : ℕ
  pub code_limit : ℕ
  pub data_base : ℕ
  pub data_limit : ℕ

-- The new process's segments start at `nr * 0x4000000`, which is also its `start_code`. Where memory
-- runs out, what was copied is given back.
unfoldable pub copy_mem : ℕ → Segments → Memory → Outcome (ℤ × ℕ × Memory)
unfolding copy_page_tables free_page_tables
copy_mem nr s m =
    let base : ℕ = nr * 0x400_0000 in
    if not (s.data_base == s.code_base)
    then panicked
    else if ltb s.data_limit s.code_limit
    then panicked
    else (do
      (short, m') ← copy_page_tables s.data_base base s.data_limit m
      if short
          then (do m'' ← free_page_tables base s.data_limit m'; done (err enomem, base, m''))
          else done (pos 0, base, m'))
