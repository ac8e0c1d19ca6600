-- ===== src/Kernel/Exit.antt =====
-- `do_exit` of kernel/exit.c: the end of a process, up to its call of `schedule`.
pub mod Descriptors
pub mod Orphans
pub mod Leave
pub mod Tests
use linux_0_11_notes.Prelude.{
  Option, Outcome, done, eq_ℤ, if◌then◌else◌, ltb_ℤ, none, not, panicked, pos, pos_part, some, suc,
  true, update, zero, ℕ, ℤ, ◌%◌, ◌&&◌, ◌*◌, ◌+◌, ◌>>=◌, ◌>>◌, ◌∷◌,
}
use linux_0_11_notes.Fs.Descriptors.{Files, nr_open, sys_close}
use linux_0_11_notes.Fs.Descriptors.Tests.{files}
use linux_0_11_notes.Fs.Inode.{is_slot}
use linux_0_11_notes.Kernel.Fork.{Segments}
use linux_0_11_notes.Kernel.Kill.{kill_session, release, send_sig, tell_father}
use linux_0_11_notes.Kernel.Sched.Tests.{table}
use linux_0_11_notes.Kernel.Signal.{sigchld}
use linux_0_11_notes.Kernel.Task.{Table, Task, TaskState, is_zombie, map_option, nr_tasks, zombie}
use linux_0_11_notes.Mm.{Memory}
use linux_0_11_notes.Mm.Tables.{free_page_tables}
use linux_0_11_notes.Mm.Tests.{memory}

-- What it changes. `files` are those of the process, `group` is `pgrp` of each terminal, and `math` is
-- the slot of `last_task_used_math`.
pub record Exiting : Type 0 where
  pub table : Table
  pub memory : Memory
  pub files : Files
  pub pwd : Option ℕ
  pub root : Option ℕ
  pub executable : Option ℕ
  pub group : ℕ → ℤ
  pub math : Option ℕ

-- A child becomes one of task 1, which hears of it if it is a zombie.
unfoldable pub adopt_slot : Task → ℕ → Table → Table
unfolding send_sig
adopt_slot me i t = elim (t i) [
  | none ↦ t
  | some a ↦
      let t' : Table = update t i (some (record a { father = pos 1 })) in
      if not (eq_ℤ a.father me.pid)
      then t
      else if is_zombie a.state
      then update t' 1 (send_sig (pos sigchld) true me (t' 1)).1
      else t'
]

-- For n slots from slot i on.
unfoldable pub adopt : ℕ → ℕ → Task → Table → Table
unfolding adopt_slot
adopt zero i me t = t
adopt (suc n) i me t = adopt n (i + 1) me (adopt_slot me i t)

-- `sys_close` on those of n descriptors from fd on that are open.
unfoldable pub close_all : ℕ → ℕ → Files → Outcome Files
unfolding sys_close
close_all zero fd f = done f
close_all (suc n) fd f = elim (f.filp fd) [
  | none ↦ close_all n (fd + 1) f
  | some _ ↦ (do (_, f') ← sys_close fd f; close_all n (fd + 1) f')
]

-- `iput`, which does nothing on a null pointer.
abbrev pub put_node : Option ℕ → Files → Files
put_node none f = f
put_node (some i) f = record f { put = i ∷ f.put }

-- The terminal of a leader has no group.
abbrev pub leave_tty : Task → (ℕ → ℤ) → ℕ → ℤ
leave_tty me group =
    if me.leader && not (ltb_ℤ me.tty (pos 0))
    then update group (pos_part me.tty) (pos 0)
    else group

abbrev pub ended : ℤ → Task → Task
ended code a = record a { state = TaskState.zombie; exit_code = code }

abbrev pub father_of : Option Task → ℤ
father_of none = pos 0
father_of (some a) = a.father

-- A process without a father leaves the table itself.
unfoldable pub notify : ℕ → Table → Outcome Table
unfolding tell_father release
notify nr t = elim (tell_father (father_of (t nr)) t) [
  | none ↦ release (some nr) t
  | some t' ↦ done t'
]

-- The table before the father hears of it.
abbrev pub zombie_table : ℕ → ℤ → Task → Table → Table
zombie_table nr code me t =
    let t1 = adopt nr_tasks 0 me t in
    let t2 = if me.leader then kill_session me t1 else t1 in
    update t2 nr (map_option (ended code) (t2 nr))

-- What is left, by the table, the memory and the files.
abbrev pub over : ℕ → Task → Exiting → Table → Memory → Files → Exiting
over nr me s t m f = record {
  table = t;
  memory = m;
  files = put_node s.executable (put_node s.root (put_node s.pwd f));
  pwd = none;
  root = none;
  executable = none;
  group = leave_tty me s.group;
  math = if is_slot nr s.math then none else s.math;
}

unfoldable pub exit_task : ℕ → Segments → ℤ → Task → Exiting → Outcome Exiting
unfolding free_page_tables close_all notify kill_session adopt
exit_task nr seg code me s = do
  m1 ← free_page_tables seg.code_base seg.code_limit s.memory
  m2 ← free_page_tables seg.data_base seg.data_limit m1
  f ← close_all nr_open 0 s.files
  t ← notify nr (zombie_table nr code me s.table)
  done (over nr me s t m2 f)

-- `nr` is the slot of the process.
unfoldable pub do_exit : ℕ → Segments → ℤ → Exiting → Outcome Exiting
unfolding exit_task
do_exit nr seg code s = elim (s.table nr) [ none ↦ panicked | some me ↦ exit_task nr seg code me s ]

-- `sys_exit`: the low byte of the error code.
unfoldable pub sys_exit : ℕ → Segments → ℕ → Exiting → Outcome Exiting
unfolding do_exit
sys_exit nr seg error_code s = do_exit nr seg (pos (error_code % 256 * 256)) s
