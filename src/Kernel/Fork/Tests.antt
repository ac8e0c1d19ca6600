-- ===== src/Kernel/Fork/Tests.antt =====
-- Inputs for the theorems on new processes.
use linux_0_11_notes.Prelude.{
  Outcome, arith, done, exited, none, panicked, pos, refl, some, update, ℕ, ℤ, ◌+◌, ◌<◌, ◌≡◌, ◌≢◌,
}
use linux_0_11_notes.Fs.Descriptors.{nr_open}
use linux_0_11_notes.Fs.Descriptors.Count.{refs}
use linux_0_11_notes.Fs.Descriptors.Tests.{files, files-IsCounted, others}
use linux_0_11_notes.Kernel.Fork.{copy_mem, find_empty_process}
use linux_0_11_notes.Kernel.Fork.Copy.{Parent, Processes, Registers, copy_process}
use linux_0_11_notes.Kernel.Fork.Fresh.{SlotOr, find_empty_process_lem}
use linux_0_11_notes.Kernel.Fork.Inherit.{Forks, copy_process-Forks}
use linux_0_11_notes.Kernel.Sched.Tests.{idle_task, table}
use linux_0_11_notes.Kernel.Task.{Task, nr_tasks}
use linux_0_11_notes.Mm.Tests.{memory}

find_empty_process_lem_example :
    (r : ℤ) × (pid : ℕ) × (find_empty_process 65 1 table ≡ some (r, pid))
    × ((i : ℕ) (a : Task) → i < nr_tasks → table i ≡ some a → a.pid ≢ pos pid)
    × SlotOr r table
find_empty_process_lem_example = find_empty_process_lem 1 table (omega arith)

-- The registers of a task at its call of fork.
abbrev at_fork : Registers
at_fork = record {
  eip = 0x1234;
  eflags = 0x202;
  eax = 2;
  ecx = 0;
  edx = 0;
  ebx = 0;
  esp = 0x3ff_ff00;
  ebp = 0;
  esi = 0;
  edi = 0;
  es = 0x17;
  cs = 0x0f;
  ss = 0x17;
  ds = 0x17;
  fs = 0x17;
  gs = 0x17;
}

-- Task 0 forks in 640 KB from address 0 on.
abbrev parent : Parent
parent = record {
  task = idle_task;
  segments = record { code_base = 0; code_limit = 0xa0000; data_base = 0; data_limit = 0xa0000 };
  pwd = some 3;
  root = some 3;
  executable = none;
  last_pid = 7;
  regs = at_fork;
}

abbrev before : Processes
before = record {
  table = table;
  memory = memory;
  files = files;
  users = update (λ _. 0) 3 2;
  tss = λ _. at_fork;
  esp0 = λ _. 0;
}

after_fork : Outcome (ℤ × Processes) → ℤ × Processes
after_fork (done r) = r
after_fork panicked = (pos 0, before)
after_fork exited = (pos 0, before)

abbrev forked : ℤ × Processes
forked = after_fork (copy_process 5 parent before)

files_small : (k : ℕ) → files.count k + refs nr_open files.filp k < 65536
unfolding refs
files_small k = ground arith

users_small : (k : ℕ) → before.users k + 3 < 65536
users_small k = ground arith

copy_process-Forks_example : Forks others 5 parent before forked
unfolding copy_process copy_mem after_fork
copy_process-Forks_example =
    copy_process-Forks others 5 parent before forked.1 forked.0 files-IsCounted files_small
      users_small refl refl

forked_value : forked.0 ≡ pos 7
unfolding copy_process copy_mem after_fork
forked_value = refl
