-- ===== src/Kernel/Sched/Tests.antt =====
-- Inputs for the theorems on the scheduler.
use linux_0_11_notes.Prelude.{false, negsuc, no_bits, none, pos, refl, some, true, update, ℕ, ◌≡◌}
use linux_0_11_notes.Kernel.Sched.{Machine, has_unblocked, schedule}
use linux_0_11_notes.Kernel.Task.{Table, Task, interruptible, map_option, running}

abbrev pub idle_task : Task
idle_task = record {
  state = running;
  counter = 0;
  priority = 15;
  signal = no_bits;
  sigaction = λ _. record { handler = 0; mask = no_bits; flags = no_bits; restorer = 0 };
  blocked = no_bits;
  exit_code = pos 0;
  end_code = 0;
  brk = 0;
  start_stack = 0;
  pid = pos 0;
  father = negsuc 0;
  pgrp = pos 0;
  session = pos 0;
  leader = false;
  uid = 0;
  euid = 0;
  suid = 0;
  gid = 0;
  egid = 0;
  sgid = 0;
  alarm = 0;
  utime = 0;
  stime = 0;
  cutime = 0;
  cstime = 0;
  tty = negsuc 0;
  umask = 0;
}

abbrev pub worker : ℕ → Task
worker n = record idle_task { pid = pos n; father = pos 1; uid = 500; euid = 500 }

-- Task 1 runs with nothing left, task 2 sleeps until its alarm at 7 and has blocked every signal.
abbrev pub table : Table
table =
    update (update (update (λ _. none) 0 (some idle_task)) 1 (some (worker 1))) 2
      (some (record (worker 2) { state = interruptible; alarm = 7; blocked = λ _. true }))

abbrev pub machine : Machine
machine = record { task = table; current = 1; jiffies = 20 }

-- Task 1 is recharged, and runs.
schedule_runs : map_option (λ (m : Machine). m.current) (schedule machine) ≡ some 1
unfolding schedule has_unblocked
schedule_runs = refl
