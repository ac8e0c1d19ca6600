-- ===== src/Kernel/Exit/Tests.antt =====
-- The end of a process on concrete inputs.
use linux_0_11_notes.Prelude.{arith, done, none, pos, refl, some, true, update, ◌≡◌}
use linux_0_11_notes.Fs.Descriptors.Tests.{files, files-IsCounted, others}
use linux_0_11_notes.Kernel.Exit.{Exiting, do_exit}
use linux_0_11_notes.Kernel.Exit.Leave.{IsOver, do_exit-IsOver}
use linux_0_11_notes.Kernel.Fork.{Segments}
use linux_0_11_notes.Kernel.Sched.Tests.{table, worker}
use linux_0_11_notes.Kernel.Task.{Task}
use linux_0_11_notes.Mm.Tables.{free_page_tables}
use linux_0_11_notes.Mm.Tests.{memory}

abbrev ender : Task
ender = record (worker 2) { leader = true; tty = pos 1; session = pos 2 }

-- Task 2 ends, which leads a session on terminal 1; its father is task 1.
abbrev ending : Exiting
ending = record {
  table = update table 2 (some ender);
  memory = record memory { word = λ _. 0 };
  files = files;
  pwd = some 3;
  root = some 3;
  executable = none;
  group = λ _. pos 2;
  math = some 2;
}

abbrev segments : Segments
segments = record {
  code_base = 0x800_0000;
  code_limit = 0xa0000;
  data_base = 0x800_0000;
  data_limit = 0xa0000;
}

do_exit-IsOver_example :
    (q : Exiting) × (do_exit 2 segments (pos 256) ending ≡ done q)
    × IsOver others 2 (pos 256) ender q
unfolding free_page_tables
do_exit-IsOver_example =
    do_exit-IsOver others 2 segments (pos 256) ender ending.memory ending.memory ending
      (omega arith) (omega arith) refl refl refl files-IsCounted refl refl
