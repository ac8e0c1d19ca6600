-- ===== src/Kernel/Fork/Copy.antt =====
-- `copy_process` of kernel/fork.c: the new process. `start_time`, what the tss has that is the same for all
-- tasks, the descriptors of its segments and the coprocessor's state are left out.
use linux_0_11_notes.Prelude.{
  Option, Outcome, done, eq_ℤ, err, false, if◌then◌else◌, no_bits, none, pos, some, suc, update,
  zero, ℕ, ℤ, ◌%◌, ◌+◌, ◌==◌, ◌>>=◌,
}
use linux_0_11_notes.Fs.Descriptors.{Files, nr_open}
use linux_0_11_notes.Kernel.Fork.{Segments, copy_mem, eagain}
use linux_0_11_notes.Kernel.Task.{Table, Task, TaskState}
use linux_0_11_notes.Mm.{Memory, free_page, get_free_page, page_size}

-- The registers that `_sys_fork` has pushed, and those of the new process's tss.
pub record Registers : Type 0 where
  pub eip : ℕ
  pub eflags : ℕ
  pub eax : ℕ
  pub ecx : ℕ
  pub edx : ℕ
  pub ebx : ℕ
  pub esp : ℕ
  pub ebp : ℕ
  pub esi : ℕ
  pub edi : ℕ
  pub es : ℕ
  pub cs : ℕ
  pub ss : ℕ
  pub ds : ℕ
  pub fs : ℕ
  pub gs : ℕ

-- What a fork reads: the current task and its segments, its inodes, `last_pid`, and its registers.
pub record Parent : Type 0 where
  pub task : Task
  pub segments : Segments
  pub pwd : Option ℕ
  pub root : Option ℕ
  pub executable : Option ℕ
  pub last_pid : ℕ
  pub regs : Registers

-- What it changes. `files` are those of the parent, whose descriptors the child shares; `users` is
-- `i_count` of each inode; `tss` are the saved registers, and `esp0` the kernel stack, of each slot.
pub record Processes : Type 0 where
  pub table : Table
  pub memory : Memory
  pub files : Files
  pub users : ℕ → ℕ
  pub tss : ℕ → Registers
  pub esp0 : ℕ → ℕ

-- The task of the child before its memory is copied.
abbrev pub child_task : Parent → Task
child_task p = record p.task {
  state = TaskState.uninterruptible;
  pid = pos p.last_pid;
  father = p.task.pid;
  counter = p.task.priority;
  signal = no_bits;
  alarm = 0;
  leader = false;
  utime = 0;
  stime = 0;
  cutime = 0;
  cstime = 0;
}

-- It returns 0, and its segment registers are words.
abbrev pub child_registers : Registers → Registers
child_registers r = record r {
  eax = 0;
  es = r.es % 65536;
  cs = r.cs % 65536;
  ss = r.ss % 65536;
  ds = r.ds % 65536;
  fs = r.fs % 65536;
  gs = r.gs % 65536;
}

-- `f->f_count++` for n descriptors from fd on.
unfoldable pub share_from : ℕ → ℕ → (ℕ → Option ℕ) → (ℕ → ℕ) → ℕ → ℕ
share_from zero fd filp count = count
share_from (suc n) fd filp count =
    share_from n (fd + 1) filp
      (elim (filp fd) [ none ↦ count | some file ↦ update count file ((count file + 1) % 65536) ])

-- `i_count++` of an inode that is there.
abbrev pub use_inode : Option ℕ → (ℕ → ℕ) → ℕ → ℕ
use_inode none users = users
use_inode (some i) users = update users i ((users i + 1) % 65536)

-- The child as it runs, once its memory is there.
abbrev pub started : ℕ → Parent → Memory → Processes → Processes
started nr p m s = record s {
  table = update s.table nr (some (record (child_task p) { state = TaskState.running }));
  memory = m;
  files = record s.files { count = share_from nr_open 0 s.files.filp s.files.count };
  users = use_inode p.executable (use_inode p.root (use_inode p.pwd s.users));
}

unfoldable pub copy_process : ℕ → Parent → Processes → Outcome (ℤ × Processes)
unfolding copy_mem get_free_page free_page
copy_process nr p s =
    let got = get_free_page s.memory in
    let page : ℕ = got.0 in
    if page == 0 then done (err eagain, record s { memory = got.1 }) else (do
      let s1 = record s {
        table = update s.table nr (some (child_task p));
        tss = update s.tss nr (child_registers p.regs);
        esp0 = update s.esp0 nr (page + page_size);
      }
      (v, base, m) ← copy_mem nr p.segments got.1
      if eq_ℤ v (pos 0) then done (pos p.last_pid, started nr p m s1) else (do
        m' ← free_page page m
        done (err eagain, record s1 { table = update s1.table nr none; memory = m' })))
