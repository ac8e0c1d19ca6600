-- ===== src/Kernel/Task.antt =====
-- include/linux/sched.h and include/signal.h: the task structure and the table of tasks.
use linux_0_11_notes.Prelude.{Bits, Bool, Option, false, none, some, suc, true, update, zero, ℕ, ℤ}

pub data TaskState : Type 0 where
  running interruptible uninterruptible zombie stopped : TaskState

-- `state == TASK_RUNNING`, `state == TASK_INTERRUPTIBLE` and `state == TASK_ZOMBIE`.
abbrev pub is_running : TaskState → Bool
is_running running = true
is_running _ = false

abbrev pub is_interruptible : TaskState → Bool
is_interruptible interruptible = true
is_interruptible _ = false

abbrev pub is_zombie : TaskState → Bool
is_zombie zombie = true
is_zombie _ = false

-- `sa_handler` and `sa_restorer` are addresses: handler 0 is SIG_DFL and 1 is SIG_IGN.
pub record SigAction : Type 0 where
  pub handler : ℕ
  pub mask : Bits
  pub flags : Bits
  pub restorer : ℕ

-- Counters, priorities and times are never negative, and are natural numbers; ids of processes and
-- groups are what a program passes, and are integers. `signal` and `blocked` are masks of 32 bits.
pub record Task : Type 0 where
  pub state : TaskState
  pub counter : ℕ
  pub priority : ℕ
  pub signal : Bits
  pub sigaction : ℕ → SigAction
  pub blocked : Bits
  pub exit_code : ℤ
  pub end_code : ℕ
  pub brk : ℕ
  pub start_stack : ℕ
  pub pid : ℤ
  pub father : ℤ
  pub pgrp : ℤ
  pub session : ℤ
  pub leader : Bool
  pub uid : ℕ
  pub euid : ℕ
  pub suid : ℕ
  pub gid : ℕ
  pub egid : ℕ
  pub sgid : ℕ
  pub alarm : ℕ
  pub utime : ℕ
  pub stime : ℕ
  pub cutime : ℕ
  pub cstime : ℕ
  pub tty : ℤ
  pub umask : ℕ

abbrev pub nr_tasks : ℕ
nr_tasks = 64

abbrev pub last_slot : ℕ
last_slot = 63

abbrev pub hz : ℕ
hz = 100

-- `task[]`: a null pointer is `none`. A task is known by its slot.
abbrev pub Table : Type 0
Table = ℕ → Option Task

-- Bit numbers: signal s is bit s - 1.
abbrev pub sighup_bit : ℕ
sighup_bit = 0

abbrev pub sigkill_bit : ℕ
sigkill_bit = 8

abbrev pub sigalrm_bit : ℕ
sigalrm_bit = 13

abbrev pub sigchld_bit : ℕ
sigchld_bit = 16

abbrev pub sigstop_bit : ℕ
sigstop_bit = 18

-- The empty slot stays empty.
abbrev pub map_option {ℓ κ} : {A : Type ℓ} {B : Type κ} → (A → B) → Option A → Option B
map_option f none = none
map_option f (some a) = some (f a)

-- `for (p = &LAST_TASK; p > &FIRST_TASK; --p) if (*p) ...` from slot n down to slot 1.
unfoldable pub map_slots : ℕ → (Task → Task) → Table → Table
map_slots zero f t = t
map_slots (suc n) f t = map_slots n f (update t (suc n) (map_option f (t (suc n))))

-- A test on the task in a slot; an empty slot fails it.
abbrev pub holds : (Task → Bool) → Option Task → Bool
holds p none = false
holds p (some t) = p t
