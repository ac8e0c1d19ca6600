-- ===== src/Kernel/Sleep.antt =====
-- kernel/sched.c: sleep_on, interruptible_sleep_on and wake_up over the wait queues.
pub mod Chain
use linux_0_11_notes.Prelude.{
  Bool, List, Option, Outcome, [], done, false, if◌then◌else◌, none, not, panicked, some, update, ℕ,
  ◌==◌, ◌∷◌,
}
use linux_0_11_notes.Kernel.Task.{
  Table, Task, TaskState, interruptible, map_option, running, uninterruptible,
}

-- `queue` gives the task that each `struct task_struct *` for waiting points at. A task is known by
-- its slot, and slot 0 is `init_task`.
pub record Sleepers : Type 0 where
  pub task : Table
  pub current : ℕ
  pub queue : ℕ → Option ℕ

abbrev pub set_state : TaskState → ℕ → Table → Table
set_state st i t = update t i (map_option (λ (a : Task). record a { state = st }) (t i))

-- `if (tmp) tmp->state = 0`.
unfoldable pub wake_slot : Option ℕ → Table → Table
wake_slot none t = t
wake_slot (some i) t = set_state running i t

-- The part of `sleep_on` before `schedule`; it leaves the old head of the queue in `tmp`.
unfoldable pub sleep_begin : TaskState → ℕ → Sleepers → Option ℕ × Sleepers
sleep_begin st p s = (
  s.queue p,
  record s { task = set_state st s.current s.task; queue = update s.queue p (some s.current) },
)

-- The part after it.
unfoldable pub sleep_end : Option ℕ → Sleepers → Sleepers
unfolding wake_slot
sleep_end tmp s = record s { task = wake_slot tmp s.task }

-- `others` is what the machine does from the call of `schedule` to the return into this task. An
-- address of no queue is a null pointer.
unfoldable pub sleep_on : (Sleepers → Sleepers) → Option ℕ → Sleepers → Outcome Sleepers
unfolding sleep_begin sleep_end
sleep_on others none s = done s
sleep_on others (some p) s =
    if s.current == 0
    then panicked
    else (let (tmp, s') = sleep_begin uninterruptible p s in done (sleep_end tmp (others s')))

unfoldable pub wake_up : Option ℕ → Sleepers → Sleepers
unfolding wake_slot
wake_up none s = s
wake_up (some p) s = elim (s.queue p) [
  | none ↦ s
  | some i ↦ record s { task = wake_slot (some i) s.task; queue = update s.queue p none }
]

-- One turn of `repeat:` after `schedule` returns: whether to sleep again.
abbrev pub is_behind : Option ℕ → ℕ → Bool
is_behind none current = false
is_behind (some i) current = not (i == current)

-- The list is what the machine does in each turn; `none` means that the task sleeps still.
unfoldable pub interruptible_loop :
    List (Sleepers → Sleepers) → ℕ → Option ℕ → Sleepers → Option Sleepers
unfolding wake_slot
interruptible_loop [] p tmp s = none
interruptible_loop (others ∷ rest) p tmp s =
    let s' : Sleepers = others (record s { task = set_state interruptible s.current s.task }) in
    let again : Option Sleepers =
      interruptible_loop rest p tmp (record s' { task = wake_slot (s'.queue p) s'.task }) in
    if is_behind (s'.queue p) s'.current
    then again
    else some (record s' { task = wake_slot tmp s'.task; queue = update s'.queue p none })

unfoldable pub interruptible_sleep_on :
    List (Sleepers → Sleepers) → Option ℕ → Sleepers → Outcome (Option Sleepers)
unfolding interruptible_loop
interruptible_sleep_on turns none s = done (some s)
interruptible_sleep_on turns (some p) s =
    if s.current == 0
    then panicked
    else done (
        interruptible_loop turns p (s.queue p)
          (record s { queue = update s.queue p (some s.current) }))
