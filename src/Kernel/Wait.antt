-- ===== src/Kernel/Wait.antt =====
-- kernel/exit.c: sys_waitpid. Zombies are the children that it looks for.
pub mod Children
pub mod Outcome
use linux_0_11_notes.Prelude.{
  Bool, List, Option, [], any_below, eq_ℤ, err, false, if◌then◌else◌, ltb_ℤ, negsuc, none, pos,
  some, suc, true, update, without_bit, zero, ℕ, ℤ, ◌&&◌, ◌+◌, ◌-ℤ◌, ◌==◌, ◌∷◌,
}
use linux_0_11_notes.Kernel.Task.{
  Table, Task, TaskState, interruptible, last_slot, sigchld_bit, stopped, zombie,
}

abbrev pub eintr : ℕ
eintr = 4

abbrev pub echild : ℕ
echild = 10

abbrev pub is_stopped : TaskState → Bool
is_stopped stopped = true
is_stopped _ = false

-- Which children the pid selects.
abbrev pub selected : ℤ → Task → Task → Bool
selected pid current a =
    if ltb_ℤ (pos 0) pid
    then eq_ℤ a.pid pid
    else if eq_ℤ pid (pos 0)
    then eq_ℤ a.pgrp current.pgrp
    else if eq_ℤ pid (negsuc 0)
    then true
    else eq_ℤ a.pgrp (pos 0 -ℤ pid)

unfoldable pub is_child : ℤ → Task → Task → Bool
is_child pid current a = eq_ℤ a.father current.pid && selected pid current a

-- What one pass over the table ends with: a child that is reported as stopped, a zombie in a slot,
-- or the flag that says whether there was any child.
pub data Pass : Type 0 where
  stopped_child : Task → Pass
  reap : ℕ → Task → Pass
  no_news : Bool → Pass

-- The `switch`, given what the rest of the loop does with the flag as it is and with flag 1.
abbrev pub on_child : Bool → ℕ → Task → Pass → Pass → TaskState → Pass
on_child untraced i a same flagged stopped = if untraced then stopped_child a else same
on_child untraced i a same flagged zombie = reap i a
on_child untraced i a same flagged _ = flagged

-- From slot n down; `self` is the slot of the caller.
unfoldable pub wait_pass : ℕ → Bool → ℤ → ℕ → Task → Table → Bool → Pass
wait_pass zero untraced pid self current t flag = no_news flag
wait_pass (suc n) untraced pid self current t flag =
    let same = wait_pass n untraced pid self current t flag in
    let flagged = wait_pass n untraced pid self current t true in
    elim (t (suc n)) [
      | none ↦ same
      | some a ↦
          if suc n == self
          then same
          else if is_child pid current a
          then on_child untraced (suc n) a same flagged a.state
          else same
    ]

-- The machine as far as `waitpid` sees it: the table, and the caller, which stands in slot `self`.
pub record Family : Type 0 where
  pub task : Table
  pub self : ℕ
  pub me : Task

-- A value returned, what is written to `stat_addr`, and the family afterwards; or the caller goes
-- to sleep.
pub data Waited : Type 0 where
  returned : ℤ → Option ℤ → Family → Waited
  sleeps : Family → Waited

-- `cutime` and `cstime` take the child's times, and the child is released.
unfoldable pub reap_child : ℕ → Task → Family → Family
reap_child i a f = record f {
  task = update f.task i none;
  me = record f.me { cutime = f.me.cutime + a.utime; cstime = f.me.cstime + a.stime };
}

abbrev pub after_pass : Bool → Pass → Family → Waited
after_pass nohang (stopped_child a) f = returned a.pid (some (pos 127)) f
after_pass nohang (reap i a) f = returned a.pid (some a.exit_code) (reap_child i a f)
after_pass nohang (no_news false) f = returned (err echild) none f
after_pass nohang (no_news true) f =
    if nohang
    then returned (pos 0) none f
    else sleeps (record f { me = record f.me { state = interruptible } })

-- Up to the first `schedule`.
unfoldable pub waitpid_once : Bool → Bool → ℤ → Family → Waited
unfolding wait_pass reap_child is_child
waitpid_once untraced nohang pid f =
    after_pass nohang (wait_pass last_slot untraced pid f.self f.me f.task false) f

-- `if (!(current->signal &= ~(1 << (SIGCHLD - 1)))) goto repeat; else return -EINTR`. Each function
-- of the list is what the machine does while the caller sleeps; `sleeps` is the end of the list.
unfoldable pub sys_waitpid : List (Family → Family) → Bool → Bool → ℤ → Family → Waited
unfolding waitpid_once
sys_waitpid [] untraced nohang pid f = waitpid_once untraced nohang pid f
sys_waitpid (others ∷ rest) untraced nohang pid f = elim (waitpid_once untraced nohang pid f) [
  | returned v st g ↦ returned v st g
  | sleeps g ↦
      let g' : Family = others g in
      let me : Task = record (g'.me) { signal = without_bit (g'.me).signal sigchld_bit } in
      let h : Family = record g' { me = me } in
      if any_below 32 me.signal
      then returned (err eintr) none h
      else sys_waitpid rest untraced nohang pid h
]
