-- ===== src/Kernel/Sys.antt =====
-- kernel/sys.c and the small calls of kernel/sched.c: a system call that changes only the current
-- task, as a function on that task.
pub mod Ids
use linux_0_11_notes.Prelude.{
  Bool, div_ℤ, eq_ℤ, err, if◌then◌else◌, leb, ltb, negsuc, none, not, pos, pos_part, some, sub_ℕ,
  suc, true, update, zero, ℕ, ℤ, ◌%◌, ◌&&◌, ◌*◌, ◌+◌, ◌-ℤ◌, ◌-◌, ◌==◌, ◌^◌, ◌||◌,
}
use linux_0_11_notes.Kernel.Task.{Table, Task, hz, nr_tasks}

-- A call returns its C result beside the task; -EPERM is `err eperm`.
abbrev pub eperm : ℕ
eperm = 1

abbrev pub esrch : ℕ
esrch = 3

abbrev pub ok : ℤ
ok = pos 0

-- `suser()`: the effective user is 0.
abbrev pub suser : Task → Bool
suser t = t.euid == 0

-- The ids are unsigned shorts.
abbrev pub short : ℕ → ℕ
short n = n % 65536

abbrev pub Call : Type 0
Call = ℤ × Task

-- `if (rgid > 0) ...`, then `if (egid > 0) ...`.
unfoldable pub set_egid : ℕ → Task → Call
set_egid egid t =
    if egid == 0
    then (ok, t)
    else if t.gid == egid || t.egid == egid || t.sgid == egid || suser t
    then (ok, record t { egid = short egid })
    else (err eperm, t)

unfoldable pub sys_setregid : ℤ → ℤ → Task → Call
unfolding set_egid
sys_setregid rgid egid t =
    let r : ℕ = pos_part rgid in
    if r == 0
    then set_egid (pos_part egid) t
    else if t.gid == r || suser t
    then set_egid (pos_part egid) (record t { gid = short r })
    else (err eperm, t)

unfoldable pub sys_setgid : ℤ → Task → Call
unfolding sys_setregid
sys_setgid gid t = sys_setregid gid gid t

-- `old_ruid` is the real user before the call; a refusal puts it back.
unfoldable pub set_euid : ℕ → ℕ → Task → Call
set_euid old_ruid euid t =
    if euid == 0
    then (ok, t)
    else if old_ruid == euid || t.euid == euid || suser t
    then (ok, record t { euid = short euid })
    else (err eperm, record t { uid = old_ruid })

unfoldable pub sys_setreuid : ℤ → ℤ → Task → Call
unfolding set_euid
sys_setreuid ruid euid t =
    let r : ℕ = pos_part ruid in
    if r == 0
    then set_euid t.uid (pos_part euid) t
    else if t.euid == r || t.uid == r || suser t
    then set_euid t.uid (pos_part euid) (record t { uid = short r })
    else (err eperm, t)

unfoldable pub sys_setuid : ℤ → Task → Call
unfolding sys_setreuid
sys_setuid uid t = sys_setreuid uid uid t

-- The data segment may end anywhere from the end of the code to 16 KB below the stack; the
-- subtraction is of unsigned longs.
unfoldable pub sys_brk : ℕ → Task → ℕ × Task
sys_brk end_data_seg t =
    if leb t.end_code end_data_seg && ltb end_data_seg ((t.start_stack + 2 ^ 32 - 16384) % 2 ^ 32)
    then (end_data_seg, record t { brk = end_data_seg })
    else (t.brk, t)

unfoldable pub sys_setsid : Task → Call
sys_setsid t =
    if t.leader && not (suser t)
    then (err eperm, t)
    else (t.pid, record t { leader = true; session = t.pid; pgrp = t.pid; tty = negsuc 0 })

-- `mask & 0777`.
unfoldable pub sys_umask : ℕ → Task → ℕ × Task
sys_umask mask t = (t.umask, record t { umask = mask % 512 })

-- `sys_alarm`: the seconds left of the old alarm, and the new one.
unfoldable pub sys_alarm : ℕ → ℤ → Task → ℤ × Task
sys_alarm jiffies seconds t =
    let old : ℤ = if t.alarm == 0 then pos 0 else div_ℤ (sub_ℕ t.alarm jiffies) hz in
    let s : ℕ = pos_part seconds in
    (old, record t { alarm = if s == 0 then 0 else jiffies + hz * s })

-- `sys_nice` refuses a priority below 1 in silence.
unfoldable pub sys_nice : ℤ → Task → Call
sys_nice increment t =
    let p : ℤ = pos t.priority -ℤ increment in
    (ok, if ltb 0 (pos_part p) then record t { priority = pos_part p } else t)

-- `sys_setpgid` searches the table from slot 0; `leader` and another session refuse it.
unfoldable pub setpgid_from : ℕ → ℕ → ℤ → ℤ → Task → Table → ℤ × Table
setpgid_from zero i pid pgid current t = (err esrch, t)
setpgid_from (suc n) i pid pgid current t =
    let rest = setpgid_from n (i + 1) pid pgid current t in
    elim (t i) [
      | none ↦ rest
      | some a ↦
          if eq_ℤ a.pid pid
          then if a.leader
            then (err eperm, t)
            else if not (eq_ℤ a.session current.session)
            then (err eperm, t)
            else (ok, update t i (some (record a { pgrp = pgid })))
          else rest
    ]

abbrev pub or_own : ℤ → Task → ℤ
or_own id current = if eq_ℤ id (pos 0) then current.pid else id

unfoldable pub sys_setpgid : ℤ → ℤ → Task → Table → ℤ × Table
unfolding setpgid_from
sys_setpgid pid pgid current t =
    setpgid_from nr_tasks 0 (or_own pid current) (or_own pgid current) current t
